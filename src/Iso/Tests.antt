-- ===== src/Iso/Tests.antt =====
-- The parser at concrete literals. The lexer and the interner are tables: a text is interned as its
-- first byte.
use isograph.Prelude.{
  ℕ, true, none, some, List, [], ◌∷◌, ◌≡◌, ◌≢◌, ◌↔◌, refl, codes, All, drop, arith,
}
use isograph.Lang.Span.{Span, WithSpan}
use isograph.Lang.Location.{TextSource, Location, embedded}
use isograph.Lang.GraphqlType.{GraphqlTypeAnnotation, list, non_null, non_null_named}
use isograph.Lang.Values.{NonConstantValue}
use isograph.Lang.Outcome
use isograph.Lang.Selections.{
  UnvalidatedSelection, scalar, name_or_alias, selection_set, EntrypointDirectiveSet,
  ClientFieldDirectiveSet, ObjectSelectionDirectiveSet, ScalarSelectionDirectiveSet,
}
use isograph.Iso.Token.{
  IsographLangTokenKind, end_of_file, open_bracket, close_bracket, exclamation, dollar,
  integer_literal, identifier, period, open_brace, close_brace, comma, colon,
}
use isograph.Iso.Lexer.{
  Token, PeekableLexer, Reply, ok, panic, out_of_fuel, reached_eof, next_state,
}
use isograph.Iso.Lexer
use isograph.Lang.Span
use isograph.Iso.Combinators.{
  Externals, source_of_kind, name_of, token_of_kind, skips, delimited_items, parse_delimited_list,
}
use isograph.Iso.SelectionSets.{
  parse_comma_line_break_or_curly, parse_optional_alias_and_field_name,
  parse_optional_selection_set, parse_selection, parse_selection_set, selections_loop,
}
use isograph.Iso.Literal.{
  parse_iso_literal, parse_by_keyword, parse_iso_client_field_declaration,
  parse_client_field_declaration_inner, description, exported, no_leftover_tokens,
  IsoLiteralExtractionResult, client_field_declaration,
}
use isograph.Iso.Description.{
  common_indent_from, first_index, is_not_whitespace, lines_from, get_common_indent,
  parse_multiline_description, parse_optional_description, parse_single_line_description,
}
use isograph.Iso.Values.{
  digits, parse_variable, parse_string, parse_integer, parse_i64, parse_directives, directives_loop,
  parse_optional_arguments, parse_non_constant_value,
}
use isograph.Iso.Types.{parse_type_annotation, parse_variable_definitions}
use isograph.Iso.Steps.{Consumes}
use isograph.Iso.Distinct.{Distinct}
use isograph.Iso.Grammar.{Written}
use isograph.Iso.Annotations.{parse_type_annotation-Written}
use isograph.Iso.Alternatives.{dollar_is_passed_over, large_integer-panics}
use isograph.Iso.Indent.{IsBlankUpTo, get_common_indent-All}
use isograph.Iso.Whole.{parse_iso_literal-Complete}
use isograph.Iso.Fuel.Literal.{parse_iso_literal-ends}

abbrev token : IsographLangTokenKind → ℕ → ℕ → Token
token kind start end = record { item = kind; span = record { start = start; end = end } }

abbrev first_byte : List ℕ → ℕ
first_byte [] = 0
first_byte (c ∷ cs) = c

abbrev externals : List Token → Externals
externals tokens = record {
  lex = λ text. tokens;
  intern = first_byte;
  scalar_directives = λ ds. Outcome.ok ScalarSelectionDirectiveSet.none_set;
  object_directives = λ ds. Outcome.ok ObjectSelectionDirectiveSet.object_none_set;
  field_directives = λ ds. Outcome.ok ClientFieldDirectiveSet.no_component;
  entrypoint_directives = λ ds. Outcome.ok EntrypointDirectiveSet.not_lazy;
}

abbrev here : TextSource
here = record { current_working_directory = 0; relative_path_to_source_file = 0; span = none }

abbrev field_text : List ℕ
field_text = codes "field A.b { c, d: e }"

abbrev field_tokens : List Token
field_tokens =
    token identifier 0 5
    ∷ token identifier 6 7
    ∷ token period 7 8
    ∷ token identifier 8 9
    ∷ token open_brace 10 11
    ∷ token identifier 12 13
    ∷ token comma 13 14
    ∷ token identifier 15 16
    ∷ token colon 16 17
    ∷ token identifier 18 19
    ∷ token close_brace 20 21
    ∷ []

parse_iso_literal-ends_example :
    parse_iso_literal (externals field_tokens) here field_text 7 (some (codes "b")) ≢ out_of_fuel
parse_iso_literal-ends_example =
    parse_iso_literal-ends (externals field_tokens) here field_text 7 (some (codes "b"))

abbrev at : ℕ → ℕ → Location
at start end = embedded (record { text_source = here; span = record { start = start; end = end } })

abbrev first_selection : WithSpan UnvalidatedSelection
first_selection = record {
  item = scalar (record {
    name = record { item = 99; location = at 12 13 };
    reader_alias = none;
    arguments = [];
    scalar_selection_directive_set = ScalarSelectionDirectiveSet.none_set;
  });
  span = record { start = 12; end = 14 };
}

abbrev second_selection : WithSpan UnvalidatedSelection
second_selection = record {
  item = scalar (record {
    name = record { item = 101; location = at 18 19 };
    reader_alias = some (record { item = 100; location = at 15 16 });
    arguments = [];
    scalar_selection_directive_set = ScalarSelectionDirectiveSet.none_set;
  });
  span = record { start = 15; end = 19 };
}

abbrev field_result : IsoLiteralExtractionResult
field_result = client_field_declaration (record {
  item = record {
    const_export_name = 98;
    parent_type = record { item = 65; span = record { start = 6; end = 7 } };
    client_field_name = record { item = 98; span = record { start = 8; end = 9 } };
    description = none;
    selection_set = first_selection ∷ second_selection ∷ [];
    client_field_directive_set = ClientFieldDirectiveSet.no_component;
    variable_definitions = [];
    definition_path = 7;
    field_keyword = record { item = tt; span = record { start = 0; end = 5 } };
    dot = record { item = tt; span = record { start = 7; end = 8 } };
  };
  span = record { start = 6; end = 21 };
})

abbrev field_end : PeekableLexer
field_end = record {
  current = token end_of_file 21 21;
  lexer = [];
  source = field_text;
  end_index_of_last_parsed_token = 21;
}

-- The literal `field A.b { c, d: e }`.
field_is_read :
    parse_iso_literal (externals field_tokens) here field_text 7 (some (codes "b"))
    ≡ ok field_result field_end
unfolding source_of_kind name_of token_of_kind skips delimited_items parse_delimited_list
    Lexer.parse_source_of_kind Lexer.parse_token_of_kind Lexer.new Lexer.source_text Lexer.with_span
    Lexer.parse_string_key_type Lexer.parse_token Lexer.next_state Lexer.reached_eof
    Lexer.remaining_token_span Lexer.white_space_span parse_iso_literal parse_by_keyword
    parse_iso_client_field_declaration parse_client_field_declaration_inner description exported
    no_leftover_tokens parse_multiline_description parse_optional_description
    parse_single_line_description parse_comma_line_break_or_curly
    parse_optional_alias_and_field_name parse_optional_selection_set parse_selection
    parse_selection_set selections_loop parse_variable_definitions parse_directives directives_loop
    parse_optional_arguments name_or_alias Span.new
field_is_read = refl

parse_iso_literal-Complete_example :
    Distinct (selection_set (first_selection ∷ second_selection ∷ []))
    × (reached_eof field_end ≡ true)
parse_iso_literal-Complete_example =
    parse_iso_literal-Complete (externals field_tokens) here field_text 7 (some (codes "b"))
      field_is_read

-- The parser at the type `[A!]`, and after it.
abbrev type_text : List ℕ
type_text = codes "[A!] B"

abbrev type_start : PeekableLexer
type_start = record {
  current = token open_bracket 0 1;
  lexer =
      token identifier 1 2
      ∷ token exclamation 2 3
      ∷ token close_bracket 3 4
      ∷ token identifier 5 6
      ∷ [];
  source = type_text;
  end_index_of_last_parsed_token = 0;
}

abbrev type_end : PeekableLexer
type_end = record {
  current = token identifier 5 6;
  lexer = [];
  source = type_text;
  end_index_of_last_parsed_token = 4;
}

abbrev list_of_a : GraphqlTypeAnnotation ℕ
list_of_a =
    list (non_null (non_null_named (record { item = 65; span = record { start = 1; end = 2 } })))

parse_type_annotation-Written_example :
    (parse_type_annotation (externals []) 9 type_start ≡ ok list_of_a type_end) ↔ (
      (ts : List Token) × (Written first_byte type_text ts list_of_a
        × Consumes type_start ts type_end))
parse_type_annotation-Written_example =
    parse_type_annotation-Written (externals []) 9 type_start type_end list_of_a (ground arith) refl

-- `$5`
abbrev dollar_start : PeekableLexer
dollar_start = record {
  current = token dollar 0 1;
  lexer = token integer_literal 1 2 ∷ [];
  source = codes "$5";
  end_index_of_last_parsed_token = 0;
}

dollar_is_passed_over_example :
    parse_non_constant_value (externals []) here 4 dollar_start
    ≡ parse_non_constant_value (externals []) here 4 (next_state dollar_start)
unfolding next_state
dollar_is_passed_over_example =
    dollar_is_passed_over (externals []) here 3 dollar_start refl refl refl

-- It is read as the integer 5.
dollar_five_is_five :
    parse_non_constant_value (externals []) here 4 dollar_start
    ≡ ok
        (record { item = NonConstantValue.integer 5; span = record { start = 1; end = 2 } })
        (record {
          current = token end_of_file 2 2;
          lexer = [];
          source = codes "$5";
          end_index_of_last_parsed_token = 2;
        })
unfolding parse_non_constant_value parse_variable token_of_kind Lexer.parse_token_of_kind name_of
    Lexer.parse_string_key_type parse_string source_of_kind Lexer.parse_source_of_kind parse_integer
    Lexer.source_text parse_i64 digits
dollar_five_is_five = refl

-- The number 2^63.
abbrev large_start : PeekableLexer
large_start = record {
  current = token integer_literal 0 19;
  lexer = [];
  source = codes "9223372036854775808";
  end_index_of_last_parsed_token = 0;
}

large_integer-panics_example : parse_non_constant_value (externals []) here 4 large_start ≡ panic
unfolding digits
large_integer-panics_example =
    large_integer-panics (externals []) here 3 large_start b'9' (codes "223372036854775808") refl
      refl refl (ground arith)

-- Two lines with two spaces and one.
abbrev block : List ℕ
block = b'a' ∷ b'\n' ∷ b' ' ∷ b' ' ∷ b'b' ∷ b'\n' ∷ b' ' ∷ b'c' ∷ []

get_common_indent-All_example :
    All (IsBlankUpTo (get_common_indent block)) (drop 1 (lines_from [] block))
get_common_indent-All_example = get_common_indent-All block

block_indent : get_common_indent block ≡ 1
unfolding get_common_indent common_indent_from lines_from first_index is_not_whitespace
block_indent = refl
