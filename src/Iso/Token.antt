-- ===== src/Iso/Token.antt =====
-- Tokens and errors: crates/isograph_lang_parser/src/token_kind.rs and
-- isograph_literal_parse_error.rs. The `logos` lexer that is generated from the kinds is a
-- parameter of the model.
use isograph.Prelude.{ℕ, Bool, ◌==◌, List}

pub data IsographLangTokenKind : Type 0 where
  error : IsographLangTokenKind
  error_unterminated_string : IsographLangTokenKind
  error_unsupported_string_character : IsographLangTokenKind
  error_unterminated_block_string : IsographLangTokenKind
  at_sign : IsographLangTokenKind
  close_brace : IsographLangTokenKind
  close_bracket : IsographLangTokenKind
  close_paren : IsographLangTokenKind
  colon : IsographLangTokenKind
  dollar : IsographLangTokenKind
  end_of_file : IsographLangTokenKind
  equals : IsographLangTokenKind
  exclamation : IsographLangTokenKind
  identifier : IsographLangTokenKind
  integer_literal : IsographLangTokenKind
  error_number_literal_leading_zero : IsographLangTokenKind
  error_number_literal_trailing_invalid : IsographLangTokenKind
  error_float_literal_missing_zero : IsographLangTokenKind
  open_brace : IsographLangTokenKind
  open_bracket : IsographLangTokenKind
  open_paren : IsographLangTokenKind
  period : IsographLangTokenKind
  comma : IsographLangTokenKind
  string_literal : IsographLangTokenKind
  block_string_literal : IsographLangTokenKind

-- The place of a kind in the enum.
abbrev pub discriminant : IsographLangTokenKind → ℕ
discriminant error = 0
discriminant error_unterminated_string = 1
discriminant error_unsupported_string_character = 2
discriminant error_unterminated_block_string = 3
discriminant at_sign = 4
discriminant close_brace = 5
discriminant close_bracket = 6
discriminant close_paren = 7
discriminant colon = 8
discriminant dollar = 9
discriminant end_of_file = 10
discriminant equals = 11
discriminant exclamation = 12
discriminant identifier = 13
discriminant integer_literal = 14
discriminant error_number_literal_leading_zero = 15
discriminant error_number_literal_trailing_invalid = 16
discriminant error_float_literal_missing_zero = 17
discriminant open_brace = 18
discriminant open_bracket = 19
discriminant open_paren = 20
discriminant period = 21
discriminant comma = 22
discriminant string_literal = 23
discriminant block_string_literal = 24

-- The derived `==`.
abbrev pub same_kind : IsographLangTokenKind → IsographLangTokenKind → Bool
same_kind a b = discriminant a == discriminant b

pub data LowLevelParseError : Type 0 where
  parse_token_kind_error : (expected_kind found_kind : IsographLangTokenKind) → LowLevelParseError
  parse_matching_identifier_error : (expected_identifier found_text : List ℕ) → LowLevelParseError

-- The kinds of literal that must be exported.
pub data LiteralType : Type 0 where
  field pointer : LiteralType

pub data IsographLiteralParseError : Type 0 where
  parse_error : LowLevelParseError → IsographLiteralParseError
  expected_type_annotation : IsographLiteralParseError
  leftover_tokens : IsographLiteralParseError
  expected_associated_js_function : IsographLiteralParseError
  expected_field_or_pointer_or_entrypoint : IsographLiteralParseError
  expected_to : IsographLiteralParseError
  expected_literal_to_be_exported :
      (literal_type : LiteralType) (suggested_const_export_name : ℕ) → IsographLiteralParseError
  expected_non_constant_value : IsographLiteralParseError
  unexpected_variable : IsographLiteralParseError
  descriptions_are_disallowed : IsographLiteralParseError
  expected_comma_or_line_break : IsographLiteralParseError
  expected_selection_set : IsographLiteralParseError
  expected_parentheses_around_iso_literal : IsographLiteralParseError
  duplicate_name_or_alias : ℕ → IsographLiteralParseError
  expected_boolean : IsographLiteralParseError
  expected_delimiter_or_closing_token :
      (closing_token delimiter : IsographLangTokenKind) → IsographLiteralParseError
  unable_to_deserialize_directives : ℕ → IsographLiteralParseError
