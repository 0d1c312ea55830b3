-- ===== src/Iso/Values.antt =====
-- Literal values, arguments and directives: crates/isograph_lang_parser/src/parse_iso_literal.rs.
use isograph.Prelude.{
  ℕ, zero, suc, ◌+◌, ◌-◌, ◌*◌, ◌^◌, true, false, ◌==◌, ltb, leb, if◌then◌else◌, Option, none, some,
  List, [], ◌∷◌, ◌++◌, length, slice, codes, same_text,
}
use isograph.Lang.Span
use isograph.Lang.Span.{Span, WithSpan, todo_generated}
use isograph.Lang.Location.{TextSource, WithLocation}
use isograph.Lang.Values.{NonConstantValue, NonConstantFields, NameValuePair, end, field}
use isograph.Lang.Selections.{SelectionFieldArgument, IsographFieldDirective}
use isograph.Iso.Token.{
  dollar, colon, comma, identifier, string_literal, integer_literal, open_brace, close_brace,
  open_paren, close_paren, at_sign, expected_boolean, expected_non_constant_value,
}
use isograph.Iso.Lexer.{out_of_fuel, ◌>>=◌, pure, fail, unwrap, optional, with_span}
use isograph.Iso.Combinators.{
  Externals, P, located, token_of_kind, source_of_kind, name_of, skips, attempt,
  parse_delimited_list,
}

unfoldable pub digits : ℕ → List ℕ → ℕ
digits acc [] = acc
digits acc (c ∷ cs) = digits (10 * acc + (c - b'0')) cs

-- `str::parse::<i64>` of an integer token, to the bit pattern of the `i64`; `none` where the number
-- does not fit.
unfoldable pub parse_i64 : List ℕ → Option ℕ
parse_i64 [] = none
parse_i64 (c ∷ cs) =
    if c == b'-'
    then (if leb (digits 0 cs) (2 ^ 63)
        then some (if digits 0 cs == 0 then 0 else 2 ^ 64 - digits 0 cs)
        else none)
    else if ltb (digits 0 (c ∷ cs)) (2 ^ 63)
    then some (digits 0 (c ∷ cs))
    else none

abbrev pub object_fields : List NameValuePair → NonConstantFields
object_fields [] = end
object_fields (p ∷ ps) = field p.name p.value.item p.value.location (object_fields ps)

module _ (x : Externals) (text_source : TextSource) where
  unfoldable pub parse_variable : P (WithSpan NonConstantValue)
  parse_variable = do
    _ ← token_of_kind dollar
    name ← name_of x.intern
    pure (record { item = NonConstantValue.variable name.item; span = name.span })

  unfoldable pub parse_string : P (WithSpan NonConstantValue)
  parse_string = do
    text ← source_of_kind string_literal
    inner ← unwrap (slice text.item 1 (length text.item - 1))
    pure (record { item = NonConstantValue.string (x.intern inner); span = text.span })

  unfoldable pub parse_integer : P (WithSpan NonConstantValue)
  parse_integer = do
    number ← source_of_kind integer_literal
    n ← unwrap (parse_i64 number.item)
    pure (record { item = NonConstantValue.integer n; span = number.span })

  unfoldable pub parse_bool_or_null : P (WithSpan NonConstantValue)
  parse_bool_or_null = do
    text ← source_of_kind identifier
    if same_text text.item (codes "null")
        then pure (record { item = NonConstantValue.null; span = text.span })
        else if same_text text.item (codes "true")
        then pure (record { item = NonConstantValue.boolean true; span = text.span })
        else if same_text text.item (codes "false")
        then pure (record { item = NonConstantValue.boolean false; span = text.span })
        else fail (record { item = expected_boolean; span = text.span })

  unfoldable pub parse_object_entry : P (WithSpan NonConstantValue) → P NameValuePair
  parse_object_entry parse_value = do
    name ← name_of x.intern
    _ ← token_of_kind colon
    value ← parse_value
    pure (record { name = located text_source name; value = located text_source value })

  unfoldable pub parse_object : ℕ → P (WithSpan NonConstantValue) → P (WithSpan NonConstantValue)
  parse_object fuel parse_value = do
    opened ← token_of_kind open_brace
    entries ← parse_delimited_list (parse_object_entry parse_value) comma close_brace fuel
    pure (record {
      item = NonConstantValue.object (object_fields entries.item);
      span = record { start = opened.span.start; end = entries.span.end };
    })

  unfoldable pub parse_non_constant_value : ℕ → P (WithSpan NonConstantValue)
  parse_non_constant_value zero s = out_of_fuel
  parse_non_constant_value (suc fuel) s =
      attempt parse_variable
        (attempt parse_string (
          attempt parse_integer (
            attempt (λ t. parse_object fuel (parse_non_constant_value fuel) t)
              (attempt parse_bool_or_null
                (fail (record { item = expected_non_constant_value; span = todo_generated }))))))
        s

  unfoldable pub parse_argument : ℕ → P (WithLocation SelectionFieldArgument)
  parse_argument fuel = do
    argument ← with_span (do
      name ← name_of x.intern
      _ ← token_of_kind colon
      value ← parse_non_constant_value fuel
      pure {A = SelectionFieldArgument} (record { name = name; value = located text_source value }))
    pure (located text_source argument)

  unfoldable pub parse_optional_arguments : ℕ → P (List (WithLocation SelectionFieldArgument))
  parse_optional_arguments fuel = do
    opened ← skips open_paren
    if opened
        then (do
          arguments ← parse_delimited_list (parse_argument fuel) comma close_paren fuel
          pure arguments.item)
        else pure []

  -- The loop of `parse_directives`.
  unfoldable pub directives_loop :
      ℕ → List (WithSpan IsographFieldDirective) → P (List (WithSpan IsographFieldDirective))
  directives_loop zero directives s = out_of_fuel
  directives_loop (suc fuel) directives s =
      (do
        token ← optional (token_of_kind at_sign)
        elim token [
          | none ↦ pure directives
          | some t ↦ do
            name ← name_of x.intern
            directive_span ← unwrap (Span.join t.span name.span)
            arguments ← parse_optional_arguments fuel
            directives_loop fuel (
                directives
                ++ record {
                  item = record { name = name; arguments = arguments };
                  span = directive_span;
                }
                  ∷ [])
        ])
        s

  unfoldable pub parse_directives : ℕ → P (List (WithSpan IsographFieldDirective))
  parse_directives fuel = directives_loop fuel []
