-- ===== src/Iso/Types.antt =====
-- Type annotations and variable definitions: crates/isograph_lang_parser/src/parse_iso_literal.rs.
use isograph.Prelude.{ℕ, zero, suc, if◌then◌else◌, Option, none, some, List, []}
use isograph.Lang.Outcome
use isograph.Lang.Span.{WithSpan}
use isograph.Lang.Location.{TextSource, WithLocation}
use isograph.Lang.GraphqlType.{
  GraphqlTypeAnnotation, named, list, non_null, non_null_named, non_null_list,
}
use isograph.Lang.Values.{ConstantValue, VariableDefinition, try_from}
use isograph.Iso.Token.{
  dollar, colon, comma, equals, exclamation, open_bracket, close_bracket, open_paren, close_paren,
  unexpected_variable, expected_type_annotation,
}
use isograph.Iso.Lexer.{out_of_fuel, panic, ◌>>=◌, pure, fail, get_state, with_span}
use isograph.Iso.Combinators.{
  Externals, P, located, token_of_kind, name_of, skips, attempt, parse_delimited_list,
}
use isograph.Iso.Values.{parse_non_constant_value}

module _ (x : Externals) where
  unfoldable pub parse_named_type : P (GraphqlTypeAnnotation ℕ)
  parse_named_type = do
    type_ ← name_of x.intern
    is_non_null ← skips exclamation
    pure (if is_non_null then non_null (non_null_named type_) else named type_)

  unfoldable pub parse_list_type : P (GraphqlTypeAnnotation ℕ) → P (GraphqlTypeAnnotation ℕ)
  parse_list_type parse_inner = do
    _ ← token_of_kind open_bracket
    inner ← parse_inner
    _ ← token_of_kind close_bracket
    is_non_null ← skips exclamation
    pure (if is_non_null then non_null (non_null_list inner) else list inner)

  unfoldable pub parse_type_annotation : ℕ → P (GraphqlTypeAnnotation ℕ)
  parse_type_annotation zero s = out_of_fuel
  parse_type_annotation (suc fuel) s =
      attempt parse_named_type
        (attempt (λ t. parse_list_type (parse_type_annotation fuel) t)
          (do
            here ← get_state
            fail (record { item = expected_type_annotation; span = here.current.span })))
        s

module _ (x : Externals) (text_source : TextSource) where
  unfoldable pub parse_optional_default_value : ℕ → P (Option (WithLocation ConstantValue))
  parse_optional_default_value fuel = do
    present ← skips equals
    if present
        then (do
          value ← parse_non_constant_value x text_source fuel
          elim (try_from value.item) [
            | Outcome.ok c ↦
                pure (some (located text_source (record { item = c; span = value.span })))
            | Outcome.err e ↦ fail (record { item = unexpected_variable; span = value.span })
            | Outcome.panic ↦ λ s. panic
          ])
        else pure none

  unfoldable pub parse_variable_definition : ℕ → P (WithSpan (VariableDefinition ℕ))
  parse_variable_definition fuel = with_span (do
    _ ← token_of_kind dollar
    name ← name_of x.intern
    _ ← token_of_kind colon
    type_ ← parse_type_annotation x fuel
    default_value ← parse_optional_default_value fuel
    pure {A = VariableDefinition ℕ}
        (record { name = located text_source name; type_ = type_; default_value = default_value }))

  unfoldable pub parse_variable_definitions : ℕ → P (List (WithSpan (VariableDefinition ℕ)))
  parse_variable_definitions fuel = do
    opened ← skips open_paren
    if opened
        then (do
          definitions ← parse_delimited_list (parse_variable_definition fuel) comma close_paren fuel
          pure definitions.item)
        else pure []
