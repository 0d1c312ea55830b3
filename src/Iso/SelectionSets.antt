-- ===== src/Iso/SelectionSets.antt =====
-- Selections: crates/isograph_lang_parser/src/parse_iso_literal.rs.
use isograph.Prelude.{
  contains, ℕ, zero, suc, true, false, ◌||◌, if◌then◌else◌, Option, none, some, List, [], ◌∷◌, ◌++◌,
}
use isograph.Lang.Span.{WithSpan, todo_generated}
use isograph.Lang.Location.{TextSource, WithLocation}
use isograph.Lang.Selections.{UnvalidatedSelection, scalar, object, selection_set, name_or_alias}
use isograph.Iso.Token.{
  colon, comma, open_brace, close_brace, same_kind, expected_comma_or_line_break,
  duplicate_name_or_alias, expected_selection_set,
}
use isograph.Iso.Lexer.{
  out_of_fuel, ◌>>=◌, pure, fail, get_state, with_span, white_space_span, source_text,
}
use isograph.Iso.Combinators.{Externals, P, located, name_of, skips, directive_set}
use isograph.Iso.Values.{parse_optional_arguments, parse_directives}

unfoldable pub parse_comma_line_break_or_curly : P (Unit {0})
parse_comma_line_break_or_curly = do
  comma_read ← skips comma
  if comma_read then pure tt else (do
    white_space ← white_space_span
    text ← source_text white_space
    here ← get_state
    if contains text b'\n' || same_kind here.current.item close_brace
        then pure tt
        else fail (record { item = expected_comma_or_line_break; span = here.current.span }))

abbrev located_alias : TextSource → Option (WithSpan ℕ) → Option (WithLocation ℕ)
located_alias text_source none = none
located_alias text_source (some alias) = some (located text_source alias)

module _ (x : Externals) (text_source : TextSource) where
  unfoldable pub parse_optional_alias_and_field_name : P (WithSpan ℕ × Option (WithSpan ℕ))
  parse_optional_alias_and_field_name = do
    field_name_or_alias ← name_of x.intern
    colon_read ← skips colon
    if colon_read
        then (do field_name ← name_of x.intern; pure (field_name, some field_name_or_alias))
        else pure (field_name_or_alias, none)

  unfoldable pub parse_selection :
      ℕ → P (Option (List (WithSpan UnvalidatedSelection))) → P (WithSpan UnvalidatedSelection)
  parse_selection fuel parse_nested = with_span (do
    names ← parse_optional_alias_and_field_name
    arguments ← parse_optional_arguments x text_source fuel
    directives ← parse_directives x text_source fuel
    nested ← parse_nested
    _ ← parse_comma_line_break_or_curly
    elim nested [
      | some selections ↦ do
        directive_set ← directive_set x.object_directives directives
        pure (
            object
              (record {
                name = located text_source names.0;
                reader_alias = located_alias text_source names.1;
                arguments = arguments;
                object_selection_directive_set = directive_set;
              })
              (selection_set selections))
      | none ↦ do
        directive_set ← directive_set x.scalar_directives directives
        pure (
            scalar (record {
              name = located text_source names.0;
              reader_alias = located_alias text_source names.1;
              arguments = arguments;
              scalar_selection_directive_set = directive_set;
            }))
    ])

  -- The loop of `parse_optional_selection_set`; `encountered` is the set of the names so far.
  unfoldable pub selections_loop :
      P (WithSpan UnvalidatedSelection)
      → ℕ
      → List ℕ
      → List (WithSpan UnvalidatedSelection)
      → P (List (WithSpan UnvalidatedSelection))
  selections_loop parse_item zero encountered selections s = out_of_fuel
  selections_loop parse_item (suc fuel) encountered selections s =
      (do
        closed ← skips close_brace
        elim closed [
          | true ↦ pure selections
          | false ↦ do
            selection ← parse_item
            elim (contains encountered (name_or_alias selection.item).item) [
              | true ↦ fail (record {
                item = duplicate_name_or_alias (name_or_alias selection.item).item;
                span = selection.span;
              })
              | false ↦
                  selections_loop parse_item fuel
                    ((name_or_alias selection.item).item ∷ encountered)
                    (selections ++ selection ∷ [])
            ]
        ])
        s

  unfoldable pub parse_optional_selection_set :
      ℕ → P (Option (List (WithSpan UnvalidatedSelection)))
  parse_optional_selection_set zero s = out_of_fuel
  parse_optional_selection_set (suc fuel) s =
      (do
        opened ← skips open_brace
        elim opened [
          | false ↦ pure none
          | true ↦ do
            selections ←
                selections_loop (parse_selection fuel (λ t. parse_optional_selection_set fuel t))
                  fuel [] []
            pure (some selections)
        ])
        s

  unfoldable pub parse_selection_set : ℕ → P (List (WithSpan UnvalidatedSelection))
  parse_selection_set fuel = do
    selections ← parse_optional_selection_set fuel
    elim selections [
      | some s ↦ pure s
      | none ↦ fail (record { item = expected_selection_set; span = todo_generated })
    ]
