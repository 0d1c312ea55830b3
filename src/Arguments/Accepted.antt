-- ===== src/Arguments/Accepted.antt =====
-- When the arguments of a selection are accepted: crates/isograph_schema/src/validate_use_of_arguments.rs.
use isograph.Prelude.{ℕ, true, ◌||◌, Option, none, some, List, ◌≡◌, ◌⊎◌}
use isograph.Lang.Outcome.{ok}
use isograph.Lang.Location.{Location, WithLocation}
use isograph.Lang.Span.{WithSpan}
use isograph.Lang.GraphqlType.{is_nullable}
use isograph.Lang.Selections.{SelectionFieldArgument}
use isograph.Arguments.Schema.{ServerEntityData, ServerScalarSelectable, ServerObjectSelectable}
use isograph.Arguments.Use.{
  Definition, Arguments, Errors, Use, ArgumentType, has_default, find_argument, check_argument,
  check_arguments,
}

module _ (id fuel : ℕ) (variable_definitions : List (WithSpan Definition))
    (schema_data : ServerEntityData) (scalars : List ServerScalarSelectable)
    (objects : List ServerObjectSelectable) (arguments : Arguments) where
  -- An argument is accepted for its definition, where there is one.
  abbrev pub FitsArgument : Definition → Option (WithLocation SelectionFieldArgument) → Type 0
  FitsArgument d none = Unit
  FitsArgument d (some a) =
      check_argument id fuel variable_definitions schema_data scalars objects d a ≡ ok tt

  abbrev pub Fits : Definition → Type 0
  Fits d = FitsArgument d (find_argument d.name.item arguments)

  -- The definition has an argument or does without one.
  abbrev pub IsSupplied : Definition → Type 0
  IsSupplied d =
      ((a : WithLocation SelectionFieldArgument) × (find_argument d.name.item arguments ≡ some a))
      ⊎ ((has_default d || is_nullable d.type_) ≡ true)

  abbrev looped : List ArgumentType → Errors → List Definition → Option (Errors × List Definition)
  looped = check_arguments id fuel variable_definitions schema_data scalars objects
