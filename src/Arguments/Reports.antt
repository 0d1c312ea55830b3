-- ===== src/Arguments/Reports.antt =====
-- Which errors the branches of `value_satisfies_type` return, its recursive calls taken as given
-- (crates/isograph_schema/src/validate_argument_types.rs).
use isograph.Prelude.{ℕ, ◌≡◌, refl, List, [], ◌∷◌, get_elem?, All, ◌==◌}
use isograph.Lang.Outcome.{ok, panic, ◌>>=◌}
use isograph.Lang.BaseTypes.{scalar, object}
use isograph.Lang.Location.{Location, WithLocation}
use isograph.Lang.Span.{WithSpan}
use isograph.Lang.GraphqlType.{GraphqlTypeAnnotation, named}
use isograph.Lang.Values.{NonConstantValue, NonConstantValues, VariableName, nil, values}
use isograph.Arguments.Schema.{
  ServerEntityId, ServerObjectEntityAvailableSelectables, ServerEntityData, VariableDefinition,
  expect, server_object_entity,
}
use isograph.Arguments.Validate.{
  NameValuePair, Checked, fail, extraneous_fields, enum_satisfies_type, get_variable_type,
  extra_fields, expected_type_found_enum, validate_no_extraneous_fields, ObjectLiteralFieldType,
  provided, missing, check_fields, list_satisfies_type,
}
use isograph.Arguments.Errors.{Yields, Any, Yields-bind, Yields-expect, if_other}
use isograph.Arguments.Provided.{IsProvided}

abbrev pub Check : Type 0
Check = WithLocation NonConstantValue → GraphqlTypeAnnotation ServerEntityId → Checked (Unit {0})

abbrev pub IsQuiet : Check → Type 0
IsQuiet check =
    (v : WithLocation NonConstantValue) (t : GraphqlTypeAnnotation ServerEntityId)
    → Yields Any (check v t)

pub none_missing :
    (check : Check)
    → IsQuiet check
    → (fields : List ObjectLiteralFieldType) → All IsProvided fields
    → Yields (λ names. names ≡ []) (check_fields check fields)
unfolding check_fields
none_missing check quiet [] all = refl
none_missing check quiet (provided t p ∷ rest) all =
    Yields-bind Any (λ names. names ≡ []) (check p.value t) (λ u. check_fields check rest)
      (quiet p.value t) (λ u x. none_missing check quiet rest all.1)
none_missing check quiet (missing name ∷ rest) all = absurd cc

pub list_other :
    (check : Check)
    → IsQuiet check
    → (vs : NonConstantValues) (t : GraphqlTypeAnnotation ServerEntityId)
    → Yields Any (list_satisfies_type check vs t)
unfolding list_satisfies_type
list_other check quiet nil t = tt
list_other check quiet (values v l rest) t =
    Yields-bind Any Any (check (record { item = v; location = l }) t)
      (λ u. list_satisfies_type check rest t) (quiet (record { item = v; location = l }) t)
      (λ u x. list_other check quiet rest t)

pub extraneous_other :
    (object_fields : ServerObjectEntityAvailableSelectables) (literal : List NameValuePair)
    (location : Location)
    → Yields Any (validate_no_extraneous_fields object_fields literal location)
unfolding validate_no_extraneous_fields
extraneous_other object_fields literal location =
    elim (extra_fields object_fields literal)
      as (λ ps.
        Yields Any
          (elim ps [ [] ↦ ok tt | p ∷ rest ↦ fail (extraneous_fields (p ∷ rest)) location ])) [
            | [] ↦ tt
            | p ∷ rest ↦ refl
          ]

pub variable_other :
    (name : VariableName) (defs : List (WithSpan (VariableDefinition ServerEntityId)))
    (location : Location)
    → Yields Any (get_variable_type name defs location)
unfolding get_variable_type
variable_other name [] location = refl
variable_other name (d ∷ ds) location =
    if_other (d.item.name.item == name) (ok d.item.type_) (get_variable_type name ds location) tt
      (variable_other name ds location)

abbrev enum_by :
    ServerEntityData → ℕ → WithSpan ServerEntityId → Location → ServerEntityId → Checked (Unit {0})
enum_by data_ e n location (object id) = server_object_entity data_ id >>= (λ x.
    fail (expected_type_found_enum (named (record { item = x.name; span = n.span })) e) location)
enum_by data_ e n location (scalar id) = panic

enum_by_other :
    (data_ : ServerEntityData) (e : ℕ) (n : WithSpan ServerEntityId) (location : Location)
    (id : ServerEntityId)
    → Yields Any (enum_by data_ e n location id)
unfolding server_object_entity
enum_by_other data_ e n location (object id) =
    Yields-bind Any Any (expect (get_elem? data_.server_objects id))
      (λ x.
        fail (expected_type_found_enum (named (record { item = x.name; span = n.span })) e)
          location)
      (Yields-expect (get_elem? data_.server_objects id)) (λ x u. refl)
enum_by_other data_ e n location (scalar id) = tt

pub enum_other :
    (data_ : ServerEntityData) (e : ℕ) (n : WithSpan ServerEntityId) (location : Location)
    → Yields Any (enum_satisfies_type data_ e n location)
unfolding enum_satisfies_type
enum_other data_ e n location = enum_by_other data_ e n location n.item
