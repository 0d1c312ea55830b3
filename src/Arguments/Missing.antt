-- ===== src/Arguments/Missing.antt =====
-- The report of an object literal's missing fields
-- (crates/isograph_schema/src/validate_argument_types.rs), over a schema whose fields' types come
-- from GraphQL, as crates/isograph_compiler/src/create_schema.rs makes them.
use isograph.Prelude.{
  ℕ, zero, suc, false, ◌≡◌, ◌≢◌, refl, subst, List, [], All, Option-cases, inl, inr, if◌then◌else◌,
}
use isograph.Lang.Outcome.{ok, ◌>>=◌}
use isograph.Lang.BaseTypes.{scalar, object}
use isograph.Lang.Location.{Location, WithLocation}
use isograph.Lang.Span.{WithSpan}
use isograph.Lang.GraphqlType.{
  GraphqlTypeAnnotation, named, list, non_null, non_null_named, non_null_list, is_nullable,
}
use isograph.Lang.Values.{NonConstantValue, NonConstantFields}
use isograph.Arguments.Schema.{
  ServerEntityId, ServerEntityData, ServerScalarSelectable, ServerObjectSelectable,
  VariableDefinition,
}
use isograph.Arguments.Subtype.{
  graphql_type_to_non_null_type, variable_type_satisfies_argument_type,
}
use isograph.Arguments.Validate.{
  NameValuePair, Checked, ValidateArgumentTypesError, id_annotation_to_typename_annotation,
  scalar_literal_satisfies_type, or_else, pairs, fail, fields_present, get_variable_type,
  missing_fields, expected_type_found_enum, expected_type_found_list, expected_type_found_object,
  expected_type_found_variable, expected_non_null_type_found_null, validate_no_extraneous_fields,
  missing_and_provided_fields, get_non_nullable_missing_and_provided_fields, check_fields,
  object_satisfies_type, value_step, value_satisfies_type,
}
use isograph.Arguments.Errors.{
  is_missing, Yields, Any, Yields-bind, Yields-or_else, expected_other, if_other, scalar_other,
}
use isograph.Arguments.Provided.{IsFromGraphql, IsProvided, All-provided}
use isograph.Arguments.Reports.{
  Check, IsQuiet, none_missing, list_other, extraneous_other, variable_other, enum_other,
}

module _ (defs : List (WithSpan (VariableDefinition ServerEntityId))) (data_ : ServerEntityData)
    (scalars : List ServerScalarSelectable) (objects : List ServerObjectSelectable)
    (scalars_from : All (λ s. IsFromGraphql s.target_scalar_entity) scalars)
    (objects_from : All (λ s. IsFromGraphql s.target_object_entity) objects) where
  object_other :
      (check : Check)
      → IsQuiet check
      → (location : Location) (literal : List NameValuePair) (id : ℕ)
      → Yields Any (object_satisfies_type defs data_ scalars objects check location literal id)
  unfolding object_satisfies_type get_non_nullable_missing_and_provided_fields
  object_other check quiet location literal id =
      elim (Option-cases (data_.server_object_entity_extra_info id)) [
        | inl absent ↦ rw absent tt
        | inr (info, found) ↦ rw found (
            Yields-bind Any Any (validate_no_extraneous_fields info.selectables literal location)
              (λ u.
                missing_and_provided_fields scalars objects info.selectables literal >>= (λ fields.
                  check_fields check fields
                  >>= (λ names. fields_present defs data_ scalars objects names location)))
              (extraneous_other info.selectables literal location)
              (λ u x.
                Yields-bind (λ fs. All IsProvided fs) Any
                  (missing_and_provided_fields scalars objects info.selectables literal)
                  (λ fields.
                    check_fields check fields
                    >>= (λ names. fields_present defs data_ scalars objects names location))
                  (All-provided scalars objects scalars_from objects_from info.selectables literal)
                  (λ fields all.
                    Yields-bind (λ names. names ≡ []) Any (check_fields check fields)
                      (λ names. fields_present defs data_ scalars objects names location)
                      (none_missing check quiet fields all) (λ names e. rw e tt))))
      ]

  abbrev mismatch :
      (GraphqlTypeAnnotation ℕ → ValidateArgumentTypesError)
      → GraphqlTypeAnnotation ServerEntityId
      → Location
      → Checked (Unit {0})
  mismatch e t location =
      id_annotation_to_typename_annotation data_ t >>= (λ expected. fail (e expected) location)

  abbrev object_by :
      Check
      → NonConstantFields
      → Location
      → GraphqlTypeAnnotation ServerEntityId
      → ServerEntityId
      → Checked (Unit {0})
  object_by check fields location t (scalar id) = mismatch expected_type_found_object t location
  object_by check fields location t (object id) =
      object_satisfies_type defs data_ scalars objects check location (pairs fields) id

  object_by_other :
      (check : Check)
      → IsQuiet check
      → (fields : NonConstantFields) (location : Location)
        (t : GraphqlTypeAnnotation ServerEntityId) (id : ServerEntityId)
      → Yields Any (object_by check fields location t id)
  object_by_other check quiet fields location t (scalar id) =
      expected_other data_ t (λ x. fail (expected_type_found_object x) location) (λ x. refl)
  object_by_other check quiet fields location t (object id) =
      object_other check quiet location (pairs fields) id

  step_other :
      (check : Check)
      → IsQuiet check
      → (v : NonConstantValue) (location : Location) (t : GraphqlTypeAnnotation ServerEntityId)
      → Yields Any (value_step defs data_ scalars objects check v location t)
  unfolding value_step graphql_type_to_non_null_type
  step_other check quiet (NonConstantValue.variable name) location t =
      Yields-bind Any Any (get_variable_type name defs location)
        (λ u. if variable_type_satisfies_argument_type u t then ok tt else (do
          expected ← id_annotation_to_typename_annotation data_ t
          actual ← id_annotation_to_typename_annotation data_ u
          fail (expected_type_found_variable expected actual name) location))
        (variable_other name defs location)
        (λ u x.
          if_other (variable_type_satisfies_argument_type u t) (ok tt)
            (do
              expected ← id_annotation_to_typename_annotation data_ t
              actual ← id_annotation_to_typename_annotation data_ u
              fail (expected_type_found_variable expected actual name) location)
            tt
            (expected_other data_ t
              (λ expected.
                id_annotation_to_typename_annotation data_ u
                >>= (λ actual. fail (expected_type_found_variable expected actual name) location))
              (λ expected.
                expected_other data_ u
                  (λ actual. fail (expected_type_found_variable expected actual name) location)
                  (λ actual. refl))))
  step_other check quiet (NonConstantValue.integer n) location t =
      Yields-or_else data_
        (or_else data_ (scalar_literal_satisfies_type data_ data_.int_type_id t location)
          (scalar_literal_satisfies_type data_ data_.float_type_id t location))
        (scalar_literal_satisfies_type data_ data_.id_type_id t location)
        (Yields-or_else data_ (scalar_literal_satisfies_type data_ data_.int_type_id t location)
          (scalar_literal_satisfies_type data_ data_.float_type_id t location)
          (scalar_other data_ data_.int_type_id t location)
          (scalar_other data_ data_.float_type_id t location))
        (scalar_other data_ data_.id_type_id t location)
  step_other check quiet (NonConstantValue.boolean b) location t =
      scalar_other data_ data_.boolean_type_id t location
  step_other check quiet (NonConstantValue.string s) location t =
      Yields-or_else data_ (scalar_literal_satisfies_type data_ data_.string_type_id t location)
        (scalar_literal_satisfies_type data_ data_.id_type_id t location)
        (scalar_other data_ data_.string_type_id t location)
        (scalar_other data_ data_.id_type_id t location)
  step_other check quiet (NonConstantValue.float f) location t =
      scalar_other data_ data_.float_type_id t location
  step_other check quiet NonConstantValue.null location t =
      if_other (is_nullable t) (ok tt) (mismatch expected_non_null_type_found_null t location) tt (
        expected_other data_ t (λ x. fail (expected_non_null_type_found_null x) location)
          (λ x. refl))
  step_other check quiet (NonConstantValue.enum e) location (named n) =
      enum_other data_ e n location
  step_other check quiet (NonConstantValue.enum e) location (list l) =
      expected_other data_ (list l) (λ x. fail (expected_type_found_enum x e) location) (λ x. refl)
  step_other check quiet (NonConstantValue.enum e) location (non_null (non_null_named n)) =
      enum_other data_ e n location
  step_other check quiet (NonConstantValue.enum e) location (non_null (non_null_list l)) =
      expected_other data_ (non_null (non_null_list l))
        (λ x. fail (expected_type_found_enum x e) location) (λ x. refl)
  step_other check quiet (NonConstantValue.list items) location (named n) =
      expected_other data_ (named n) (λ x. fail (expected_type_found_list x) location) (λ x. refl)
  step_other check quiet (NonConstantValue.list items) location (list l) =
      list_other check quiet items l
  step_other check quiet (NonConstantValue.list items) location (non_null (non_null_named n)) =
      expected_other data_ (non_null (non_null_named n))
        (λ x. fail (expected_type_found_list x) location) (λ x. refl)
  step_other check quiet (NonConstantValue.list items) location (non_null (non_null_list l)) =
      list_other check quiet items l
  step_other check quiet (NonConstantValue.object fields) location (named n) =
      object_by_other check quiet fields location (named n) n.item
  step_other check quiet (NonConstantValue.object fields) location (list l) =
      expected_other data_ (list l) (λ x. fail (expected_type_found_object x) location) (λ x. refl)
  step_other check quiet (NonConstantValue.object fields) location (non_null (non_null_named n)) =
      object_by_other check quiet fields location (non_null (non_null_named n)) n.item
  step_other check quiet (NonConstantValue.object fields) location (non_null (non_null_list l)) =
      expected_other data_ (non_null (non_null_list l))
        (λ x. fail (expected_type_found_object x) location) (λ x. refl)

  IsQuiet-value : (fuel : ℕ) → IsQuiet (value_satisfies_type defs data_ scalars objects fuel)
  unfolding value_satisfies_type
  IsQuiet-value zero v t = tt
  IsQuiet-value (suc fuel) v t =
      step_other (value_satisfies_type defs data_ scalars objects fuel) (IsQuiet-value fuel) v.item
        v.location t

  -- Where the types of the schema's fields came from GraphQL, the check of an argument never
  -- reports a missing field, whatever fields with a `!` its object literals leave out.
  pub no_missing_fields :
      (fuel : ℕ) (v : WithLocation NonConstantValue) (t : GraphqlTypeAnnotation ServerEntityId)
      (names : List ℕ) (location : Location)
      → value_satisfies_type defs data_ scalars objects fuel v t
        ≢ fail (missing_fields names) location
  no_missing_fields fuel v t names location e =
      let quiet : is_missing (missing_fields names) ≡ false =
        subst (λ r. Yields Any r) e (IsQuiet-value fuel v t) in
      absurd cc
