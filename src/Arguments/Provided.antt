-- ===== src/Arguments/Provided.antt =====
-- The fields of an object type against an object literal
-- (`get_non_nullable_missing_and_provided_fields` of
-- crates/isograph_schema/src/validate_argument_types.rs), where the fields' types came from
-- GraphQL, as crates/isograph_compiler/src/create_schema.rs makes them.
use isograph.Prelude.{
  ℕ, zero, suc, true, false, ◌≡◌, sym, subst, ◌∙◌, Option, none, some, List, [], ◌∷◌, get_elem?,
  All, ap,
}
use isograph.Lang.Outcome.{ok, ◌>>=◌}
use isograph.Lang.BaseTypes.{scalar, object, as_server, server, client}
use isograph.Lang.GraphqlType
use isograph.Lang.GraphqlType.{
  GraphqlTypeAnnotation, named, list, non_null, non_null_named, non_null_list, is_nullable,
}
use isograph.Lang.IsographType
use isograph.Lang.IsographType.{
  TypeAnnotation, from_graphql_type_annotation, graphql_type_annotation_from_type_annotation,
}
use isograph.Lang.IsographLaws.{maps, graphql-from_graphql}
use isograph.Arguments.Schema.{
  ServerEntityId, ServerSelectableId, ServerObjectEntityAvailableSelectables,
  ServerScalarSelectable, ServerObjectSelectable, expect,
}
use isograph.Arguments.Validate.{
  NameValuePair, ObjectLiteralFieldType, provided, missing, find_field, compare_entity, cons_some,
  iso_type_annotation, field_state, missing_and_provided_fields,
}
use isograph.Arguments.Errors.{Yields, Yields-bind}

-- A type that came from GraphQL.
abbrev pub IsFromGraphql : {T : Type 0} → TypeAnnotation T → Type 0
IsFromGraphql {T} t = (g : GraphqlTypeAnnotation T) × (t ≡ from_graphql_type_annotation g)

abbrev pub IsProvided : ObjectLiteralFieldType → Type 0
IsProvided (provided t p) = Unit
IsProvided (missing name) = true ≡ false

Yields-found :
    {A : Type 0} (P : A → Type 0) (xs : List A) (i : ℕ)
    → All P xs
    → Yields P (expect (get_elem? xs i))
Yields-found P [] i h = tt
Yields-found P (x ∷ xs) zero h = h.0
Yields-found P (x ∷ xs) (suc i) h = Yields-found P xs i h.1

module _ (scalars : List ServerScalarSelectable) (objects : List ServerObjectSelectable)
    (scalars_from : All (λ s. IsFromGraphql s.target_scalar_entity) scalars)
    (objects_from : All (λ s. IsFromGraphql s.target_object_entity) objects) where
  type_from :
      (id : ServerSelectableId)
      → Yields (λ t. IsFromGraphql t) (iso_type_annotation scalars objects id)
  unfolding iso_type_annotation
  type_from (scalar id) =
      Yields-bind (λ s. IsFromGraphql s.target_scalar_entity) (λ t. IsFromGraphql t)
        (expect (get_elem? scalars id))
        (λ s. ok (IsographType.map compare_entity scalar s.target_scalar_entity))
        (Yields-found (λ s. IsFromGraphql s.target_scalar_entity) scalars id scalars_from)
        (λ s f. (GraphqlType.map scalar f.0, rw f.1 (maps compare_entity scalar f.0)))
  type_from (object id) =
      Yields-bind (λ s. IsFromGraphql s.target_object_entity) (λ t. IsFromGraphql t)
        (expect (get_elem? objects id))
        (λ s. ok (IsographType.map compare_entity object s.target_object_entity))
        (Yields-found (λ s. IsFromGraphql s.target_object_entity) objects id objects_from)
        (λ s f. (GraphqlType.map object f.0, rw f.1 (maps compare_entity object f.0)))

  nullable :
      (t : TypeAnnotation ServerEntityId)
      → IsFromGraphql t
      → Yields (λ g. is_nullable g ≡ true) (expect (graphql_type_annotation_from_type_annotation t))
  nullable t (g, e) =
      subst (λ o. Yields (λ x. is_nullable x ≡ true) (expect o))
        (sym (ap graphql_type_annotation_from_type_annotation e ∙ (graphql-from_graphql g).0))
        ((graphql-from_graphql g).1)

  keep_provided :
      (name : ℕ) (t : GraphqlTypeAnnotation ServerEntityId) (o : Option NameValuePair)
      (fields : List ObjectLiteralFieldType)
      → is_nullable t ≡ true
      → All IsProvided fields
      → Yields
          (λ fs. All IsProvided fs)
          (ok (cons_some scalars objects (field_state scalars objects name t o) fields))
  unfolding field_state is_nullable
  keep_provided name t (some p) fields h all = (tt, all)
  keep_provided name (named n) none fields h all = all
  keep_provided name (list l) none fields h all = all
  keep_provided name (non_null n) none fields h all = absurd cc

  pub All-provided :
      (entries : ServerObjectEntityAvailableSelectables) (literal : List NameValuePair)
      → Yields
          (λ fs. All IsProvided fs)
          (missing_and_provided_fields scalars objects entries literal)
  unfolding missing_and_provided_fields as_server
  All-provided [] literal = tt
  All-provided ((name, client c) ∷ entries) literal = All-provided entries literal
  All-provided ((name, server id) ∷ entries) literal =
      Yields-bind (λ t. IsFromGraphql t) (λ fs. All IsProvided fs)
        (iso_type_annotation scalars objects id)
        (λ iso_type. expect (graphql_type_annotation_from_type_annotation iso_type) >>= (λ type_.
          missing_and_provided_fields scalars objects entries literal >>= (λ fields. ok (
            cons_some scalars objects
              (field_state scalars objects name type_ (find_field literal name)) fields))))
        (type_from id)
        (λ t from.
          Yields-bind (λ g. is_nullable g ≡ true) (λ fs. All IsProvided fs)
            (expect (graphql_type_annotation_from_type_annotation t))
            (λ type_. missing_and_provided_fields scalars objects entries literal >>= (λ fields.
              ok (
                cons_some scalars objects
                  (field_state scalars objects name type_ (find_field literal name)) fields)))
            (nullable t from)
            (λ g n.
              Yields-bind (λ fs. All IsProvided fs) (λ fs. All IsProvided fs)
                (missing_and_provided_fields scalars objects entries literal)
                (λ fields. ok (
                  cons_some scalars objects
                    (field_state scalars objects name g (find_field literal name)) fields))
                (All-provided entries literal)
                (λ fs all. keep_provided name g (find_field literal name) fs n all)))
