-- ===== src/Arguments/Fuel.antt =====
-- The fuel of `value_satisfies_type` (crates/isograph_schema/src/validate_argument_types.rs): the
-- depth of a value bounds the calls nested in it.
use isograph.Prelude.{
  ℕ, zero, suc, ◌≤◌, max, ◌≡◌, refl, sym, ap, fun_ext, none, some, List, [], ◌∷◌, All, Option-cases,
  Bool-cases, inl, inr, arith, ◌==◌,
}
use isograph.Lang.Outcome.{ok, err, panic, ◌>>=◌}
use isograph.Lang.BaseTypes.{scalar, object, as_server, server, client}
use isograph.Lang.Location.{Location, WithLocation}
use isograph.Lang.Span.{WithSpan}
use isograph.Lang.GraphqlType.{
  GraphqlTypeAnnotation, named, list, non_null, non_null_named, non_null_list,
}
use isograph.Lang.IsographType.{graphql_type_annotation_from_type_annotation}
use isograph.Lang.Values.{
  NonConstantValue, NonConstantValues, NonConstantFields, nil, values, end, field,
}
use isograph.Arguments.Schema.{
  ServerEntityId, ServerObjectEntityAvailableSelectables, ServerEntityData, ServerScalarSelectable,
  ServerObjectSelectable, VariableDefinition, expect,
}
use isograph.Arguments.Subtype.{graphql_type_to_non_null_type}
use isograph.Arguments.Validate.{
  NameValuePair, Checked, pairs, fail, expected_type_found_object,
  id_annotation_to_typename_annotation, validate_no_extraneous_fields, ObjectLiteralFieldType,
  provided, missing, find_field, cons_some, iso_type_annotation, field_state,
  missing_and_provided_fields, get_non_nullable_missing_and_provided_fields, check_fields,
  list_satisfies_type, fields_present, object_satisfies_type, value_step, value_satisfies_type,
}
use isograph.Arguments.Reports.{Check}

-- How many lists and objects stand around the innermost part of a value.
abbrev mutual
  pub depth : NonConstantValue → ℕ
  depth (NonConstantValue.variable name) = 0
  depth (NonConstantValue.integer n) = 0
  depth (NonConstantValue.boolean b) = 0
  depth (NonConstantValue.string s) = 0
  depth (NonConstantValue.float f) = 0
  depth NonConstantValue.null = 0
  depth (NonConstantValue.enum e) = 0
  depth (NonConstantValue.list items) = suc (depth_items items)
  depth (NonConstantValue.object fields) = suc (depth_fields fields)

  depth_items : NonConstantValues → ℕ
  depth_items nil = 0
  depth_items (values v l rest) = max (depth v) (depth_items rest)

  depth_fields : NonConstantFields → ℕ
  depth_fields end = 0
  depth_fields (field name v l rest) = max (depth v) (depth_fields rest)

-- Two checks agree on a value that stands in a literal.
abbrev AgreesOn : Check → Check → WithLocation NonConstantValue → Type 0
AgreesOn f g v = (t : GraphqlTypeAnnotation ServerEntityId) → f v t ≡ g v t

abbrev FieldAgrees : Check → Check → ObjectLiteralFieldType → Type 0
FieldAgrees f g (provided t p) = f p.value t ≡ g p.value t
FieldAgrees f g (missing name) = Unit

-- A result, if there is one, satisfies the predicate.
abbrev Holds : {A : Type 0} → (A → Type 0) → Checked A → Type 0
Holds P (ok a) = P a
Holds P (err e) = Unit
Holds P panic = Unit

Holds-bind :
    {A B : Type 0} (P : B → Type 0) (r : Checked A) (f : A → Checked B)
    → ((a : A) → Holds P (f a))
    → Holds P (r >>= f)
Holds-bind P (ok a) f h = h a
Holds-bind P (err e) f h = tt
Holds-bind P panic f h = tt

Holds-map :
    {A B : Type 0} (Q : A → Type 0) (P : B → Type 0) (r : Checked A) (f : A → Checked B)
    → Holds Q r
    → ((a : A) → Q a → Holds P (f a))
    → Holds P (r >>= f)
Holds-map Q P (ok a) f q h = h a q
Holds-map Q P (err e) f q h = tt
Holds-map Q P panic f q h = tt

bind_same :
    {A B : Type 0} (Q : A → Type 0) (r : Checked A) (f g : A → Checked B)
    → Holds Q r
    → ((a : A) → Q a → f a ≡ g a)
    → (r >>= f) ≡ (r >>= g)
bind_same Q (ok a) f g q h = h a q
bind_same Q (err e) f g q h = refl
bind_same Q panic f g q h = refl

Holds-any : {A : Type 0} (r : Checked A) → Holds (λ a. Unit {0}) r
Holds-any (ok a) = tt
Holds-any (err e) = tt
Holds-any panic = tt

module _ (f g : Check) where
  check_fields_same :
      (fields : List ObjectLiteralFieldType)
      → All (FieldAgrees f g) fields
      → check_fields f fields ≡ check_fields g fields
  unfolding check_fields
  check_fields_same [] all = refl
  check_fields_same (provided t p ∷ rest) all = rw (all.0, check_fields_same rest all.1) refl
  check_fields_same (missing name ∷ rest) all = rw (check_fields_same rest all.1) refl

  found_agrees :
      (ps : List NameValuePair) (name : ℕ) (p : NameValuePair)
      → All (λ q. AgreesOn f g q.value) ps
      → find_field ps name ≡ some p
      → AgreesOn f g p.value
  unfolding find_field
  found_agrees [] name p all e = absurd cc
  found_agrees (q ∷ qs) name p all e = elim (Bool-cases (q.name.item == name)) [
    | inl same ↦ let eq : q ≡ p = ground arith in rw (sym eq) all.0
    | inr other ↦ found_agrees qs name p all.1 (ground arith)
  ]

  module _ (scalars : List ServerScalarSelectable) (objects : List ServerObjectSelectable)
      (literal : List NameValuePair) (all : All (λ q. AgreesOn f g q.value) literal) where
    keep_missing :
        (name : ℕ) (t : GraphqlTypeAnnotation ServerEntityId) (fields : List ObjectLiteralFieldType)
        → All (FieldAgrees f g) fields
        → All
            (FieldAgrees f g)
            (cons_some scalars objects (field_state scalars objects name t none) fields)
    unfolding field_state
    keep_missing name (named n) fields rest = rest
    keep_missing name (list l) fields rest = rest
    keep_missing name (non_null n) fields rest = (tt, rest)

    keep_agreeing :
        (name : ℕ) (t : GraphqlTypeAnnotation ServerEntityId) (fields : List ObjectLiteralFieldType)
        → All (FieldAgrees f g) fields
        → All (FieldAgrees f g) (
            cons_some scalars objects
              (field_state scalars objects name t (find_field literal name))
              fields)
    unfolding field_state
    keep_agreeing name t fields rest = elim (Option-cases (find_field literal name)) [
      | inr (p, found) ↦ rw found (found_agrees literal name p all found t, rest)
      | inl absent ↦ rw absent (keep_missing name t fields rest)
    ]

    fields_agree :
        (entries : ServerObjectEntityAvailableSelectables)
        → Holds
            (λ fs. All (FieldAgrees f g) fs)
            (missing_and_provided_fields scalars objects entries literal)
    unfolding missing_and_provided_fields as_server
    fields_agree [] = tt
    fields_agree ((name, client c) ∷ entries) = fields_agree entries
    fields_agree ((name, server id) ∷ entries) =
        Holds-bind (λ fs. All (FieldAgrees f g) fs) (iso_type_annotation scalars objects id)
          (λ iso_type. expect (graphql_type_annotation_from_type_annotation iso_type) >>= (λ type_.
            missing_and_provided_fields scalars objects entries literal >>= (λ fields. ok (
              cons_some scalars objects
                (field_state scalars objects name type_ (find_field literal name)) fields))))
          (λ iso.
            Holds-bind (λ fs. All (FieldAgrees f g) fs)
              (expect (graphql_type_annotation_from_type_annotation iso))
              (λ type_. missing_and_provided_fields scalars objects entries literal >>= (λ fields.
                ok (
                  cons_some scalars objects
                    (field_state scalars objects name type_ (find_field literal name)) fields)))
              (λ t.
                Holds-map (λ fs. All (FieldAgrees f g) fs) (λ fs. All (FieldAgrees f g) fs)
                  (missing_and_provided_fields scalars objects entries literal)
                  (λ fields. ok (
                    cons_some scalars objects
                      (field_state scalars objects name t (find_field literal name)) fields))
                  (fields_agree entries) (λ fs rest. keep_agreeing name t fs rest)))

module _ (defs : List (WithSpan (VariableDefinition ServerEntityId))) (data_ : ServerEntityData)
    (scalars : List ServerScalarSelectable) (objects : List ServerObjectSelectable) where
  abbrev by_fuel : ℕ → Check
  by_fuel n = value_satisfies_type defs data_ scalars objects n

  object_same :
      (f g : Check) (location : Location) (literal : List NameValuePair) (id : ℕ)
      → All (λ q. AgreesOn f g q.value) literal
      → object_satisfies_type defs data_ scalars objects f location literal id
        ≡ object_satisfies_type defs data_ scalars objects g location literal id
  unfolding object_satisfies_type get_non_nullable_missing_and_provided_fields
  object_same f g location literal id all =
      elim (Option-cases (data_.server_object_entity_extra_info id)) [
        | inl absent ↦ rw absent refl
        | inr (info, found) ↦ rw found (
            bind_same (λ u. Unit {0})
              (validate_no_extraneous_fields info.selectables literal location)
              (λ u.
                missing_and_provided_fields scalars objects info.selectables literal >>= (λ fields.
                  check_fields f fields
                  >>= (λ names. fields_present defs data_ scalars objects names location)))
              (λ u.
                missing_and_provided_fields scalars objects info.selectables literal >>= (λ fields.
                  check_fields g fields
                  >>= (λ names. fields_present defs data_ scalars objects names location)))
              (Holds-any (validate_no_extraneous_fields info.selectables literal location))
              (λ u x.
                bind_same (λ fs. All (FieldAgrees f g) fs)
                  (missing_and_provided_fields scalars objects info.selectables literal)
                  (λ fields.
                    check_fields f fields
                    >>= (λ names. fields_present defs data_ scalars objects names location))
                  (λ fields.
                    check_fields g fields
                    >>= (λ names. fields_present defs data_ scalars objects names location))
                  (fields_agree f g scalars objects literal all info.selectables)
                  (λ fs agree. rw (check_fields_same f g fs agree) refl)))
      ]

  object_step :
      (f g : Check) (fields : NonConstantFields) (location : Location)
      (t : GraphqlTypeAnnotation ServerEntityId)
      → All (λ q. AgreesOn f g q.value) (pairs fields)
      → value_step defs data_ scalars objects f (NonConstantValue.object fields) location t
        ≡ value_step defs data_ scalars objects g (NonConstantValue.object fields) location t
  unfolding value_step graphql_type_to_non_null_type
  object_step f g fields location t all =
      ap
        (λ c. elim (graphql_type_to_non_null_type t) [
          | non_null_list l ↦
              id_annotation_to_typename_annotation data_ t
              >>= (λ expected. fail (expected_type_found_object expected) location)
          | non_null_named n ↦ elim n.item [
            | scalar id ↦
                id_annotation_to_typename_annotation data_ t
                >>= (λ expected. fail (expected_type_found_object expected) location)
            | object id ↦ c id
          ]
        ])
        (fun_ext (λ id. object_same f g location (pairs fields) id all))

  mutual
    unfolding value_satisfies_type value_step list_satisfies_type pairs
        graphql_type_to_non_null_type

    step_same :
        (v : NonConstantValue) (n m : ℕ) (location : Location)
        (t : GraphqlTypeAnnotation ServerEntityId)
        → depth v ≤ n
        → depth v ≤ m
        → value_step defs data_ scalars objects (by_fuel n) v location t
          ≡ value_step defs data_ scalars objects (by_fuel m) v location t
    step_same (NonConstantValue.variable name) n m location t h h' = refl
    step_same (NonConstantValue.integer i) n m location t h h' = refl
    step_same (NonConstantValue.boolean b) n m location t h h' = refl
    step_same (NonConstantValue.string s) n m location t h h' = refl
    step_same (NonConstantValue.float f) n m location t h h' = refl
    step_same NonConstantValue.null n m location t h h' = refl
    step_same (NonConstantValue.enum e) n m location t h h' = refl
    step_same (NonConstantValue.list vs) zero m location t h h' = absurd (omega (arith, h))
    step_same (NonConstantValue.list vs) (suc n) zero location t h h' = absurd (omega (arith, h'))
    step_same (NonConstantValue.list vs) (suc n) (suc m) location (named x) h h' = refl
    step_same (NonConstantValue.list vs) (suc n) (suc m) location (list l) h h' =
        items_same vs n m l (omega (arith, h)) (omega (arith, h'))
    step_same (NonConstantValue.list vs) (suc n) (suc m) location (non_null (non_null_named x)) h
          h' =
        refl
    step_same (NonConstantValue.list vs) (suc n) (suc m) location (non_null (non_null_list l)) h
          h' =
        items_same vs n m l (omega (arith, h)) (omega (arith, h'))
    step_same (NonConstantValue.object fs) zero m location t h h' = absurd (omega (arith, h))
    step_same (NonConstantValue.object fs) (suc n) zero location t h h' = absurd (omega (arith, h'))
    step_same (NonConstantValue.object fs) (suc n) (suc m) location t h h' =
        object_step (by_fuel (suc n)) (by_fuel (suc m)) fs location t
          (pairs_agree fs n m (omega (arith, h)) (omega (arith, h')))

    items_same :
        (vs : NonConstantValues) (n m : ℕ) (t : GraphqlTypeAnnotation ServerEntityId)
        → depth_items vs ≤ n
        → depth_items vs ≤ m
        → list_satisfies_type (by_fuel (suc n)) vs t ≡ list_satisfies_type (by_fuel (suc m)) vs t
    items_same nil n m t h h' = refl
    items_same (values v l rest) n m t h h' =
        rw
          (
            step_same v n m l t (omega (arith, h)) (omega (arith, h')),
            items_same rest n m t (omega (arith, h)) (omega (arith, h')),
          )
          refl

    pairs_agree :
        (fs : NonConstantFields) (n m : ℕ)
        → depth_fields fs ≤ n
        → depth_fields fs ≤ m
        → All (λ q. AgreesOn (by_fuel (suc n)) (by_fuel (suc m)) q.value) (pairs fs)
    pairs_agree end n m h h' = tt
    pairs_agree (field name v l rest) n m h h' = (
      λ t. step_same v n m l t (omega (arith, h)) (omega (arith, h')),
      pairs_agree rest n m (omega (arith, h)) (omega (arith, h')),
    )

  -- Fuel above the depth of the value is enough for the check of the value: more of it changes
  -- nothing.
  pub enough_fuel :
      (v : WithLocation NonConstantValue) (t : GraphqlTypeAnnotation ServerEntityId) (n m : ℕ)
      → depth v.item ≤ n
      → n ≤ m
      → value_satisfies_type defs data_ scalars objects (suc n) v t
        ≡ value_satisfies_type defs data_ scalars objects (suc m) v t
  unfolding value_satisfies_type
  enough_fuel v t n m h le = step_same v.item n m v.location t h (omega (arith, h, le))
