-- ===== src/Arguments/Errors.antt =====
-- Which errors the parts of `value_satisfies_type` return
-- (crates/isograph_schema/src/validate_argument_types.rs): only the check of an object's fields
-- speaks of missing fields.
use isograph.Prelude.{
  ℕ, Bool, true, false, ◌≡◌, refl, sym, subst, Option, none, some, get_elem?, if◌then◌else◌, ◌==◌,
}
use isograph.Lang.Outcome.{ok, err, panic, ◌>>=◌}
use isograph.Lang.BaseTypes.{scalar, object}
use isograph.Lang.Location.{Location}
use isograph.Lang.GraphqlType
use isograph.Lang.GraphqlType.{
  GraphqlTypeAnnotation, named, list, non_null, non_null_named, non_null_list, is_nullable,
}
use isograph.Lang.GraphqlLaws.{rebuilt, and_then_lem}
use isograph.Arguments.Schema.{
  ServerEntityId, ServerEntityData, expect, server_scalar_entity, server_object_entity,
}
use isograph.Arguments.Subtype.{graphql_type_to_non_null_type}
use isograph.Arguments.Validate.{
  ValidateArgumentTypesError, expected_type_found_variable, expected_type_found_scalar,
  expected_type_found_object, expected_type_found_list, expected_non_null_type_found_null,
  expected_type_found_enum, used_undefined_variable, missing_fields, extraneous_fields, Checked,
  type_name, id_annotation_to_typename_annotation, expected_scalar, scalar_literal_satisfies_type,
  or_else,
}

abbrev pub is_missing : ValidateArgumentTypesError → Bool
is_missing (missing_fields names) = true
is_missing (expected_type_found_variable a b c) = false
is_missing (expected_type_found_scalar a b) = false
is_missing (expected_type_found_object a) = false
is_missing (expected_type_found_list a) = false
is_missing (expected_non_null_type_found_null a) = false
is_missing (expected_type_found_enum a b) = false
is_missing (used_undefined_variable a) = false
is_missing (extraneous_fields a) = false

-- A result, if there is one, satisfies the predicate, and an error is not about missing fields.
abbrev pub Yields : {A : Type 0} → (A → Type 0) → Checked A → Type 0
Yields P (ok a) = P a
Yields P (err e) = is_missing e.item ≡ false
Yields P panic = Unit

abbrev pub Any : {A : Type 0} → A → Type 0
Any a = Unit

pub Yields-bind :
    {A B : Type 0} (P : A → Type 0) (Q : B → Type 0) (r : Checked A) (f : A → Checked B)
    → Yields P r
    → ((a : A) → P a → Yields Q (f a))
    → Yields Q (r >>= f)
Yields-bind P Q (ok a) f h g = g a h
Yields-bind P Q (err e) f h g = h
Yields-bind P Q panic f h g = tt

pub Yields-expect : {A : Type 0} (o : Option A) → Yields Any (expect o)
Yields-expect none = tt
Yields-expect (some a) = tt

pub Yields-or_else :
    {A : Type 0} (data_ : ServerEntityData) (r r' : Checked A)
    → Yields Any r
    → Yields Any r'
    → Yields Any (or_else data_ r r')
unfolding or_else
Yields-or_else data_ (ok a) r' h h' = tt
Yields-or_else data_ (err e) (ok a) h h' = tt
Yields-or_else data_ (err e) (err e') h h' = h
Yields-or_else data_ (err e) panic h h' = tt
Yields-or_else data_ panic r' h h' = tt

pub if_other :
    {A : Type 0} (b : Bool) (r r' : Checked A)
    → Yields Any r
    → Yields Any r'
    → Yields Any (if b then r else r')
if_other true r r' h h' = h
if_other false r r' h h' = h'

module _ (data_ : ServerEntityData) where
  type_name_other : (id : ServerEntityId) → Yields Any (type_name data_ id)
  unfolding type_name server_scalar_entity server_object_entity
  type_name_other (scalar id) =
      Yields-bind Any Any (expect (get_elem? data_.server_scalars id)) (λ e. ok e.name.item)
        (Yields-expect (get_elem? data_.server_scalars id)) (λ e u. tt)
  type_name_other (object id) =
      Yields-bind Any Any (expect (get_elem? data_.server_objects id)) (λ e. ok e.name)
        (Yields-expect (get_elem? data_.server_objects id)) (λ e u. tt)

  rebuilt_other :
      (t : GraphqlTypeAnnotation ServerEntityId) (r : Checked ℕ)
      → Yields Any r
      → Yields Any (rebuilt t r)
  rebuilt_other t (ok a) h = tt
  rebuilt_other t (err e) h = h
  rebuilt_other t panic h = tt

  pub annotation_other :
      (t : GraphqlTypeAnnotation ServerEntityId)
      → Yields Any (id_annotation_to_typename_annotation data_ t)
  unfolding id_annotation_to_typename_annotation
  annotation_other t =
      subst (λ r. Yields Any r) (sym (and_then_lem (type_name data_) t))
        (rebuilt_other t (type_name data_ (GraphqlType.inner t))
          (type_name_other (GraphqlType.inner t)))

  -- An error that names the expected type.
  pub expected_other :
      {A : Type 0} (t : GraphqlTypeAnnotation ServerEntityId)
      (f : GraphqlTypeAnnotation ℕ → Checked A)
      → ((u : GraphqlTypeAnnotation ℕ) → Yields Any (f u))
      → Yields Any (id_annotation_to_typename_annotation data_ t >>= f)
  expected_other t f h =
      Yields-bind Any Any (id_annotation_to_typename_annotation data_ t) f (annotation_other t)
        (λ u x. h u)

  expected_scalar_other :
      (id : ℕ) (t : GraphqlTypeAnnotation ServerEntityId) (location : Location)
      → Yields Any (expected_scalar data_ id t location)
  unfolding expected_scalar server_scalar_entity
  expected_scalar_other id t location =
      Yields-bind Any Any (expect (get_elem? data_.server_scalars id))
        (λ actual. id_annotation_to_typename_annotation data_ t >>= (λ expected. err (record {
          item = expected_type_found_scalar expected actual.name.item;
          location = location;
        })))
        (Yields-expect (get_elem? data_.server_scalars id))
        (λ actual x.
          expected_other t
            (λ expected. err (record {
              item = expected_type_found_scalar expected actual.name.item;
              location = location;
            }))
            (λ u. refl))

  abbrev scalar_by :
      ℕ → GraphqlTypeAnnotation ServerEntityId → Location → ServerEntityId → Checked (Unit {0})
  scalar_by id t location (scalar e) =
      if e == id then ok tt else expected_scalar data_ id t location
  scalar_by id t location (object o) = expected_scalar data_ id t location

  scalar_by_other :
      (id : ℕ) (t : GraphqlTypeAnnotation ServerEntityId) (location : Location) (e : ServerEntityId)
      → Yields Any (scalar_by id t location e)
  scalar_by_other id t location (scalar e) =
      if_other (e == id) (ok tt) (expected_scalar data_ id t location) tt
        (expected_scalar_other id t location)
  scalar_by_other id t location (object o) = expected_scalar_other id t location

  pub scalar_other :
      (id : ℕ) (t : GraphqlTypeAnnotation ServerEntityId) (location : Location)
      → Yields Any (scalar_literal_satisfies_type data_ id t location)
  unfolding scalar_literal_satisfies_type graphql_type_to_non_null_type
  scalar_other id (named n) location = scalar_by_other id (named n) location n.item
  scalar_other id (list l) location = expected_scalar_other id (list l) location
  scalar_other id (non_null (non_null_named n)) location =
      scalar_by_other id (non_null (non_null_named n)) location n.item
  scalar_other id (non_null (non_null_list l)) location =
      expected_scalar_other id (non_null (non_null_list l)) location
