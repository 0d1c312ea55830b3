-- ===== src/Arguments/Belongs.antt =====
-- What belongs to a type in Isograph's form
-- (crates/isograph_lang_types/src/isograph_type_annotation.rs).
use isograph.Prelude.{Bool, true, false, ◌&&◌, ◌||◌, Ordering, ◌≡◌, refl, ap, ◌∙◌}
use isograph.Lang.GraphqlType
use isograph.Lang.GraphqlType.{
  GraphqlTypeAnnotation, GraphqlNonNullTypeAnnotation, named, list, non_null, non_null_named,
  non_null_list,
}
use isograph.Lang.IsographType.{
  TypeAnnotation, UnionVariant, UnionVariants, scalar, union, plural, scalar_variant,
  plural_variant, new_nullable, from_graphql_type_annotation, from_non_null_type_annotation, map,
}
use isograph.Lang.IsographLaws.{maps}
use isograph.Arguments.Schema.{ServerEntityId}
use isograph.Arguments.Subtype.{
  Datum, Data, absent, leaf, items, has_type, all_items, leaf_is, items_are, same_entity,
}

abbrev is_absent : Datum → Bool
is_absent absent = true
is_absent (leaf x) = false
is_absent (items ds) = false

-- Nothing belongs to a union that is nullable, and whatever belongs to one of its variants.
abbrev mutual
  pub belongs : TypeAnnotation ServerEntityId → Datum → Bool
  belongs (scalar s) d = leaf_is s false d
  belongs (plural t) d = items_are (λ x. belongs t x) false d
  belongs (union variants nullable) d = (nullable && is_absent d) || belongs_to_any variants d

  pub belongs_to_variant : UnionVariant ServerEntityId → Datum → Bool
  belongs_to_variant (scalar_variant s) d = leaf_is s false d
  belongs_to_variant (plural_variant t) d = items_are (λ x. belongs t x) false d

  pub belongs_to_any : UnionVariants ServerEntityId → Datum → Bool
  belongs_to_any UnionVariants.nil d = false
  belongs_to_any (UnionVariants.cons v vs) d = belongs_to_variant v d || belongs_to_any vs d

all_items-same :
    (f g : Datum → Bool) → ((d : Datum) → f d ≡ g d) → (ds : Data) → all_items f ds ≡ all_items g ds
all_items-same f g same Data.nil = refl
all_items-same f g same (Data.cons d ds) = rw (same d, all_items-same f g same ds) refl

or_false : (b : Bool) → b || false ≡ b
or_false true = refl
or_false false = refl

leaf_or_nothing :
    (e : ServerEntityId) (d : Datum)
    → (true && is_absent d) || (leaf_is e false d || false) ≡ leaf_is e true d
leaf_or_nothing e absent = refl
leaf_or_nothing e (leaf x) = or_false (same_entity x e)
leaf_or_nothing e (items ds) = refl

items_same :
    (f g : Datum → Bool)
    → ((d : Datum) → f d ≡ g d)
    → (d : Datum) → items_are f false d ≡ items_are g false d
items_same f g same absent = refl
items_same f g same (leaf x) = refl
items_same f g same (items ds) = all_items-same f g same ds

items_or_nothing :
    (f g : Datum → Bool)
    → ((d : Datum) → f d ≡ g d)
    → (d : Datum) → (true && is_absent d) || (items_are f false d || false) ≡ items_are g true d
items_or_nothing f g same absent = refl
items_or_nothing f g same (leaf x) = refl
items_or_nothing f g same (items ds) = or_false (all_items f ds) ∙ all_items-same f g same ds

mutual
  unfolding from_graphql_type_annotation from_non_null_type_annotation new_nullable

  belongs-from_graphql :
      (t : GraphqlTypeAnnotation ServerEntityId) (d : Datum)
      → belongs (from_graphql_type_annotation t) d ≡ has_type t d
  belongs-from_graphql (named n) d = leaf_or_nothing n.item d
  belongs-from_graphql (list l) d =
      items_or_nothing (λ x. belongs (from_graphql_type_annotation l) x) (λ x. has_type l x)
        (λ x. belongs-from_graphql l x) d
  belongs-from_graphql (non_null n) d = belongs-from_non_null n d

  belongs-from_non_null :
      (t : GraphqlNonNullTypeAnnotation ServerEntityId) (d : Datum)
      → belongs (from_non_null_type_annotation t) d ≡ has_type (non_null t) d
  belongs-from_non_null (non_null_named n) d = refl
  belongs-from_non_null (non_null_list l) d =
      items_same (λ x. belongs (from_graphql_type_annotation l) x) (λ x. has_type l x)
        (λ x. belongs-from_graphql l x) d

module _ {T : Type 0} (cmp : ServerEntityId → ServerEntityId → Ordering)
    (f : T → ServerEntityId) where
  -- The Isograph form of a GraphQL type, with its names mapped by a function, has the members that
  -- GraphQL gives to the type with the names mapped: nothing exactly where there is no `!`, the values
  -- of the named entity, and lists item by item.
  pub belongs-map-from_graphql :
      (t : GraphqlTypeAnnotation T) (d : Datum)
      → belongs (map cmp f (from_graphql_type_annotation t)) d ≡ has_type (GraphqlType.map f t) d
  belongs-map-from_graphql t d =
      ap (λ u. belongs u d) (maps cmp f t) ∙ belongs-from_graphql (GraphqlType.map f t) d
