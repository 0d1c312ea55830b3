-- ===== src/Lang/IsographLaws.antt =====
-- The passage between the two kinds of type annotation
-- (crates/isograph_lang_types/src/isograph_type_annotation.rs).
use isograph.Prelude.{◌≡◌, refl, some, true, Ordering}
use isograph.Lang.GraphqlType
use isograph.Lang.GraphqlType.{
  GraphqlTypeAnnotation, GraphqlNonNullTypeAnnotation, named, list, non_null, non_null_named,
  non_null_list, is_nullable,
}
use isograph.Lang.IsographType.{
  blank, new_nullable, from_graphql_type_annotation, from_non_null_type_annotation, inner,
  inner_variant, inner_union, insert, map, map_variant, map_variants,
  graphql_type_annotation_from_type_annotation, graphql_type_annotation_from_union_variant,
  nullable_variant,
}

-- A type with every `!` and every position taken out.
module _ {ℓ} {T : Type ℓ} where
  abbrev mutual
    pub erase : GraphqlTypeAnnotation T → GraphqlTypeAnnotation T
    erase (named n) = named (blank n.item)
    erase (list l) = list (erase l)
    erase (non_null n) = erase_non_null n

    pub erase_non_null : GraphqlNonNullTypeAnnotation T → GraphqlTypeAnnotation T
    erase_non_null (non_null_named n) = named (blank n.item)
    erase_non_null (non_null_list l) = list (erase l)

  mutual
    unfolding inner inner_variant inner_union from_graphql_type_annotation
        from_non_null_type_annotation new_nullable GraphqlType.inner GraphqlType.non_null_inner

    pub inner-from_graphql :
        (t : GraphqlTypeAnnotation T)
        → inner (from_graphql_type_annotation t) ≡ some (GraphqlType.inner t)
    inner-from_graphql (named n) = refl
    inner-from_graphql (list l) = inner-from_graphql l
    inner-from_graphql (non_null n) = inner-from_non_null n

    inner-from_non_null :
        (t : GraphqlNonNullTypeAnnotation T)
        → inner (from_non_null_type_annotation t) ≡ some (GraphqlType.non_null_inner t)
    inner-from_non_null (non_null_named n) = refl
    inner-from_non_null (non_null_list l) = inner-from_graphql l

  mutual
    unfolding graphql_type_annotation_from_type_annotation nullable_variant
        graphql_type_annotation_from_union_variant from_graphql_type_annotation
        from_non_null_type_annotation new_nullable

    back :
        (t : GraphqlTypeAnnotation T)
        → graphql_type_annotation_from_type_annotation (from_graphql_type_annotation t)
          ≡ some (erase t)
    back (named n) = refl
    back (list l) = rw (back l) refl
    back (non_null n) = back_non_null n

    back_non_null :
        (t : GraphqlNonNullTypeAnnotation T)
        → graphql_type_annotation_from_type_annotation (from_non_null_type_annotation t)
          ≡ some (erase_non_null t)
    back_non_null (non_null_named n) = refl
    back_non_null (non_null_list l) = rw (back l) refl

  is_nullable-erase : (t : GraphqlTypeAnnotation T) → is_nullable (erase t) ≡ true
  unfolding is_nullable
  is_nullable-erase (named n) = refl
  is_nullable-erase (list l) = refl
  is_nullable-erase (non_null (non_null_named n)) = refl
  is_nullable-erase (non_null (non_null_list l)) = refl

  -- A GraphQL type that is turned into Isograph's form and back has lost every `!`, at every
  -- depth, beside its positions: the result is nullable even where the type was not.
  pub graphql-from_graphql :
      (t : GraphqlTypeAnnotation T)
      → (graphql_type_annotation_from_type_annotation (from_graphql_type_annotation t)
          ≡ some (erase t))
        × (is_nullable (erase t) ≡ true)
  graphql-from_graphql t = (back t, is_nullable-erase t)

module _ {ℓ κ} {T : Type ℓ} {U : Type κ} (cmp : U → U → Ordering) (f : T → U) where
  mutual
    unfolding map map_variant map_variants insert from_graphql_type_annotation
        from_non_null_type_annotation new_nullable GraphqlType.map GraphqlType.non_null_map

    pub maps :
        (t : GraphqlTypeAnnotation T)
        → map cmp f (from_graphql_type_annotation t)
          ≡ from_graphql_type_annotation (GraphqlType.map f t)
    maps (named n) = refl
    maps (list l) = rw (maps l) refl
    maps (non_null n) = maps_non_null n

    maps_non_null :
        (t : GraphqlNonNullTypeAnnotation T)
        → map cmp f (from_non_null_type_annotation t)
          ≡ from_non_null_type_annotation (GraphqlType.non_null_map f t)
    maps_non_null (non_null_named n) = refl
    maps_non_null (non_null_list l) = rw (maps l) refl
