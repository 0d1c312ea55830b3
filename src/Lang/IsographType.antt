-- ===== src/Lang/IsographType.antt =====
-- Isograph's own type annotations: crates/isograph_lang_types/src/isograph_type_annotation.rs. A
-- `BTreeSet` is its list of elements in order; a panic (an empty union) is `none`.
use isograph.Prelude.{Bool, true, false, Option, none, some, Ordering}
use isograph.Lang.Span.{WithSpan, todo_generated}
use isograph.Lang.GraphqlType.{
  GraphqlTypeAnnotation, GraphqlNonNullTypeAnnotation, named, list, non_null, non_null_named,
  non_null_list,
}

-- `union variants nullable` is `Union(UnionTypeAnnotation { variants, nullable })`.
mutual
  pub data TypeAnnotation {ℓ} (T : Type ℓ) : Type ℓ where
    scalar : T → TypeAnnotation T
    union : UnionVariants T → Bool → TypeAnnotation T
    plural : TypeAnnotation T → TypeAnnotation T

  pub data UnionVariant {ℓ} (T : Type ℓ) : Type ℓ where
    scalar_variant : T → UnionVariant T
    plural_variant : TypeAnnotation T → UnionVariant T

  pub data UnionVariants {ℓ} (T : Type ℓ) : Type ℓ where
    nil : UnionVariants T
    cons : UnionVariant T → UnionVariants T → UnionVariants T

module _ {ℓ} {T : Type ℓ} where
  unfoldable pub new_nullable : UnionVariant T → TypeAnnotation T
  new_nullable v = union (cons v nil) true

  unfoldable mutual
    pub from_graphql_type_annotation : GraphqlTypeAnnotation T → TypeAnnotation T
    from_graphql_type_annotation (named n) = new_nullable (scalar_variant n.item)
    from_graphql_type_annotation (list l) =
        new_nullable (plural_variant (from_graphql_type_annotation l))
    from_graphql_type_annotation (non_null n) = from_non_null_type_annotation n

    pub from_non_null_type_annotation : GraphqlNonNullTypeAnnotation T → TypeAnnotation T
    from_non_null_type_annotation (non_null_named n) = scalar n.item
    from_non_null_type_annotation (non_null_list l) = plural (from_graphql_type_annotation l)

  unfoldable mutual
    -- `into_inner` and `inner_non_null` take the same path.
    pub inner : TypeAnnotation T → Option T
    inner (scalar s) = some s
    inner (union variants nullable) = inner_union variants
    inner (plural t) = inner t

    pub inner_variant : UnionVariant T → Option T
    inner_variant (scalar_variant s) = some s
    inner_variant (plural_variant t) = inner t

    pub inner_union : UnionVariants T → Option T
    inner_union nil = none
    inner_union (cons v vs) = inner_variant v

  abbrev pub blank : T → WithSpan T
  blank item = record { item = item; span = todo_generated }

  unfoldable mutual
    pub graphql_type_annotation_from_type_annotation :
        TypeAnnotation T → Option (GraphqlTypeAnnotation T)
    graphql_type_annotation_from_type_annotation (scalar s) = some (named (blank s))
    graphql_type_annotation_from_type_annotation (plural t) =
        elim (graphql_type_annotation_from_type_annotation t) [
          | none ↦ none
          | some g ↦ some (list g)
        ]
    graphql_type_annotation_from_type_annotation (union variants nullable) =
        graphql_type_annotation_from_union_variant variants nullable

    pub graphql_type_annotation_from_union_variant :
        UnionVariants T → Bool → Option (GraphqlTypeAnnotation T)
    graphql_type_annotation_from_union_variant nil nullable = none
    graphql_type_annotation_from_union_variant (cons v vs) true = nullable_variant v
    graphql_type_annotation_from_union_variant (cons v vs) false = non_null_variant v

    pub nullable_variant : UnionVariant T → Option (GraphqlTypeAnnotation T)
    nullable_variant (scalar_variant s) = some (named (blank s))
    nullable_variant (plural_variant t) = elim (graphql_type_annotation_from_type_annotation t) [
      | none ↦ none
      | some g ↦ some (list g)
    ]

    pub non_null_variant : UnionVariant T → Option (GraphqlTypeAnnotation T)
    non_null_variant (scalar_variant s) = some (non_null (non_null_named (blank s)))
    non_null_variant (plural_variant t) = elim (graphql_type_annotation_from_type_annotation t) [
      | none ↦ none
      | some g ↦ some (non_null (non_null_list g))
    ]

-- The order that `derive(Ord)` gives, from that of the inner type, and a set's `insert` by it.
module _ {ℓ} {T : Type ℓ} (cmp : T → T → Ordering) where
  abbrev then_compare : Ordering → Ordering → Ordering
  then_compare Ordering.lt o = Ordering.lt
  then_compare Ordering.eq o = o
  then_compare Ordering.gt o = Ordering.gt

  abbrev compare_nullable : Bool → Bool → Ordering
  compare_nullable false false = Ordering.eq
  compare_nullable false true = Ordering.lt
  compare_nullable true false = Ordering.gt
  compare_nullable true true = Ordering.eq

  unfoldable mutual
    pub compare_type : TypeAnnotation T → TypeAnnotation T → Ordering
    compare_type (scalar a) (scalar b) = cmp a b
    compare_type (scalar a) (union vs n) = Ordering.lt
    compare_type (scalar a) (plural t) = Ordering.lt
    compare_type (union vs n) (scalar b) = Ordering.gt
    compare_type (union vs n) (union ws m) =
        then_compare (compare_variants vs ws) (compare_nullable n m)
    compare_type (union vs n) (plural t) = Ordering.lt
    compare_type (plural t) (scalar b) = Ordering.gt
    compare_type (plural t) (union ws m) = Ordering.gt
    compare_type (plural t) (plural u) = compare_type t u

    pub compare_variant : UnionVariant T → UnionVariant T → Ordering
    compare_variant (scalar_variant a) (scalar_variant b) = cmp a b
    compare_variant (scalar_variant a) (plural_variant u) = Ordering.lt
    compare_variant (plural_variant t) (scalar_variant b) = Ordering.gt
    compare_variant (plural_variant t) (plural_variant u) = compare_type t u

    pub compare_variants : UnionVariants T → UnionVariants T → Ordering
    compare_variants nil nil = Ordering.eq
    compare_variants nil (cons w ws) = Ordering.lt
    compare_variants (cons v vs) nil = Ordering.gt
    compare_variants (cons v vs) (cons w ws) =
        then_compare (compare_variant v w) (compare_variants vs ws)

  unfoldable pub insert : UnionVariant T → UnionVariants T → UnionVariants T
  insert v nil = cons v nil
  insert v (cons w ws) = elim (compare_variant v w) [
    | Ordering.lt ↦ cons v (cons w ws)
    | Ordering.eq ↦ cons w ws
    | Ordering.gt ↦ cons w (insert v ws)
  ]

-- `collect` inserts the mapped variants in the order of the set that is mapped.
module _ {ℓ κ} {T : Type ℓ} {U : Type κ} (cmp : U → U → Ordering) (f : T → U) where
  unfoldable mutual
    pub map : TypeAnnotation T → TypeAnnotation U
    map (scalar s) = scalar (f s)
    map (union variants nullable) = union (map_variants variants nil) nullable
    map (plural t) = plural (map t)

    pub map_variant : UnionVariant T → UnionVariant U
    map_variant (scalar_variant s) = scalar_variant (f s)
    map_variant (plural_variant t) = plural_variant (map t)

    pub map_variants : UnionVariants T → UnionVariants U → UnionVariants U
    map_variants nil done = done
    map_variants (cons v vs) done = map_variants vs (insert cmp (map_variant v) done)
