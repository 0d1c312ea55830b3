-- ===== src/Lang/GraphqlLaws.antt =====
-- What mapping does to a type annotation (crates/graphql_lang_types/src/graphql_type_annotation.rs).
use isograph.Prelude.{◌≡◌, refl, inl, inr, arith}
use isograph.Lang.Outcome.{Outcome, ok, err, panic, Outcome-cases}
use isograph.Lang.GraphqlType.{
  GraphqlTypeAnnotation, GraphqlNonNullTypeAnnotation, named, list, non_null, non_null_named,
  non_null_list, inner, non_null_inner, span, non_null_span, is_nullable, map, non_null_map,
  and_then, non_null_and_then,
}

module _ {ℓ κ} {T : Type ℓ} {U : Type κ} (f : T → U) where
  mutual
    unfolding inner map non_null_inner non_null_map

    pub inner-map : (t : GraphqlTypeAnnotation T) → inner (map f t) ≡ f (inner t)
    inner-map (named n) = refl
    inner-map (list l) = inner-map l
    inner-map (non_null n) = non_null_inner-map n

    pub non_null_inner-map :
        (t : GraphqlNonNullTypeAnnotation T)
        → non_null_inner (non_null_map f t) ≡ f (non_null_inner t)
    non_null_inner-map (non_null_named n) = refl
    non_null_inner-map (non_null_list l) = inner-map l

  mutual
    unfolding span map non_null_span non_null_map

    pub span-map : (t : GraphqlTypeAnnotation T) → span (map f t) ≡ span t
    span-map (named n) = refl
    span-map (list l) = span-map l
    span-map (non_null n) = non_null_span-map n

    pub non_null_span-map :
        (t : GraphqlNonNullTypeAnnotation T) → non_null_span (non_null_map f t) ≡ non_null_span t
    non_null_span-map (non_null_named n) = refl
    non_null_span-map (non_null_list l) = span-map l

  pub is_nullable-map : (t : GraphqlTypeAnnotation T) → is_nullable (map f t) ≡ is_nullable t
  unfolding is_nullable map
  is_nullable-map (named n) = refl
  is_nullable-map (list l) = refl
  is_nullable-map (non_null n) = refl

-- What a fallible map returns, from what it returns on the type's one name.
abbrev pub rebuilt {ℓ κ μ} :
    {T : Type ℓ} {U : Type κ} {E : Type μ}
    → GraphqlTypeAnnotation T
    → Outcome E U
    → Outcome E (GraphqlTypeAnnotation U)
rebuilt t (ok u) = ok (map (λ x. u) t)
rebuilt t (err e) = err e
rebuilt t panic = panic

abbrev pub non_null_rebuilt {ℓ κ μ} :
    {T : Type ℓ} {U : Type κ} {E : Type μ}
    → GraphqlNonNullTypeAnnotation T
    → Outcome E U
    → Outcome E (GraphqlNonNullTypeAnnotation U)
non_null_rebuilt t (ok u) = ok (non_null_map (λ x. u) t)
non_null_rebuilt t (err e) = err e
non_null_rebuilt t panic = panic

module _ {ℓ κ μ} {T : Type ℓ} {U : Type κ} {E : Type μ} (f : T → Outcome E U) where
  mutual
    unfolding and_then map inner non_null_and_then non_null_map non_null_inner

    rebuilds : (t : GraphqlTypeAnnotation T) → and_then f t ≡ rebuilt t (f (inner t))
    rebuilds (named n) = elim (Outcome-cases (f n.item)) [
      | inl (u, e) ↦ ground arith
      | inr (inl (x, e)) ↦ ground arith
      | inr (inr e) ↦ ground arith
    ]
    rebuilds (list l) = elim (Outcome-cases (f (inner l))) [
      | inl (u, e) ↦ ground (arith, rebuilds l)
      | inr (inl (x, e)) ↦ ground (arith, rebuilds l)
      | inr (inr e) ↦ ground (arith, rebuilds l)
    ]
    rebuilds (non_null n) = elim (Outcome-cases (f (non_null_inner n))) [
      | inl (u, e) ↦ ground (arith, non_null_rebuilds n)
      | inr (inl (x, e)) ↦ ground (arith, non_null_rebuilds n)
      | inr (inr e) ↦ ground (arith, non_null_rebuilds n)
    ]

    non_null_rebuilds :
        (t : GraphqlNonNullTypeAnnotation T)
        → non_null_and_then f t ≡ non_null_rebuilt t (f (non_null_inner t))
    non_null_rebuilds (non_null_named n) = elim (Outcome-cases (f n.item)) [
      | inl (u, e) ↦ ground arith
      | inr (inl (x, e)) ↦ ground arith
      | inr (inr e) ↦ ground arith
    ]
    non_null_rebuilds (non_null_list l) = elim (Outcome-cases (f (inner l))) [
      | inl (u, e) ↦ ground (arith, rebuilds l)
      | inr (inl (x, e)) ↦ ground (arith, rebuilds l)
      | inr (inr e) ↦ ground (arith, rebuilds l)
    ]

  -- `and_then` applies the function once, to the type's inner value: its error is the error of the
  -- whole, and its result takes the inner value's place.
  pub and_then_lem : (t : GraphqlTypeAnnotation T) → and_then f t ≡ rebuilt t (f (inner t))
  and_then_lem t = rebuilds t
