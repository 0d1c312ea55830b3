-- ===== src/Lang/GraphqlType.antt =====
-- GraphQL's type annotations: crates/graphql_lang_types/src/graphql_type_annotation.rs. The two
-- newtypes `GraphQLNamedTypeAnnotation` and `GraphQLListTypeAnnotation` stand for what they wrap.
use isograph.Prelude.{Bool, true, false, Option, none, some}
use isograph.Lang.Outcome.{Outcome, ok, ◌>>=◌}
use isograph.Lang.Span
use isograph.Lang.Span.{WithSpan}

abbrev pub GraphqlNamedTypeAnnotation {ℓ} : Type ℓ → Type ℓ
GraphqlNamedTypeAnnotation T = WithSpan T

mutual
  pub data GraphqlTypeAnnotation {ℓ} (T : Type ℓ) : Type ℓ where
    named : WithSpan T → GraphqlTypeAnnotation T
    list : GraphqlTypeAnnotation T → GraphqlTypeAnnotation T
    non_null : GraphqlNonNullTypeAnnotation T → GraphqlTypeAnnotation T

  pub data GraphqlNonNullTypeAnnotation {ℓ} (T : Type ℓ) : Type ℓ where
    non_null_named : WithSpan T → GraphqlNonNullTypeAnnotation T
    non_null_list : GraphqlTypeAnnotation T → GraphqlNonNullTypeAnnotation T

module _ {ℓ} {T : Type ℓ} where
  unfoldable mutual
    pub inner : GraphqlTypeAnnotation T → T
    inner (named n) = n.item
    inner (list l) = inner l
    inner (non_null n) = non_null_inner n

    pub non_null_inner : GraphqlNonNullTypeAnnotation T → T
    non_null_inner (non_null_named n) = n.item
    non_null_inner (non_null_list l) = inner l

  unfoldable mutual
    pub span : GraphqlTypeAnnotation T → Span.Span
    span (named n) = n.span
    span (list l) = span l
    span (non_null n) = non_null_span n

    pub non_null_span : GraphqlNonNullTypeAnnotation T → Span.Span
    non_null_span (non_null_named n) = n.span
    non_null_span (non_null_list l) = span l

  unfoldable pub inner_non_null_named_type :
      GraphqlTypeAnnotation T → Option (GraphqlNamedTypeAnnotation T)
  inner_non_null_named_type (named n) = none
  inner_non_null_named_type (list l) = none
  inner_non_null_named_type (non_null (non_null_named n)) = some n
  inner_non_null_named_type (non_null (non_null_list l)) = none

  unfoldable pub is_nullable : GraphqlTypeAnnotation T → Bool
  is_nullable (named n) = true
  is_nullable (list l) = true
  is_nullable (non_null n) = false

module _ {ℓ κ} {T : Type ℓ} {U : Type κ} where
  unfoldable mutual
    pub map : (T → U) → GraphqlTypeAnnotation T → GraphqlTypeAnnotation U
    map f (named n) = named (Span.map f n)
    map f (list l) = list (map f l)
    map f (non_null n) = non_null (non_null_map f n)

    pub non_null_map : (T → U) → GraphqlNonNullTypeAnnotation T → GraphqlNonNullTypeAnnotation U
    non_null_map f (non_null_named n) = non_null_named (Span.map f n)
    non_null_map f (non_null_list l) = non_null_list (map f l)

  unfoldable mutual
    pub and_then {μ} :
        {E : Type μ}
        → (T → Outcome E U)
        → GraphqlTypeAnnotation T
        → Outcome E (GraphqlTypeAnnotation U)
    and_then f (named n) = Span.and_then f n >>= (λ m. ok (named m))
    and_then f (list l) = and_then f l >>= (λ m. ok (list m))
    and_then f (non_null n) = non_null_and_then f n >>= (λ m. ok (non_null m))

    pub non_null_and_then {μ} :
        {E : Type μ}
        → (T → Outcome E U)
        → GraphqlNonNullTypeAnnotation T
        → Outcome E (GraphqlNonNullTypeAnnotation U)
    non_null_and_then f (non_null_named n) = Span.and_then f n >>= (λ m. ok (non_null_named m))
    non_null_and_then f (non_null_list l) = and_then f l >>= (λ m. ok (non_null_list m))
