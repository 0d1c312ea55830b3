-- ===== src/Arguments/Subtype.antt =====
-- Types of variables against types of arguments: `variable_type_satisfies_argument_type` and the
-- two conversions that it uses (crates/isograph_schema/src/validate_argument_types.rs).
use isograph.Prelude.{
  Bool, true, false, ◌&&◌, ◌==◌, ==_iff, ==_refl, ◌≡◌, refl, sym, ap, ◌↔◌, inl, inr, Bool-cases,
  arith,
}
use isograph.Lang.BaseTypes.{scalar, object}
use isograph.Lang.Span.{WithSpan}
use isograph.Lang.GraphqlType.{
  GraphqlTypeAnnotation, GraphqlNonNullTypeAnnotation, named, list, non_null, non_null_named,
  non_null_list,
}
use isograph.Arguments.Schema.{ServerEntityId}

module _ {ℓ} {T : Type ℓ} where
  unfoldable pub graphql_type_to_non_null_type :
      GraphqlTypeAnnotation T → GraphqlNonNullTypeAnnotation T
  graphql_type_to_non_null_type (named n) = non_null_named n
  graphql_type_to_non_null_type (list l) = non_null_list l
  graphql_type_to_non_null_type (non_null n) = n

  unfoldable pub graphql_type_to_nullable_type :
      GraphqlNonNullTypeAnnotation T → GraphqlTypeAnnotation T
  graphql_type_to_nullable_type (non_null_named n) = named n
  graphql_type_to_nullable_type (non_null_list l) = list l

-- The derived `==` of an entity's id.
abbrev pub same_entity : ServerEntityId → ServerEntityId → Bool
same_entity (scalar a) (scalar b) = a == b
same_entity (scalar a) (object b) = false
same_entity (object a) (scalar b) = false
same_entity (object a) (object b) = a == b

unfoldable pub satisfies_list :
    (GraphqlTypeAnnotation ServerEntityId → Bool)
    → GraphqlNonNullTypeAnnotation ServerEntityId
    → Bool
satisfies_list check (non_null_list l) = check l
satisfies_list check (non_null_named n) = false

unfoldable pub satisfies_named :
    GraphqlNonNullTypeAnnotation ServerEntityId → WithSpan ServerEntityId → Bool
satisfies_named (non_null_named n) named_type = same_entity n.item named_type.item
satisfies_named (non_null_list l) named_type = false

-- For two `!` types the code calls itself on the two nullable types: its two clauses for an
-- argument type that is a list, and one that is named, are written out here.
unfoldable pub variable_type_satisfies_argument_type :
    GraphqlTypeAnnotation ServerEntityId → GraphqlTypeAnnotation ServerEntityId → Bool
variable_type_satisfies_argument_type variable_type (list list_type) =
    satisfies_list (λ t. variable_type_satisfies_argument_type t list_type)
      (graphql_type_to_non_null_type variable_type)
variable_type_satisfies_argument_type variable_type (named named_type) =
    satisfies_named (graphql_type_to_non_null_type variable_type) named_type
variable_type_satisfies_argument_type (named n) (non_null argument_type) = false
variable_type_satisfies_argument_type (list l) (non_null argument_type) = false
variable_type_satisfies_argument_type (non_null variable_type)
      (non_null (non_null_list list_type)) =
    satisfies_list (λ t. variable_type_satisfies_argument_type t list_type)
      (graphql_type_to_non_null_type (graphql_type_to_nullable_type variable_type))
variable_type_satisfies_argument_type (non_null variable_type)
      (non_null (non_null_named named_type)) =
    satisfies_named (graphql_type_to_non_null_type (graphql_type_to_nullable_type variable_type))
      named_type

-- What a variable may hold when the query runs: nothing, a value of an entity, or a list.
mutual
  pub data Datum : Type 0 where
    absent : Datum
    leaf : ServerEntityId → Datum
    items : Data → Datum

  pub data Data : Type 0 where
    nil : Data
    cons : Datum → Data → Data

abbrev pub all_items : (Datum → Bool) → Data → Bool
all_items check nil = true
all_items check (cons d ds) = check d && all_items check ds

abbrev pub leaf_is : ServerEntityId → Bool → Datum → Bool
leaf_is e nullable absent = nullable
leaf_is e nullable (leaf x) = same_entity x e
leaf_is e nullable (items ds) = false

abbrev pub items_are : (Datum → Bool) → Bool → Datum → Bool
items_are check nullable absent = nullable
items_are check nullable (leaf x) = false
items_are check nullable (items ds) = all_items check ds

-- What GraphQL says belongs to a type: nothing unless it has a `!`, and lists item by item.
abbrev pub has_type : GraphqlTypeAnnotation ServerEntityId → Datum → Bool
has_type (named n) d = leaf_is n.item true d
has_type (list t) d = items_are (λ x. has_type t x) true d
has_type (non_null (non_null_named n)) d = leaf_is n.item false d
has_type (non_null (non_null_list t)) d = items_are (λ x. has_type t x) false d

same_entity_eq : (a b : ServerEntityId) → same_entity a b ≡ true → a ≡ b
same_entity_eq (scalar a) (scalar b) h = ap scalar ((==_iff a b).0 h)
same_entity_eq (scalar a) (object b) h = absurd cc
same_entity_eq (object a) (scalar b) h = absurd cc
same_entity_eq (object a) (object b) h = ap object ((==_iff a b).0 h)

same_entity_refl : (a : ServerEntityId) → same_entity a a ≡ true
same_entity_refl (scalar a) = ==_refl a
same_entity_refl (object a) = ==_refl a

all_items_mono :
    (f g : Datum → Bool)
    → ((d : Datum) → f d ≡ true → g d ≡ true)
    → (ds : Data) → all_items f ds ≡ true
    → all_items g ds ≡ true
all_items_mono f g h nil e = refl
all_items_mono f g h (cons d ds) e = elim (Bool-cases (f d)) [
  | inl holds ↦ rw (h d holds) (all_items_mono f g h ds (ground arith))
  | inr fails ↦ absurd (ground arith)
]

-- A nullable type takes in all that the same type with a `!` has.
abbrev Implies : Bool → Bool → Type 0
Implies b c = b ≡ true → c ≡ true

items_mono :
    (f g : Datum → Bool) (b c : Bool)
    → Implies b c
    → ((d : Datum) → f d ≡ true → g d ≡ true)
    → (d : Datum) → items_are f b d ≡ true
    → items_are g c d ≡ true
items_mono f g b c le h absent e = le e
items_mono f g b c le h (leaf x) e = absurd cc
items_mono f g b c le h (items ds) e = all_items_mono f g h ds e

leaf_mono :
    (m n : ServerEntityId) (b c : Bool)
    → Implies b c
    → same_entity m n ≡ true
    → (d : Datum) → leaf_is m b d ≡ true
    → leaf_is n c d ≡ true
leaf_mono m n b c le h absent e = le e
leaf_mono m n b c le h (leaf x) e = rw (sym (same_entity_eq m n h)) e
leaf_mono m n b c le h (items ds) e = absurd cc

sound :
    (v a : GraphqlTypeAnnotation ServerEntityId)
    → variable_type_satisfies_argument_type v a ≡ true
    → (d : Datum) → has_type v d ≡ true
    → has_type a d ≡ true
unfolding variable_type_satisfies_argument_type satisfies_list satisfies_named
    graphql_type_to_non_null_type graphql_type_to_nullable_type
sound (named m) (named n) h d e = leaf_mono m.item n.item true true (λ x. x) h d e
sound (list v) (named n) h d e = absurd cc
sound (non_null (non_null_named m)) (named n) h d e =
    leaf_mono m.item n.item false true (λ x. refl) h d e
sound (non_null (non_null_list v)) (named n) h d e = absurd cc
sound (named m) (list a) h d e = absurd cc
sound (list v) (list a) h d e =
    items_mono (λ x. has_type v x) (λ x. has_type a x) true true (λ x. x) (sound v a h) d e
sound (non_null (non_null_named m)) (list a) h d e = absurd cc
sound (non_null (non_null_list v)) (list a) h d e =
    items_mono (λ x. has_type v x) (λ x. has_type a x) false true (λ x. refl) (sound v a h) d e
sound (named m) (non_null a) h d e = absurd cc
sound (list v) (non_null a) h d e = absurd cc
sound (non_null (non_null_named m)) (non_null (non_null_named n)) h d e =
    leaf_mono m.item n.item false false (λ x. x) h d e
sound (non_null (non_null_list v)) (non_null (non_null_named n)) h d e = absurd cc
sound (non_null (non_null_named m)) (non_null (non_null_list a)) h d e = absurd cc
sound (non_null (non_null_list v)) (non_null (non_null_list a)) h d e =
    items_mono (λ x. has_type v x) (λ x. has_type a x) false false (λ x. x) (sound v a h) d e

abbrev Within : GraphqlTypeAnnotation ServerEntityId → GraphqlTypeAnnotation ServerEntityId → Type 0
Within v a = (d : Datum) → has_type v d ≡ true → has_type a d ≡ true

-- One item alone in a list tells what the list's items are.
item-Within :
    (v a : GraphqlTypeAnnotation ServerEntityId)
    → ((ds : Data)
        → all_items (λ x. has_type v x) ds ≡ true
        → all_items (λ x. has_type a x) ds ≡ true)
    → Within v a
item-Within v a h d e =
    let one = h (cons d nil) (rw e refl) in
    elim (Bool-cases (has_type a d)) [ inl holds ↦ holds | inr fails ↦ absurd (ground arith) ]

complete :
    (v a : GraphqlTypeAnnotation ServerEntityId)
    → Within v a
    → variable_type_satisfies_argument_type v a ≡ true
unfolding variable_type_satisfies_argument_type satisfies_list satisfies_named
    graphql_type_to_non_null_type graphql_type_to_nullable_type
complete (named m) (named n) h = h (leaf m.item) (same_entity_refl m.item)
complete (list v) (named n) h = h (items nil) refl
complete (non_null (non_null_named m)) (named n) h = h (leaf m.item) (same_entity_refl m.item)
complete (non_null (non_null_list v)) (named n) h = h (items nil) refl
complete (named m) (list a) h = h (leaf m.item) (same_entity_refl m.item)
complete (list v) (list a) h = complete v a (item-Within v a (λ ds e. h (items ds) e))
complete (non_null (non_null_named m)) (list a) h = h (leaf m.item) (same_entity_refl m.item)
complete (non_null (non_null_list v)) (list a) h =
    complete v a (item-Within v a (λ ds e. h (items ds) e))
complete (named m) (non_null (non_null_named n)) h = h absent refl
complete (named m) (non_null (non_null_list a)) h = h absent refl
complete (list v) (non_null (non_null_named n)) h = h absent refl
complete (list v) (non_null (non_null_list a)) h = h absent refl
complete (non_null (non_null_named m)) (non_null (non_null_named n)) h =
    h (leaf m.item) (same_entity_refl m.item)
complete (non_null (non_null_list v)) (non_null (non_null_named n)) h = h (items nil) refl
complete (non_null (non_null_named m)) (non_null (non_null_list a)) h =
    h (leaf m.item) (same_entity_refl m.item)
complete (non_null (non_null_list v)) (non_null (non_null_list a)) h =
    complete v a (item-Within v a (λ ds e. h (items ds) e))

-- A variable's type is accepted for an argument exactly when everything that the variable may hold
-- belongs to the argument's type.
pub satisfies-Within :
    (v a : GraphqlTypeAnnotation ServerEntityId)
    → (variable_type_satisfies_argument_type v a ≡ true)
      ↔ ((d : Datum) → has_type v d ≡ true → has_type a d ≡ true)
satisfies-Within v a = (sound v a, complete v a)
