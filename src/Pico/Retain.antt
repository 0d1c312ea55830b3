-- ===== src/Pico/Retain.antt =====
-- Retained queries: crates/pico/src/retained_query.rs.
use isograph.Prelude.{
  ℕ, zero, suc, ◌-◌, ◌==◌, ==_refl, ==_iff, true, false, if_true, if_false, ◌+◌, ◌<◌, ◌^◌, Option,
  none, some, ◌≡◌, ◌≢◌, refl, ◌∙◌, subst, inl, inr, arith, Bool-cases, Option-cases,
}
use isograph.Pico.State.{ok, DerivedNodeId, Database, update, erase_entry}
use isograph.Pico.Collect.{RetainedQuery, retain, clear_retain}

abbrev count_of : Option ℕ → ℕ
count_of none = 0
count_of (some count) = count

-- The counts after a query is cleared, where there were `count`.
abbrev lowered : (DerivedNodeId → Option ℕ) → DerivedNodeId → ℕ → DerivedNodeId → Option ℕ
lowered calls id count = elim (count - 1 == 0) [
  | true ↦ erase_entry calls id
  | false ↦ update calls id (count - 1)
]

lowered_self :
    (calls : DerivedNodeId → Option ℕ) (id : DerivedNodeId) (o : Option ℕ)
    → o ≢ some 0
    → lowered calls id (suc (count_of o)) id ≡ o
lowered_self calls id none positive = if_true _ _ (==_refl id)
lowered_self calls id (some zero) positive = absurd (positive refl)
lowered_self calls id (some (suc count)) positive = ground (arith, ==_refl id)

lowered_other :
    (calls : DerivedNodeId → Option ℕ) (id j : DerivedNodeId) (count : ℕ)
    → (id == j) ≡ false
    → lowered calls id count j ≡ calls j
lowered_other calls id j count other = elim (Bool-cases (count - 1 == 0)) [
  | inl e ↦ ground (arith, e, other)
  | inr e ↦ ground (arith, e, other)
]

module _ {V : Type 0} (db : Database V) (id : DerivedNodeId) where
  abbrev query : RetainedQuery
  query = record { derived_node_id = id; cleared = false }

  -- The database after the function is retained once more.
  abbrev raised : Database V
  raised = record db {
    retained_calls = update db.retained_calls id (suc (count_of (db.retained_calls id)));
  }

  retained : count_of (db.retained_calls id) + 1 < 2 ^ 64 → retain db id ≡ ok (query, raised)
  unfolding retain
  retained bound = elim (Option-cases (db.retained_calls id)) [
    | inl e ↦ ground (arith, e)
    | inr (count, e) ↦ ground (arith, e, bound)
  ]

  cleared :
      clear_retain raised query
      ≡ ok (
        record query { cleared = true },
        record raised {
          retained_calls = lowered raised.retained_calls id (suc (count_of (db.retained_calls id)));
        },
      )
  unfolding clear_retain
  cleared = ground (arith, ==_refl id)

  -- A query is retained and then cleared without a panic, and every count of retained calls is as it
  -- was, that of the query's own function too, where this count was not 0 and one more fits 64 bits.
  pub clear_retain-retain :
      db.retained_calls id ≢ some 0
      → count_of (db.retained_calls id) + 1 < 2 ^ 64
      → (query' : RetainedQuery) × ((db1 : Database V) × ((db2 : Database V) × ((retain db id
                ≡ ok (query', db1))
              × ((clear_retain db1 query'
                    ≡ ok (record { derived_node_id = id; cleared = true }, db2))
                  × ((j : DerivedNodeId) → db2.retained_calls j ≡ db.retained_calls j)))))
  clear_retain-retain positive bound = (
    query,
    (
      raised,
      (
        _,
        (
          retained bound,
          (
            cleared,
            λ j. elim (Bool-cases (id == j)) [
              | inl same ↦
                  subst
                    (λ k.
                      lowered raised.retained_calls id (suc (count_of (db.retained_calls id))) k
                      ≡ db.retained_calls k)
                    ((==_iff id j).0 same)
                    (lowered_self raised.retained_calls id (db.retained_calls id) positive)
              | inr other ↦ lowered_other raised.retained_calls id j _ other ∙ if_false _ _ other
            ],
          ),
        ),
      ),
    ),
  )
