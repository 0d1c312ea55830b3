-- ===== src/Pico/SetSource.antt =====
-- `set_source` and `remove_source` of crates/pico/src/database.rs keep the invariant.
use isograph.Prelude.{
  ◌+◌, ◌^◌, ◌≤◌, ◌<◌, ◌≡◌, ◌≢◌, inl, inr, Bool, Option, none, some, [], ◌∷◌, ◌++◌, length,
  get_elem?, get_elem?-append, get_elem?-append_length, index_lt, ◌==◌, ==_iff, ne_of_==,
  Bool-cases, Option-cases, refl, sym, subst, ◌∙◌, arith,
}
use isograph.Pico.State.{
  ParamId, ok, Epoch, increment, Key, Index, DerivedNodeId, InnerFn, SourceNode, DatabaseStorage,
  Program, update,
}
use isograph.Pico.Storage.{
  get_source_node, get_param, set_source, overwrite_source, add_source, insert_source_node,
}
use isograph.Pico.Spec.{Evaluates, Client}
use isograph.Pico.Invariant.{Entry, stored, HasSources, HasValue, SourceGood, IsValid}
use isograph.Pico.Inputs.{Idle, put, put_next, with_source, inputs_changed}
use isograph.Pico.Sources.{key_state, good_other, good_self, extension, write_slot, slot-IsValid}

module _ {V : Type 0} {dyn_eq : V → V → Bool} {code : InnerFn → DerivedNodeId → Program V}
    (c : Client dyn_eq code) (hist : Epoch → Key → Option V) (now : Epoch) where
  -- Every stored function still has a value when the sources are those of `f`.
  abbrev pub StillTotal : DatabaseStorage V → (Key → Option V) → Type 0
  StillTotal s f =
      (id : DerivedNodeId) (e : Entry V)
      → stored s id ≡ some e
      → (a : V) × Evaluates code c.param_value f (code (c.fn_of id) id) a

  pub total_at :
      (s : DatabaseStorage V) (next : Epoch) (key : Key) (o : Option V)
      → StillTotal s (with_source (hist now) key o)
      → (id : DerivedNodeId) (e : Entry V) → stored s id ≡ some e
      → (a : V) × HasValue c (put hist now next key o) next id a
  total_at s next key o total id e found =
      let (a, h) = total id e found in
      (
        a,
        subst (λ f. Evaluates code c.param_value f (code (c.fn_of id) id) a)
            (sym (put_next hist now next key o)) h,
      )

  module _ (s : DatabaseStorage V) (key : Key) (value : V) (valid : IsValid c hist now Idle s)
      (missing : s.source_node_key_to_index key ≡ none) (absent : hist now key ≡ none) where
    abbrev added : DatabaseStorage V
    added = record s {
      source_nodes =
          s.source_nodes ++ some (record { time_updated = s.current_epoch; value = value }) ∷ [];
      source_node_key_to_index = update s.source_node_key_to_index key (length s.source_nodes);
    }

    added_self :
        get_source_node added key
        ≡ ok (some (record { time_updated = s.current_epoch; value = value }))
    unfolding get_source_node
    added_self = ground (
      arith,
      get_elem?-append_length s.source_nodes
          (some (record { time_updated = s.current_epoch; value = value })),
    )

    added_other : (k : Key) → key ≢ k → get_source_node added k ≡ get_source_node s k
    unfolding get_source_node
    added_other k ne = elim (Option-cases (s.source_node_key_to_index k)) [
      | inl none_there ↦ ground arith
      | inr (i, there) ↦
          let (node, at) = valid.source_table.points k i there in
          ground (
            arith,
            get_elem?-append s.source_nodes
                (some (record { time_updated = s.current_epoch; value = value }) ∷ []) i at,
          )
    ]

    old_index_lt :
        (k : Key) (i : Index) → s.source_node_key_to_index k ≡ some i → i < length s.source_nodes
    old_index_lt k i there = index_lt s.source_nodes i (valid.source_table.points k i there).1

    added_table : HasSources added.source_node_key_to_index added.source_nodes
    added_table = record {
      points = λ k i there. elim (Bool-cases (key == k)) [
        | inl same ↦ (
          record { time_updated = s.current_epoch; value = value },
          ground (
            arith,
            get_elem?-append_length s.source_nodes
                (some (record { time_updated = s.current_epoch; value = value })),
          ),
        )
        | inr other ↦
            let (node, at) = valid.source_table.points k i (ground arith) in
            (
              node,
              get_elem?-append s.source_nodes
                  (some (record { time_updated = s.current_epoch; value = value }) ∷ []) i at,
            )
      ];
      apart = λ k k' i there there'. elim (Bool-cases (key == k)) [
        | inl a ↦ elim (Bool-cases (key == k')) [
          | inl b ↦ sym ((==_iff key k).0 a) ∙ (==_iff key k').0 b
          | inr b ↦
              let old = old_index_lt k' i (ground arith) in
              let eq : length s.source_nodes ≡ i = ground arith in absurd (omega arith)
        ]
        | inr a ↦ elim (Bool-cases (key == k')) [
          | inl b ↦
              let old = old_index_lt k i (ground arith) in
              let eq : length s.source_nodes ≡ i = ground arith in absurd (omega arith)
          | inr b ↦ valid.source_table.apart k k' i (ground arith) (ground arith)
        ]
      ];
    }

    added-IsValid :
        StillTotal s (with_source (hist now) key (some value))
        → IsValid c (put hist now s.current_epoch key (some value)) s.current_epoch Idle added
    unfolding stored get_param
    added-IsValid total =
        let le : now ≤ s.current_epoch = omega (arith, valid.epoch) in
        let step : s.current_epoch ≤ now + 1 = omega (arith, valid.epoch) in
        inputs_changed c hist (put hist now s.current_epoch key (some value)) now s.current_epoch s
          added valid (λ id. refl) (λ id. refl) valid.indices le
          (extension c hist now s.current_epoch key (some value) le
            (λ e a h. absurd (ground arith)))
          refl
          (λ k. elim (Bool-cases (key == k)) [
            | inl same ↦
                subst
                  (λ x.
                    (o : Option (SourceNode V)) × (get_source_node added x ≡ ok o)
                    × SourceGood c (put hist now s.current_epoch key (some value)) s.current_epoch x
                        o)
                  ((==_iff key k).0 same)
                  (
                    _,
                    added_self,
                    good_self c hist now s.current_epoch key (some value) le value refl,
                  )
            | inr other ↦
                let ne = ne_of_== key k other in
                let (o, e, good) = valid.sources k in
                (
                  o,
                  added_other k ne ∙ e,
                  good_other c hist now s.current_epoch key (some value) le k o step ne good,
                )
          ])
          added_table (total_at s s.current_epoch key (some value) total)

  -- What `set_source` leaves: the new source, the nodes as they were, the invariant.
  abbrev pub SourceWasSet : DatabaseStorage V → Key → V → Type 0
  SourceWasSet s key value =
      (next : Epoch) × (s' : DatabaseStorage V) × (set_source dyn_eq s key value ≡ ok s')
      × (now ≤ next)
      × (next ≤ now + 1)
      × IsValid c (put hist now next key (some value)) next Idle s'
      × ((id : DerivedNodeId) → stored s' id ≡ stored s id)
      × ((q : ParamId) → get_param s' q ≡ get_param s q)

  set_present :
      (s : DatabaseStorage V) (key : Key) (value : V) (index : Index) (old : SourceNode V)
      → IsValid c hist now Idle s
      → now + 1 < 2 ^ 64
      → StillTotal s (with_source (hist now) key (some value))
      → s.source_node_key_to_index key ≡ some index
      → get_elem? s.source_nodes index ≡ some (some old)
      → hist now key ≡ some old.value
      → SourceWasSet s key value
  unfolding set_source overwrite_source increment stored get_param
  set_present s key value index old valid bound total found slot has =
      elim (Bool-cases (dyn_eq old.value value)) [
        | inl same ↦
            let eq : old.value ≡ value = c.dyn_eq_sound old.value value same in
            (
              s.current_epoch,
              write_slot c hist now s index s.current_epoch old.value,
              ground arith,
              omega (arith, valid.epoch),
              omega (arith, valid.epoch),
              subst
                  (λ v.
                    IsValid c (put hist now s.current_epoch key (some v)) s.current_epoch Idle
                      (write_slot c hist now s index s.current_epoch old.value))
                  eq
                  (slot-IsValid c hist now s key index old old.value s.current_epoch valid found
                    slot (omega (arith, valid.epoch)) (omega (arith, valid.epoch))
                    (λ e a h. sym has ∙ h)
                    (total_at s s.current_epoch key (some old.value) (
                      subst (λ v. StillTotal s (with_source (hist now) key (some v))) (sym eq)
                        total))),
              λ id. refl,
              λ q. refl,
            )
        | inr differs ↦ (
          now + 1,
          write_slot c hist now s index (now + 1) value,
          ground (arith, valid.epoch),
          omega arith,
          omega arith,
          slot-IsValid c hist now s key index old value (now + 1) valid found slot (omega arith)
              (omega arith) (λ e a h. absurd (omega arith))
              (total_at s (now + 1) key (some value) total),
          λ id. refl,
          λ q. refl,
        )
      ]

  -- The storage is still valid after a source is set, for the history in which the source has its new
  -- value from the storage's epoch on. That epoch is the old one or the next, and no stored node and no
  -- parameter is touched. The storage was valid, the epoch does not overflow, and every stored function
  -- still has a value over the new sources.
  pub set_source-IsValid :
      (s : DatabaseStorage V) (key : Key) (value : V)
      → IsValid c hist now Idle s
      → now + 1 < 2 ^ 64
      → StillTotal s (with_source (hist now) key (some value))
      → SourceWasSet s key value
  unfolding set_source add_source insert_source_node stored get_param
  set_source-IsValid s key value valid bound total = elim (key_state c hist now Idle s key valid) [
    | inr (index, old, found, slot, has) ↦
        set_present s key value index old valid bound total found slot has
    | inl (missing, absent) ↦ (
      s.current_epoch,
      added s key value valid missing absent,
      ground arith,
      omega (arith, valid.epoch),
      omega (arith, valid.epoch),
      added-IsValid s key value valid missing absent total,
      λ id. refl,
      λ q. refl,
    )
  ]
