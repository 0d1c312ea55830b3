-- ===== src/Pico/Sources.antt =====
-- What `set_source` and `remove_source` of crates/pico/src/database.rs do to the sources, and
-- that they keep the invariant.
use native.Mathlib.Nat.{le_refl, le_trans}
use isograph.Prelude.{
  ◌+◌, ◌≤◌, ◌≡◌, ◌≢◌, ◌⊎◌, inl, inr, Bool, Option, none, some, set, get_elem?, get_elem?-set_found,
  get_elem?-set_other, ◌==◌, ==_iff, ne_of_==, Bool-cases, Option-cases, refl, sym, ap, subst,
  if_true, if_false, ◌∙◌, arith,
}
use isograph.Pico.State.{
  ok, Epoch, Key, Index, DerivedNodeId, InnerFn, SourceNode, DatabaseStorage, Program,
}
use isograph.Pico.Storage.{get_source_node, get_param}
use isograph.Pico.Spec.{Client}
use isograph.Pico.Invariant.{Entry, stored, HasSources, HasValue, SourceGood, IsValid}
use isograph.Pico.Inputs.{Idle, put, put_next, put_other, with_source, IsExtension, inputs_changed}

module _ {V : Type 0} {dyn_eq : V → V → Bool} {code : InnerFn → DerivedNodeId → Program V}
    (c : Client dyn_eq code) (hist : Epoch → Key → Option V) (now : Epoch) where
  -- What the invariant says of one key.
  abbrev pub KeyState : DatabaseStorage V → Key → Type 0
  KeyState s key =
      ((s.source_node_key_to_index key ≡ none) × (hist now key ≡ none))
      ⊎ ((index : Index) × (node : SourceNode V) × (s.source_node_key_to_index key ≡ some index)
          × (get_elem? s.source_nodes index ≡ some (some node))
          × (hist now key ≡ some node.value))

  pub key_state :
      (busy : DerivedNodeId → Type 0) (s : DatabaseStorage V) (key : Key)
      → IsValid c hist now busy s
      → KeyState s key
  unfolding get_source_node
  key_state busy s key valid = elim (Option-cases (s.source_node_key_to_index key)) [
    | inl missing ↦
        inl (
          missing,
          absent (valid.sources key).0 (valid.sources key).1 (valid.sources key).2 missing,
        )
    | inr (index, found) ↦
        let (node, slot) = valid.source_table.points key index found in
        inr (
          index,
          node,
          found,
          slot,
          present node (valid.sources key).0 (valid.sources key).1 (valid.sources key).2 index found
              slot,
        )
  ]
    where
      absent :
          (o : Option (SourceNode V))
          → get_source_node s key ≡ ok o
          → SourceGood c hist now key o
          → s.source_node_key_to_index key ≡ none
          → hist now key ≡ none
      absent none e good missing = good
      absent (some node) e good missing = absurd (ground arith)

      present :
          (node : SourceNode V) (o : Option (SourceNode V))
          → get_source_node s key ≡ ok o
          → SourceGood c hist now key o
          → (index : Index) → s.source_node_key_to_index key ≡ some index
          → get_elem? s.source_nodes index ≡ some (some node)
          → hist now key ≡ some node.value
      present node none e good index found slot = absurd (ground arith)
      present node (some node') e (le, good) index found slot =
          let same : node' ≡ node = ground arith in
          good now le (le_refl now) ∙ ap (λ n. some n.value) same

  module _ (next : Epoch) (key : Key) (o : Option V) (le : now ≤ next) where
    abbrev pub after_put : Epoch → Key → Option V
    after_put = put hist now next key o

    pub at_next : (t : Epoch) (k : Key) → t ≡ next → after_put t k ≡ with_source (hist now) key o k
    at_next t k eq = ap (λ x. after_put x k) eq ∙ ap (λ f. f k) (put_next hist now next key o)

    at_other : (t : Epoch) (k : Key) → t ≢ next → after_put t k ≡ hist t k
    at_other t k ne = ap (λ f. f k) (put_other hist now next t key o ne)

    -- Other sources are as before, also in a new epoch.
    pub good_other :
        (k : Key) (n : Option (SourceNode V))
        → next ≤ now + 1
        → key ≢ k
        → SourceGood c hist now k n
        → SourceGood c after_put next k n
    good_other k none step ne good = at_next next k refl ∙ ground arith
    good_other k (some node) step ne (u, good) = (
      le_trans u le,
      λ t a b. elim (Bool-cases (t == next)) [
        | inl same ↦
            let here : hist now k ≡ some node.value = good now u (le_refl now) in
            at_next t k ((==_iff t next).0 same) ∙ ground arith
        | inr other ↦ let ne' = ne_of_== t next other in at_other t k ne' ∙ good t a (omega arith)
      ],
    )

    pub good_self :
        (v : V)
        → o ≡ some v
        → SourceGood c after_put next key (some (record { time_updated = next; value = v }))
    good_self v eq = (le_refl next, λ t a b. at_next t key (omega arith) ∙ ground arith)

    pub extension :
        (next ≡ now → (a : V) → hist now key ≡ some a → o ≡ some a) → IsExtension now hist after_put
    extension agree t k a le' h = elim (Bool-cases (t == next)) [
      | inr other ↦ at_other t k (ne_of_== t next other) ∙ h
      | inl same ↦
          let eq : t ≡ next = (==_iff t next).0 same in
          let cur : t ≡ now = omega arith in
          let h' : hist now k ≡ some a = subst (λ x. hist x k ≡ some a) cur h in
          at_next t k eq ∙ elim (Bool-cases (k == key)) [
            | inl here ↦
                let hk : hist now key ≡ some a =
                  subst (λ x. hist now x ≡ some a) ((==_iff k key).0 here) h' in
                if_true _ _ here ∙ agree (omega arith) a hk
            | inr away ↦ if_false _ _ away ∙ h'
          ]
    ]

  -- The storage that a write to an existing slot leaves.
  abbrev pub write_slot : DatabaseStorage V → Index → Epoch → V → DatabaseStorage V
  write_slot s index next value = record s {
    source_nodes = set s.source_nodes index (some (record { time_updated = next; value = value }));
    current_epoch = next;
  }

  module _ (s : DatabaseStorage V) (key : Key) (index : Index) (old : SourceNode V) (value : V)
      (next : Epoch) (valid : IsValid c hist now Idle s)
      (found : s.source_node_key_to_index key ≡ some index)
      (slot : get_elem? s.source_nodes index ≡ some (some old)) where
    slot_self :
        get_source_node (write_slot s index next value) key
        ≡ ok (some (record { time_updated = next; value = value }))
    unfolding get_source_node
    slot_self = ground (
      arith,
      get_elem?-set_found s.source_nodes index
          (some (record { time_updated = next; value = value })) slot,
    )

    slot_other :
        (k : Key)
        → key ≢ k
        → get_source_node (write_slot s index next value) k ≡ get_source_node s k
    unfolding get_source_node
    slot_other k ne = elim (Option-cases (s.source_node_key_to_index k)) [
      | inl missing ↦ ground arith
      | inr (i, there) ↦
          let away : index ≢ i =
            λ eq. ne (valid.source_table.apart key k index found (there ∙ ap some (sym eq))) in
          ground (
            arith,
            get_elem?-set_other s.source_nodes index i
                (some (record { time_updated = next; value = value })) away,
          )
    ]

    slot_table :
        HasSources
          (write_slot s index next value).source_node_key_to_index
          (write_slot s index next value).source_nodes
    slot_table = record {
      points = λ k i there. elim (Bool-cases (index == i)) [
        | inl same ↦ (
          record { time_updated = next; value = value },
          subst
              (λ x.
                get_elem? (write_slot s index next value).source_nodes x
                ≡ some (some (record { time_updated = next; value = value })))
              ((==_iff index i).0 same)
              (get_elem?-set_found s.source_nodes index
                (some (record { time_updated = next; value = value })) slot),
        )
        | inr other ↦
            let (node, at) = valid.source_table.points k i there in
            (
              node,
              get_elem?-set_other s.source_nodes index i
                    (some (record { time_updated = next; value = value })) (ne_of_== index i other)
                  ∙ at,
            )
      ];
      apart = valid.source_table.apart;
    }

    pub slot-IsValid :
        now ≤ next
        → next ≤ now + 1
        → (next ≡ now → (a : V) → hist now key ≡ some a → some value ≡ some a)
        → ((id : DerivedNodeId) (e : Entry V)
            → stored s id ≡ some e
            → (a : V) × HasValue c (put hist now next key (some value)) next id a)
        → IsValid c (put hist now next key (some value)) next Idle (write_slot s index next value)
    unfolding stored get_param
    slot-IsValid le step agree total =
        inputs_changed c hist (put hist now next key (some value)) now next s
          (write_slot s index next value) valid (λ id. refl) (λ id. refl) valid.indices le
          (extension next key (some value) le agree) refl
          (λ k. elim (Bool-cases (key == k)) [
            | inl same ↦
                subst
                  (λ x.
                    (o : Option (SourceNode V)) × (get_source_node (write_slot s index next value) x
                      ≡ ok o)
                    × SourceGood c (put hist now next key (some value)) next x o)
                  ((==_iff key k).0 same)
                  (_, slot_self, good_self next key (some value) le value refl)
            | inr other ↦
                let ne = ne_of_== key k other in
                let (o, e, good) = valid.sources k in
                (o, slot_other k ne ∙ e, good_other next key (some value) le k o step ne good)
          ])
          slot_table total
