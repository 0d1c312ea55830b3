-- ===== src/Pico/Sweep.antt =====
-- The sweep of crates/pico/src/garbage_collection.rs moves the nodes that are reachable, and no others.
use isograph.Prelude.{
  ◌==◌, ==_iff, ==_refl, Bool, true, false, ◌||◌, some, some_unique, List, [], ◌∷◌, ◌++◌, length,
  get_elem?, set, contains, ◌≡◌, ◌≢◌, ◌⊎◌, refl, sym, ◌∙◌, subst, inl, inr, arith, Bool-cases,
  get_elem?-append_length, get_elem?-append, get_elem?-set_other, ==_ne, if_true, if_false,
}
use isograph.Pico.State.{
  DerivedNodeId, Index, DerivedNodeRevision, DatabaseStorage, update, ParamId,
}
use isograph.Pico.Invariant.{Entry, stored}
use isograph.Pico.Collect.{Queue, NodeSweep, add_dependencies_to_queue}
use isograph.Pico.Reachable.{
  targets, Reachable, through, AreApart, Swept, Collects, contains-add_dependencies,
}

or_left : (a b : Bool) → a ≡ true → a || b ≡ true
or_left a b h = ground (arith, h)

pub or_right : (a b : Bool) → b ≡ true → a || b ≡ true
or_right true b h = refl
or_right false b h = h

pub or_other : (a b : Bool) → a ≡ false → a || b ≡ true → b ≡ true
or_other a b e h = ground (arith, e, h)

pub cons_false :
    (id : DerivedNodeId) (ids : List DerivedNodeId) (j : DerivedNodeId)
    → contains (id ∷ ids) j ≡ false
    → (id ≢ j) × (contains ids j ≡ false)
cons_false id ids j h = ((λ e. ground (arith, e, h)), ground (arith, h))

pub or_cases : (a b : Bool) → a || b ≡ true → (a ≡ true) ⊎ (b ≡ true)
or_cases true b h = inl refl
or_cases false b h = inr h

module _ {V : Type 0} (empty : V) (params_of : DerivedNodeId → List ParamId) (s : DatabaseStorage V)
    (retained : List DerivedNodeId) where
  -- The state before the head of the queue was popped.
  abbrev before : NodeSweep V → DerivedNodeId → NodeSweep V
  before n id = record n { derived_node_id_queue = id ∷ n.derived_node_id_queue }

  -- An id that is in the queue with a processed head is processed or in the queue without it.
  still_seen :
      (n : NodeSweep V) (processed : List DerivedNodeId) (queue : Queue) (id j : DerivedNodeId)
      → contains processed id ≡ true
      → (contains n.processed_nodes j ≡ true → contains processed j ≡ true)
      → (contains n.derived_node_id_queue j ≡ true → contains queue j ≡ true)
      → (contains n.processed_nodes j ≡ true) ⊎ (contains (id ∷ n.derived_node_id_queue) j ≡ true)
      → (contains processed j ≡ true) ⊎ (contains queue j ≡ true)
  still_seen n processed queue id j p f g (inl h) = inl (f h)
  still_seen n processed queue id j p f g (inr h) =
      elim (or_cases (id == j) (contains n.derived_node_id_queue j) h) [
        | inl e ↦ inl (subst (λ i. contains processed i ≡ true) ((==_iff id j).0 e) p)
        | inr q ↦ inr (g q)
      ]

  -- A processed id is passed over.
  pub Swept-skip :
      (n : NodeSweep V) (id : DerivedNodeId)
      → Swept empty s retained (before n id)
      → contains n.processed_nodes id ≡ true
      → Swept empty s retained n
  Swept-skip n id w p = record {
    untouched = w.untouched;
    kept = w.kept;
    dropped = w.dropped;
    processed_reached = w.processed_reached;
    queue_reached =
        λ j h. w.queue_reached j (or_right (id == j) (contains n.derived_node_id_queue j) h);
    roots_seen = λ j h.
        still_seen n n.processed_nodes n.derived_node_id_queue id j p (λ a. a) (λ a. a)
          (w.roots_seen j h);
    targets_seen = λ i j e h h' h''.
        still_seen n n.processed_nodes n.derived_node_id_queue id j p (λ a. a) (λ a. a)
          (w.targets_seen i j e h h' h'');
  }

  module _ (apart : AreApart s) (n n' : NodeSweep V) (id : DerivedNodeId)
      (w : Swept empty s retained (before n id)) (fresh : contains n.processed_nodes id ≡ false)
      (c : Collects empty params_of s n id n') where
    -- The node that is moved, as it was stored.
    moved_entry : stored s id ≡ some (c.rev, c.node)
    unfolding stored
    moved_entry = rw (c.found, sym (w.untouched id c.rev fresh c.found) ∙ c.held, stored) refl

    id_reached : Reachable s retained id
    id_reached = w.queue_reached id (rw (==_refl id) refl)

    next_untouched :
        (j : DerivedNodeId) (rev : DerivedNodeRevision)
        → contains (id ∷ n.processed_nodes) j ≡ false
        → s.derived_node_id_to_revision j ≡ some rev
        → get_elem?
            (set n.old_derived_nodes c.rev.index (record c.node { value = empty }))
            rev.index
          ≡ get_elem? s.derived_nodes rev.index
    next_untouched j rev h e =
        get_elem?-set_other n.old_derived_nodes c.rev.index rev.index _
          (λ same. (cons_false id n.processed_nodes j h).0 (apart id j c.rev rev c.found e same))
        ∙ w.untouched j rev (cons_false id n.processed_nodes j h).1 e

    next_kept :
        (j : DerivedNodeId)
        → contains (id ∷ n.processed_nodes) j ≡ true
        → (e : Entry V) × (index : Index) × (stored s j ≡ some e)
          × (update n.new_derived_node_id_to_revision id
                (record c.rev { index = length n.new_derived_nodes })
                j
              ≡ some (record e.0 { index = index }))
          × (get_elem? (n.new_derived_nodes ++ c.node ∷ []) index ≡ some e.1)
    next_kept j h = elim (Bool-cases (id == j)) [
      | inl same ↦ (
        (c.rev, c.node),
        length n.new_derived_nodes,
        subst (λ i. stored s i ≡ some (c.rev, c.node)) ((==_iff id j).0 same) moved_entry,
        if_true _ _ same,
        get_elem?-append_length n.new_derived_nodes c.node,
      )
      | inr other ↦
          let old = w.kept j (or_other (id == j) (contains n.processed_nodes j) other h) in
          (
            old.0,
            old.1,
            old.2,
            if_false _ _ other ∙ old.3,
            get_elem?-append n.new_derived_nodes (c.node ∷ []) old.1 old.4,
          )
    ]

    seen :
        (j : DerivedNodeId)
        → (contains n.processed_nodes j ≡ true) ⊎ (contains (id ∷ n.derived_node_id_queue) j ≡ true)
        → (contains (id ∷ n.processed_nodes) j ≡ true)
          ⊎ (contains (add_dependencies_to_queue n.derived_node_id_queue c.node.dependencies) j
              ≡ true)
    seen j =
        still_seen n (id ∷ n.processed_nodes) _ id j (rw (==_refl id) refl)
          (or_right (id == j) (contains n.processed_nodes j))
          (λ h.
            contains-add_dependencies n.derived_node_id_queue c.node.dependencies j
            ∙ or_left (contains n.derived_node_id_queue j) _ h)

    own_target :
        (i j : DerivedNodeId) (e : Entry V)
        → id ≡ i
        → stored s i ≡ some e
        → contains (targets e.1.dependencies) j ≡ true
        → contains (targets c.node.dependencies) j ≡ true
    own_target i j e same h h' =
        subst (λ x. contains (targets x.1.dependencies) j ≡ true)
          (some_unique e (c.rev, c.node) h
            (subst (λ k. stored s k ≡ some (c.rev, c.node)) same moved_entry))
          h'

    pub Swept-collect_node : Swept empty s retained n'
    Swept-collect_node =
        subst (λ m. Swept empty s retained m) (sym c.result)
          (record {
            untouched = next_untouched;
            kept = next_kept;
            dropped = λ j h.
                let apart_from = cons_false id n.processed_nodes j h in
                if_false {b = id == j} _ _ (==_ne id j apart_from.0) ∙ w.dropped j apart_from.1;
            processed_reached = λ j h. elim (or_cases (id == j) (contains n.processed_nodes j) h) [
              | inl same ↦ subst (λ i. Reachable s retained i) ((==_iff id j).0 same) id_reached
              | inr h' ↦ w.processed_reached j h'
            ];
            queue_reached = λ j h.
                elim (or_cases (contains n.derived_node_id_queue j)
                  (contains (targets c.node.dependencies) j)
                  (sym (contains-add_dependencies n.derived_node_id_queue c.node.dependencies j)
                    ∙ h)) [
                      | inl h' ↦
                          w.queue_reached j
                            (or_right (id == j) (contains n.derived_node_id_queue j) h')
                      | inr h' ↦ through id id_reached moved_entry h'
                    ];
            roots_seen = λ j h. seen j (w.roots_seen j h);
            targets_seen = λ i j e h h' h''.
                elim (or_cases (id == i) (contains n.processed_nodes i) h) [
                  | inl same ↦ inr (
                      contains-add_dependencies n.derived_node_id_queue c.node.dependencies j
                      ∙ or_right (contains n.derived_node_id_queue j) _
                          (own_target i j e ((==_iff id i).0 same) h' h''))
                  | inr h3 ↦ seen j (w.targets_seen i j e h3 h' h'')
                ];
          })
