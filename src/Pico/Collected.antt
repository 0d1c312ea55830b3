-- ===== src/Pico/Collected.antt =====
-- Garbage collection keeps the reachable nodes, and no others: crates/pico/src/garbage_collection.rs.
use isograph.Prelude.{
  ℕ, zero, suc, true, false, none, some, some_unique, List, [], ◌∷◌, contains, ◌≡◌, ◌⊎◌, ◌↔◌, refl,
  sym, ap, ◌∙◌, subst, inl, inr, arith, Bool-cases, if_true, if_false,
}
use isograph.Pico.State.{Result, ok, panic, ◌>>=◌, DerivedNodeId, Index, DatabaseStorage, ParamId}
use isograph.Pico.Invariant.{Entry, stored}
use isograph.Pico.Collect.{
  NodeSweep, ParamSweep, collect_node, collect_params, collect, sweep, start_nodes,
  run_garbage_collection,
}
use isograph.Pico.Reachable.{
  Reachable, root, through, AreApart, moved, Swept, ok_injective, collect_node-ok,
  contains-push_all,
}
use isograph.Pico.Sweep.{Swept-skip, Swept-collect_node}

pub bind_ok :
    {A B : Type 0} (m : Result A) (f : A → Result B) (b : B)
    → (m >>= f) ≡ ok b
    → (a : A) × ((m ≡ ok a) × (f a ≡ ok b))
bind_ok (ok a) f b h = (a, (refl, h))
bind_ok (panic e) f b h = cc

pub List-cases : {A : Type 0} (l : List A) → (l ≡ []) ⊎ ((x : A) × ((xs : List A) × (l ≡ x ∷ xs)))
List-cases [] = inl refl
List-cases (x ∷ xs) = inr (x, (xs, refl))

module _ {V : Type 0} (empty : V) (params_of : DerivedNodeId → List ParamId) (s : DatabaseStorage V)
    (retained : List DerivedNodeId) (apart : AreApart s) where
  pub Swept-collect :
      (n : NodeSweep V) (p : ParamSweep V) (id : DerivedNodeId) (next : NodeSweep V × ParamSweep V)
      → Swept empty s retained (record n { derived_node_id_queue = id ∷ n.derived_node_id_queue })
      → collect empty params_of s n p id ≡ ok next
      → Swept empty s retained next.0
  unfolding collect
  Swept-collect n p id next w h = elim (Bool-cases (contains n.processed_nodes id)) [
    | inl done ↦
        subst (λ m. Swept empty s retained m)
          (ap (λ r. r.0) (ok_injective (sym (if_true _ _ done) ∙ h)))
          (Swept-skip empty params_of s retained n id w done)
    | inr fresh ↦
        let first =
          bind_ok (collect_node empty params_of s n id) _ next (sym (if_false _ _ fresh) ∙ h) in
        let second = bind_ok (collect_params empty params_of s p (params_of id)) _ next first.1.1 in
        subst (λ m. Swept empty s retained m) (ap (λ r. r.0) (ok_injective second.1.1))
          (Swept-collect_node empty params_of s retained apart n first.0 id w fresh
            (collect_node-ok empty params_of s n first.0 id first.1.0))
  ]

  pub sweep-done :
      (fuel : ℕ) (n : NodeSweep V) (p : ParamSweep V)
      → n.derived_node_id_queue ≡ []
      → sweep empty params_of s (suc fuel) n p ≡ ok (n, p)
  unfolding sweep
  sweep-done fuel n p e = rw (e, sweep) (ap (λ q. ok (record n { derived_node_id_queue = q }, p)) e)

  pub Swept-sweep :
      (fuel : ℕ) (n : NodeSweep V) (p : ParamSweep V) (swept : NodeSweep V × ParamSweep V)
      → Swept empty s retained n
      → sweep empty params_of s fuel n p ≡ ok swept
      → Swept empty s retained swept.0 × (swept.0.derived_node_id_queue ≡ [])
  unfolding sweep
  Swept-sweep zero n p swept w h = cc
  Swept-sweep (suc fuel) n p swept w h = elim (List-cases n.derived_node_id_queue) [
    | inl none_left ↦
        let same = ap (λ r. r.0) (ok_injective (sym (sweep-done fuel n p none_left) ∙ h)) in
        (
          subst (λ m. Swept empty s retained m) same w,
          subst (λ m. m.derived_node_id_queue ≡ []) same none_left,
        )
    | inr (id, (queue, e)) ↦
        let step =
          bind_ok (collect empty params_of s (record n { derived_node_id_queue = queue }) p id)
            (λ next. sweep empty params_of s fuel next.0 next.1) swept
            (sym (rw (e, sweep) refl) ∙ h) in
        Swept-sweep fuel step.0.0 step.0.1 swept
          (Swept-collect (record n { derived_node_id_queue = queue }) p id step.0
            (subst (λ q. Swept empty s retained (record n { derived_node_id_queue = q })) e w)
            step.1.0)
          step.1.1
  ]

  pub Swept-start : Swept empty s retained (start_nodes empty params_of s retained)
  Swept-start = record {
    untouched = λ id rev h e. refl;
    kept = λ id h. cc;
    dropped = λ id h. refl;
    processed_reached = λ id h. cc;
    queue_reached = λ id h. root (sym (contains-push_all [] retained id) ∙ h);
    roots_seen = λ id h. inr (contains-push_all [] retained id ∙ h);
    targets_seen = λ id target e h h' h''. cc;
  }

  not_queued :
      (n : NodeSweep V) (id : DerivedNodeId)
      → n.derived_node_id_queue ≡ []
      → (contains n.processed_nodes id ≡ true) ⊎ (contains n.derived_node_id_queue id ≡ true)
      → contains n.processed_nodes id ≡ true
  not_queued n id e (inl h) = h
  not_queued n id e (inr h) = absurd (ground (arith, ap (λ q. contains q id) e, h))

  -- Everything that is reachable is processed once nothing is left to do.
  pub reached-processed :
      (n : NodeSweep V) (id : DerivedNodeId)
      → Swept empty s retained n
      → n.derived_node_id_queue ≡ []
      → Reachable s retained id
      → contains n.processed_nodes id ≡ true
  reached-processed n id w e (root h) = not_queued n id e (w.roots_seen id h)
  reached-processed n id w e (through i {e = entry} r at t) =
      not_queued n id e (w.targets_seen i id entry (reached-processed n i w e r) at t)

  abbrev pub collected : NodeSweep V × ParamSweep V → DatabaseStorage V
  collected swept = record s {
    params = swept.1.new_params;
    derived_nodes = swept.0.new_derived_nodes;
    param_id_to_index = swept.1.new_param_id_to_index;
    derived_node_id_to_revision = swept.0.new_derived_node_id_to_revision;
  }

  pub run_garbage_collection-ok :
      (fuel : ℕ) (s' : DatabaseStorage V)
      → run_garbage_collection empty params_of s fuel retained ≡ ok s'
      → (swept : NodeSweep V × ParamSweep V) × ((Swept empty s retained swept.0
            × (swept.0.derived_node_id_queue ≡ []))
          × (s' ≡ collected swept))
  unfolding run_garbage_collection
  run_garbage_collection-ok fuel s' h =
      let step = bind_ok (sweep empty params_of s fuel _ _) _ s' h in
      (step.0, (Swept-sweep fuel _ _ step.0 Swept-start step.1.0, ok_injective (sym step.1.1)))

  module _ (swept : NodeSweep V × ParamSweep V) (w : Swept empty s retained swept.0)
      (done : swept.0.derived_node_id_queue ≡ []) (id : DerivedNodeId) where
    pub collected-kept :
        contains swept.0.processed_nodes id ≡ true
        → (e : Entry V) × ((index : Index) × ((stored s id ≡ some e)
              × (stored (collected swept) id ≡ some (moved e index))))
    unfolding stored
    collected-kept h = let k = w.kept id h in (k.0, (k.1, (k.2, rw (k.3, k.4, stored) refl)))

    pub collected-dropped :
        contains swept.0.processed_nodes id ≡ false → stored (collected swept) id ≡ none
    unfolding stored
    collected-dropped h = rw (w.dropped id h, stored) refl

    pub collected-Reachable :
        (e : Entry V)
        → ((index : Index) × (stored (collected swept) id ≡ some (moved e index)))
          ↔ (Reachable s retained id × ((index : Index) × (stored s id ≡ some (moved e index))))
    collected-Reachable e = (
      (λ (index, at). elim (Bool-cases (contains swept.0.processed_nodes id)) [
        | inr h ↦ absurd (ground (arith, collected-dropped h, at))
        | inl h ↦
            let k = collected-kept h in
            (
              w.processed_reached id h,
              (
                k.0.0.index,
                k.1.1.0 ∙ ap (λ x. some (moved x k.0.0.index)) (some_unique _ _ k.1.1.1 at),
              ),
            )
      ]),
      (λ (reached, (index, at)).
          let k = collected-kept (reached-processed swept.0 id w done reached) in
          (k.1.0, k.1.1.1 ∙ ap (λ x. some (moved x k.1.0)) (some_unique _ _ k.1.1.0 at))),
    )

  -- The collected storage has exactly the nodes that the retained ones reach, each with its times,
  -- its dependencies, its function and its value.
  pub run_garbage_collection-Reachable :
      (fuel : ℕ) (s' : DatabaseStorage V) (id : DerivedNodeId) (e : Entry V)
      → run_garbage_collection empty params_of s fuel retained ≡ ok s'
      → ((index : Index) × (stored s' id ≡ some (moved e index)))
        ↔ (Reachable s retained id × ((index : Index) × (stored s id ≡ some (moved e index))))
  run_garbage_collection-Reachable fuel s' id e h =
      let (swept, ((w, done), same)) = run_garbage_collection-ok fuel s' h in
      subst
        (λ t.
          ((index : Index) × (stored t id ≡ some (moved e index)))
          ↔ (Reachable s retained id × ((index : Index) × (stored s id ≡ some (moved e index)))))
        (sym same) (collected-Reachable swept w done id e)
