-- ===== src/Pico/SweepEnds.antt =====
-- The sweep of crates/pico/src/garbage_collection.rs ends, and finds what it looks up.
use isograph.Prelude.{
  ℕ, zero, suc, ◌+◌, ◌≤◌, ◌<◌, ◌==◌, ==_iff, ==_refl, false, Option, none, some, List, [], ◌∷◌,
  ◌++◌, length, get_elem?, set, contains, ◌≡◌, refl, sym, ap, ◌∙◌, subst, inl, inr, arith,
  Bool-cases, Option-cases, get_elem?-set_found, get_elem?-set_other, ne_of_==, if_true, if_false,
}
use isograph.Pico.State.{
  Result, ok, DerivedNodeId, Index, NodeKind, Dependency, DerivedNode, DatabaseStorage, ParamId,
  update,
}
use isograph.Pico.Invariant.{Entry, stored}
use isograph.Pico.Collect.{
  Queue, NodeSweep, ParamSweep, push_node, push_all, add_dependencies_to_queue, collect_node,
  collect_param, collect_params, collect, sweep, start_nodes, start_params, run_garbage_collection,
}
use isograph.Pico.Reachable.{Reachable, AreApart, Swept}
use isograph.Pico.Tables.{stored_found}
use isograph.Pico.Sweep.{cons_false}
use isograph.Pico.Collected.{sweep-done, collected, Swept-collect, Swept-start, List-cases}

abbrev pub total : List ℕ → ℕ
total [] = 0
total (c ∷ cs) = c + total cs

-- The numbers of the nodes' dependencies.
abbrev pub counts : {V : Type 0} → List (DerivedNode V) → List ℕ
counts [] = []
counts (n ∷ ns) = length n.dependencies ∷ counts ns

total-set : (cs : List ℕ) (i c : ℕ) → get_elem? cs i ≡ some c → total (set cs i 0) + c ≡ total cs
total-set [] i c h = cc
total-set (x ∷ cs) zero c h = ground (arith, h)
total-set (x ∷ cs) (suc i) c h = omega (arith, total-set cs i c h)

abbrev value_or : {A : Type 0} → A → Option A → A
value_or a none = a
value_or a (some b) = b

counts-get :
    {V : Type 0} (ns : List (DerivedNode V)) (i : ℕ) (n : DerivedNode V)
    → get_elem? ns i ≡ some n
    → get_elem? (counts ns) i ≡ some (length n.dependencies)
counts-get [] i n h = cc
counts-get (m ∷ ns) zero n h = ap (λ o. some (length (value_or n o).dependencies)) h
counts-get (m ∷ ns) (suc i) n h = counts-get ns i n h

length-push_node : (queue : Queue) (k : NodeKind) → length (push_node queue k) ≤ suc (length queue)
length-push_node queue (NodeKind.source key) = omega arith
length-push_node queue (NodeKind.derived id) = omega arith

length-add_dependencies :
    (queue : Queue) (ds : List Dependency)
    → length (add_dependencies_to_queue queue ds) ≤ length queue + length ds
unfolding add_dependencies_to_queue
length-add_dependencies queue [] = omega arith
length-add_dependencies queue (d ∷ ds) = omega (
  arith,
  length-add_dependencies (push_node queue d.node_to) ds,
  length-push_node queue d.node_to,
)

length-push_all :
    (queue : Queue) (ids : List DerivedNodeId)
    → length (push_all queue ids) ≡ length queue + length ids
length-push_all queue [] = omega arith
length-push_all queue (id ∷ ids) = omega (arith, length-push_all (id ∷ queue) ids)

-- A write takes no place away.
set-keeps :
    {A : Type 0} (xs : List A) (i j : ℕ) (v a : A)
    → get_elem? xs j ≡ some a
    → (b : A) × (get_elem? (set xs i v) j ≡ some b)
set-keeps xs i j v a h = elim (Bool-cases (i == j)) [
  | inl same ↦ (
    v,
    subst (λ k. get_elem? (set xs i v) k ≡ some v) ((==_iff i j).0 same)
        (get_elem?-set_found xs i v
          (subst (λ k. get_elem? xs k ≡ some a) (sym ((==_iff i j).0 same)) h)),
  )
  | inr other ↦ (a, get_elem?-set_other xs i j v (ne_of_== i j other) ∙ h)
]

-- Every parameter has its place.
abbrev pub HasPlaces : {V : Type 0} → DatabaseStorage V → List V → Type 0
HasPlaces {V} s params =
    (id : ParamId) (index : Index)
    → s.param_id_to_index id ≡ some index
    → (v : V) × (get_elem? params index ≡ some v)

module _ {V : Type 0} (empty : V) (params_of : DerivedNodeId → List ParamId)
    (s : DatabaseStorage V) where
  abbrev Ends : ParamSweep V → Result (ParamSweep V) → Type 0
  Ends p r = (p' : ParamSweep V) × ((r ≡ ok p') × HasPlaces s p'.old_params)

  collect_param-Ends :
      (p : ParamSweep V) (id : ParamId)
      → HasPlaces s p.old_params
      → Ends p (collect_param empty params_of s p id)
  unfolding collect_param
  collect_param-Ends p id places = elim (Bool-cases (contains p.processed_params id)) [
    | inl done ↦ (p, (if_true _ _ done, places))
    | inr fresh ↦ elim (Option-cases (s.param_id_to_index id)) [
      | inl missing ↦ (
        record p { processed_params = id ∷ p.processed_params },
        (if_false _ _ fresh ∙ rw (missing, collect_param) refl, places),
      )
      | inr (index, e) ↦
          let held = places id index e in
          (
            record {
              processed_params = id ∷ p.processed_params;
              old_params = set p.old_params index empty;
              new_params = p.new_params ++ held.0 ∷ [];
              new_param_id_to_index = update p.new_param_id_to_index id (length p.new_params);
            },
            (
              if_false _ _ fresh ∙ rw (e, held.1, collect_param) refl,
              λ j other at.
                  let there = places j other at in
                  set-keeps p.old_params index other empty there.0 there.1,
            ),
          )
    ]
  ]

  collect_params-Ends :
      (ids : List ParamId) (p : ParamSweep V)
      → HasPlaces s p.old_params
      → Ends p (collect_params empty params_of s p ids)
  unfolding collect_params
  collect_params-Ends [] p places = (p, (refl, places))
  collect_params-Ends (id ∷ ids) p places =
      let (p', (e, places')) = collect_param-Ends p id places in
      let (p'', (e', places'')) = collect_params-Ends ids p' places' in
      (p'', (rw (e, collect_params) e', places''))

module _ {V : Type 0} (empty : V) (params_of : DerivedNodeId → List ParamId) (s : DatabaseStorage V)
    (retained : List DerivedNodeId) (apart : AreApart s)
    (present : (id : DerivedNodeId)
      → Reachable s retained id
      → (e : Entry V) × (stored s id ≡ some e)) where
  -- The numbers of dependencies of the nodes that are still to be collected, by their places.
  abbrev Counts : NodeSweep V → List ℕ → Type 0
  Counts n cs =
      (id : DerivedNodeId) (e : Entry V)
      → contains n.processed_nodes id ≡ false
      → stored s id ≡ some e
      → get_elem? cs e.0.index ≡ some (length e.1.dependencies)

  -- A round of the loop ends, with less to do.
  record Round (n : NodeSweep V) (cs : List ℕ) (r : Result (NodeSweep V × ParamSweep V))
      : Type 0 where
    next : NodeSweep V × ParamSweep V
    left : List ℕ
    ends : r ≡ ok next
    places : HasPlaces s next.1.old_params
    counted : Counts next.0 left
    less :
        length next.0.derived_node_id_queue + total left ≤ length n.derived_node_id_queue + total cs

  abbrev moved_node : NodeSweep V → DerivedNodeId → Entry V → NodeSweep V
  moved_node n id e = record {
    derived_node_id_queue = add_dependencies_to_queue n.derived_node_id_queue e.1.dependencies;
    processed_nodes = id ∷ n.processed_nodes;
    old_derived_nodes = set n.old_derived_nodes e.0.index (record e.1 { value = empty });
    new_derived_nodes = n.new_derived_nodes ++ e.1 ∷ [];
    new_derived_node_id_to_revision =
        update n.new_derived_node_id_to_revision id
          (record e.0 { index = length n.new_derived_nodes });
  }

  collect-ends :
      (n : NodeSweep V) (p : ParamSweep V) (id : DerivedNodeId) (cs : List ℕ)
      → Swept empty s retained (record n { derived_node_id_queue = id ∷ n.derived_node_id_queue })
      → Counts n cs
      → HasPlaces s p.old_params
      → Round n cs (collect empty params_of s n p id)
  unfolding collect collect_node
  collect-ends n p id cs w counted places = elim (Bool-cases (contains n.processed_nodes id)) [
    | inl done ↦ record {
      next = (n, p);
      left = cs;
      ends = if_true _ _ done;
      places = places;
      counted = counted;
      less = omega arith;
    }
    | inr fresh ↦
        let (e, at) = present id (w.queue_reached id (rw (==_refl id) refl)) in
        let (found, held) = stored_found s id e at in
        let (p', (params, places')) =
          collect_params-Ends empty params_of s (params_of id) p places in
        record {
          next = (moved_node n id e, p');
          left = set cs e.0.index 0;
          ends =
              if_false _ _ fresh
              ∙ rw (found, w.untouched id e.0 fresh found ∙ held, collect_node, params) refl;
          places = places';
          counted = λ j e' h at'.
              let (id_ne, j_fresh) = cons_false id n.processed_nodes j h in
              get_elem?-set_other cs e.0.index e'.0.index 0
                (λ same. id_ne (apart id j e.0 e'.0 found (stored_found s j e' at').0 same))
              ∙ counted j e' j_fresh at';
          less = omega (
            arith,
            length-add_dependencies n.derived_node_id_queue e.1.dependencies,
            total-set cs e.0.index (length e.1.dependencies) (counted id e fresh at),
          );
        }
  ]

  sweep-ends :
      (fuel : ℕ) (n : NodeSweep V) (p : ParamSweep V) (cs : List ℕ)
      → Swept empty s retained n
      → Counts n cs
      → HasPlaces s p.old_params
      → length n.derived_node_id_queue + total cs < fuel
      → (swept : NodeSweep V × ParamSweep V) × (sweep empty params_of s fuel n p ≡ ok swept)
  unfolding sweep
  sweep-ends zero n p cs w counted places lt = absurd (omega arith)
  sweep-ends (suc fuel) n p cs w counted places lt = elim (List-cases n.derived_node_id_queue) [
    | inl none_left ↦ ((n, p), sweep-done empty params_of s retained apart fuel n p none_left)
    | inr (id, (queue, e)) ↦
        let popped = record n { derived_node_id_queue = queue } in
        let w' = subst (λ q. Swept empty s retained (record n { derived_node_id_queue = q })) e w in
        let r = collect-ends popped p id cs w' counted places in
        let (swept, done) =
          sweep-ends fuel r.next.0 r.next.1 r.left
            (Swept-collect empty params_of s retained apart popped p id r.next w' r.ends) r.counted
            r.places (ground (arith, r.less, lt, ap (λ q. length q) e)) in
        (swept, rw (e, sweep, r.ends) done)
  ]

  -- Where the reachable nodes are stored, each at a place of its own, and the parameters have their
  -- places: with fuel above the number of the retained nodes and of all stored dependencies the
  -- collection ends without a panic.
  pub run_garbage_collection-ends :
      (fuel : ℕ)
      → HasPlaces s s.params
      → length retained + total (counts s.derived_nodes) < fuel
      → (s' : DatabaseStorage V) × (run_garbage_collection empty params_of s fuel retained ≡ ok s')
  unfolding run_garbage_collection
  run_garbage_collection-ends fuel places lt =
      let (swept, e) =
        sweep-ends fuel (start_nodes empty params_of s retained) (start_params empty params_of s)
          (counts s.derived_nodes) (Swept-start empty params_of s retained apart)
          (λ id e h at. counts-get s.derived_nodes e.0.index e.1 (stored_found s id e at).1) places
          (omega (arith, lt, length-push_all [] retained)) in
      (collected empty params_of s retained apart swept, rw (e, run_garbage_collection) refl)
