-- ===== src/Pico/CollectParams.antt =====
-- Garbage collection keeps the parameters of the nodes that it keeps:
-- crates/pico/src/garbage_collection.rs.
use isograph.Prelude.{
  ℕ, zero, suc, ◌==◌, ==_iff, ==_refl, ==_ne, true, false, if_true, if_false, none, some, List, [],
  ◌∷◌, ◌++◌, length, get_elem?, set, contains, ◌≡◌, ◌≢◌, ◌⊎◌, refl, sym, ap, ◌∙◌, subst, inl, inr,
  Bool-cases, Option-cases, get_elem?-append_length, get_elem?-append, get_elem?-set_other,
}
use isograph.Pico.State.{
  Panic, param_missing, ok, panic, DerivedNodeId, Index, DatabaseStorage, ParamId, update,
}
use isograph.Pico.Storage.{get_param}
use isograph.Pico.Interned.{get_param-free}
use isograph.Pico.Collect.{
  NodeSweep, ParamSweep, collect_node, collect_param, collect_params, collect, sweep, start_nodes,
  start_params, run_garbage_collection,
}
use isograph.Pico.Reachable.{Reachable, AreApart, ok_injective, collect_node-ok}
use isograph.Pico.Sweep.{cons_false, or_other, or_right, or_cases}
use isograph.Pico.Collected.{bind_ok, List-cases, Swept-start, Swept-sweep, reached-processed}

not_panic : {A : Type 0} (e : Panic) (a : A) → panic e ≢ ok a
not_panic e a h = cc

-- No two parameters share a place.
abbrev pub AreParamsApart : {V : Type 0} → DatabaseStorage V → Type 0
AreParamsApart s =
    (id other : ParamId) (index : Index)
    → s.param_id_to_index id ≡ some index
    → s.param_id_to_index other ≡ some index
    → id ≡ other

module _ {V : Type 0} (s : DatabaseStorage V) where
  -- A parameter is missing before and after, or has its value before and after.
  data Kept (p : ParamSweep V) (id : ParamId) : Type 0 where
    missing : s.param_id_to_index id ≡ none → p.new_param_id_to_index id ≡ none → Kept p id
    moved_to :
        (old new : Index) (v : V)
        → s.param_id_to_index id ≡ some old
        → get_elem? s.params old ≡ some v
        → p.new_param_id_to_index id ≡ some new
        → get_elem? p.new_params new ≡ some v
        → Kept p id

  record ParamsSwept (p : ParamSweep V) : Type 0 where
    untouched :
        (id : ParamId) (index : Index)
        → contains p.processed_params id ≡ false
        → s.param_id_to_index id ≡ some index
        → get_elem? p.old_params index ≡ get_elem? s.params index
    kept : (id : ParamId) → contains p.processed_params id ≡ true → Kept p id
    dropped :
        (id : ParamId) → contains p.processed_params id ≡ false → p.new_param_id_to_index id ≡ none

module _ {V : Type 0} (empty : V) (params_of : DerivedNodeId → List ParamId) (s : DatabaseStorage V)
    (apart : AreParamsApart s) where
  -- What one parameter more does.
  record Grows (p : ParamSweep V) (id : ParamId) (p' : ParamSweep V) : Type 0 where
    swept : ParamsSwept s p'
    has : contains p'.processed_params id ≡ true
    grows :
        (j : ParamId) → contains p.processed_params j ≡ true → contains p'.processed_params j ≡ true

  Kept-missing :
      (p : ParamSweep V) (id j : ParamId)
      → ParamsSwept s p
      → contains p.processed_params id ≡ false
      → s.param_id_to_index id ≡ none
      → contains (id ∷ p.processed_params) j ≡ true
      → Kept s (record p { processed_params = id ∷ p.processed_params }) j
  Kept-missing p id j w fresh e h = elim (Bool-cases (id == j)) [
    | inl same ↦
        subst (λ i. Kept s (record p { processed_params = id ∷ p.processed_params }) i)
          ((==_iff id j).0 same) (missing e (w.dropped id fresh))
    | inr other ↦ elim (w.kept j (or_other (id == j) (contains p.processed_params j) other h)) [
      | missing a b ↦ missing a b
      | moved_to old new v a b c d ↦ moved_to old new v a b c d
    ]
  ]

  module _ (p : ParamSweep V) (id : ParamId) (index : Index) (v : V) (w : ParamsSwept s p)
      (fresh : contains p.processed_params id ≡ false) (e : s.param_id_to_index id ≡ some index)
      (held : get_elem? p.old_params index ≡ some v) where
    abbrev with_param : ParamSweep V
    with_param = record {
      processed_params = id ∷ p.processed_params;
      old_params = set p.old_params index empty;
      new_params = p.new_params ++ v ∷ [];
      new_param_id_to_index = update p.new_param_id_to_index id (length p.new_params);
    }

    Kept-with_param :
        (j : ParamId) → contains (id ∷ p.processed_params) j ≡ true → Kept s with_param j
    Kept-with_param j h = elim (Bool-cases (id == j)) [
      | inl same ↦
          subst (λ i. Kept s with_param i) ((==_iff id j).0 same)
            (moved_to index (length p.new_params) v e (sym (w.untouched id index fresh e) ∙ held)
              (if_true _ _ (==_refl id)) (get_elem?-append_length p.new_params v))
      | inr other ↦ elim (w.kept j (or_other (id == j) (contains p.processed_params j) other h)) [
        | missing a b ↦ missing a (if_false _ _ other ∙ b)
        | moved_to old new v' a b c d ↦
            moved_to old new v' a b (if_false _ _ other ∙ c)
              (get_elem?-append p.new_params (v ∷ []) new d)
      ]
    ]

    ParamsSwept-with_param : ParamsSwept s with_param
    ParamsSwept-with_param = record {
      untouched = λ j i h at.
          let (id_ne, j_fresh) = cons_false id p.processed_params j h in
          get_elem?-set_other p.old_params index i empty
            (λ same. id_ne (apart id j index e (at ∙ ap some (sym same))))
          ∙ w.untouched j i j_fresh at;
      kept = Kept-with_param;
      dropped = λ j h.
          let (id_ne, j_fresh) = cons_false id p.processed_params j h in
          if_false {b = id == j} _ _ (==_ne id j id_ne) ∙ w.dropped j j_fresh;
    }

  collect_param-Grows :
      (p p' : ParamSweep V) (id : ParamId)
      → ParamsSwept s p
      → collect_param empty params_of s p id ≡ ok p'
      → Grows p id p'
  unfolding collect_param
  collect_param-Grows p p' id w h = elim (Bool-cases (contains p.processed_params id)) [
    | inl done ↦
        subst (λ q. Grows p id q) (ok_injective (sym (if_true _ _ done) ∙ h))
          (record { swept = w; has = done; grows = λ j g. g })
    | inr fresh ↦ elim (Option-cases (s.param_id_to_index id)) [
      | inl e ↦
          subst (λ q. Grows p id q)
            (ok_injective (sym (if_false _ _ fresh ∙ rw (e, collect_param) refl) ∙ h))
            (record {
              swept = record {
                untouched =
                    λ j i h' at. w.untouched j i (cons_false id p.processed_params j h').1 at;
                kept = λ j h'. Kept-missing p id j w fresh e h';
                dropped = λ j h'. w.dropped j (cons_false id p.processed_params j h').1;
              };
              has = rw (==_refl id) refl;
              grows = λ j g. or_right (id == j) (contains p.processed_params j) g;
            })
      | inr (index, e) ↦ elim (Option-cases (get_elem? p.old_params index)) [
        | inl lost ↦ absurd (
            not_panic param_missing p'
              (sym (if_false _ _ fresh ∙ rw (e, lost, collect_param) refl) ∙ h))
        | inr (v, held) ↦
            subst (λ q. Grows p id q)
              (ok_injective (sym (if_false _ _ fresh ∙ rw (e, held, collect_param) refl) ∙ h))
              (record {
                swept = ParamsSwept-with_param p id index v w fresh e held;
                has = rw (==_refl id) refl;
                grows = λ j g. or_right (id == j) (contains p.processed_params j) g;
              })
      ]
    ]
  ]

  -- What a list of parameters does.
  record GrowsAll (p : ParamSweep V) (ids : List ParamId) (p' : ParamSweep V) : Type 0 where
    swept : ParamsSwept s p'
    has : (j : ParamId) → contains ids j ≡ true → contains p'.processed_params j ≡ true
    grows :
        (j : ParamId) → contains p.processed_params j ≡ true → contains p'.processed_params j ≡ true

  collect_params-GrowsAll :
      (ids : List ParamId) (p p' : ParamSweep V)
      → ParamsSwept s p
      → collect_params empty params_of s p ids ≡ ok p'
      → GrowsAll p ids p'
  unfolding collect_params
  collect_params-GrowsAll [] p p' w h =
      subst (λ q. GrowsAll p [] q) (ok_injective h)
        (record { swept = w; has = λ j g. cc; grows = λ j g. g })
  collect_params-GrowsAll (id ∷ ids) p p' w h =
      let step = bind_ok (collect_param empty params_of s p id) _ p' h in
      let first = collect_param-Grows p step.0 id w step.1.0 in
      let rest = collect_params-GrowsAll ids step.0 p' first.swept step.1.1 in
      record {
        swept = rest.swept;
        has = λ j g. elim (or_cases (id == j) (contains ids j) g) [
          | inl same ↦ rest.grows j (
              subst (λ i. contains step.0.processed_params i ≡ true) ((==_iff id j).0 same)
                first.has)
          | inr later ↦ rest.has j later
        ];
        grows = λ j g. rest.grows j (first.grows j g);
      }

  Kept-get_param :
      (p : ParamSweep V) (nodes : NodeSweep V) (id : ParamId)
      → Kept s p id
      → get_param
          (record s {
            params = p.new_params;
            derived_nodes = nodes.new_derived_nodes;
            param_id_to_index = p.new_param_id_to_index;
            derived_node_id_to_revision = nodes.new_derived_node_id_to_revision;
          })
          id
        ≡ get_param s id
  unfolding get_param
  Kept-get_param p nodes id (missing a b) = rw (a, b, get_param) refl
  Kept-get_param p nodes id (moved_to old new v a b c d) = rw (a, b, c, d, get_param) refl

  -- The parameters of the processed nodes are processed.
  record Covered (n : NodeSweep V) (p : ParamSweep V) : Type 0 where
    swept : ParamsSwept s p
    covers :
        (id : DerivedNodeId) (q : ParamId)
        → contains n.processed_nodes id ≡ true
        → contains (params_of id) q ≡ true
        → contains p.processed_params q ≡ true

  Covered-collect :
      (n : NodeSweep V) (p : ParamSweep V) (id : DerivedNodeId) (next : NodeSweep V × ParamSweep V)
      → Covered n p
      → collect empty params_of s n p id ≡ ok next
      → Covered next.0 next.1
  unfolding collect
  Covered-collect n p id next w h = elim (Bool-cases (contains n.processed_nodes id)) [
    | inl done ↦ subst (λ r. Covered r.0 r.1) (ok_injective (sym (if_true _ _ done) ∙ h)) w
    | inr fresh ↦
        let first =
          bind_ok (collect_node empty params_of s n id) _ next (sym (if_false _ _ fresh) ∙ h) in
        let second = bind_ok (collect_params empty params_of s p (params_of id)) _ next first.1.1 in
        let c = collect_node-ok empty params_of s n first.0 id first.1.0 in
        let g = collect_params-GrowsAll (params_of id) p second.0 w.swept second.1.0 in
        subst (λ r. Covered r.0 r.1) (ok_injective second.1.1)
          (record {
            swept = g.swept;
            covers = λ j q h' h''.
                elim (or_cases (id == j) (contains n.processed_nodes j)
                  (subst (λ m. contains m.processed_nodes j ≡ true) c.result h')) [
                    | inl same ↦ g.has q (
                        subst (λ i. contains (params_of i) q ≡ true) (sym ((==_iff id j).0 same))
                          h'')
                    | inr old ↦ g.grows q (w.covers j q old h'')
                  ];
          })
  ]

  Covered-sweep :
      (fuel : ℕ) (n : NodeSweep V) (p : ParamSweep V) (swept : NodeSweep V × ParamSweep V)
      → Covered n p
      → sweep empty params_of s fuel n p ≡ ok swept
      → Covered swept.0 swept.1
  unfolding sweep
  Covered-sweep zero n p swept w h = cc
  Covered-sweep (suc fuel) n p swept w h = elim (List-cases n.derived_node_id_queue) [
    | inl none_left ↦
        subst (λ r. Covered r.0 r.1)
          (ok_injective (
            sym (
              rw (none_left, sweep)
                (ap (λ q. ok (record n { derived_node_id_queue = q }, p)) none_left))
            ∙ h))
          w
    | inr (id, (queue, e)) ↦
        let popped = record n { derived_node_id_queue = queue } in
        let step =
          bind_ok (collect empty params_of s popped p id)
            (λ next. sweep empty params_of s fuel next.0 next.1) swept
            (sym (rw (e, sweep) refl) ∙ h) in
        Covered-sweep fuel step.0.0 step.0.1 swept
          (Covered-collect popped p id step.0 (record { swept = w.swept; covers = w.covers })
            step.1.0)
          step.1.1
  ]

  -- The tables at the end of the loop, and the storage that is made of them.
  run_garbage_collection-Covered :
      (nodes_apart : AreApart s) (retained : List DerivedNodeId) (fuel : ℕ) (s' : DatabaseStorage V)
      → run_garbage_collection empty params_of s fuel retained ≡ ok s'
      → (swept : NodeSweep V × ParamSweep V) × (Covered swept.0 swept.1
          × ((((id : DerivedNodeId)
                → Reachable s retained id
                → contains swept.0.processed_nodes id ≡ true))
              × (record s {
                params = swept.1.new_params;
                derived_nodes = swept.0.new_derived_nodes;
                param_id_to_index = swept.1.new_param_id_to_index;
                derived_node_id_to_revision = swept.0.new_derived_node_id_to_revision;
              }
                  ≡ s')))
  unfolding run_garbage_collection
  run_garbage_collection-Covered nodes_apart retained fuel s' h =
      let step = bind_ok (sweep empty params_of s fuel _ _) _ s' h in
      let (w, done) =
        Swept-sweep empty params_of s retained nodes_apart fuel _ _ step.0
          (Swept-start empty params_of s retained nodes_apart) step.1.0 in
      (
        step.0,
        (
          Covered-sweep fuel (start_nodes empty params_of s retained)
              (start_params empty params_of s) step.0
              (record {
                swept = record {
                  untouched = λ j i a b. refl;
                  kept = λ j a. cc;
                  dropped = λ j a. refl;
                };
                covers = λ j k a b. cc;
              })
              step.1.0,
          (
            (λ id r. reached-processed empty params_of s retained nodes_apart step.0.0 id w done r),
            ok_injective step.1.1,
          ),
        ),
      )

  -- The parameters of the reachable nodes are what they were.
  pub run_garbage_collection-get_param :
      (nodes_apart : AreApart s) (retained : List DerivedNodeId) (fuel : ℕ) (s' : DatabaseStorage V)
      → run_garbage_collection empty params_of s fuel retained ≡ ok s'
      → (id : DerivedNodeId) (q : ParamId) → Reachable s retained id
      → contains (params_of id) q ≡ true
      → get_param s' q ≡ get_param s q
  run_garbage_collection-get_param nodes_apart retained fuel s' h id q r at =
      let (swept, (c, (reached, same))) =
        run_garbage_collection-Covered nodes_apart retained fuel s' h in
      subst (λ t. get_param t q ≡ get_param s q) same
        (Kept-get_param swept.1 swept.0 q (c.swept.kept q (c.covers id q (reached id r) at)))

  -- Every other parameter is what it was, or is gone.
  pub run_garbage_collection-get_param_either :
      (nodes_apart : AreApart s) (retained : List DerivedNodeId) (fuel : ℕ) (s' : DatabaseStorage V)
      → run_garbage_collection empty params_of s fuel retained ≡ ok s'
      → (q : ParamId) → (get_param s' q ≡ get_param s q) ⊎ (get_param s' q ≡ ok none)
  run_garbage_collection-get_param_either nodes_apart retained fuel s' h q =
      let (swept, (c, (reached, same))) =
        run_garbage_collection-Covered nodes_apart retained fuel s' h in
      elim (Bool-cases (contains swept.1.processed_params q)) [
        | inl done ↦ inl (
            subst (λ t. get_param t q ≡ get_param s q) same
              (Kept-get_param swept.1 swept.0 q (c.swept.kept q done)))
        | inr fresh ↦ inr (
            subst (λ t. get_param t q ≡ ok none) same
              (get_param-free _ q (c.swept.dropped q fresh)))
      ]
