-- ===== src/Pico/Reachable.antt =====
-- What garbage collection keeps: crates/pico/src/garbage_collection.rs.
use isograph.Prelude.{
  ℕ, ◌==◌, Bool, true, false, ◌||◌, none, some, List, [], ◌∷◌, ◌++◌, length, get_elem?, set,
  contains, ◌≡◌, ◌⊎◌, refl, sym, ◌∙◌, inl, inr, arith, Option-cases,
}
use isograph.Pico.State.{
  ok, DerivedNodeId, Index, NodeKind, Dependency, DerivedNode, DerivedNodeRevision, DatabaseStorage,
  update, ParamId,
}
use isograph.Pico.Invariant.{Entry, stored}
use isograph.Pico.Collect.{Queue, NodeSweep, push_all, add_dependencies_to_queue, collect_node}

-- The nodes that a node's dependencies name.
abbrev pub targets : List Dependency → List DerivedNodeId
targets [] = []
targets (d ∷ ds) = elim d.node_to [
  | NodeKind.source key ↦ targets ds
  | NodeKind.derived id ↦ id ∷ targets ds
]

-- An entry at another place of the vector.
abbrev pub moved : {V : Type 0} → Entry V → Index → Entry V
moved e index = (record e.0 { index = index }, e.1)

module _ {V : Type 0} (s : DatabaseStorage V) where
  -- The nodes that the retained ones depend on, directly or not.
  pub data Reachable (retained : List DerivedNodeId) : DerivedNodeId → Type 0 where
    root : {id : DerivedNodeId} → contains retained id ≡ true → Reachable retained id
    through :
        (id : DerivedNodeId) {target : DerivedNodeId} {e : Entry V}
        → Reachable retained id
        → stored s id ≡ some e
        → contains (targets e.1.dependencies) target ≡ true
        → Reachable retained target

  -- No two nodes share a place in the vector.
  abbrev pub AreApart : Type 0
  AreApart =
      (id other : DerivedNodeId) (rev rev' : DerivedNodeRevision)
      → s.derived_node_id_to_revision id ≡ some rev
      → s.derived_node_id_to_revision other ≡ some rev'
      → rev.index ≡ rev'.index
      → id ≡ other

module _ {V : Type 0} (empty : V) (s : DatabaseStorage V) where
  -- What the sweep has done, and what is still to do.
  pub record Swept (retained : List DerivedNodeId) (n : NodeSweep V) : Type 0 where
    pub untouched :
        (id : DerivedNodeId) (rev : DerivedNodeRevision)
        → contains n.processed_nodes id ≡ false
        → s.derived_node_id_to_revision id ≡ some rev
        → get_elem? n.old_derived_nodes rev.index ≡ get_elem? s.derived_nodes rev.index
    pub kept :
        (id : DerivedNodeId)
        → contains n.processed_nodes id ≡ true
        → (e : Entry V) × (index : Index) × (stored s id ≡ some e)
          × (n.new_derived_node_id_to_revision id ≡ some (record e.0 { index = index }))
          × (get_elem? n.new_derived_nodes index ≡ some e.1)
    pub dropped :
        (id : DerivedNodeId)
        → contains n.processed_nodes id ≡ false
        → n.new_derived_node_id_to_revision id ≡ none
    pub processed_reached :
        (id : DerivedNodeId) → contains n.processed_nodes id ≡ true → Reachable s retained id
    pub queue_reached :
        (id : DerivedNodeId) → contains n.derived_node_id_queue id ≡ true → Reachable s retained id
    pub roots_seen :
        (id : DerivedNodeId)
        → contains retained id ≡ true
        → (contains n.processed_nodes id ≡ true) ⊎ (contains n.derived_node_id_queue id ≡ true)
    pub targets_seen :
        (id target : DerivedNodeId) (e : Entry V)
        → contains n.processed_nodes id ≡ true
        → stored s id ≡ some e
        → contains (targets e.1.dependencies) target ≡ true
        → (contains n.processed_nodes target ≡ true)
          ⊎ (contains n.derived_node_id_queue target ≡ true)

pub ok_injective : {A : Type 0} {a b : A} → ok a ≡ ok b → a ≡ b
ok_injective h = cc

-- What `collect_node` returns: the revision and the node that it moves.
module _ {V : Type 0} (empty : V) (params_of : DerivedNodeId → List ParamId)
    (s : DatabaseStorage V) where
  pub record Collects (n : NodeSweep V) (id : DerivedNodeId) (n' : NodeSweep V) : Type 0 where
    pub rev : DerivedNodeRevision
    pub node : DerivedNode V
    pub found : s.derived_node_id_to_revision id ≡ some rev
    pub held : get_elem? n.old_derived_nodes rev.index ≡ some node
    pub result : n' ≡ record {
      derived_node_id_queue = add_dependencies_to_queue n.derived_node_id_queue node.dependencies;
      processed_nodes = id ∷ n.processed_nodes;
      old_derived_nodes = set n.old_derived_nodes rev.index (record node { value = empty });
      new_derived_nodes = n.new_derived_nodes ++ node ∷ [];
      new_derived_node_id_to_revision =
          update n.new_derived_node_id_to_revision id
            (record rev { index = length n.new_derived_nodes });
    }

  pub collect_node-ok :
      (n n' : NodeSweep V) (id : DerivedNodeId)
      → collect_node empty params_of s n id ≡ ok n'
      → Collects n id n'
  unfolding collect_node
  collect_node-ok n n' id h = elim (Option-cases (s.derived_node_id_to_revision id)) [
    | inl e ↦ absurd (ground (arith, h, e))
    | inr (rev, e) ↦ elim (Option-cases (get_elem? n.old_derived_nodes rev.index)) [
      | inl e' ↦ absurd (ground (arith, h, e, e'))
      | inr (node, e') ↦ record {
        rev = rev;
        node = node;
        found = e;
        held = e';
        result = ok_injective (sym h ∙ rw (e, e', collect_node) refl);
      }
    ]
  ]

or_swap : (a b c : Bool) → (a || b) || c ≡ b || (a || c)
or_swap true true c = refl
or_swap true false c = refl
or_swap false b c = refl

or_false : (b : Bool) → b ≡ b || false
or_false true = refl
or_false false = refl

NodeKind-cases :
    (k : NodeKind)
    → ((key : ℕ) × (k ≡ NodeKind.source key)) ⊎ ((id : ℕ) × (k ≡ NodeKind.derived id))
NodeKind-cases (NodeKind.source key) = inl (key, refl)
NodeKind-cases (NodeKind.derived id) = inr (id, refl)

pub contains-add_dependencies :
    (queue : Queue) (ds : List Dependency) (id : DerivedNodeId)
    → contains (add_dependencies_to_queue queue ds) id
      ≡ contains queue id || contains (targets ds) id
unfolding add_dependencies_to_queue
contains-add_dependencies queue [] id = or_false (contains queue id)
contains-add_dependencies queue (d ∷ ds) id = elim (NodeKind-cases d.node_to) [
  | inl (key, e) ↦ rw e (contains-add_dependencies queue ds id)
  | inr (x, e) ↦ rw e (
      contains-add_dependencies (x ∷ queue) ds id
      ∙ or_swap (x == id) (contains queue id) (contains (targets ds) id))
]

pub contains-push_all :
    (queue : Queue) (ids : List DerivedNodeId) (id : DerivedNodeId)
    → contains (push_all queue ids) id ≡ contains queue id || contains ids id
contains-push_all queue [] id = or_false (contains queue id)
contains-push_all queue (x ∷ ids) id =
    contains-push_all (x ∷ queue) ids id ∙ or_swap (x == id) (contains queue id) (contains ids id)
