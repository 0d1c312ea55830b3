-- ===== src/Pico/Invariant.antt =====
-- The invariant of a pico database (crates/pico/src/database.rs), stated against the history of
-- the sources: what the times and the value of each stored node mean.
use isograph.Prelude.{
  ℕ, ◌<◌, ◌≤◌, ◌≡◌, ◌⊎◌, Bool, true, Option, none, some, List, [], ◌∷◌, ◌++◌, get_elem?, All,
  contains,
}
use isograph.Pico.State.{
  ok, Index, Epoch, Key, ParamId, DerivedNodeId, InnerFn, NodeKind, Dependency, DerivedNode,
  SourceNode, DerivedNodeRevision, DatabaseStorage, Program,
}
use isograph.Pico.Storage.{get_param, get_source_node}
use isograph.Pico.Spec.{Evaluates, Client}

-- A stored node with its revision.
abbrev pub Entry : Type 0 → Type 0
Entry V = DerivedNodeRevision × DerivedNode V

abbrev pub Table : Type 0 → Type 0
Table V = DerivedNodeId → Option (Entry V)

module _ {V : Type 0} where
  -- The nodes as the code looks them up: through the revision's index.
  unfoldable pub stored : DatabaseStorage V → Table V
  stored s id = elim (s.derived_node_id_to_revision id) [
    | none ↦ none
    | some rev ↦ elim (get_elem? s.derived_nodes rev.index) [
      | none ↦ none
      | some node ↦ some (rev, node)
    ]
  ]

  -- Every revision points to a node.
  abbrev pub HasIndices : DatabaseStorage V → Type 0
  HasIndices s =
      (id : DerivedNodeId) (rev : DerivedNodeRevision)
      → s.derived_node_id_to_revision id ≡ some rev
      → (node : DerivedNode V) × (get_elem? s.derived_nodes rev.index ≡ some node)

  -- Every key has a slot of its own, which holds a node.
  pub record HasSources (index_of : Key → Option Index) (nodes : List (Option (SourceNode V)))
      : Type 0 where
    pub points :
        (key : Key) (index : Index)
        → index_of key ≡ some index
        → (node : SourceNode V) × (get_elem? nodes index ≡ some (some node))
    pub apart :
        (key other : Key) (index : Index)
        → index_of key ≡ some index
        → index_of other ≡ some index
        → key ≡ other

  -- Two storages with the same sources, parameters and epoch.
  pub record SameInputs (s s' : DatabaseStorage V) : Type 0 where
    pub index_of : s'.source_node_key_to_index ≡ s.source_node_key_to_index
    pub slots : s'.source_nodes ≡ s.source_nodes
    pub epoch : s'.current_epoch ≡ s.current_epoch
    pub sources : (key : Key) → get_source_node s' key ≡ get_source_node s key
    pub params : (id : ParamId) → get_param s' id ≡ get_param s id

-- The dependency that a call or a read registers.
abbrev pub dependency_on : NodeKind → Epoch → Dependency
dependency_on node t = record { node_to = node; time_verified_or_updated = t }

module _ {V : Type 0} {dyn_eq : V → V → Bool} {code : InnerFn → DerivedNodeId → Program V}
    (c : Client dyn_eq code) (hist : Epoch → Key → Option V) where
  -- The value of a node when it is computed from the sources of an epoch.
  abbrev pub HasValue : Epoch → DerivedNodeId → V → Type 0
  HasValue t id a = Evaluates code c.param_value (hist t) (code (c.fn_of id) id) a

  -- What a dependency recorded at epoch `t` with the value `a` relies on.
  abbrev pub Link : Table V → Epoch → DerivedNodeId → V → Type 0
  Link st t id a = (e : Entry V) → st id ≡ some e → e.0.time_updated ≤ t → e.1.value ≡ a

  -- A dependency that a check of another node left behind.
  abbrev pub IsExtra : ℕ → Epoch → Dependency → Type 0
  IsExtra r t d =
      (id : DerivedNodeId) × (d ≡ dependency_on (NodeKind.derived id) t) × (c.rank id < r)

  -- A run at epoch `t` that read the dependencies `ds`, in order, and returned `v`.
  abbrev pub Trace :
      (DerivedNodeId → V → Type 0) → Epoch → ℕ → Program V → List Dependency → V → Type 0
  Trace L t r (Program.ret o) ds v = (o ≡ some v) × (ds ≡ [])
  Trace L t r (Program.param id k) ds v = Trace L t r (k (c.param_value id)) ds v
  Trace L t r (Program.intern id a p) ds v = Trace L t r p ds v
  Trace L t r (Program.get key k) ds v =
      (a : V) × (rest : List Dependency) × (hist t key ≡ some a)
      × (ds ≡ dependency_on (NodeKind.source key) t ∷ rest)
      × Trace L t r (k a) rest v
  Trace L t r (Program.memo id fn k) ds v =
      (a : V) × (extra : List Dependency) × (rest : List Dependency) × All (IsExtra r t) extra
      × (ds ≡ extra ++ (dependency_on (NodeKind.derived id) t ∷ rest))
      × HasValue t id a
      × L id a
      × Trace L t r (k a) rest v
  Trace L t r (Program.deref id k) ds v = ⊥

  -- A source's value has been the same since its `time_updated`.
  abbrev pub SourceGood : Epoch → Key → Option (SourceNode V) → Type 0
  SourceGood now key none = hist now key ≡ none
  SourceGood now key (some node) =
      (node.time_updated ≤ now)
      × ((t : Epoch) → node.time_updated ≤ t → t ≤ now → hist t key ≡ some node.value)

  pub record NodeGood (now : Epoch) (busy : DerivedNodeId → Type 0) (st : Table V)
      (id : DerivedNodeId) (e : Entry V) : Type 0 where
    pub same_fn : e.1.inner_fn ≡ c.fn_of id
    pub started : Epoch
    pub started_le : started ≤ e.0.time_verified
    pub verified_le : e.0.time_verified ≤ now
    pub trace :
        Trace
          (Link st started)
          started
          (c.rank id)
          (code (c.fn_of id) id)
          e.1.dependencies
          e.1.value
    -- A node verified in this epoch has its right value, unless its check is under way.
    pub fresh : e.0.time_verified ≡ now → busy id ⊎ HasValue now id e.1.value
    -- Computing the node anew would succeed.
    pub total : (v : V) × HasValue now id v

  abbrev pub Interned : DatabaseStorage V → ParamId → Type 0
  Interned s q = get_param s q ≡ ok (some (c.param_value q))

  -- The parameters of a node are interned.
  abbrev pub Ready : DatabaseStorage V → DerivedNodeId → Type 0
  Ready s id = (q : ParamId) → contains (c.reads id) q ≡ true → Interned s q

  pub record IsValid (now : Epoch) (busy : DerivedNodeId → Type 0) (s : DatabaseStorage V)
      : Type 0 where
    pub epoch : s.current_epoch ≡ now
    pub sources :
        (key : Key)
        → (o : Option (SourceNode V)) × (get_source_node s key ≡ ok o) × SourceGood now key o
    pub source_table : HasSources s.source_node_key_to_index s.source_nodes
    pub params : (id : ParamId) → Interned s id ⊎ (get_param s id ≡ ok none)
    -- The parameters of a stored node are interned.
    pub ready : (id : DerivedNodeId) (e : Entry V) → stored s id ≡ some e → Ready s id
    pub indices : HasIndices s
    pub nodes :
        (id : DerivedNodeId) (e : Entry V)
        → stored s id ≡ some e
        → NodeGood now busy (stored s) id e

  -- Nodes verified in this epoch are left alone.
  abbrev pub IsKept : Epoch → Table V → Table V → Type 0
  IsKept now st st' =
      (id : DerivedNodeId) (e : Entry V)
      → st id ≡ some e
      → e.0.time_verified ≡ now
      → st' id ≡ some e

  -- What earlier traces rely on still holds.
  abbrev pub KeepsLinks : Epoch → Table V → Table V → Type 0
  KeepsLinks now st st' =
      (t : Epoch) (id : DerivedNodeId) (a : V)
      → t ≤ now
      → HasValue t id a
      → Link st t id a
      → Link st' t id a

  pub map_Trace :
      {L L' : DerivedNodeId → V → Type 0} {t : Epoch} (r : ℕ)
      → ((id : DerivedNodeId) (a : V) → HasValue t id a → L id a → L' id a)
      → (p : Program V) (ds : List Dependency) (v : V) → Trace L t r p ds v
      → Trace L' t r p ds v
  map_Trace r f (Program.ret o) ds v h = h
  map_Trace r f (Program.param id k) ds v h = map_Trace r f (k (c.param_value id)) ds v h
  map_Trace r f (Program.intern id b p) ds v h = map_Trace r f p ds v h
  map_Trace r f (Program.get key k) ds v (a, rest, h, e, later) =
      (a, rest, h, e, map_Trace r f (k a) rest v later)
  map_Trace r f (Program.memo id fn k) ds v (a, extra, rest, x, e, h, l, later) =
      (a, extra, rest, x, e, h, f id a h l, map_Trace r f (k a) rest v later)
  map_Trace r f (Program.deref id k) ds v h = absurd h
