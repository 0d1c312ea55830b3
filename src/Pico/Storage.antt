-- ===== src/Pico/Storage.antt =====
-- The storage's operations: `impl DatabaseStorage` and the rest of crates/pico/src/database.rs, and the
-- interning of parameters, macro_fns.rs.
use isograph.Prelude.{
  Bool, Option, none, some, [], ◌∷◌, ◌++◌, ◌==◌, if◌then◌else◌, length, get_elem?, set,
}
use isograph.Pico.State.{
  Result, ok, panic, ◌>>=◌, expect, stack_not_empty, source_not_found, invalid_index,
  revision_missing, node_missing, Epoch, initial_epoch, increment, Key, ParamId, DerivedNodeId,
  Index, NodeKind, SourceNode, DerivedNode, DerivedNodeRevision, DatabaseStorage, Database, update,
  erase_entry,
}
use isograph.Pico.Stack

module _ {V : Type 0} where
  unfoldable pub new_with_capacity : Database V
  new_with_capacity = record {
    dependency_stack = [];
    storage = record {
      param_id_to_index = λ _. none;
      derived_node_id_to_revision = λ _. none;
      source_node_key_to_index = λ _. none;
      derived_nodes = [];
      source_nodes = [];
      params = [];
      current_epoch = initial_epoch;
    };
    top_level_calls = [];
    top_level_call_lru_cache = [];
    retained_calls = λ _. none;
  }

  unfoldable pub register_dependency_in_parent_memoized_fn :
      Database V → NodeKind → Epoch → Database V
  register_dependency_in_parent_memoized_fn db node time_updated = record db {
    dependency_stack =
        Stack.push_if_not_empty db.dependency_stack
          (record { node_to = node; time_verified_or_updated = db.storage.current_epoch })
          time_updated;
  }

  unfoldable pub get_param : DatabaseStorage V → ParamId → Result (Option V)
  get_param s id = elim (s.param_id_to_index id) [
    | none ↦ ok none
    | some index ↦ elim (get_elem? s.params index) [
      | none ↦ panic invalid_index
      | some v ↦ ok (some v)
    ]
  ]

  -- `hash` is the code's `hash`, by the type's id and the value.
  unfoldable pub intern_param : (V → ParamId) → Database V → V → ParamId × Database V
  intern_param hash db param = elim (db.storage.param_id_to_index (hash param)) [
    | some index ↦ (hash param, db)
    | none ↦ (
      hash param,
      record db {
        storage = record db.storage {
          params = db.storage.params ++ param ∷ [];
          param_id_to_index =
              update db.storage.param_id_to_index (hash param) (length db.storage.params);
        };
      },
    )
  ]

  unfoldable pub get_derived_node :
      DatabaseStorage V → DerivedNodeId → Result (Option (DerivedNode V))
  get_derived_node s id = elim (s.derived_node_id_to_revision id) [
    | none ↦ ok none
    | some rev ↦ elim (get_elem? s.derived_nodes rev.index) [
      | none ↦ panic invalid_index
      | some node ↦ ok (some node)
    ]
  ]

  unfoldable pub node_verified_in_current_epoch : DatabaseStorage V → DerivedNodeId → Result Bool
  node_verified_in_current_epoch s id = elim (s.derived_node_id_to_revision id) [
    | none ↦ panic revision_missing
    | some rev ↦ ok (rev.time_verified == s.current_epoch)
  ]

  unfoldable pub verify_derived_node :
      DatabaseStorage V → DerivedNodeId → Result (DatabaseStorage V)
  verify_derived_node s id = elim (s.derived_node_id_to_revision id) [
    | none ↦ panic revision_missing
    | some rev ↦ ok (record s {
      derived_node_id_to_revision =
          update s.derived_node_id_to_revision id (record rev { time_verified = s.current_epoch });
    })
  ]

  abbrev pub get_derived_node_revision :
      DatabaseStorage V → DerivedNodeId → Option DerivedNodeRevision
  get_derived_node_revision s id = s.derived_node_id_to_revision id

  unfoldable pub insert_derived_node_revision :
      DatabaseStorage V → DerivedNodeId → Epoch → Epoch → Index → DatabaseStorage V
  insert_derived_node_revision s id time_updated time_verified index = record s {
    derived_node_id_to_revision =
        update s.derived_node_id_to_revision id
          (record { time_updated = time_updated; time_verified = time_verified; index = index });
  }

  -- The index of a push is the length before it.
  unfoldable pub insert_derived_node : DatabaseStorage V → DerivedNode V → Index × DatabaseStorage V
  insert_derived_node s node =
      (length s.derived_nodes, record s { derived_nodes = s.derived_nodes ++ node ∷ [] })

  unfoldable pub get_source_node : DatabaseStorage V → Key → Result (Option (SourceNode V))
  get_source_node s key = elim (s.source_node_key_to_index key) [
    | none ↦ ok none
    | some index ↦ expect (get_elem? s.source_nodes index) invalid_index
  ]

  unfoldable pub insert_source_node : DatabaseStorage V → SourceNode V → Index × DatabaseStorage V
  insert_source_node s node =
      (length s.source_nodes, record s { source_nodes = s.source_nodes ++ some node ∷ [] })

  -- `Database::get`: the value, and the database with the read recorded.
  unfoldable pub get : Database V → Key → Result (V × Database V)
  get db key = elim (get_source_node db.storage key) [
    | panic e ↦ panic e
    | ok none ↦ panic source_not_found
    | ok (some node) ↦ ok (
      node.value,
      register_dependency_in_parent_memoized_fn db (NodeKind.source key) node.time_updated,
    )
  ]

  -- `MemoRef::deref`.
  unfoldable pub deref : Database V → DerivedNodeId → Result V
  deref db id = elim (get_derived_node db.storage id) [
    | panic e ↦ panic e
    | ok none ↦ panic node_missing
    | ok (some node) ↦ ok node.value
  ]

  unfoldable pub assert_empty_dependency_stack : Database V → Result (Unit {0})
  assert_empty_dependency_stack db =
      if Stack.is_empty db.dependency_stack then ok tt else panic stack_not_empty

module _ {V : Type 0} (dyn_eq : V → V → Bool) where
  -- The occupied branch of `set_source`, at the entry's index.
  unfoldable pub overwrite_source : DatabaseStorage V → Index → V → Result (DatabaseStorage V)
  overwrite_source s index source = elim (get_elem? s.source_nodes index) [
    | none ↦ panic invalid_index
    | some none ↦ panic invalid_index
    | some (some node) ↦
        if dyn_eq node.value source
        then ok (record s {
          source_nodes =
              set s.source_nodes index (some (record node { time_updated = s.current_epoch }));
        })
        else do
          next_epoch ← increment s.current_epoch
          ok (record s {
            current_epoch = next_epoch;
            source_nodes =
                set s.source_nodes index
                  (some (record { time_updated = next_epoch; value = source }));
          })
  ]

  -- The vacant branch of `set_source`.
  unfoldable pub add_source : DatabaseStorage V → Key → V → DatabaseStorage V
  unfolding insert_source_node
  add_source s key source =
      let (index, s') =
        insert_source_node s (record { time_updated = s.current_epoch; value = source }) in
      record s' { source_node_key_to_index = update s'.source_node_key_to_index key index }

  unfoldable pub set_source : DatabaseStorage V → Key → V → Result (DatabaseStorage V)
  set_source s key source = elim (s.source_node_key_to_index key) [
    | none ↦ ok (add_source s key source)
    | some index ↦ overwrite_source s index source
  ]

  unfoldable pub set_db : Database V → Key → V → Result (Database V)
  set_db db key source = do
    _ ← assert_empty_dependency_stack db
    storage ← set_source db.storage key source
    ok (record db { storage = storage })

module _ {V : Type 0} where
  unfoldable pub remove_source : DatabaseStorage V → Key → Result (DatabaseStorage V)
  remove_source s key = elim (s.source_node_key_to_index key) [
    | none ↦ ok s
    | some index ↦ do
      next_epoch ← increment s.current_epoch
      _ ← expect (get_elem? s.source_nodes index) invalid_index
      ok (record s {
        source_node_key_to_index = erase_entry s.source_node_key_to_index key;
        current_epoch = next_epoch;
        source_nodes = set s.source_nodes index none;
      })
  ]

  unfoldable pub remove : Database V → Key → Result (Database V)
  remove db key = do
    _ ← assert_empty_dependency_stack db
    storage ← remove_source db.storage key
    ok (record db { storage = storage })
