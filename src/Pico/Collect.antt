-- ===== src/Pico/Collect.antt =====
-- Garbage collection: crates/pico/src/garbage_collection.rs and `run_garbage_collection` of
-- database.rs; retained queries: retained_query.rs.
-- The old tables, the new ones and the sets of what is processed are the code's local variables.
use isograph.Prelude.{
  ℕ, zero, suc, ◌+◌, ◌-◌, ◌^◌, ◌==◌, Bool, true, false, if◌then◌else◌, Option, none, some, List, [],
  ◌∷◌, ◌++◌, length, get_elem?, set, contains,
}
use isograph.Pico.State.{
  Result, ok, panic, ◌>>=◌, out_of_fuel, revision_missing, node_missing, param_missing,
  retained_query_missing, count_overflow, count_underflow, retained_query_dropped, ParamId,
  DerivedNodeId, Index, NodeKind, Dependency, DerivedNode, DerivedNodeRevision, DatabaseStorage,
  Database, update, erase_entry,
}
use isograph.Pico.Storage.{assert_empty_dependency_stack}

-- The queue is a stack; its head is the element that was pushed last.
abbrev pub Queue : Type 0
Queue = List DerivedNodeId

pub record NodeSweep (V : Type 0) : Type 0 where
  pub derived_node_id_queue : Queue
  pub processed_nodes : List DerivedNodeId
  pub old_derived_nodes : List (DerivedNode V)
  pub new_derived_nodes : List (DerivedNode V)
  pub new_derived_node_id_to_revision : DerivedNodeId → Option DerivedNodeRevision

pub record ParamSweep (V : Type 0) : Type 0 where
  pub processed_params : List ParamId
  pub old_params : List V
  pub new_params : List V
  pub new_param_id_to_index : ParamId → Option Index

abbrev pub push_node : Queue → NodeKind → Queue
push_node queue (NodeKind.source key) = queue
push_node queue (NodeKind.derived id) = id ∷ queue

unfoldable pub add_dependencies_to_queue : Queue → List Dependency → Queue
add_dependencies_to_queue queue [] = queue
add_dependencies_to_queue queue (d ∷ ds) = add_dependencies_to_queue (push_node queue d.node_to) ds

-- A vector as a stack.
abbrev pub push_all : Queue → List DerivedNodeId → Queue
push_all queue [] = queue
push_all queue (id ∷ ids) = push_all (id ∷ queue) ids

-- `empty` is the box that takes the place of a value which is moved out, and `params_of` gives the
-- `params` field of an id.
module _ {V : Type 0} (empty : V) (params_of : DerivedNodeId → List ParamId)
    (s : DatabaseStorage V) where
  -- The body of the loop for a node that is not processed, up to its parameters.
  unfoldable pub collect_node : NodeSweep V → DerivedNodeId → Result (NodeSweep V)
  collect_node n id = elim (s.derived_node_id_to_revision id) [
    | none ↦ panic revision_missing
    | some old_revision ↦ elim (get_elem? n.old_derived_nodes old_revision.index) [
      | none ↦ panic node_missing
      | some old_node ↦ ok (record {
        derived_node_id_queue =
            add_dependencies_to_queue n.derived_node_id_queue old_node.dependencies;
        processed_nodes = id ∷ n.processed_nodes;
        old_derived_nodes =
            set n.old_derived_nodes old_revision.index (record old_node { value = empty });
        new_derived_nodes = n.new_derived_nodes ++ old_node ∷ [];
        new_derived_node_id_to_revision =
            update n.new_derived_node_id_to_revision id
              (record old_revision { index = length n.new_derived_nodes });
      })
    ]
  ]

  unfoldable pub collect_param : ParamSweep V → ParamId → Result (ParamSweep V)
  collect_param p id =
      if contains p.processed_params id then ok p else elim (s.param_id_to_index id) [
        | none ↦ ok (record p { processed_params = id ∷ p.processed_params })
        | some old_index ↦ elim (get_elem? p.old_params old_index) [
          | none ↦ panic param_missing
          | some param ↦ ok (record {
            processed_params = id ∷ p.processed_params;
            old_params = set p.old_params old_index empty;
            new_params = p.new_params ++ param ∷ [];
            new_param_id_to_index = update p.new_param_id_to_index id (length p.new_params);
          })
        ]
      ]

  unfoldable pub collect_params : ParamSweep V → List ParamId → Result (ParamSweep V)
  collect_params p [] = ok p
  collect_params p (id ∷ ids) = do p' ← collect_param p id; collect_params p' ids

  -- One round of the loop.
  unfoldable pub collect :
      NodeSweep V → ParamSweep V → DerivedNodeId → Result (NodeSweep V × ParamSweep V)
  collect n p id =
      if contains n.processed_nodes id
      then ok (n, p)
      else (do n' ← collect_node n id; p' ← collect_params p (params_of id); ok (n', p'))

  -- The loop: a unit of fuel for each element that is popped.
  unfoldable pub sweep : ℕ → NodeSweep V → ParamSweep V → Result (NodeSweep V × ParamSweep V)
  sweep zero n p = panic out_of_fuel
  sweep (suc fuel) n p = elim n.derived_node_id_queue [
    | [] ↦ ok (n, p)
    | id ∷ queue ↦ do
      next ← collect (record n { derived_node_id_queue = queue }) p id
      sweep fuel next.0 next.1
  ]

  abbrev pub start_nodes : List DerivedNodeId → NodeSweep V
  start_nodes retained = record {
    derived_node_id_queue = push_all [] retained;
    processed_nodes = [];
    old_derived_nodes = s.derived_nodes;
    new_derived_nodes = [];
    new_derived_node_id_to_revision = λ _. none;
  }

  abbrev pub start_params : ParamSweep V
  start_params = record {
    processed_params = [];
    old_params = s.params;
    new_params = [];
    new_param_id_to_index = λ _. none;
  }

  -- `DatabaseStorage::run_garbage_collection`.
  unfoldable pub run_garbage_collection : ℕ → List DerivedNodeId → Result (DatabaseStorage V)
  run_garbage_collection fuel retained_derived_node_ids = do
    swept ← sweep fuel (start_nodes retained_derived_node_ids) start_params
    ok (record s {
      params = swept.1.new_params;
      derived_nodes = swept.0.new_derived_nodes;
      param_id_to_index = swept.1.new_param_id_to_index;
      derived_node_id_to_revision = swept.0.new_derived_node_id_to_revision;
    })

-- `put` is that of the `lru` crate's cache.
unfoldable pub put_all :
    (List DerivedNodeId → DerivedNodeId → List DerivedNodeId)
    → List DerivedNodeId
    → List DerivedNodeId
    → List DerivedNodeId
put_all put cache [] = cache
put_all put cache (id ∷ ids) = put_all put (put cache id) ids

-- `keys` lists the keys of a `DashMap` in its order.
module _ {V : Type 0} (empty : V) (params_of : DerivedNodeId → List ParamId)
    (put : List DerivedNodeId → DerivedNodeId → List DerivedNodeId)
    (keys : (DerivedNodeId → Option ℕ) → List DerivedNodeId) where
  -- `Database::run_garbage_collection`.
  unfoldable pub run_garbage_collection_db : ℕ → Database V → Result (Database V)
  run_garbage_collection_db fuel db = do
    _ ← assert_empty_dependency_stack db
    storage ←
        run_garbage_collection empty params_of db.storage fuel
          (put_all put db.top_level_call_lru_cache db.top_level_calls ++ keys db.retained_calls)
    ok (record db {
      storage = storage;
      top_level_calls = [];
      top_level_call_lru_cache = put_all put db.top_level_call_lru_cache db.top_level_calls;
    })

pub record RetainedQuery : Type 0 where
  pub derived_node_id : DerivedNodeId
  pub cleared : Bool

module _ {V : Type 0} where
  -- The counts are `usize`, of 64 bits, and their arithmetic is checked.
  unfoldable pub retain : Database V → DerivedNodeId → Result (RetainedQuery × Database V)
  retain db id = elim (db.retained_calls id) [
    | some count ↦
        if count + 1 == 2 ^ 64
        then panic count_overflow
        else ok (
          record { derived_node_id = id; cleared = false },
          record db { retained_calls = update db.retained_calls id (count + 1) },
        )
    | none ↦ ok (
      record { derived_node_id = id; cleared = false },
      record db { retained_calls = update db.retained_calls id 1 },
    )
  ]

  -- The query is consumed, cleared.
  unfoldable pub clear_retain : Database V → RetainedQuery → Result (RetainedQuery × Database V)
  clear_retain db query = elim (db.retained_calls query.derived_node_id) [
    | none ↦ panic retained_query_missing
    | some count ↦
        if count == 0
        then panic count_underflow
        else ok (
          record query { cleared = true },
          record db {
            retained_calls = elim (count - 1 == 0) [
              | true ↦ erase_entry db.retained_calls query.derived_node_id
              | false ↦ update db.retained_calls query.derived_node_id (count - 1)
            ];
          },
        )
  ]

unfoldable pub never_garbage_collect : RetainedQuery → RetainedQuery
never_garbage_collect query = record query { cleared = true }

unfoldable pub drop_query : RetainedQuery → Result (Unit {0})
drop_query query = if query.cleared then ok tt else panic retained_query_dropped
