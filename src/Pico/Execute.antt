-- ===== src/Pico/Execute.antt =====
-- The memoizing evaluator: crates/pico/src/execute_memoized_function.rs.
use isograph.Prelude.{
  ℕ, zero, suc, Bool, true, false, Option, none, some, List, [], ◌∷◌, ◌++◌, ◌==◌, ltb,
  if◌then◌else◌,
}
use isograph.Pico.State.{
  Result, ok, panic, ◌>>=◌, expect, source_not_found, revision_missing, new_node_failed,
  out_of_fuel, Epoch, initial_epoch, Key, ParamId, DerivedNodeId, InnerFn, NodeKind, Dependency,
  TrackedDependencies, DerivedNode, Database, DidRecalculate, reused_memoized_value, recalculated,
  error, Program, ret, param, intern, memo, update,
}
use isograph.Pico.Stack
use isograph.Pico.Storage

abbrev pub Exec : Type 0 → Type 0
Exec V = DerivedNodeId → InnerFn → Database V → Result (DidRecalculate × Database V)

-- `matches!(did_recalculate, Recalculated | Error)`
abbrev pub is_change : DidRecalculate → Bool
is_change reused_memoized_value = false
is_change recalculated = true
is_change error = true

module _ {V : Type 0} where
  -- A memoized function's body, given what a call of a memoized function does.
  unfoldable pub run : Exec V → Program V → Database V → Result (Option V × Database V)
  run exec (ret result) db = ok (result, db)
  run exec (param id k) db = Storage.get_param db.storage id >>= λ found. elim found [
    | none ↦ ok (none, db)
    | some v ↦ run exec (k v) db
  ]
  run exec (Program.get key k) db = Storage.get db key >>= λ (v, db'). run exec (k v) db'
  run exec (intern id value p) db = run exec p (Storage.intern_param (λ _. id) db value).1
  run exec (memo id fn k) db =
      exec id fn db >>= λ (_, db'). Storage.deref db' id >>= λ v. run exec (k v) db'
  run exec (Program.deref id k) db = Storage.deref db id >>= λ v. run exec (k v) db

  -- The arguments of a call, which the function that `#[memo]` makes interns before the call.
  unfoldable pub intern_params : Database V → List (ParamId × V) → Database V
  intern_params db [] = db
  intern_params db ((id, value) ∷ arguments) =
      intern_params (Storage.intern_param (λ _. id) db value).1 arguments

  unfoldable pub source_node_changed_since : Database V → Key → Epoch → Result Bool
  source_node_changed_since db key since = elim (Storage.get_source_node db.storage key) [
    | panic e ↦ panic e
    | ok none ↦ panic source_not_found
    | ok (some node) ↦ ok (ltb since node.time_updated)
  ]

  unfoldable pub derived_node_changed_since :
      Exec V → Database V → DerivedNodeId → Epoch → Result (Bool × Database V)
  derived_node_changed_since exec db id since = Storage.get_derived_node db.storage id >>= λ found.
      elim found [
        | none ↦ ok (true, db)
        | some node ↦ elim (Storage.get_derived_node_revision db.storage id) [
          | none ↦ ok (true, db)
          | some rev ↦
              if ltb since rev.time_updated
              then ok (true, db)
              else exec id node.inner_fn db >>= λ (did, db'). ok (is_change did, db')
        ]
      ]

  unfoldable pub dependency_changed :
      Exec V → Database V → NodeKind → Epoch → Result (Bool × Database V)
  dependency_changed exec db (NodeKind.source key) since =
      source_node_changed_since db key since >>= λ changed. ok (changed, db)
  dependency_changed exec db (NodeKind.derived id) since =
      derived_node_changed_since exec db id since

  -- The `filter` and the `any` of the loop over the dependencies.
  unfoldable pub any_dependency_changed :
      Exec V → Database V → List Dependency → Result (Bool × Database V)
  any_dependency_changed exec db [] = ok (false, db)
  any_dependency_changed exec db (d ∷ ds) =
      elim (d.time_verified_or_updated == db.storage.current_epoch) [
        | true ↦ any_dependency_changed exec db ds
        | false ↦
            dependency_changed exec db d.node_to d.time_verified_or_updated >>= λ (changed, db').
            elim changed [ true ↦ ok (true, db') | false ↦ any_dependency_changed exec db' ds ]
      ]

  unfoldable pub record_top_level_call : Database V → DerivedNodeId → Database V
  record_top_level_call db id = record db {
    top_level_calls =
        if Stack.is_empty db.dependency_stack
        then db.top_level_calls ++ id ∷ []
        else db.top_level_calls;
  }

  -- The rest of `create_derived_node`, with what the function returned.
  unfoldable pub store_new_node :
      Database V
      → DerivedNodeId
      → InnerFn
      → Option (V × TrackedDependencies)
      → Result (Epoch × DidRecalculate × Database V)
  store_new_node db id inner_fn none = panic new_node_failed
  store_new_node db id inner_fn (some (value, tracked)) =
      let (index, storage) =
        Storage.insert_derived_node db.storage
          (record { dependencies = tracked.dependencies; inner_fn = inner_fn; value = value }) in
      ok (
        tracked.max_time_updated,
        recalculated,
        record db {
          storage =
              Storage.insert_derived_node_revision storage id tracked.max_time_updated
                storage.current_epoch index;
        },
      )

module _ {V : Type 0} (dyn_eq : V → V → Bool) (code : InnerFn → DerivedNodeId → Program V) where
  unfoldable pub invoke_with_dependency_tracking :
      Exec V
      → Database V
      → DerivedNodeId
      → InnerFn
      → Result (Option (V × TrackedDependencies) × Database V)
  invoke_with_dependency_tracking exec db id inner_fn = do
    entered ← Stack.enter db.dependency_stack id
    (result, db1) ← run exec (code inner_fn id) (record db { dependency_stack = entered })
    (tracked, left) ← Stack.leave db1.dependency_stack
    ok (
      elim result [ none ↦ none | some value ↦ some (value, tracked) ],
      record db1 { dependency_stack = left },
    )

  unfoldable pub create_derived_node :
      Exec V → Database V → DerivedNodeId → InnerFn → Result (Epoch × DidRecalculate × Database V)
  create_derived_node exec db id inner_fn =
      invoke_with_dependency_tracking exec db id inner_fn >>= λ (result, db1).
      store_new_node db1 id inner_fn result

  -- The rest of `update_derived_node`: equal values keep the old `time_updated` (backdating).
  unfoldable pub store_updated_node :
      Database V
      → DerivedNodeId
      → V
      → InnerFn
      → Option (V × TrackedDependencies)
      → Result (Epoch × DidRecalculate × Database V)
  store_updated_node db id prev_value inner_fn none = ok (initial_epoch, error, db)
  store_updated_node db id prev_value inner_fn (some (value, tracked)) =
      expect (Storage.get_derived_node_revision db.storage id) revision_missing >>= λ rev.
      let same = dyn_eq prev_value value in
      let (index, storage) =
        Storage.insert_derived_node db.storage
          (record { dependencies = tracked.dependencies; inner_fn = inner_fn; value = value }) in
      ok (
        tracked.max_time_updated,
        (if same then reused_memoized_value else recalculated),
        record db {
          storage = record storage {
            derived_node_id_to_revision =
                update storage.derived_node_id_to_revision id (record rev {
                  time_updated = if same then rev.time_updated else tracked.max_time_updated;
                  index = index;
                });
          };
        },
      )

  unfoldable pub update_derived_node :
      Exec V
      → Database V
      → DerivedNodeId
      → V
      → InnerFn
      → Result (Epoch × DidRecalculate × Database V)
  update_derived_node exec db id prev_value inner_fn =
      invoke_with_dependency_tracking exec db id inner_fn >>= λ (result, db1).
      store_updated_node db1 id prev_value inner_fn result

  -- The branch on a node that was stored before.
  unfoldable pub reuse_or_update :
      Exec V
      → Database V
      → DerivedNodeId
      → DerivedNode V
      → InnerFn
      → Result (Epoch × DidRecalculate × Database V)
  reuse_or_update exec db id node inner_fn =
      Storage.node_verified_in_current_epoch db.storage id >>= λ verified.
      if verified
      then ok (db.storage.current_epoch, reused_memoized_value, db)
      else Storage.verify_derived_node db.storage id >>= λ storage.
          any_dependency_changed exec (record db { storage = storage }) node.dependencies
          >>= λ (changed, db').
              if changed
              then update_derived_node exec db' id node.value inner_fn
              else ok (db'.storage.current_epoch, reused_memoized_value, db')

  -- One call, given what the calls within it do.
  unfoldable pub execute_step : Exec V → Exec V
  execute_step exec id inner_fn db =
      let db0 = record_top_level_call db id in
      Storage.get_derived_node db0.storage id >>= λ found.
      elim found [
        | some node ↦ reuse_or_update exec db0 id node inner_fn
        | none ↦ create_derived_node exec db0 id inner_fn
      ]
      >>= λ (time_updated, did_recalculate, db'). ok (
        did_recalculate,
        Storage.register_dependency_in_parent_memoized_fn db' (NodeKind.derived id) time_updated,
      )

  -- The fuel bounds how deep calls nest.
  unfoldable pub execute_memoized_function : ℕ → Exec V
  execute_memoized_function zero = λ id inner_fn db. panic out_of_fuel
  execute_memoized_function (suc fuel) = execute_step (execute_memoized_function fuel)
