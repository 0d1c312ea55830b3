-- ===== src/Pico/Leaks.antt =====
-- Where a check leaves more dependencies than the function read
-- (crates/pico/src/execute_memoized_function.rs).
use isograph.Prelude.{ℕ, suc, ◌≤◌, ◌≡◌, Bool, some, [], ◌∷◌, ◌++◌, if◌then◌else◌, refl, arith}
use isograph.Pico.State.{ok, Epoch, DerivedNodeId, InnerFn, NodeKind, Database, Program}
use isograph.Pico.Stack.{push_if_not_empty, is_empty}
use isograph.Pico.Storage.{register_dependency_in_parent_memoized_fn}
use isograph.Pico.Execute.{
  execute_memoized_function, execute_step, record_top_level_call, reuse_or_update,
  derived_node_changed_since,
}
use isograph.Pico.Invariant.{Entry, stored, dependency_on}
use isograph.Pico.Tables.{stored_found, get_derived_node_found, node_verified_found}

module _ {V : Type 0} (dyn_eq : V → V → Bool) (code : InnerFn → DerivedNodeId → Program V) where
  -- The check of a dependency on a node that is up to date finds it unchanged, and yet leaves a
  -- trace outside: the function under way gets a dependency on that node, which it never called,
  -- and with none under way the node is recorded as called by the user.
  pub check-registers :
      (fuel : ℕ) (db : Database V) (id : DerivedNodeId) (since : Epoch) (e : Entry V)
      → stored db.storage id ≡ some e
      → e.0.time_verified ≡ db.storage.current_epoch
      → e.0.time_updated ≤ since
      → (db' : Database V) × (derived_node_changed_since
            (execute_memoized_function dyn_eq code (suc fuel))
            db
            id
            since
          ≡ ok (Bool.false, db'))
        × (db'.dependency_stack
            ≡ push_if_not_empty db.dependency_stack
                (dependency_on (NodeKind.derived id) db.storage.current_epoch)
                db.storage.current_epoch)
        × (db'.top_level_calls ≡ (
            if is_empty db.dependency_stack
            then db.top_level_calls ++ id ∷ []
            else db.top_level_calls))
  unfolding derived_node_changed_since execute_memoized_function execute_step record_top_level_call
      reuse_or_update register_dependency_in_parent_memoized_fn
  check-registers fuel db id since e found verified le = (
    register_dependency_in_parent_memoized_fn (record_top_level_call db id) (NodeKind.derived id)
        db.storage.current_epoch,
    ground (
      arith,
      get_derived_node_found db.storage id e found,
      stored_found db.storage id e found,
      node_verified_found db.storage id e found,
    ),
    refl,
    refl,
  )
