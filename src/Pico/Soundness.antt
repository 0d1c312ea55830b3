-- ===== src/Pico/Soundness.antt =====
-- A call of a memoized function returns the value that computing everything anew would give:
-- `execute_memoized_function` of crates/pico/src/execute_memoized_function.rs.
use isograph.Prelude.{
  ℕ, zero, suc, ◌<◌, ◌≡◌, ◌≢◌, inl, inr, Bool, Option, some, none, Bool-cases, Option-cases, ◌==◌,
  ==_iff, ne_of_==, arith,
}
use isograph.Pico.State.{Epoch, Key, DerivedNodeId, InnerFn, NodeKind, Database, Program}
use isograph.Pico.Storage.{register_dependency_in_parent_memoized_fn}
use isograph.Pico.Execute.{
  Exec, reuse_or_update, create_derived_node, record_top_level_call, execute_step,
  execute_memoized_function,
}
use isograph.Pico.Spec.{Client}
use isograph.Pico.Invariant.{Entry, stored, HasValue, IsValid}
use isograph.Pico.Tables.{get_derived_node_found, get_derived_node_missing}
use isograph.Pico.Frames.{Above, Above-weaken, Above-Extends}
use isograph.Pico.Outcome.{Outcome, Succeeds, Done}
use isograph.Pico.Recheck.{check_succeeds}
use isograph.Pico.Update.{Marked, Marked-outer, update-Succeeds}
use isograph.Pico.Create.{create-Succeeds}
use isograph.Pico.Reuse.{
  reuse_verified, marked_revision, marked-Written, marked-Trace, Marked-IsValid,
}
use isograph.Pico.Recompute.{marked_db, reuse_unchanged, reuse_changed}

module _ {V : Type 0} {dyn_eq : V → V → Bool} {code : InnerFn → DerivedNodeId → Program V}
    (c : Client dyn_eq code) (hist : Epoch → Key → Option V) (now : Epoch) (exec : Exec V)
    (busy : DerivedNodeId → Type 0) (id : DerivedNodeId) (db : Database V) (v : V)
    (ih : Succeeds c hist now (c.rank id) exec)
    (outer : (j : DerivedNodeId) → busy j → c.rank id < c.rank j)
    (high : Above c hist (suc (c.rank id)) db.dependency_stack)
    (valid : IsValid c hist now busy db.storage) (has : HasValue c hist now id v) where
  reuse_stale :
      (e : Entry V)
      → stored db.storage id ≡ some e
      → e.0.time_verified ≢ now
      → Done c hist now (reuse_or_update dyn_eq code exec db id e.1 (c.fn_of id)) busy id db v
  reuse_stale e found stale =
      let good = valid.nodes id e found in
      let db1 = marked_db c hist now exec busy id db e v valid found has stale in
      let ch =
        check_succeeds c hist now (c.rank id) good.started exec (Marked c hist now busy id) ih
          (Marked-outer c hist now busy id outer) (omega (arith, good.started_le, good.verified_le))
          (c.reads id) (code (c.fn_of id) id) e.1.dependencies e.1.value v db1
          (marked-Trace c hist now exec busy id db e v valid found has) has (c.stratified id)
          (Above-weaken c hist (omega arith) db.dependency_stack high)
          (Marked-IsValid c hist now exec busy id db e v valid found has) in
      let e1 : Entry V = (marked_revision c hist now exec busy id db e v valid found has, e.1) in
      let still =
        ch.advances.kept id e1 (marked-Written c hist now exec busy id db e v valid found has).0
          valid.epoch in
      elim (Bool-cases ch.changed) [
        | inr same ↦ reuse_unchanged c hist now exec busy id db e v valid found has stale ch same
        | inl changed ↦
            reuse_changed c hist now exec busy id db e v valid found has stale ch changed (
              update-Succeeds c hist now exec busy id ch.after e1 v ih outer
                (Above-Extends c hist (suc (c.rank id)) (c.rank id) now db.dependency_stack
                  ch.after.dependency_stack high ch.stack)
                ch.advances.valid (ch.advances.valid.ready id e1 still) has still valid.epoch)
      ]

  reuse_succeeds :
      (e : Entry V)
      → stored db.storage id ≡ some e
      → Done c hist now (reuse_or_update dyn_eq code exec db id e.1 (c.fn_of id)) busy id db v
  reuse_succeeds e found = elim (Bool-cases (e.0.time_verified == now)) [
    | inl fresh ↦
        reuse_verified c hist now exec busy id db e v valid found has outer ((==_iff _ _).0 fresh)
    | inr stale ↦ reuse_stale e found (ne_of_== _ _ stale)
  ]

module _ {V : Type 0} {dyn_eq : V → V → Bool} {code : InnerFn → DerivedNodeId → Program V}
    (c : Client dyn_eq code) (hist : Epoch → Key → Option V) (now : Epoch) (exec : Exec V)
    (busy : DerivedNodeId → Type 0) (id : DerivedNodeId) (db : Database V) (v : V) where
  -- The call ends by registering itself with its caller.
  finish_found :
      (e : Entry V)
      → stored db.storage id ≡ some e
      → db.storage.current_epoch ≡ now
      → (d : Done c hist now
          (reuse_or_update dyn_eq code exec (record_top_level_call db id) id e.1 (c.fn_of id))
          busy
          id
          (record_top_level_call db id)
          v)
      → Outcome c hist now (execute_step dyn_eq code exec) busy id db v
  unfolding execute_step record_top_level_call register_dependency_in_parent_memoized_fn
  finish_found e found epoch d = record {
    did = d.did;
    after = register_dependency_in_parent_memoized_fn d.after (NodeKind.derived id) d.time_updated;
    middle = d.after.dependency_stack;
    time_updated = d.time_updated;
    result = ground (arith, get_derived_node_found db.storage id e found, d.result);
    advances = record {
      valid = d.advances.valid;
      kept = d.advances.kept;
      links = d.advances.links;
      interned = d.advances.interned;
    };
    checked = d.checked;
    registered = ground (arith, d.advances.valid.epoch);
    since = d.since;
    fresh = d.fresh;
    not_error = d.not_error;
    reused = d.reused;
  }

  finish_missing :
      stored db.storage id ≡ none
      → IsValid c hist now busy db.storage
      → (d : Done c hist now
          (create_derived_node dyn_eq code exec (record_top_level_call db id) id (c.fn_of id))
          busy
          id
          (record_top_level_call db id)
          v)
      → Outcome c hist now (execute_step dyn_eq code exec) busy id db v
  unfolding execute_step record_top_level_call register_dependency_in_parent_memoized_fn
  finish_missing missing valid d = record {
    did = d.did;
    after = register_dependency_in_parent_memoized_fn d.after (NodeKind.derived id) d.time_updated;
    middle = d.after.dependency_stack;
    time_updated = d.time_updated;
    result = ground (arith, get_derived_node_missing db.storage id valid.indices missing, d.result);
    advances = record {
      valid = d.advances.valid;
      kept = d.advances.kept;
      links = d.advances.links;
      interned = d.advances.interned;
    };
    checked = d.checked;
    registered = ground (arith, d.advances.valid.epoch);
    since = d.since;
    fresh = d.fresh;
    not_error = d.not_error;
    reused = d.reused;
  }

module _ {V : Type 0} {dyn_eq : V → V → Bool} {code : InnerFn → DerivedNodeId → Program V}
    (c : Client dyn_eq code) (hist : Epoch → Key → Option V) (now : Epoch) where
  step-Succeeds :
      (n : ℕ) (exec : Exec V)
      → Succeeds c hist now n exec
      → Succeeds c hist now (suc n) (execute_step dyn_eq code exec)
  unfolding record_top_level_call
  step-Succeeds n exec ih busy id db v lt outer high valid ready has =
      let smaller : Succeeds c hist now (c.rank id) exec =
        λ busy' j db' a lt'. ih busy' j db' a (omega arith) in
      let db0 = record_top_level_call db id in
      elim (Option-cases (stored db.storage id)) [
        | inl missing ↦ finish_missing c hist now exec busy id db v missing valid (
            create-Succeeds c hist now exec busy id db0 v smaller outer high valid ready has
              missing)
        | inr (e, found) ↦
            finish_found c hist now exec busy id db v e found valid.epoch
              (reuse_succeeds c hist now exec busy id db0 v smaller outer high valid has e found)
      ]

  -- Fuel above the rank is enough.
  pub execute-Succeeds :
      (fuel : ℕ) → Succeeds c hist now fuel (execute_memoized_function dyn_eq code fuel)
  unfolding execute_memoized_function
  execute-Succeeds zero = λ busy id db v lt. absurd (omega arith)
  execute-Succeeds (suc fuel) =
      step-Succeeds fuel (execute_memoized_function dyn_eq code fuel) (execute-Succeeds fuel)
