-- ===== src/Pico/Invoke.antt =====
-- A function's body run under a frame of its own: `invoke_with_dependency_tracking` of
-- crates/pico/src/execute_memoized_function.rs.
use native.Mathlib.Nat.{le_refl}
use isograph.Prelude.{suc, ◌≤◌, ◌≡◌, Bool, Option, some, refl, sym, subst, ◌∷◌, arith}
use isograph.Pico.State.{
  ok, Epoch, Key, DerivedNodeId, InnerFn, TrackedDependencies, Database, Program,
}
use isograph.Pico.Stack.{new_tracked, enter, leave}
use isograph.Pico.Execute.{Exec, invoke_with_dependency_tracking}
use isograph.Pico.Spec.{Client}
use isograph.Pico.Invariant.{stored, HasValue, Trace, IsValid, Ready}
use isograph.Pico.Frames.{Above, Above-weaken, no_cycle}
use isograph.Pico.Outcome.{IsFresh, HoldsSince, Advances, Succeeds, Ran}
use isograph.Pico.Body.{run-Succeeds}

module _ {V : Type 0} {dyn_eq : V → V → Bool} {code : InnerFn → DerivedNodeId → Program V}
    (c : Client dyn_eq code) (hist : Epoch → Key → Option V) (now : Epoch) where
  pub record Invoked (exec : Exec V) (busy : DerivedNodeId → Type 0) (id : DerivedNodeId)
      (db : Database V) (v : V) : Type 0 where
    pub after : Database V
    pub tracked : TrackedDependencies
    pub result :
        invoke_with_dependency_tracking dyn_eq code exec db id (c.fn_of id)
        ≡ ok (some (v, tracked), after)
    pub stack : after.dependency_stack ≡ db.dependency_stack
    pub advances : Advances c hist now busy db after
    pub trace :
        Trace c hist
          (IsFresh c hist now (stored after.storage))
          now
          (c.rank id)
          (code (c.fn_of id) id)
          tracked.dependencies
          v
    pub since : HoldsSince c hist now tracked.max_time_updated (code (c.fn_of id) id) v

  module _ (exec : Exec V) (busy : DerivedNodeId → Type 0) (id : DerivedNodeId) (db : Database V)
      (v : V) where
    -- The database that the body runs on.
    abbrev entered : Database V
    entered = record db { dependency_stack = new_tracked id ∷ db.dependency_stack }

    invoked :
        Above c hist (suc (c.rank id)) db.dependency_stack
        → Ran c hist now exec busy
            (c.rank id)
            (code (c.fn_of id) id)
            entered
            (new_tracked id)
            db.dependency_stack
            v
        → Invoked exec busy id db v
    unfolding invoke_with_dependency_tracking enter leave new_tracked
    invoked high ran = record {
      after = record (ran.after) { dependency_stack = db.dependency_stack };
      tracked = ran.frame_after;
      result = ground (arith, no_cycle c hist id db.dependency_stack high, ran.result, ran.stack);
      stack = refl;
      advances = record {
        valid = ran.advances.valid;
        kept = ran.advances.kept;
        links = ran.advances.links;
        interned = ran.advances.interned;
      };
      trace =
          subst
            (λ ds.
              Trace c hist (IsFresh c hist now (stored ran.after.storage)) now (c.rank id)
                (code (c.fn_of id) id) ds v)
            (sym ran.recorded) ran.trace;
      since = ran.since;
    }

    pub invoke-Succeeds :
        Succeeds c hist now (c.rank id) exec
        → ((j : DerivedNodeId) → busy j → c.rank id ≤ c.rank j)
        → Above c hist (suc (c.rank id)) db.dependency_stack
        → IsValid c hist now busy db.storage
        → Ready c hist db.storage id
        → HasValue c hist now id v
        → Invoked exec busy id db v
    unfolding new_tracked
    invoke-Succeeds ih outer high valid ready has = invoked high (
        run-Succeeds c hist now exec busy (c.rank id) ih outer (c.reads id) (code (c.fn_of id) id)
          entered (new_tracked id) db.dependency_stack v refl
          (le_refl _, Above-weaken c hist (omega arith) db.dependency_stack high) valid ready
          (c.stratified id) has)
