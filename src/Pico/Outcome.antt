-- ===== src/Pico/Outcome.antt =====
-- What a call, and a run of a function's body, leave behind when all goes well
-- (crates/pico/src/execute_memoized_function.rs).
use isograph.Prelude.{ℕ, suc, ◌<◌, ◌≤◌, ◌≡◌, ◌≢◌, Bool, Option, some, List, ◌∷◌, ◌++◌}
use isograph.Pico.State.{
  Result, ok, Epoch, Key, ParamId, DerivedNodeId, InnerFn, NodeKind, Dependency,
  TrackedDependencies, DependencyStack, Database, DidRecalculate, reused_memoized_value, error,
  Program,
}
use isograph.Pico.Stack.{push_if_not_empty}
use isograph.Pico.Execute.{Exec, run}
use isograph.Pico.Spec.{Evaluates, Client}
use isograph.Pico.Invariant.{
  Entry, Table, stored, dependency_on, HasValue, Trace, IsValid, IsKept, KeepsLinks, Interned,
  Ready,
}
use isograph.Pico.Frames.{Extends, Above}

module _ {V : Type 0} {dyn_eq : V → V → Bool} {code : InnerFn → DerivedNodeId → Program V}
    (c : Client dyn_eq code) (hist : Epoch → Key → Option V) (now : Epoch) where
  -- The node is stored, was verified in this epoch and holds the value.
  abbrev pub IsFresh : Table V → DerivedNodeId → V → Type 0
  IsFresh st id a = (e : Entry V) × (st id ≡ some e) × (e.0.time_verified ≡ now) × (e.1.value ≡ a)

  -- The program has the value at every epoch since `t`.
  abbrev pub HoldsSince : Epoch → Program V → V → Type 0
  HoldsSince u p v = (t : Epoch) → u ≤ t → t ≤ now → Evaluates code c.param_value (hist t) p v

  -- The storage is valid, and what the storage before it guaranteed still holds.
  pub record Advances (busy : DerivedNodeId → Type 0) (db db' : Database V) : Type 0 where
    pub valid : IsValid c hist now busy db'.storage
    pub kept : IsKept c hist now (stored db.storage) (stored db'.storage)
    pub links : KeepsLinks c hist now (stored db.storage) (stored db'.storage)
    pub interned : (q : ParamId) → Interned c hist db.storage q → Interned c hist db'.storage q

  -- A call of the node `id` at the database `db` succeeds with the value `v`.
  pub record Outcome (exec : Exec V) (busy : DerivedNodeId → Type 0) (id : DerivedNodeId)
      (db : Database V) (v : V) : Type 0 where
    pub did : DidRecalculate
    pub after : Database V
    pub middle : DependencyStack
    pub time_updated : Epoch
    pub result : exec id (c.fn_of id) db ≡ ok (did, after)
    pub advances : Advances busy db after
    pub checked : Extends c hist (c.rank id) now db.dependency_stack middle
    pub registered :
        after.dependency_stack
        ≡ push_if_not_empty middle (dependency_on (NodeKind.derived id) now) time_updated
    pub since : HoldsSince time_updated (code (c.fn_of id) id) v
    pub fresh : IsFresh (stored after.storage) id v
    pub not_error : did ≢ error
    pub reused :
        did ≡ reused_memoized_value → (e : Entry V) → stored db.storage id ≡ some e → e.1.value ≡ v

  -- The part of a call between its lookup and its registration with the caller.
  pub record Done (m : Result (Epoch × DidRecalculate × Database V)) (busy : DerivedNodeId → Type 0)
      (id : DerivedNodeId) (db : Database V) (v : V) : Type 0 where
    pub time_updated : Epoch
    pub did : DidRecalculate
    pub after : Database V
    pub result : m ≡ ok (time_updated, did, after)
    pub advances : Advances busy db after
    pub checked : Extends c hist (c.rank id) now db.dependency_stack after.dependency_stack
    pub since : HoldsSince time_updated (code (c.fn_of id) id) v
    pub fresh : IsFresh (stored after.storage) id v
    pub not_error : did ≢ error
    pub reused :
        did ≡ reused_memoized_value → (e : Entry V) → stored db.storage id ≡ some e → e.1.value ≡ v

  -- Calls of ranks below `r` succeed.
  abbrev pub Succeeds : ℕ → Exec V → Type 1
  Succeeds r exec =
      (busy : DerivedNodeId → Type 0) (id : DerivedNodeId) (db : Database V) (v : V)
      → c.rank id < r
      → ((j : DerivedNodeId) → busy j → c.rank id < c.rank j)
      → Above c hist (suc (c.rank id)) db.dependency_stack
      → IsValid c hist now busy db.storage
      → Ready c hist db.storage id
      → HasValue c hist now id v
      → Outcome exec busy id db v

  -- A body runs to its value, with what it read recorded in the topmost frame.
  pub record Ran (exec : Exec V) (busy : DerivedNodeId → Type 0) (r : ℕ) (p : Program V)
      (db : Database V) (frame : TrackedDependencies) (rest : DependencyStack) (v : V)
      : Type 0 where
    pub after : Database V
    pub frame_after : TrackedDependencies
    pub reads : List Dependency
    pub result : run exec p db ≡ ok (some v, after)
    pub stack : after.dependency_stack ≡ frame_after ∷ rest
    pub recorded : frame_after.dependencies ≡ frame.dependencies ++ reads
    pub max_le : frame.max_time_updated ≤ frame_after.max_time_updated
    pub advances : Advances busy db after
    pub trace : Trace c hist (IsFresh (stored after.storage)) now r p reads v
    pub since : HoldsSince frame_after.max_time_updated p v

  module _ {busy : DerivedNodeId → Type 0} where
    pub Advances-trans :
        (a b d : Database V) → Advances busy a b → Advances busy b d → Advances busy a d
    Advances-trans a b d x y = record {
      valid = y.valid;
      kept = λ id e h v. y.kept id e (x.kept id e h v) v;
      links = λ t id w le has link. y.links t id w le has (x.links t id w le has link);
      interned = λ q h. y.interned q (x.interned q h);
    }

  pub IsFresh-kept :
      (st st' : Table V)
      → IsKept c hist now st st'
      → (id : DerivedNodeId) (a : V) → IsFresh st id a
      → IsFresh st' id a
  IsFresh-kept st st' kept id a (e, found, verified, value) =
      (e, kept id e found verified, verified, value)
