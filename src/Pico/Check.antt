-- ===== src/Pico/Check.antt =====
-- The check whether a stored node's dependencies changed: `any_dependency_changed` of
-- crates/pico/src/execute_memoized_function.rs.
use native.Mathlib.Nat.{le_trans}
use isograph.Prelude.{
  ℕ, ◌<◌, ◌≤◌, ◌≡◌, inl, inr, Bool, true, false, Option, none, some, List, ◌∷◌, ltb, ltb→le,
  Bool-cases, Option-cases, sym, subst, arith,
}
use isograph.Pico.State.{
  ok, Epoch, Key, DerivedNodeId, InnerFn, NodeKind, Dependency, SourceNode, Database, Program,
}
use isograph.Pico.Storage.{get_source_node}
use isograph.Pico.Execute.{
  Exec, any_dependency_changed, dependency_changed, derived_node_changed_since,
  source_node_changed_since, is_change,
}
use isograph.Pico.Spec.{Client}
use isograph.Pico.Invariant.{Entry, stored, dependency_on, HasValue, IsValid}
use isograph.Pico.Tables.{get_derived_node_found, get_derived_node_missing, stored_found}
use isograph.Pico.Frames.{
  Extends, Above, Extends-refl, Extends-trans, Extends-call, Extends-weaken, Above-weaken,
}
use isograph.Pico.Outcome.{Advances, Outcome, Succeeds, Advances-trans}

module _ {V : Type 0} {dyn_eq : V → V → Bool} {code : InnerFn → DerivedNodeId → Program V}
    (c : Client dyn_eq code) (hist : Epoch → Key → Option V) (now : Epoch)
    {busy : DerivedNodeId → Type 0} where
  pub Advances-refl :
      (db : Database V) → IsValid c hist now busy db.storage → Advances c hist now busy db db
  Advances-refl db valid = record {
    valid = valid;
    kept = λ id n h w. h;
    links = λ t id w le has link. link;
    interned = λ q h. h;
  }

module _ {V : Type 0} {dyn_eq : V → V → Bool} {code : InnerFn → DerivedNodeId → Program V}
    (c : Client dyn_eq code) (hist : Epoch → Key → Option V) (now : Epoch) (r : ℕ) (since : Epoch)
    (exec : Exec V) (busy : DerivedNodeId → Type 0) where
  -- The check of one dependency on a node.
  pub record NodeChecked (db : Database V) (id : DerivedNodeId) : Type 0 where
    pub changed : Bool
    pub after : Database V
    pub result : derived_node_changed_since exec db id since ≡ ok (changed, after)
    pub stack : Extends c hist r now db.dependency_stack after.dependency_stack
    pub advances : Advances c hist now busy db after
    pub unchanged :
        changed ≡ false
        → (e : Entry V) × (a : V) × (stored db.storage id ≡ some e)
          × (e.0.time_updated ≤ since)
          × HasValue c hist now id a
          × (e.1.value ≡ a)

  module _ (ih : Succeeds c hist now r exec)
      (outer : (j : DerivedNodeId) → busy j → r ≤ c.rank j) where
    check_missing :
        (db : Database V) (id : DerivedNodeId)
        → IsValid c hist now busy db.storage
        → stored db.storage id ≡ none
        → NodeChecked db id
    unfolding derived_node_changed_since
    check_missing db id valid missing = record {
      changed = true;
      after = db;
      result = ground (arith, get_derived_node_missing db.storage id valid.indices missing);
      stack = Extends-refl c hist r now db.dependency_stack;
      advances = Advances-refl c hist now db valid;
      unchanged = λ h. cc;
    }

    check_newer :
        (db : Database V) (id : DerivedNodeId) (e : Entry V)
        → IsValid c hist now busy db.storage
        → stored db.storage id ≡ some e
        → ltb since e.0.time_updated ≡ true
        → NodeChecked db id
    unfolding derived_node_changed_since
    check_newer db id e valid found newer = record {
      changed = true;
      after = db;
      result =
          ground (
            arith,
            get_derived_node_found db.storage id e found,
            stored_found db.storage id e found,
          );
      stack = Extends-refl c hist r now db.dependency_stack;
      advances = Advances-refl c hist now db valid;
      unchanged = λ h. cc;
    }

    check_call :
        (db : Database V) (id : DerivedNodeId) (e : Entry V) (a : V)
        → stored db.storage id ≡ some e
        → e.1.inner_fn ≡ c.fn_of id
        → c.rank id < r
        → ltb since e.0.time_updated ≡ false
        → HasValue c hist now id a
        → Outcome c hist now exec busy id db a
        → NodeChecked db id
    unfolding derived_node_changed_since
    check_call db id e a found fn lt older has called = record {
      changed = is_change called.did;
      after = called.after;
      result = ground (
        arith,
        get_derived_node_found db.storage id e found,
        stored_found db.storage id e found,
        called.result,
      );
      stack = subst (Extends c hist r now db.dependency_stack) (sym called.registered) (
          Extends-call c hist r now id called.time_updated db.dependency_stack called.middle lt (
            Extends-weaken c hist now (omega (arith, lt)) db.dependency_stack called.middle
              called.checked));
      advances = called.advances;
      unchanged = λ h. (
        e,
        a,
        found,
        ltb→le _ _ older,
        has,
        called.reused (ground (arith, called.not_error)) e found,
      );
    }

    pub check_node :
        (db : Database V) (id : DerivedNodeId)
        → c.rank id < r
        → Above c hist r db.dependency_stack
        → IsValid c hist now busy db.storage
        → NodeChecked db id
    check_node db id lt high valid = elim (Option-cases (stored db.storage id)) [
      | inl missing ↦ check_missing db id valid missing
      | inr (e, found) ↦ elim (Bool-cases (ltb since e.0.time_updated)) [
        | inl newer ↦ check_newer db id e valid found newer
        | inr older ↦
            let good = valid.nodes id e found in
            check_call db id e good.total.0 found good.same_fn lt older good.total.1 (
              ih busy id db good.total.0 lt (λ j b. le_trans lt (outer j b))
                (Above-weaken c hist lt db.dependency_stack high) valid (valid.ready id e found)
                good.total.1)
      ]
    ]

  -- The check of a list of dependencies, for a node whose value was `v0` and is `v` now.
  pub record Checked (db : Database V) (ds : List Dependency) (v0 v : V) : Type 0 where
    pub changed : Bool
    pub after : Database V
    pub result : any_dependency_changed exec db ds ≡ ok (changed, after)
    pub stack : Extends c hist r now db.dependency_stack after.dependency_stack
    pub advances : Advances c hist now busy db after
    pub unchanged : changed ≡ false → v0 ≡ v

  -- A check ends where its first dependency is found changed.
  pub Checked-stop :
      (db : Database V) (id : DerivedNodeId) (ds : List Dependency) (v0 v : V)
      → since < now
      → db.storage.current_epoch ≡ now
      → (n : NodeChecked db id) → n.changed ≡ true
      → Checked db (dependency_on (NodeKind.derived id) since ∷ ds) v0 v
  unfolding any_dependency_changed dependency_changed
  Checked-stop db id ds v0 v lt epoch n yes_changed = record {
    changed = true;
    after = n.after;
    result = ground (arith, n.result);
    stack = n.stack;
    advances = n.advances;
    unchanged = λ h. cc;
  }

  pub Checked-go :
      (db : Database V) (id : DerivedNodeId) (ds : List Dependency) (v0 v : V)
      → since < now
      → db.storage.current_epoch ≡ now
      → (n : NodeChecked db id) → n.changed ≡ false
      → Checked n.after ds v0 v
      → Checked db (dependency_on (NodeKind.derived id) since ∷ ds) v0 v
  unfolding any_dependency_changed dependency_changed
  Checked-go db id ds v0 v lt epoch n not_changed later = record {
    changed = later.changed;
    after = later.after;
    result = ground (arith, n.result, later.result);
    stack =
        Extends-trans c hist r now db.dependency_stack n.after.dependency_stack
          later.after.dependency_stack n.stack later.stack;
    advances = Advances-trans c hist now db n.after later.after n.advances later.advances;
    unchanged = later.unchanged;
  }

  pub Checked-source_stop :
      (db : Database V) (key : Key) (node : SourceNode V) (ds : List Dependency) (v0 v : V)
      → since < now
      → IsValid c hist now busy db.storage
      → get_source_node db.storage key ≡ ok (some node)
      → ltb since node.time_updated ≡ true
      → Checked db (dependency_on (NodeKind.source key) since ∷ ds) v0 v
  unfolding any_dependency_changed dependency_changed source_node_changed_since
  Checked-source_stop db key node ds v0 v lt valid found newer = record {
    changed = true;
    after = db;
    result = ground (arith, valid.epoch);
    stack = Extends-refl c hist r now db.dependency_stack;
    advances = Advances-refl c hist now db valid;
    unchanged = λ h. cc;
  }

  pub Checked-source_go :
      (db : Database V) (key : Key) (node : SourceNode V) (ds : List Dependency) (v0 v : V)
      → since < now
      → IsValid c hist now busy db.storage
      → get_source_node db.storage key ≡ ok (some node)
      → ltb since node.time_updated ≡ false
      → Checked db ds v0 v
      → Checked db (dependency_on (NodeKind.source key) since ∷ ds) v0 v
  unfolding any_dependency_changed dependency_changed source_node_changed_since
  Checked-source_go db key node ds v0 v lt valid found older later = record {
    changed = later.changed;
    after = later.after;
    result = ground (arith, valid.epoch, later.result);
    stack = later.stack;
    advances = later.advances;
    unchanged = later.unchanged;
  }
