-- ===== src/Pico/Session.antt =====
-- What a user of crates/pico sees: calls from outside of any memoized function, before and after
-- the sources change.
use isograph.Prelude.{
  ℕ, suc, All, ◌≤◌, ◌+◌, ◌^◌, ◌<◌, ◌≡◌, ◌≢◌, Bool, Option, none, some, [], refl, inr, ◌∙◌, sym,
  subst, arith,
}
use isograph.Pico.State.{
  ok, Epoch, Key, DerivedNodeId, InnerFn, Database, Program, DidRecalculate, error,
}
use isograph.Pico.Stack.{push_if_not_empty, is_empty}
use isograph.Pico.Storage.{
  deref, set_db, assert_empty_dependency_stack, new_with_capacity, get_source_node, get_param,
}
use isograph.Pico.Execute.{execute_memoized_function}
use isograph.Pico.Spec.{Evaluates, Client}
use isograph.Pico.Invariant.{stored, HasValue, IsValid, Ready}
use isograph.Pico.Inputs.{Idle, put, put_next, with_source}
use isograph.Pico.Outcome.{Outcome}
use isograph.Pico.Body.{deref_fresh}
use isograph.Pico.Soundness.{execute-Succeeds}
use isograph.Pico.SetSource.{StillTotal, set_source-IsValid}

module _ {V : Type 0} {dyn_eq : V → V → Bool} {code : InnerFn → DerivedNodeId → Program V}
    (c : Client dyn_eq code) (hist : Epoch → Key → Option V) where
  -- What a call from outside returns: the value behind the `MemoRef`, a database that is valid
  -- again, and no call left under way.
  abbrev pub Returns : Epoch → ℕ → DerivedNodeId → Database V → V → Type 0
  Returns now fuel id db v =
      (did : DidRecalculate) × (db' : Database V) × (execute_memoized_function dyn_eq code fuel id
          (c.fn_of id) db
        ≡ ok (did, db'))
      × (did ≢ error)
      × (deref db' id ≡ ok v)
      × IsValid c hist now Idle db'.storage
      × (db'.dependency_stack ≡ [])

  outside :
      (now : Epoch) (fuel : ℕ) (id : DerivedNodeId) (db : Database V) (v : V)
      → db.dependency_stack ≡ []
      → Outcome c hist now (execute_memoized_function dyn_eq code fuel) Idle id db v
      → Returns now fuel id db v
  unfolding push_if_not_empty
  outside now fuel id db v empty o = (
    o.did,
    o.after,
    o.result,
    o.not_error,
    deref_fresh c hist now o.after id v o.fresh,
    o.advances.valid,
    ground arith,
  )

  -- A call of a memoized function from outside, on a valid database that has the node's parameters,
  -- with no call under way and fuel above the node's rank, where the function has a value over the
  -- current sources, returns: without a panic, with the value that computing everything anew from the
  -- current sources gives, with a valid database, and with an empty dependency stack.
  pub execute-deref :
      (now : Epoch) (fuel : ℕ) (id : DerivedNodeId) (db : Database V) (v : V)
      → db.dependency_stack ≡ []
      → IsValid c hist now Idle db.storage
      → Ready c hist db.storage id
      → HasValue c hist now id v
      → c.rank id < fuel
      → Returns now fuel id db v
  execute-deref now fuel id db v empty valid ready has lt = outside now fuel id db v empty (
      execute-Succeeds c hist now fuel Idle id db v lt (λ j b. absurd b)
        (subst (λ s. All (λ f. suc (c.rank id) ≤ c.rank f.derived_node_id) s) (sym empty) tt) valid
        ready has)

module _ {V : Type 0} {dyn_eq : V → V → Bool} {code : InnerFn → DerivedNodeId → Program V}
    (c : Client dyn_eq code) (hist : Epoch → Key → Option V) where
  -- On a valid database that has the called node's parameters, with no call under way and an epoch
  -- that does not overflow, and where every stored function still has a value over the new sources:
  -- setting a source returns a database on which a call of a function that has a value over the new
  -- sources, with fuel above the node's rank, returns that value.
  pub set_db-execute :
      (now : Epoch) (fuel : ℕ) (id : DerivedNodeId) (db : Database V) (key : Key) (value v : V)
      → db.dependency_stack ≡ []
      → IsValid c hist now Idle db.storage
      → Ready c hist db.storage id
      → now + 1 < 2 ^ 64
      → StillTotal c hist now db.storage (with_source (hist now) key (some value))
      → Evaluates code c.param_value
          (with_source (hist now) key (some value))
          (code (c.fn_of id) id)
          v
      → c.rank id < fuel
      → (db1 : Database V) × (next : Epoch) × (set_db dyn_eq db key value ≡ ok db1)
        × Returns c (put hist now next key (some value)) next fuel id db1 v
  unfolding set_db assert_empty_dependency_stack is_empty
  set_db-execute now fuel id db key value v empty valid ready bound total has lt =
      let (next, s, set_ok, le, step, valid', same, kept) =
        set_source-IsValid c hist now db.storage key value valid bound total in
      (
        record db { storage = s },
        next,
        ground arith,
        execute-deref c (put hist now next key (some value)) next fuel id
            (record db { storage = s }) v empty valid' (λ q m. kept q ∙ ready q m)
            (subst (λ f. Evaluates code c.param_value f (code (c.fn_of id) id) v)
              (sym (put_next hist now next key (some value))) has)
            lt,
      )

  -- A new database is valid, for a history that starts with no sources.
  pub new_with_capacity-IsValid :
      ((key : Key) → hist 1 key ≡ none) → IsValid c hist 1 Idle (new_with_capacity {V = V}).storage
  unfolding new_with_capacity get_source_node get_param stored
  new_with_capacity-IsValid none_yet = record {
    epoch = refl;
    sources = λ key. (none, refl, none_yet key);
    source_table = record { points = λ key i h. cc; apart = λ k k' i h h'. cc };
    params = λ q. inr refl;
    ready = λ id e h. absurd cc;
    indices = λ id rev h. absurd cc;
    nodes = λ id e h. absurd cc;
  }
