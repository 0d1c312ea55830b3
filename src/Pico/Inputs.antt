-- ===== src/Pico/Inputs.antt =====
-- A change of the sources keeps the invariant (crates/pico/src/database.rs, `set_source` and
-- `remove_source`), whatever the change, if the history records it.
use native.Mathlib.Nat.{le_refl, le_trans}
use isograph.Prelude.{
  if_true, if_false, ==_ne, ==_refl, ◌≢◌, ◌==◌, if◌then◌else◌, ℕ, ◌≤◌, ◌≡◌, inl, inr, Bool, Option,
  some, List, ◌==◌, if◌then◌else◌, sym, subst, fun_ext, ◌∙◌, arith,
}
use isograph.Pico.State.{
  ok, Epoch, Key, ParamId, DerivedNodeId, InnerFn, SourceNode, Dependency, DatabaseStorage, Program,
}
use isograph.Pico.Storage.{get_source_node, get_param}
use isograph.Pico.Spec.{Evaluates, Client}
use isograph.Pico.Invariant.{
  Entry, stored, HasIndices, HasSources, HasValue, Link, Trace, SourceGood, IsValid,
}

-- No check is under way.
abbrev pub Idle : DerivedNodeId → Type 0
Idle id = ⊥

module _ {V : Type 0} where
  -- The sources with one of them set, or removed.
  abbrev pub with_source : (Key → Option V) → Key → Option V → Key → Option V
  with_source f key o k = if k == key then o else f k

  -- The history when the source `key` becomes `o` at the epoch `next`.
  abbrev pub put :
      (Epoch → Key → Option V) → Epoch → Epoch → Key → Option V → Epoch → Key → Option V
  put hist now next key o t = if t == next then with_source (hist now) key o else hist t

  pub put_next :
      (hist : Epoch → Key → Option V) (now next : Epoch) (key : Key) (o : Option V)
      → put hist now next key o next ≡ with_source (hist now) key o
  put_next hist now next key o = if_true _ _ (==_refl next)

  pub put_other :
      (hist : Epoch → Key → Option V) (now next t : Epoch) (key : Key) (o : Option V)
      → t ≢ next
      → put hist now next key o t ≡ hist t
  put_other hist now next t key o ne = if_false _ _ (==_ne t next ne)

  -- Whatever was known of the epochs up to `now` is still so.
  abbrev pub IsExtension : Epoch → (Epoch → Key → Option V) → (Epoch → Key → Option V) → Type 0
  IsExtension now hist hist' =
      (t : Epoch) (k : Key) (a : V) → t ≤ now → hist t k ≡ some a → hist' t k ≡ some a

module _ {V : Type 0} {code : InnerFn → DerivedNodeId → Program V} {param_value : ParamId → V} where
  -- More sources do not change a value.
  pub Evaluates_mono :
      (f g : Key → Option V) (p : Program V) (v : V)
      → ((k : Key) (a : V) → f k ≡ some a → g k ≡ some a)
      → Evaluates code param_value f p v
      → Evaluates code param_value g p v
  Evaluates_mono f g p v h (Evaluates.ret e) = Evaluates.ret e
  Evaluates_mono f g p v h (Evaluates.param e) = Evaluates.param (Evaluates_mono f g _ v h e)
  Evaluates_mono f g p v h (Evaluates.intern e) = Evaluates.intern (Evaluates_mono f g _ v h e)
  Evaluates_mono f g p v h (Evaluates.get {key} a s e) =
      Evaluates.get a (h key a s) (Evaluates_mono f g _ v h e)
  Evaluates_mono f g p v h (Evaluates.memo a call e) =
      Evaluates.memo a (Evaluates_mono f g _ a h call) (Evaluates_mono f g _ v h e)

module _ {V : Type 0} {dyn_eq : V → V → Bool} {code : InnerFn → DerivedNodeId → Program V}
    (c : Client dyn_eq code) (hist hist' : Epoch → Key → Option V) (now next : Epoch) where
  Trace-mono :
      (L : DerivedNodeId → V → Type 0) (t : Epoch) (r : ℕ)
      → t ≤ now
      → IsExtension now hist hist'
      → (p : Program V) (ds : List Dependency) (v : V) → Trace c hist L t r p ds v
      → Trace c hist' L t r p ds v
  Trace-mono L t r le ext (Program.ret o) ds v h = h
  Trace-mono L t r le ext (Program.param id k) ds v h =
      Trace-mono L t r le ext (k (c.param_value id)) ds v h
  Trace-mono L t r le ext (Program.intern id b p) ds v h = Trace-mono L t r le ext p ds v h
  Trace-mono L t r le ext (Program.get key k) ds v (a, rest, h, e, later) =
      (a, rest, ext t key a le h, e, Trace-mono L t r le ext (k a) rest v later)
  Trace-mono L t r le ext (Program.memo id fn k) ds v (a, extra, rest, x, e, h, l, later) = (
    a,
    extra,
    rest,
    x,
    e,
    Evaluates_mono (hist t) (hist' t) _ a (λ k' b. ext t k' b le) h,
    l,
    Trace-mono L t r le ext (k a) rest v later,
  )
  Trace-mono L t r le ext (Program.deref id k) ds v h = absurd h

  -- The nodes stay good as the sources change and the epoch moves on.
  pub inputs_changed :
      (s s' : DatabaseStorage V)
      → IsValid c hist now Idle s
      → ((id : DerivedNodeId) → stored s' id ≡ stored s id)
      → ((id : ParamId) → get_param s' id ≡ get_param s id)
      → HasIndices s'
      → now ≤ next
      → IsExtension now hist hist'
      → s'.current_epoch ≡ next
      → ((key : Key)
          → (o : Option (SourceNode V)) × (get_source_node s' key ≡ ok o)
            × SourceGood c hist' next key o)
      → HasSources s'.source_node_key_to_index s'.source_nodes
      → ((id : DerivedNodeId) (e : Entry V)
          → stored s id ≡ some e
          → (v : V) × HasValue c hist' next id v)
      → IsValid c hist' next Idle s'
  inputs_changed s s' valid same params indices le ext epoch sources table total = record {
    epoch = epoch;
    sources = sources;
    source_table = table;
    params = λ q. elim (valid.params q) [ inl h ↦ inl (params q ∙ h) | inr h ↦ inr (params q ∙ h) ];
    ready = λ id e found q m. params q ∙ valid.ready id e (sym (same id) ∙ found) q m;
    indices = indices;
    nodes = λ id e found.
        let found0 : stored s id ≡ some e = sym (same id) ∙ found in
        let good = valid.nodes id e found0 in
        record {
          same_fn = good.same_fn;
          started = good.started;
          started_le = good.started_le;
          verified_le = le_trans good.verified_le le;
          trace =
              subst
                (λ st.
                  Trace c hist' (Link c hist' st good.started) good.started (c.rank id)
                    (code (c.fn_of id) id) e.1.dependencies e.1.value)
                (fun_ext λ j. sym (same j))
                (Trace-mono (Link c hist (stored s) good.started) good.started (c.rank id)
                  (le_trans good.started_le good.verified_le) ext (code (c.fn_of id) id)
                  e.1.dependencies e.1.value good.trace);
          fresh = λ v.
              let at_now : e.0.time_verified ≡ now = omega (arith, good.verified_le) in
              elim (good.fresh at_now) [
                | inl b ↦ inl b
                | inr h ↦ inr (
                    subst (λ t. HasValue c hist' t id e.1.value) (sym at_now ∙ v)
                      (Evaluates_mono (hist now) (hist' now) _ e.1.value
                        (λ k b. ext now k b (le_refl now)) h))
              ];
          total = total id e found0;
        };
  }
