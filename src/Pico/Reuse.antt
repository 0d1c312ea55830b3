-- ===== src/Pico/Reuse.antt =====
-- The branch on a stored node: reuse it, or check it and compute it again
-- (crates/pico/src/execute_memoized_function.rs, lines 72 to 94).
use native.Mathlib.Nat.{le_trans}
use isograph.Prelude.{
  ◌<◌, ◌≡◌, inl, inr, Bool, Option, some, refl, sym, ap, subst, ◌∙◌, some_unique, arith,
}
use isograph.Pico.State.{
  Epoch, Key, DerivedNodeId, InnerFn, DerivedNodeRevision, Database, DatabaseStorage, Program,
  reused_memoized_value,
}
use isograph.Pico.Execute.{Exec, reuse_or_update}
use isograph.Pico.Spec.{Client, Evaluates_unique}
use isograph.Pico.Invariant.{Entry, stored, HasValue, Link, Trace, IsValid, map_Trace}
use isograph.Pico.Tables.{
  write_revision, write_revision-SameInputs, write_revision-HasIndices, stored-write_revision_self,
  stored-write_revision_ne, node_verified_found,
}
use isograph.Pico.Writing.{Written, Relinks, Relinks-same, links-Written, Written-IsValid}
use isograph.Pico.Frames.{Extends-refl}
use isograph.Pico.Outcome.{Done, HoldsSince}
use isograph.Pico.Check.{Advances-refl}
use isograph.Pico.Update.{Marked}

module _ {V : Type 0} {dyn_eq : V → V → Bool} {code : InnerFn → DerivedNodeId → Program V}
    (c : Client dyn_eq code) (hist : Epoch → Key → Option V) (now : Epoch) (exec : Exec V)
    (busy : DerivedNodeId → Type 0) (id : DerivedNodeId) (db : Database V) (e : Entry V) (v : V)
    (valid : IsValid c hist now busy db.storage) (found : stored db.storage id ≡ some e)
    (has : HasValue c hist now id v) where
  -- A value of this epoch holds since this epoch.
  pub now_since : HoldsSince c hist now now (code (c.fn_of id) id) v
  now_since t u n = let eq : now ≡ t = omega arith in subst (λ x. HasValue c hist x id v) eq has

  -- A node that was verified in this epoch is returned as it is.
  pub reuse_verified :
      ((j : DerivedNodeId) → busy j → c.rank id < c.rank j)
      → e.0.time_verified ≡ now
      → Done c hist now (reuse_or_update dyn_eq code exec db id e.1 (c.fn_of id)) busy id db v
  unfolding reuse_or_update
  reuse_verified outer verified =
      let value : e.1.value ≡ v = elim ((valid.nodes id e found).fresh verified) [
        | inl b ↦ absurd (omega (arith, outer id b))
        | inr h ↦ Evaluates_unique h has
      ] in
      record {
        time_updated = db.storage.current_epoch;
        did = reused_memoized_value;
        after = db;
        result = ground (arith, node_verified_found db.storage id e found, valid.epoch);
        advances = Advances-refl c hist now db valid;
        checked = Extends-refl c hist (c.rank id) now db.dependency_stack;
        since =
            subst (λ x. HoldsSince c hist now x (code (c.fn_of id) id) v) (sym valid.epoch)
              now_since;
        fresh = (e, found, verified, value);
        not_error = cc;
        reused = λ h e1 found1. ap (λ x. x.1.value) (some_unique e1 e found1 found) ∙ value;
      }

  -- `verify_derived_node`, before the check.
  abbrev pub marked_revision : DerivedNodeRevision
  marked_revision = record (e.0) { time_verified = db.storage.current_epoch }

  abbrev pub marked_storage : DatabaseStorage V
  marked_storage = write_revision db.storage id marked_revision

  abbrev pub marked : Database V
  marked = record db { storage = marked_storage }

  pub marked-Written : Written (stored db.storage) (stored marked_storage) id (marked_revision, e.1)
  marked-Written = (
    stored-write_revision_self db.storage id e marked_revision found refl,
    λ j ne. stored-write_revision_ne db.storage id marked_revision j ne,
  )

  pub marked-Relinks : Relinks c hist now (stored db.storage) id (marked_revision, e.1)
  marked-Relinks =
      Relinks-same c hist now (stored db.storage) id e (marked_revision, e.1) found refl refl

  pub marked-Trace :
      let good = valid.nodes id e found in
      Trace c hist
        (Link c hist (stored marked_storage) good.started)
        good.started
        (c.rank id)
        (code (c.fn_of id) id)
        e.1.dependencies
        e.1.value
  marked-Trace =
      let good = valid.nodes id e found in
      map_Trace c hist (c.rank id)
        (λ j a has_j link.
          links-Written c hist now (stored db.storage) (stored marked_storage) id
            (marked_revision, e.1) marked-Written marked-Relinks good.started j a
            (le_trans good.started_le good.verified_le) has_j link)
        (code (c.fn_of id) id) e.1.dependencies e.1.value good.trace

  pub Marked-IsValid : IsValid c hist now (Marked c hist now busy id) marked_storage
  Marked-IsValid =
      let good = valid.nodes id e found in
      Written-IsValid c hist now busy (Marked c hist now busy id) db.storage marked_storage id
        (marked_revision, e.1) valid (write_revision-SameInputs db.storage id marked_revision)
        (write_revision-HasIndices db.storage id e marked_revision valid.indices found refl)
        marked-Written marked-Relinks
        (record {
          same_fn = good.same_fn;
          started = good.started;
          started_le = omega (arith, good.started_le, good.verified_le, valid.epoch);
          verified_le = omega (arith, valid.epoch);
          trace = marked-Trace;
          fresh = λ _. inl (inl refl);
          total = good.total;
        })
        (λ j ne b. inr b) (valid.ready id e found)

  -- The mark comes off where the node is seen to hold its value.
  pub unmark :
      (s : DatabaseStorage V)
      → IsValid c hist now (Marked c hist now busy id) s
      → ((e1 : Entry V) → stored s id ≡ some e1 → e1.1.value ≡ v)
      → IsValid c hist now busy s
  unmark s good right = record {
    epoch = good.epoch;
    sources = good.sources;
    source_table = good.source_table;
    params = good.params;
    ready = good.ready;
    indices = good.indices;
    nodes = λ j e1 found1.
        let node = good.nodes j e1 found1 in
        record {
          same_fn = node.same_fn;
          started = node.started;
          started_le = node.started_le;
          verified_le = node.verified_le;
          trace = node.trace;
          fresh = λ verified. elim (node.fresh verified) [
            | inr h ↦ inr h
            | inl (inr b) ↦ inl b
            | inl (inl eq) ↦ inr (
                subst (λ x. HasValue c hist now x e1.1.value) eq
                  (subst (λ x. HasValue c hist now id x)
                    (sym (right e1 (subst (λ x. stored s x ≡ some e1) (sym eq) found1))) has))
          ];
          total = node.total;
        };
  }
