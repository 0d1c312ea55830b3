-- ===== src/Pico/Create.antt =====
-- The branch that computes a node for the first time: `create_derived_node` of
-- crates/pico/src/execute_memoized_function.rs.
use native.Mathlib.Nat.{le_refl}
use isograph.Prelude.{
  suc, ◌<◌, ◌≡◌, ◌≢◌, inr, Bool, Option, none, List, length, refl, sym, subst, ◌∙◌, ap, some_unique,
  arith,
}
use isograph.Pico.State.{
  Epoch, Key, DerivedNodeId, InnerFn, DerivedNode, DerivedNodeRevision, Dependency, Database,
  DatabaseStorage, Program, recalculated,
}
use isograph.Pico.Storage.{insert_derived_node, insert_derived_node_revision}
use isograph.Pico.Execute.{Exec, create_derived_node, store_new_node}
use isograph.Pico.Spec.{Client}
use isograph.Pico.Invariant.{Entry, Table, stored, HasValue, Link, Trace, IsValid, Ready, map_Trace}
use isograph.Pico.Tables.{
  write_node, write_node-SameInputs, write_node-HasIndices, stored-write_node_self,
  stored-write_node_ne,
}
use isograph.Pico.Writing.{Written, Relinks, Relinks-since, links-Written, Written-IsValid}
use isograph.Pico.Frames.{Above, Extends, Extends-refl}
use isograph.Pico.Outcome.{IsFresh, Succeeds, Done}
use isograph.Pico.Invoke.{Invoked, invoke-Succeeds}

module _ {V : Type 0} {dyn_eq : V → V → Bool} {code : InnerFn → DerivedNodeId → Program V}
    (c : Client dyn_eq code) (hist : Epoch → Key → Option V) (now : Epoch) where
  -- What a run has just read may be relied on.
  pub Link-of_fresh :
      (st : Table V) (t : Epoch) (id : DerivedNodeId) (a : V)
      → IsFresh c hist now st id a
      → Link c hist st t id a
  Link-of_fresh st t id a (e, found, verified, value) e1 found1 le =
      ap (λ x. x.1.value) (some_unique e1 e found1 found) ∙ value

  -- A pushed node with what a run in this epoch returned fits the invariant.
  module _ (busy busy' : DerivedNodeId → Type 0) (s : DatabaseStorage V) (id : DerivedNodeId)
      (rev : DerivedNodeRevision) (deps : List Dependency) (v : V)
      (valid : IsValid c hist now busy s) (has : HasValue c hist now id v)
      (index : rev.index ≡ length s.derived_nodes) (verified : rev.time_verified ≡ now)
      (trace : Trace c hist
        (IsFresh c hist now (stored s))
        now
        (c.rank id)
        (code (c.fn_of id) id)
        deps
        v) where
    abbrev pub new_node : DerivedNode V
    new_node = record { dependencies = deps; inner_fn = c.fn_of id; value = v }

    abbrev pub after_push : DatabaseStorage V
    after_push = write_node s id rev new_node

    pub push-Written : Written (stored s) (stored after_push) id (rev, new_node)
    push-Written = (
      stored-write_node_self s id rev new_node index,
      λ j ne. stored-write_node_ne s id rev new_node j valid.indices ne,
    )

    pub push-IsValid :
        Relinks c hist now (stored s) id (rev, new_node)
        → ((j : DerivedNodeId) → id ≢ j → busy j → busy' j)
        → Ready c hist s id
        → IsValid c hist now busy' after_push
    push-IsValid relinks keep ready =
        Written-IsValid c hist now busy busy' s after_push id (rev, new_node) valid
          (write_node-SameInputs s id rev new_node)
          (write_node-HasIndices s id rev new_node valid.indices index) push-Written relinks
          (record {
            same_fn = refl;
            started = now;
            started_le = omega arith;
            verified_le = omega arith;
            trace =
                map_Trace c hist (c.rank id)
                  (λ j a has_j fresh.
                    links-Written c hist now (stored s) (stored after_push) id (rev, new_node)
                      push-Written relinks now j a (le_refl now) has_j
                      (Link-of_fresh (stored s) now j a fresh))
                  (code (c.fn_of id) id) deps v trace;
            fresh = λ _. inr has;
            total = (v, has);
          })
          keep ready

  module _ (exec : Exec V) (busy : DerivedNodeId → Type 0) (id : DerivedNodeId) (db : Database V)
      (v : V) (missing : stored db.storage id ≡ none) (has : HasValue c hist now id v)
      (inv : Invoked c hist now exec busy id db v) (ready : Ready c hist db.storage id) where
    abbrev new_revision : DerivedNodeRevision
    new_revision = record {
      time_updated = inv.tracked.max_time_updated;
      time_verified = inv.after.storage.current_epoch;
      index = length inv.after.storage.derived_nodes;
    }

    abbrev new_entry : Entry V
    new_entry = (
      new_revision,
      record { dependencies = inv.tracked.dependencies; inner_fn = c.fn_of id; value = v },
    )

    abbrev storage_after : DatabaseStorage V
    storage_after = write_node inv.after.storage id new_revision new_entry.1

    create-Relinks : Relinks c hist now (stored inv.after.storage) id new_entry
    create-Relinks = Relinks-since c hist now (stored inv.after.storage) id new_entry inv.since

    create-Done :
        Done c hist now (create_derived_node dyn_eq code exec db id (c.fn_of id)) busy id db v
    unfolding create_derived_node store_new_node insert_derived_node insert_derived_node_revision
    create-Done =
        let valid = inv.advances.valid in
        let written =
          push-Written busy busy inv.after.storage id new_revision inv.tracked.dependencies v valid
            has refl valid.epoch inv.trace in
        record {
          time_updated = inv.tracked.max_time_updated;
          did = recalculated;
          after = record (inv.after) { storage = storage_after };
          result = ground (arith, inv.result);
          advances = record {
            valid =
                push-IsValid busy busy inv.after.storage id new_revision inv.tracked.dependencies v
                  valid has refl valid.epoch inv.trace create-Relinks (λ j ne b. b)
                  (λ q m. inv.advances.interned q (ready q m));
            kept = λ j e found verified.
                written.1 j (λ same. cc) ∙ inv.advances.kept j e found verified;
            links = λ t j a le has_j link.
                links-Written c hist now (stored inv.after.storage) (stored storage_after) id
                  new_entry written create-Relinks t j a le has_j
                  (inv.advances.links t j a le has_j link);
            interned = λ q h.
                (write_node-SameInputs inv.after.storage id new_revision new_entry.1).params q
                ∙ inv.advances.interned q h;
          };
          checked =
              subst (Extends c hist (c.rank id) now db.dependency_stack) (sym inv.stack)
                (Extends-refl c hist (c.rank id) now db.dependency_stack);
          since = inv.since;
          fresh = (new_entry, written.0, valid.epoch, refl);
          not_error = cc;
          reused = λ h. cc;
        }

  pub create-Succeeds :
      (exec : Exec V) (busy : DerivedNodeId → Type 0) (id : DerivedNodeId) (db : Database V) (v : V)
      → Succeeds c hist now (c.rank id) exec
      → ((j : DerivedNodeId) → busy j → c.rank id < c.rank j)
      → Above c hist (suc (c.rank id)) db.dependency_stack
      → IsValid c hist now busy db.storage
      → Ready c hist db.storage id
      → HasValue c hist now id v
      → stored db.storage id ≡ none
      → Done c hist now (create_derived_node dyn_eq code exec db id (c.fn_of id)) busy id db v
  create-Succeeds exec busy id db v ih outer high valid ready has missing =
      create-Done exec busy id db v missing has
        (invoke-Succeeds c hist now exec busy id db v ih (λ j b. omega (arith, outer j b)) high
          valid ready has)
        ready
