-- ===== src/Pico/Recompute.antt =====
-- The two ends of a check (crates/pico/src/execute_memoized_function.rs, lines 80 to 94): the old
-- value is kept, or the function is run again.
use isograph.Prelude.{
  ◌≡◌, ◌≢◌, inl, inr, Bool, true, false, Option, some, sym, ap, subst, ◌∙◌, some_unique, arith,
}
use isograph.Pico.State.{
  Epoch, Key, ParamId, DerivedNodeId, InnerFn, Database, Program, reused_memoized_value,
}
use isograph.Pico.Execute.{Exec, reuse_or_update}
use isograph.Pico.Spec.{Client}
use isograph.Pico.Invariant.{Entry, stored, HasValue, IsValid, KeepsLinks, Interned}
use isograph.Pico.Tables.{write_revision-SameInputs, node_verified_found, verify_found}
use isograph.Pico.Writing.{links-Written}
use isograph.Pico.Frames.{Extends}
use isograph.Pico.Outcome.{Done, HoldsSince}
use isograph.Pico.Check.{Checked}
use isograph.Pico.Update.{Marked, Updated}
use isograph.Pico.Reuse.{now_since, marked_revision, marked, marked-Written, marked-Relinks, unmark}

module _ {V : Type 0} {dyn_eq : V → V → Bool} {code : InnerFn → DerivedNodeId → Program V}
    (c : Client dyn_eq code) (hist : Epoch → Key → Option V) (now : Epoch) (exec : Exec V)
    (busy : DerivedNodeId → Type 0) (id : DerivedNodeId) (db : Database V) (e : Entry V) (v : V)
    (valid : IsValid c hist now busy db.storage) (found : stored db.storage id ≡ some e)
    (has : HasValue c hist now id v) (stale : e.0.time_verified ≢ now) where
  other_verified :
      (j : DerivedNodeId) (e1 : Entry V)
      → stored db.storage j ≡ some e1
      → e1.0.time_verified ≡ now
      → id ≢ j
  other_verified j e1 found1 verified same = stale (
      ap (λ x. x.0.time_verified)
        (some_unique e e1 found (subst (λ x. stored db.storage x ≡ some e1) (sym same) found1))
      ∙ verified)

  abbrev pub started : Epoch
  started = (valid.nodes id e found).started

  abbrev pub marked_db : Database V
  marked_db = marked c hist now exec busy id db e v valid found has

  abbrev pub Mark : DerivedNodeId → Type 0
  Mark = Marked c hist now busy id

  module _
      (ch : Checked c hist now
        (c.rank id)
        started
        exec
        Mark
        marked_db
        e.1.dependencies
        e.1.value
        v) where
    kept_through :
        (j : DerivedNodeId) (e1 : Entry V)
        → stored db.storage j ≡ some e1
        → e1.0.time_verified ≡ now
        → stored ch.after.storage j ≡ some e1
    kept_through j e1 found1 verified =
        ch.advances.kept j e1
          ((marked-Written c hist now exec busy id db e v valid found has).1 j
              (other_verified j e1 found1 verified)
            ∙ found1)
          verified

    links_through : KeepsLinks c hist now (stored db.storage) (stored ch.after.storage)
    links_through t j a le has_j link = ch.advances.links t j a le has_j (
        links-Written c hist now (stored db.storage) (stored marked_db.storage) id
          (marked_revision c hist now exec busy id db e v valid found has, e.1)
          (marked-Written c hist now exec busy id db e v valid found has)
          (marked-Relinks c hist now exec busy id db e v valid found has) t j a le has_j link)

    Interned-through :
        (q : ParamId) → Interned c hist db.storage q → Interned c hist ch.after.storage q
    Interned-through q h = ch.advances.interned q (
        (write_revision-SameInputs db.storage id
            (marked_revision c hist now exec busy id db e v valid found has)).params
          q
        ∙ h)

    marked_found :
        stored ch.after.storage id
        ≡ some (marked_revision c hist now exec busy id db e v valid found has, e.1)
    marked_found =
        ch.advances.kept id _ (marked-Written c hist now exec busy id db e v valid found has).0
          valid.epoch

    -- No dependency changed: the old value is the value now.
    pub reuse_unchanged :
        ch.changed ≡ false
        → Done c hist now (reuse_or_update dyn_eq code exec db id e.1 (c.fn_of id)) busy id db v
    unfolding reuse_or_update
    reuse_unchanged h =
        let value : e.1.value ≡ v = ch.unchanged h in
        record {
          time_updated = ch.after.storage.current_epoch;
          did = reused_memoized_value;
          after = ch.after;
          result = ground (
            arith,
            node_verified_found db.storage id e found,
            valid.epoch,
            verify_found db.storage id e found,
            ch.result,
          );
          advances = record {
            valid =
                unmark c hist now exec busy id db e v valid found has ch.after.storage
                  ch.advances.valid
                  (λ e1 found1. ap (λ x. x.1.value) (some_unique e1 _ found1 marked_found) ∙ value);
            kept = kept_through;
            links = links_through;
            interned = Interned-through;
          };
          checked = ch.stack;
          since =
              subst (λ x. HoldsSince c hist now x (code (c.fn_of id) id) v)
                (sym ch.advances.valid.epoch)
                (now_since c hist now exec busy id db e v valid found has);
          fresh = (_, marked_found, valid.epoch, value);
          not_error = cc;
          reused = λ g e1 found1. ap (λ x. x.1.value) (some_unique e1 e found1 found) ∙ value;
        }

    -- A dependency changed: the function is run again.
    pub reuse_changed :
        ch.changed ≡ true
        → (u : Updated c hist now exec busy id ch.after e.1.value v)
        → Done c hist now (reuse_or_update dyn_eq code exec db id e.1 (c.fn_of id)) busy id db v
    unfolding reuse_or_update
    reuse_changed h u = record {
      time_updated = u.time_updated;
      did = u.did;
      after = u.after;
      result = ground (
        arith,
        node_verified_found db.storage id e found,
        valid.epoch,
        verify_found db.storage id e found,
        ch.result,
        u.result,
      );
      advances = record {
        valid = u.valid;
        kept = λ j e1 found1 verified.
            u.kept_others j e1 (other_verified j e1 found1 verified)
              (kept_through j e1 found1 verified) verified;
        links = λ t j a le has_j link. u.links t j a le has_j (links_through t j a le has_j link);
        interned = λ q h. u.interned q (Interned-through q h);
      };
      checked = subst (Extends c hist (c.rank id) now db.dependency_stack) (sym u.stack) ch.stack;
      since = u.since;
      fresh = (u.entry, u.found, u.verified, u.value);
      not_error = λ h. elim (u.changes) [ inl p ↦ ground arith | inr q ↦ ground arith ];
      reused = λ g e1 found1.
          ap (λ x. x.1.value) (some_unique e1 e found1 found)
          ∙ elim (u.changes) [ inl p ↦ p.1 | inr q ↦ cc ];
    }
