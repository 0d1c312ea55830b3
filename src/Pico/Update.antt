-- ===== src/Pico/Update.antt =====
-- The branch that computes a stored node again: `update_derived_node` of
-- crates/pico/src/execute_memoized_function.rs, with its backdating.
use native.Mathlib.Nat.{le_refl}
use isograph.Prelude.{
  suc, ◌<◌, ◌≤◌, ◌≡◌, ◌≢◌, ◌⊎◌, inl, inr, Bool, true, false, Option, some, length, Bool-cases,
  if◌then◌else◌, refl, sym, subst, ◌∙◌, arith,
}
use isograph.Pico.State.{
  ok, Epoch, Key, ParamId, DerivedNodeId, InnerFn, DerivedNodeRevision, Database, DatabaseStorage,
  Program, DidRecalculate, reused_memoized_value, recalculated,
}
use isograph.Pico.Storage.{insert_derived_node}
use isograph.Pico.Execute.{Exec, update_derived_node, store_updated_node}
use isograph.Pico.Spec.{Client}
use isograph.Pico.Invariant.{Entry, stored, HasValue, IsValid, KeepsLinks, Interned, Ready}
use isograph.Pico.Tables.{write_node, write_node-SameInputs, stored_found}
use isograph.Pico.Writing.{Relinks, Relinks-since, Relinks-same, links-Written}
use isograph.Pico.Frames.{Above}
use isograph.Pico.Outcome.{Succeeds, HoldsSince}
use isograph.Pico.Invoke.{Invoked, invoke-Succeeds}
use isograph.Pico.Create.{push-Written, push-IsValid}

module _ {V : Type 0} {dyn_eq : V → V → Bool} {code : InnerFn → DerivedNodeId → Program V}
    (c : Client dyn_eq code) (hist : Epoch → Key → Option V) (now : Epoch) where
  -- While a node is checked it is marked as verified, and may still hold its old value.
  abbrev pub Marked : (DerivedNodeId → Type 0) → DerivedNodeId → DerivedNodeId → Type 0
  Marked busy id j = (id ≡ j) ⊎ busy j

  pub Marked-outer :
      (busy : DerivedNodeId → Type 0) (id : DerivedNodeId)
      → ((j : DerivedNodeId) → busy j → c.rank id < c.rank j)
      → (j : DerivedNodeId) → Marked busy id j
      → c.rank id ≤ c.rank j
  Marked-outer busy id outer j (inl eq) = subst (λ x. c.rank id ≤ c.rank x) eq (le_refl (c.rank id))
  Marked-outer busy id outer j (inr b) = omega (arith, outer j b)

  -- What the update of the node `id` leaves behind, at a database where it is marked.
  pub record Updated (exec : Exec V) (busy : DerivedNodeId → Type 0) (id : DerivedNodeId)
      (db : Database V) (old v : V) : Type 0 where
    pub did : DidRecalculate
    pub time_updated : Epoch
    pub after : Database V
    pub result :
        update_derived_node dyn_eq code exec db id old (c.fn_of id) ≡ ok (time_updated, did, after)
    pub stack : after.dependency_stack ≡ db.dependency_stack
    pub valid : IsValid c hist now busy after.storage
    pub kept_others :
        (j : DerivedNodeId) (e : Entry V)
        → id ≢ j
        → stored db.storage j ≡ some e
        → e.0.time_verified ≡ now
        → stored after.storage j ≡ some e
    pub interned : (q : ParamId) → Interned c hist db.storage q → Interned c hist after.storage q
    pub links : KeepsLinks c hist now (stored db.storage) (stored after.storage)
    pub since : HoldsSince c hist now time_updated (code (c.fn_of id) id) v
    pub entry : Entry V
    pub found : stored after.storage id ≡ some entry
    pub verified : entry.0.time_verified ≡ now
    pub value : entry.1.value ≡ v
    pub changes : ((did ≡ reused_memoized_value) × (old ≡ v)) ⊎ (did ≡ recalculated)

  module _ (exec : Exec V) (busy : DerivedNodeId → Type 0) (id : DerivedNodeId) (db : Database V)
      (e : Entry V) (v : V) (found : stored db.storage id ≡ some e)
      (verified : e.0.time_verified ≡ now) (has : HasValue c hist now id v)
      (inv : Invoked c hist now exec (Marked busy id) id db v)
      (ready : Ready c hist db.storage id) where
    abbrev updated_revision : Bool → DerivedNodeRevision
    updated_revision same = record (e.0) {
      time_updated = if same then e.0.time_updated else inv.tracked.max_time_updated;
      index = length inv.after.storage.derived_nodes;
    }

    abbrev updated_entry : Bool → Entry V
    updated_entry same = (
      updated_revision same,
      record { dependencies = inv.tracked.dependencies; inner_fn = c.fn_of id; value = v },
    )

    abbrev storage_after : Bool → DatabaseStorage V
    storage_after same =
        write_node inv.after.storage id (updated_revision same) (updated_entry same).1

    still_found : stored inv.after.storage id ≡ some e
    still_found = inv.advances.kept id e found verified

    -- Backdated, the node keeps its old value; otherwise its new time is one that fits.
    update-Relinks :
        (same : Bool)
        → (same ≡ true → e.1.value ≡ v)
        → Relinks c hist now (stored inv.after.storage) id (updated_entry same)
    update-Relinks true eq =
        Relinks-same c hist now (stored inv.after.storage) id e (updated_entry true) still_found
          refl (sym (eq refl))
    update-Relinks false eq =
        Relinks-since c hist now (stored inv.after.storage) id (updated_entry false) inv.since

    Updated-with : (same : Bool) → dyn_eq e.1.value v ≡ same → Updated exec busy id db e.1.value v
    unfolding update_derived_node store_updated_node insert_derived_node
    Updated-with same test =
        let valid = inv.advances.valid in
        let old_eq = λ (h : same ≡ true). c.dyn_eq_sound e.1.value v (test ∙ h) in
        let relinks = update-Relinks same old_eq in
        let written =
          push-Written c hist now (Marked busy id) busy inv.after.storage id (updated_revision same)
            inv.tracked.dependencies v valid has refl verified inv.trace in
        record {
          did = if same then reused_memoized_value else recalculated;
          time_updated = inv.tracked.max_time_updated;
          after = record (inv.after) { storage = storage_after same };
          result = ground (arith, inv.result, stored_found inv.after.storage id e still_found);
          stack = inv.stack;
          valid =
              push-IsValid c hist now (Marked busy id) busy inv.after.storage id
                (updated_revision same) inv.tracked.dependencies v valid has refl verified inv.trace
                relinks (λ j ne b. elim b [ inl eq ↦ absurd (ne eq) | inr h ↦ h ])
                (λ q m. inv.advances.interned q (ready q m));
          interned = λ q h.
              (write_node-SameInputs inv.after.storage id (updated_revision same)
                  (updated_entry same).1).params
                q
              ∙ inv.advances.interned q h;
          kept_others =
              λ j e1 ne found1 verified1. written.1 j ne ∙ inv.advances.kept j e1 found1 verified1;
          links = λ t j a le has_j link.
              links-Written c hist now (stored inv.after.storage) (stored (storage_after same)) id
                (updated_entry same) written relinks t j a le has_j
                (inv.advances.links t j a le has_j link);
          since = inv.since;
          entry = updated_entry same;
          found = written.0;
          verified = verified;
          value = refl;
          changes = elim (Bool-cases same) [
            | inl h ↦ inl (ground arith, old_eq h)
            | inr h ↦ inr (ground arith)
          ];
        }

  pub update-Succeeds :
      (exec : Exec V) (busy : DerivedNodeId → Type 0) (id : DerivedNodeId) (db : Database V)
      (e : Entry V) (v : V)
      → Succeeds c hist now (c.rank id) exec
      → ((j : DerivedNodeId) → busy j → c.rank id < c.rank j)
      → Above c hist (suc (c.rank id)) db.dependency_stack
      → IsValid c hist now (Marked busy id) db.storage
      → Ready c hist db.storage id
      → HasValue c hist now id v
      → stored db.storage id ≡ some e
      → e.0.time_verified ≡ now
      → Updated exec busy id db e.1.value v
  update-Succeeds exec busy id db e v ih outer high valid ready has found verified =
      Updated-with exec busy id db e v found verified has
        (invoke-Succeeds c hist now exec (Marked busy id) id db v ih (Marked-outer busy id outer)
          high valid ready has)
        ready (dyn_eq e.1.value v) refl
