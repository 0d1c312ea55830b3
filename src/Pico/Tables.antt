-- ===== src/Pico/Tables.antt =====
-- What the storage's operations do to the table of stored nodes (crates/pico/src/database.rs).

use isograph.Prelude.{
  ◌≡◌, ◌≢◌, none, some, [], ◌∷◌, ◌++◌, ◌==◌, length, get_elem?, get_elem?-append,
  get_elem?-append_length, refl, inl, inr, Bool-cases, Option-cases, arith,
}
use isograph.Pico.State.{
  ok, DerivedNodeId, DerivedNode, DerivedNodeRevision, DatabaseStorage, update,
}
use isograph.Pico.Storage.{
  get_derived_node, node_verified_in_current_epoch, verify_derived_node, get_source_node, get_param,
}
use isograph.Pico.Invariant.{Entry, stored, HasIndices, SameInputs}

module _ {V : Type 0} (s : DatabaseStorage V) (id : DerivedNodeId) where
  abbrev pub write_revision : DerivedNodeRevision → DatabaseStorage V
  write_revision rev = record s {
    derived_node_id_to_revision = update s.derived_node_id_to_revision id rev;
  }

  -- A pushed node, and a revision that points to it.
  abbrev pub write_node : DerivedNodeRevision → DerivedNode V → DatabaseStorage V
  write_node rev node = record s {
    derived_node_id_to_revision = update s.derived_node_id_to_revision id rev;
    derived_nodes = s.derived_nodes ++ node ∷ [];
  }

  pub stored_found :
      (e : Entry V)
      → stored s id ≡ some e
      → (s.derived_node_id_to_revision id ≡ some e.0)
        × (get_elem? s.derived_nodes e.0.index ≡ some e.1)
  unfolding stored
  stored_found e h = ground arith

  pub stored_missing : HasIndices s → stored s id ≡ none → s.derived_node_id_to_revision id ≡ none
  unfolding stored
  stored_missing indices h = elim (Option-cases (s.derived_node_id_to_revision id)) [
    | inl e ↦ e
    | inr (rev, e) ↦ let (node, found) = indices id rev e in ground arith
  ]

  pub get_derived_node_found :
      (e : Entry V) → stored s id ≡ some e → get_derived_node s id ≡ ok (some e.1)
  unfolding get_derived_node
  get_derived_node_found e h = let (r, n) = stored_found e h in ground arith

  pub get_derived_node_missing : HasIndices s → stored s id ≡ none → get_derived_node s id ≡ ok none
  unfolding get_derived_node
  get_derived_node_missing indices h = let r = stored_missing indices h in ground arith

  pub node_verified_found :
      (e : Entry V)
      → stored s id ≡ some e
      → node_verified_in_current_epoch s id ≡ ok (e.0.time_verified == s.current_epoch)
  unfolding node_verified_in_current_epoch
  node_verified_found e h = let (r, n) = stored_found e h in ground arith

  pub verify_found :
      (e : Entry V)
      → stored s id ≡ some e
      → verify_derived_node s id
        ≡ ok (write_revision (record (e.0) { time_verified = s.current_epoch }))
  unfolding verify_derived_node
  verify_found e h = let (r, n) = stored_found e h in ground arith

  -- Verifying changes one entry's time.
  pub stored-write_revision_self :
      (e : Entry V) (rev : DerivedNodeRevision)
      → stored s id ≡ some e
      → rev.index ≡ e.0.index
      → stored (write_revision rev) id ≡ some (rev, e.1)
  unfolding stored
  stored-write_revision_self e rev h i = let (r, n) = stored_found e h in ground arith

  pub stored-write_revision_ne :
      (rev : DerivedNodeRevision) (j : DerivedNodeId)
      → id ≢ j
      → stored (write_revision rev) j ≡ stored s j
  unfolding stored
  stored-write_revision_ne rev j ne = ground arith

  pub write_revision-HasIndices :
      (e : Entry V) (rev : DerivedNodeRevision)
      → HasIndices s
      → stored s id ≡ some e
      → rev.index ≡ e.0.index
      → HasIndices (write_revision rev)
  write_revision-HasIndices e rev indices h i j r found = elim (Bool-cases (id == j)) [
    | inl same ↦ (e.1, let (_, n) = stored_found e h in ground arith)
    | inr other ↦ indices j r (rw other at found)
  ]

  pub stored-write_node_self :
      (rev : DerivedNodeRevision) (node : DerivedNode V)
      → rev.index ≡ length s.derived_nodes
      → stored (write_node rev node) id ≡ some (rev, node)
  unfolding stored
  stored-write_node_self rev node i = ground (arith, get_elem?-append_length s.derived_nodes node)

  pub stored-write_node_ne :
      (rev : DerivedNodeRevision) (node : DerivedNode V) (j : DerivedNodeId)
      → HasIndices s
      → id ≢ j
      → stored (write_node rev node) j ≡ stored s j
  unfolding stored
  stored-write_node_ne rev node j indices ne =
      elim (Option-cases (s.derived_node_id_to_revision j)) [
        | inl e ↦ ground arith
        | inr (old, e) ↦
            let (n, found) = indices j old e in
            ground (arith, get_elem?-append s.derived_nodes (node ∷ []) old.index found)
      ]

  pub write_node-HasIndices :
      (rev : DerivedNodeRevision) (node : DerivedNode V)
      → HasIndices s
      → rev.index ≡ length s.derived_nodes
      → HasIndices (write_node rev node)
  write_node-HasIndices rev node indices i j r found = elim (Bool-cases (id == j)) [
    | inl same ↦ (node, ground (arith, get_elem?-append_length s.derived_nodes node))
    | inr other ↦
        let (n, old) = indices j r (rw other at found) in
        (n, get_elem?-append s.derived_nodes (node ∷ []) r.index old)
  ]

  pub write_node-SameInputs :
      (rev : DerivedNodeRevision) (node : DerivedNode V) → SameInputs s (write_node rev node)
  unfolding get_source_node get_param
  write_node-SameInputs rev node = record {
    index_of = refl;
    slots = refl;
    epoch = refl;
    sources = λ key. refl;
    params = λ p. refl;
  }

  pub write_revision-SameInputs : (rev : DerivedNodeRevision) → SameInputs s (write_revision rev)
  unfolding get_source_node get_param
  write_revision-SameInputs rev = record {
    index_of = refl;
    slots = refl;
    epoch = refl;
    sources = λ key. refl;
    params = λ p. refl;
  }
