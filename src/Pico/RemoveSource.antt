-- ===== src/Pico/RemoveSource.antt =====
-- `remove_source` of crates/pico/src/database.rs keeps the invariant.
use isograph.Prelude.{◌+◌, ◌≡◌, Bool, Option, none, some, set, get_elem?}
use isograph.Pico.State.{
  Epoch, Key, Index, DerivedNodeId, InnerFn, SourceNode, DatabaseStorage, Program, erase_entry,
}
use isograph.Pico.Spec.{Client}
use isograph.Pico.Invariant.{IsValid}
use isograph.Pico.Inputs.{Idle}

module _ {V : Type 0} {dyn_eq : V → V → Bool} {code : InnerFn → DerivedNodeId → Program V}
    (c : Client dyn_eq code) (hist : Epoch → Key → Option V) (now : Epoch) where
  module _ (s : DatabaseStorage V) (key : Key) (index : Index) (old : SourceNode V)
      (valid : IsValid c hist now Idle s) (found : s.source_node_key_to_index key ≡ some index)
      (slot : get_elem? s.source_nodes index ≡ some (some old)) where
    abbrev removed : DatabaseStorage V
    removed = record s {
      source_node_key_to_index = erase_entry s.source_node_key_to_index key;
      current_epoch = now + 1;
      source_nodes = set s.source_nodes index none;
    }
