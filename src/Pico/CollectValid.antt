-- ===== src/Pico/CollectValid.antt =====
-- Garbage collection (crates/pico/src/garbage_collection.rs) keeps the invariant of a database.
use isograph.Prelude.{List, [], ◌≡◌}
use isograph.Pico.State.{ParamId, DerivedNodeId, DatabaseStorage}
use isograph.Pico.Collect.{NodeSweep, ParamSweep}
use isograph.Pico.Reachable.{Reachable, AreApart, Swept}
use isograph.Pico.Collected.{collected}

module _ {V : Type 0} (empty : V) (params_of : DerivedNodeId → List ParamId) (s : DatabaseStorage V)
    (retained : List DerivedNodeId) (apart : AreApart s) (swept : NodeSweep V × ParamSweep V)
    (w : Swept empty s retained swept.0) (done : swept.0.derived_node_id_queue ≡ []) where
  abbrev after : DatabaseStorage V
  after = collected empty params_of s retained apart swept
