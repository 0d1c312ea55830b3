-- ===== src/Pico/Stack.antt =====
-- The dependency stack: crates/pico/src/dependency.rs.
use isograph.Prelude.{max, Bool, true, false, [], ◌∷◌, ◌++◌, ◌==◌, if◌then◌else◌}
use isograph.Pico.State.{
  Result, ok, panic, cyclic_dependency, stack_empty, Epoch, initial_epoch, DerivedNodeId,
  Dependency, TrackedDependencies, DependencyStack,
}

unfoldable pub new_tracked : DerivedNodeId → TrackedDependencies
new_tracked id = record {
  dependencies = [];
  max_time_updated = initial_epoch;
  derived_node_id = id;
}

unfoldable pub push : TrackedDependencies → Dependency → Epoch → TrackedDependencies
push t dependency time_updated = record t {
  dependencies = t.dependencies ++ dependency ∷ [];
  max_time_updated = max time_updated t.max_time_updated;
}

unfoldable pub push_if_not_empty : DependencyStack → Dependency → Epoch → DependencyStack
push_if_not_empty [] dependency time_updated = []
push_if_not_empty (entry ∷ rest) dependency time_updated = push entry dependency time_updated ∷ rest

unfoldable pub is_empty : DependencyStack → Bool
is_empty [] = true
is_empty (_ ∷ _) = false

unfoldable pub assert_no_cycles : DependencyStack → DerivedNodeId → Result (Unit {0})
assert_no_cycles [] id = ok tt
assert_no_cycles (entry ∷ rest) id =
    if entry.derived_node_id == id then panic cyclic_dependency else assert_no_cycles rest id

unfoldable pub enter : DependencyStack → DerivedNodeId → Result DependencyStack
enter stack id = elim (assert_no_cycles stack id) [
  | panic e ↦ panic e
  | ok _ ↦ ok (new_tracked id ∷ stack)
]

-- `DependencyStackGuard.release` comes to this too.
unfoldable pub leave : DependencyStack → Result (TrackedDependencies × DependencyStack)
leave [] = panic stack_empty
leave (entry ∷ rest) = ok (entry, rest)
