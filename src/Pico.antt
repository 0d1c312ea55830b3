-- ===== src/Pico.antt =====
-- crates/pico: the incremental computation engine that the compiler is built on.
pub mod State
pub mod Storage
pub mod Collect
pub mod Reachable
pub mod Sweep
pub mod Collected
pub mod CollectParams
pub mod CollectValid
pub mod SweepEnds
pub mod Retain
pub mod Stack
pub mod Execute
pub mod Interned
pub mod Spec
pub mod Invariant
pub mod Tables
pub mod Frames
pub mod Outcome
pub mod Interning
pub mod Body
pub mod Writing
pub mod Check
pub mod Recheck
pub mod Invoke
pub mod Create
pub mod Update
pub mod Reuse
pub mod Recompute
pub mod Soundness
pub mod Inputs
pub mod Sources
pub mod SetSource
pub mod RemoveSource
pub mod Session
pub mod CollectSession
pub mod Leaks
mod Tests
