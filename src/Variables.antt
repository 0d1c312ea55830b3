-- ===== src/Variables.antt =====
-- The values of variables on the way from a field to the fields that it selects
-- (crates/isograph_schema/src/variable_context.rs).
pub mod Context
pub mod Child
mod Tests
