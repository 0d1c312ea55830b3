-- ===== src/Arguments.antt =====
-- The check of a field's arguments against the schema's types
-- (crates/isograph_schema/src/validate_argument_types.rs).
pub mod Schema
pub mod Subtype
pub mod Belongs
pub mod Validate
pub mod Errors
pub mod Provided
pub mod Reports
pub mod Missing
pub mod Fuel
pub mod Use
pub mod Pushes
pub mod Accepted
pub mod Unused
mod Tests
