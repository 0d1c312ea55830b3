-- ===== src/Lang.antt =====
-- The types that the compiler's crates share: positions, type annotations, literal values
-- (crates/common_lang_types, crates/graphql_lang_types, crates/isograph_lang_types).
pub mod Outcome
pub mod Span
pub mod BaseTypes
pub mod GraphqlType
pub mod GraphqlLaws
pub mod IsographType
pub mod IsographLaws
pub mod Location
pub mod Values
pub mod Selections
pub mod Constants
mod Tests
