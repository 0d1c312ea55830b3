-- ===== src/Iso.antt =====
-- The parser of iso literals: crates/isograph_lang_parser/src.
pub mod Token
pub mod Lexer
pub mod Description
pub mod Combinators
pub mod Values
pub mod Types
pub mod SelectionSets
pub mod Literal
pub mod Ends
pub mod Fuel
pub mod Reads
pub mod Distinct
pub mod Whole
pub mod Steps
pub mod Grammar
pub mod Annotations
pub mod Alternatives
pub mod Indent
mod Tests
