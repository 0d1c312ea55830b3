-- ===== src/Lib.antt =====
-- The isograph compiler (a Rust workspace under crates/): what its incremental engine and the types
-- and checks of its schema compute, with the theorems that make them correct.
--
-- The compiler keeps the sources (schema files, iso literals) in a database of the crate pico, whose
-- memoized functions parse and process them: pico re-executes a function only when something it read
-- has changed. From the parsed sources the compiler builds a schema; a client field's selections are
-- checked against it, and then merged, with variables passed from a field to the fields it selects.
--
-- - Pico: crates/pico/src and crates/pico_macros/src/memo_macro.rs. `Pico.State` has the structs,
--   `Pico.Stack` the dependency stack (dependency.rs), `Pico.Storage` the storage, the sources and
--   `MemoRef` (database.rs, memo_ref.rs), `Pico.Execute` the evaluator
--   (execute_memoized_function.rs). Each function has its name in the code; `set_db` and `remove` are
--   `Database::set` and `Database::remove`, and `Storage::set_source` is split into
--   `overwrite_source` and `add_source` by its two branches. A memoized function's body is a tree
--   of the reads that it makes (`Program`), a parameter of the model: `InnerFn` names it. Panics are
--   results. The evaluator takes fuel, one unit for each nested call; a rank that falls along the
--   calls (`Client` in `Pico.Spec`) bounds their depth, and fuel above a function's rank is enough.
--   `Pico.Spec` says what a function's value is, by a relation that does not mention the database;
--   `Pico.Invariant` says what is true of a database against the history of its sources. The modules
--   from `Pico.Tables` to `Pico.Soundness` follow one call, those from `Pico.Inputs` to
--   `Pico.RemoveSource` a change of a source, and `Pico.Session` puts them together.
--   The function that `#[memo]` makes interns its arguments before the call: in a body this is
--   `Program.intern` before `Program.memo`, and outside of one it is `intern_params`. `Pico.Interned`
--   and `Pico.Interning` have what interning (macro_fns.rs, in `Pico.Storage`) keeps: a valid database
--   need not have every parameter, but has those of its stored nodes.
--   `Pico.Collect` has garbage collection (garbage_collection.rs) and retained queries
--   (retained_query.rs, with counts of 64 bits that panic past their bounds): one function for the loop's
--   body (`collect`), one for the loop (`sweep`, a unit of fuel for each node that is popped), the
--   node's part and the parameters' part of its local variables as two records. `Pico.Reachable`
--   says what is reachable and what holds in the loop, `Pico.Sweep` and `Pico.Collected` prove it,
--   `Pico.CollectParams` and `Pico.CollectValid` that parameters and the invariant are kept,
--   `Pico.SweepEnds` that the loop ends: a node is moved once, and adds no more to the queue than it
--   has dependencies. The cache of the `lru` crate, the order of a `DashMap`'s keys, the hash of a
--   parameter and the `params` field of an id are parameters.
-- - Lang: crates/common_lang_types/src/span.rs and location.rs (`Lang.Span`, `Lang.Location`),
--   crates/graphql_lang_types/src/graphql_type_annotation.rs (`Lang.GraphqlType`), and of
--   crates/isograph_lang_types/src base_types.rs (`Lang.BaseTypes`), isograph_type_annotation.rs
--   (`Lang.IsographType`) and the values of client_field_declaration.rs (`Lang.Values`). The enum
--   constructors keep their names; `Lang.Outcome` is a `Result` with a panic beside it.
-- - Arguments: crates/isograph_schema/src/validate_argument_types.rs. `Arguments.Schema` has the part
--   of the schema that it reads, `Arguments.Subtype` the comparison of types, `Arguments.Validate`
--   the rest. `value_satisfies_type` takes fuel, which falls by one for each level of lists and
--   objects in the value, so that the depth of the value (`Arguments.Fuel`) bounds it; `value_step` is
--   the function's body.
--   `Arguments.Use` is the check of one selection's arguments and of a client field's variables in
--   crates/isograph_schema/src/validate_use_of_arguments.rs, with the errors and the variables that
--   are used as the state (`Use`); the visit of the whole selection set is not modelled.
-- - Variables: crates/isograph_schema/src/variable_context.rs, in `Variables.Context`.
--
-- - Iso: crates/isograph_lang_parser/src. `Iso.Token` has the token kinds and the errors, `Iso.Lexer`
--   the `PeekableLexer` (peekable_lexer.rs), `Iso.Description` description.rs; parse_iso_literal.rs is
--   in `Iso.Combinators` (lists, alternatives), `Iso.Values`, `Iso.Types`, `Iso.SelectionSets` and
--   `Iso.Literal`, and the declarations that it makes are in `Lang.Selections`. A parser maps a state
--   of the lexer to a value or an error, each with the state it leaves, to a panic, or to
--   `out_of_fuel`. Fuel counts the rounds of a loop and the depth of nested values, types and
--   selections; `parse_iso_literal` takes the number of the tokens and two. `Iso.Ends` and `Iso.Fuel`
--   show that it is enough, by the tokens that are left; `Iso.Reads` carries what holds of the values
--   that are read. The lexer that `logos` generates, the interner and the deserialization of directives
--   by `serde` are the record `Externals`. Texts are bytes; that a span of the lexer ends between
--   characters is not modelled.
--
-- Interned strings, ids and function pointers are numbers. A map is a function or its entries in
-- order, a set its elements in order, an append-only vector a list. Not modelled: the interning of
-- whole values in pico (`Database::intern`), printing, the parser of GraphQL schemas
-- (crates/graphql_schema_parser), the merge of selections and the rest of crates/isograph_schema, the
-- generation of artifacts, and
-- the compiler's, the command line's and the language server's input and output. Threads are not
-- modelled either: pico's database is used by one at a time.
pub mod Prelude
pub mod Lang
pub mod Arguments
pub mod Variables
pub mod Iso
pub mod Pico
