-- ===== src/Lib.antt =====
-- Verification of sqlx-data, a Rust library that builds SQL from typed parameters: filters,
-- searches, sort keys and pages. A program describes a query by the types of the crate sqlx-data-
-- params, sqlx-data-parser turns a parsed SELECT and these parameters into a new SELECT with
-- placeholders and a list of values, and the rows that come back are packed into pages.
--
-- The parts, with the files of the repository they follow:
-- - Error, Value, Filter, SortOrder, Sort, Sorting, Search, Serial, Slice, Cursor, Params: the
--   parameter types of sqlx-data-params/src (filter.rs, sort.rs, search.rs, serial.rs, slice.rs,
--   cursor.rs, params.rs, pagination.rs), one definition for each method, under the method's name.
-- - Builder and its children: the fluent builders of sqlx-data-params/src/builder.rs. The
--   typestate parameters are indices. `done` without a parent panics in the source and is `none`
--   here.
-- - Response: the pages of sqlx-data-params/src/response.rs (Serial::new is `serial`, Slice::new
--   is `slice`, Cursor::new is `cursor`).
-- - Validation: validate_fields of sqlx-data-parser/src/dynamic/validation.rs.
-- - Cache: sqlx-data-parser/src/global_cache.rs, over a store of the crate moka that is a
--   parameter. Parser: parse_sql of sqlx-data-parser/src/core/parser.rs, with its cache as a state.
-- - Ast: the part of the tree of the crate sqlparser that the code names. All else in such a tree
--   is of a type X, a parameter.
-- - Dynamic and its children: sqlx-data-parser/src/dynamic/builder.rs. Binder is the closure
--   `bind` with its generator of placeholders as a state, Exprs the small constructors, Filters,
--   Searches and Cursors the three parts of process_select, Select process_select and
--   process_set_expr, Query process_query, Placeholders the scan for numbered placeholders and their
--   renumbering, Trim the values of a LIMIT that is replaced, Build build_dynamic_sql, with one
--   child for the numbers of a text and one for each branch, without and with parameters. Semantics,
--   Holes, Grouping and Query/Order describe independently what a condition and an ORDER BY mean on
--   rows, in which order its placeholders stand, and how its text groups.
-- - Core: Tree is a second view of the trees of sqlparser, as far as sqlx-data-parser/src/core
--   names them; Count is core/parser_count.rs, where a printed text is a tree of the type Emitted
--   until `emitted_text`; Columns is the inference of column names in core/parser.rs, and Insert is
--   core/parser_insert.rs. Its child Cached is dynamic/count.rs. Rows reads queries and counts as
--   numbers over a database that is a parameter.
-- - Macros: sqlx-data-macros/src. Aliases is alias_system.rs, Source the type SqlSource of
--   type_system.rs, Syntax the trees of the crate syn, Types type_analyzer.rs, and Returns,
--   Parameters and Named are the parts of dml.rs on return types, on the arguments of a method and
--   on named parameters. Scopes and its children are scope_system.rs: Injection the hidden
--   attribute, Clauses what the text of a scope is parsed to, Apply apply_scopes_to_sql and
--   substitute_scope_aliases. Methods is DmlParser: Arguments reads the arguments of the attribute,
--   Parse is parse_dml_method_with_args. A syn::Error is its message. A HashMap is the list of its
--   entries in the order of its iteration, and a regex is a function.
-- - Examples: concrete inputs, to which the theorems are applied.
-- - Prelude: texts as lists of code points, lists over native numbers, Boolean tests, 64-bit
--   integers.
--
-- Bounds: a u8, u32 or i64 is a number with its wrap-around, saturation or check written out; a
-- usize has 64 bits. A float is its bit pattern. An index out of range is the error `panicked`.
-- The loops over a text run on fuel, one unit a round; a round takes a character at least, so the
-- length of the text is enough, and the theorems on them hold without a premise on the fuel. The
-- substitution of aliases runs on one round more than there are aliases, which is proved to be
-- enough. All other recursions are structural. The database is chosen by a Cargo feature in the
-- source and is a field of `Config` here, together with the functions to_lowercase and Debug of
-- the standard library, of which nothing is assumed. The user's CursorSecureExtract is a record
-- that is passed as an argument.
--
-- Not modelled: the variants of FilterValue that optional features add, the parser of the crate
-- sqlparser and the printing of its trees (parameters of Parser and Build), the adapter to the
-- encoders of sqlx, and, of the macros, the reading of attributes and the generation of code.
pub mod Prelude
pub mod Error
pub mod Value
pub mod Filter
pub mod SortOrder
pub mod Sort
pub mod Sorting
pub mod Search
pub mod Serial
pub mod Slice
pub mod Cursor
pub mod Core
pub mod Macros
pub mod Params
pub mod Builder
pub mod Response
pub mod Validation
pub mod Cache
pub mod Parser
pub mod Ast
pub mod Dynamic
pub mod Examples
