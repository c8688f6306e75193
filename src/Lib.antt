-- ===== src/Lib.antt =====
-- Verification of the core library of Luck Editor, an editor for browser cookies: the Rust crate
-- rust/crates/luck-core.
--
-- The parts of the program, and the files that model them:
--
--   Model/        rust/crates/luck-core/src/model.rs: `Cookie`, `CookieKey`, `SameSite` and
--                 `CookieCollection`, a list of cookies; the methods keep their names.
--   Diff/         rust/crates/luck-core/src/diff.rs: `diff_collections` compares two collections by
--                 key, `apply_diff` applies a diff to a collection with a strategy for conflicts,
--                 `invert` turns a diff round. The loops over maps are recursions over their entries
--                 (`scan_after`, `remove_step` and so on). Diff/Agree says when two cookies agree,
--                 field by field and without `changed_fields`.
--   Store/        rust/crates/luck-core/src/store.rs: `CookieStore` keeps the committed cookies, a
--                 revision and a bounded history; `CookieTransaction` edits a working copy, which
--                 `commit` diffs against its base and stores. `apply_external_diff`, `restore` and
--                 `rollback_last` go through `commit`.
--   Binary/       rust/crates/luck-core/src/binary.rs: the archive format. `Writer` is the list of
--                 the bytes written, `Reader` a state that the methods pass on.
--   Canonical/    rust/crates/luck-core/src/canonical.rs: `CookieCanonicalizer`, whose steps change a
--                 cookie and note the change, and `normalize_path`.
--   DomainIndex   rust/crates/luck-core/src/domain_index.rs: the keys of cookies by domain and flag.
--   Audit         rust/crates/luck-core/src/audit.rs: the bounded log of events.
--   Redact        rust/crates/luck-core/src/redact.rs: values of cookies, hidden by a mode.
--   Query/        rust/crates/luck-core/src/query.rs: `tokenize`, the recursive descent of `Parser` and
--                 `CookieQuery::execute`; `parse_or` and its loop `or_rest`, and so on, run on fuel.
--   Validation/   rust/crates/luck-core/src/validation.rs: a function for each rule, which takes the
--                 report and returns it with its issues behind. `conforms` (Validation/Conforming) is
--                 one test for all the rules, on the tests of Validation/Spec for bytes, labels and
--                 times, which use none of the functions of validation.rs.
--   Policy        rust/crates/luck-core/src/policy.rs: the violations of `evaluate`, rule by rule, and
--                 the decision on them.
--   Parsing/      rust/crates/luck-core/src/parse/: `detect_format`, `parse_cookies` and the parsers
--                 of the formats, whose loops over lines and pairs are recursions.
--   Serializing/  rust/crates/luck-core/src/serialize/: the writers of the formats.
--   Statistics/   rust/crates/luck-core/src/statistics.rs: `compute`, one loop over the cookies, and the
--                 distributions of lengths and lifetimes.
--   Engine/       rust/crates/luck-core/src/engine.rs: `inspect` and `run_pipeline`, over the parsers,
--                 the canonicalizer, validation, policies, queries, statistics, redaction and the
--                 serializers.
--   Errors        rust/crates/luck-core/src/error.rs: `LuckError` and `Result`.
--
-- The store uses diffs, the archive and the canonicalizer use the model, and the index and the store
-- use the same keys. What they share of Rust's standard library stands in Prelude/ (numbers, lists,
-- ordered keys, the stable sort), OrdMap/ (`BTreeMap` as the list of its entries in the order of the
-- keys, `BTreeSet` as a map to the unit type), Text/ (`String` as the list of its Unicode scalar
-- values, and UTF-8) and Float64 (`f64` as its 64 bits, with the comparisons of IEEE 754).
--
-- A method that changes `self` returns the new value, in a pair with its result; a method that may
-- fail returns a `Result` with the new value, and on an error the old one stays. Readings of the clock
-- are arguments. Numbers are natural numbers; `u64` revisions and identifiers saturate at the maximum
-- of `u64`, the casts of the encoder wrap, and `usize` has 64 bits. Fuel stands in three places. The
-- loop that cuts the history of the store and the audit log (Prelude/Bounded) gets a round for each
-- entry, and each round takes one away. The parser of queries gets four steps for each token and three
-- more: between two tokens it passes through at most four of its functions (Query/Ends). The loop that
-- strips a scheme from a host name gets a round for each byte, and each round takes seven or more.
-- The message of an error is the list of the fragments that `format!` joins. The parsers return an
-- option, whose none is a panic: where a text is cut inside a character.
--
-- The functions of the standard library on addresses, and the arithmetic, reading and printing of
-- `f64` and `i64`, are the fields of two parameters, Platform and the Floats of the statistics. The reader and the writer of JSON, which
-- stand on the crate serde_json, are parameters too.
--
-- Not modelled: the JSON reader in parse/json.rs, which works on the values of serde_json; the command line and the
-- bindings for C and WebAssembly, which do nothing but input and output; the serde representations,
-- which a crate outside the repository derives; the browser extension, the native libraries and the
-- web page, which are written in other languages.
pub mod Prelude
pub mod OrdMap
pub mod Text
pub mod Float64
pub mod Errors
pub mod Model
pub mod Diff
pub mod Store
pub mod Binary
pub mod Audit
pub mod Redact
pub mod Query
pub mod Platform
pub mod Validation
pub mod Policy
pub mod Parsing
pub mod Serializing
pub mod Statistics
pub mod Engine
pub mod Canonical
pub mod DomainIndex
mod Tests
