-- ===== src/Lib.antt =====
-- postgresem: a compiler from logical queries over a published semantic model to SQL for
-- PostgreSQL, with the gateway that serves it. This library models the compiler crate,
-- crates/postgresem-compiler/src: queries, mutations, and the comparison of models; and, of the
-- gateway, crates/postgresem/src/mcp_http_auth.rs, which verifies the tokens of the requests, and
-- crates/postgresem/src/mcp_http_rate.rs, which limits the requests.
--
-- A request is JSON. `normalize_lsq` (lsq.rs) reads it, checks it and fixes its canonical text and
-- hash. `compile_lsq` (compiler.rs) takes the normalised query and a snapshot of the semantic model
-- (semantic.rs): `validate` resolves every name, checks the types, the relationships and the
-- aggregation anchors, and `render` writes the statement with its parameters, its lineage and its
-- hashes.
--
-- A request that writes is JSON too. `normalize_lsm` (lsm.rs) reads it, refuses an object with a key
-- twice, and checks it. `compile_lsm` (mutation.rs) takes the normalised mutation, the snapshot and
-- what the caller may write, checks the model's policy for writing, every name and every value, and
-- writes an INSERT statement, with ON CONFLICT for an upsert. `diff_snapshots` (diff.rs) lists the
-- changes from one snapshot to another, and says which of them break the clients of the first.
--
-- The gateway loads its authority document, its keys and the key of its pseudonyms once (`load` of
-- mcp_http_auth.rs), after checking all of them. `authenticate_at` verifies the token of a request
-- against them and gives the principal, with the roles that its statements run under and the rate
-- limit that `acquire` (mcp_http_rate.rs) is called with.
--
-- The files:
--   Prelude and below: shared helpers. Results is `Result` with `?` as bind; Stateful is a function
--     that fails and that changes what a `&mut` argument refers to; Text is strings as UTF-8 bytes
--     and decimal printing; Ordered is `BTreeSet` and `BTreeMap` as sorted lists; Comparisons
--     has the laws of `Ord::cmp`.
--   Hash: `sha256` of hash.rs and `is_sha256` of compiler.rs; Hash/Laws has their proofs.
--   Lsq: the syntax, the limits and the errors of lsq.rs. Lsq/Literals has the checks of a
--     literal's text (`parse_digits`, `valid_date`, `valid_numeric`, `valid_timestamp`) over its
--     bytes, with a module of proofs for each below it. Lsq/Validate has `validate_filter`,
--     `validate_query` and `normalize_lsq`; Trees and Queries have their proofs.
--   Semantic: the types of semantic.rs, `normalized` and `calculate_revision_hash`; Semantic/Equality
--     is the equality that the types derive, and Semantic/Sorted and Semantic/Ordered prove what
--     sorting keeps and in what order.
--   Diff: the types of diff.rs and `change`. Diff/Objects has `named_objects`, `diff_named` and the
--     comparison of fields and metrics, with one definition for `diff_fields`, `diff_metrics` and
--     `diff_relationships`, which differ in their arguments; Diff/Snapshots has `validate_version`
--     and `diff_snapshots`. Diff/Snapshots/Promise describes, apart from the code, what the consumers of a
--     snapshot may rely on; Breaking, Laws, Normal, Kept, Compatible and Summary have the proofs.
--   Lsm: the syntax, the limits and the errors of lsm.rs. Lsm/Json has `UniqueValue`, the reader of
--     JSON, and Lsm/Validate `validate_mutation` and `normalize_lsm`; the modules Laws have the proofs.
--   Compiler: the types of compiler.rs. Compiler/Resolve has the resolution of names, with
--     `required_relationships` as the state; Compiler/Validate has `validate`, one definition for
--     each step of the source's function, with Visible, Fanout and Accepted for its proofs.
--     Compiler/Parameters has `push_parameter` and the texts of types, Compiler/Identifiers
--     `quote_identifier`; Compiler/Expressions, Compiler/Render and Compiler/Compile have the
--     functions of the second pass, with the parameters and the source columns as the state. Keeps
--     and Rendered prove what they do to the parameters, Limited what the statement ends in.
--   Mutation: the types of mutation.rs. A function that indexes a map fails with an error or with a
--     panic (`Failure`). Mutation/Validate has the checks of the snapshot, of the policy and of a
--     value, Mutation/Rows and Mutation/Render have `render`, and Mutation/Compile `compile_lsm`.
--     Panics and the modules Total prove where no index is missing, Checked and Permitted what was
--     checked.
--   Limiter: `acquire` and `drop` of mcp_http_rate.rs on the contents of the mutex; Limiter/Active
--     proves what each leaves of the active requests, and Limiter/Steps has the steps that the
--     limiter takes with the permits that are held.
--   Auth: the types and the errors of mcp_http_auth.rs. Auth/Library has the types of other packages;
--     Auth/Words the tests of words, Auth/Integers `i64`. Auth/Bearer has `extract_bearer`, Auth/Claims
--     the checks of the claims, and Auth/Token `authenticate_at`, one definition for each part of it.
--     Auth/Document and below have `validate_document`, and Auth/Load `load`, with the keys in
--     Auth/Load/Keys. A loop that checks the entries of a list and that they differ is
--     `unique_entries`, which those loops share. Window, Scopes, Pseudonym, Verified, Configured,
--     Answers, Errors, Admitted, Bearer/Laws and Bearer/Accepted, Load/Keys/Laws,
--     Document/Bounds, Valid and Whole have the proofs.
--   The modules called Tests run the definitions on small inputs.
--
-- Numbers are unbounded natural numbers where the source has `usize` counts that the length of its
-- input bounds; the `u32` of `parse_digits` keeps its checked arithmetic, against 2^32. An `i64`
-- literal is an integer of either sign, and the `u32` of a limit a natural number: the JSON reader is
-- what rejects one out of range, and the code computes with neither. Turning a limit into an `i64`
-- loses nothing.
--
-- An `i64` of a token's times is an integer of either sign, and the saturating operations keep their
-- bounds. An `Authorization` header is its UTF-8 bytes. A `u64` of the authority document is a natural
-- number; turning one into a `usize`, and the length of a text into a `u64`, is a check against
-- 2^64 - 1 that fails with the internal error, for a target of 64 bits.
--
-- Two loops run on fuel. `skip_digits` is given the length of its bytes and moves one byte on in
-- each round; `decimal` is given one more than its number, which each round divides by ten.
--
-- Parameters of the model, since their code is not in this repository: the reader and the writer
-- of `serde_json` (`QueryCodec`, `SnapshotCodec`, `CompilerCodec`, `MutationCodec`,
-- `MutationCompilerCodec`, `DiffCodec`) and the digest of `sha2`. An `f64` in a JSON document is its
-- 64 bits, which the code does not compute with; which of them are finite is a parameter.
-- `f64` and `Instant` of the limiter are a parameter (`Machine`). So are the functions for tokens,
-- keys, message authentication codes, base64, addresses and JSON that mcp_http_auth.rs calls
-- (`Library`), and the files that it reads (`FileSystem`).
--
-- Not modelled: the rest of the gateway in crates/postgresem, whose code mostly calls libraries for
-- HTTP and PostgreSQL.
pub mod Prelude
pub mod Hash
pub mod Lsq
pub mod Semantic
pub mod Diff
pub mod Lsm
pub mod Compiler
pub mod Mutation
pub mod Limiter
pub mod Auth
