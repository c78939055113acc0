-- ===== src/Lib.antt =====
-- A model of the Rust core of serverless_db (rust-core/src): a runtime that serves projects, each a
-- SQLite database whose snapshots, WAL segments and manifest lie in an object store. One runtime at a
-- time writes a project, under a lease in the same store.
--
-- The parts and how they interact: HTTP handlers hand write jobs to the writer of a project, which
-- takes them in batches. `execute_write_batch` ensures the lease, executes the jobs on the local
-- connection, and makes the batch durable: `durabilize_wal` uploads the new bytes of the WAL as a
-- segment and writes a manifest that lists the snapshot and all segments. `persist_snapshot` replaces
-- the chain by a new snapshot, of the next generation. A runtime that opens a project loads the
-- manifest and restores the snapshot and the WAL, verifying lengths and checksums.
--
-- The files and the code (paths under rust-core/src):
--   Base          shared helpers: tests, list functions and lemmas over the native numbers
--   Error         `ApiError` of runtime.rs, with the message as its template
--   Text          the functions on `str` and the formatting that the code uses, on lists of code points
--   Ident         `valid_ident`, `quote_ident` (policy.rs), `assert_user_ident`, `safe_project_id`,
--                 `safe_object_key` (runtime_utils.rs), `validate_idempotency` (runtime.rs)
--   Bookmark      `bookmark_for_seq`, `bookmark_to_seq` (runtime_utils.rs)
--   Io            code with a state that may fail; what was written before an error stays written
--   Store         the trait `ObjectStore` and the key functions (object_store.rs, runtime_utils.rs)
--   Types         options, leases and manifests (runtime.rs), and the codecs of serde_json and sha2
--   Lease         the writer lease: acquisition, takeover by claims, renewal, release, collection
--   Project       manifests and recovery; Project.Writer has `durabilize_wal`, `persist_snapshot`,
--                 `write_manifest`, `ensure_wal_budget`; Project.Replica has the refresh of a replica
--                 and `hibernate`, Project.Opening has `ensure_project`, Project.Legacy
--                 the recovery without a manifest
--   Json          `serde_json::Value`
--   Batch         `execute_write_batch`, the idempotent writes, `with_bookmark`; Batch.Queue has
--                 `writer_loop` and the channel in front of it
--   Forward       the circuit breaker of the endpoints and the choice of a replica (runtime.rs)
--   Access        `Actor` (auth.rs) and the access to stored objects (runtime.rs)
--   Rows          `normalize_row_payload` (runtime_utils.rs)
--   Sql           SQL text with its values, and how SQLite reads a condition (Sql.Grammar)
--   Policy        `compile_policies` (policy.rs), `actor_claim` (auth.rs); Policy.Evaluate has
--                 `evaluate_policies`, Policy.Meaning what it means that a rule grants a row
--   Postgrest     the queries of requests: their parser, the SQL that is compiled for them (postgrest.rs),
--                 and `where_for_operation_postgrest` (runtime.rs)
--   TreeMap       `BTreeMap<String, _>` of std
--   Control       the control plane (control_plane.rs): catalog, API keys, workers, placement
--   AuthStore     users, sessions and refresh tokens (auth_store.rs), each SQL statement as a function
--   Realtime      the messages of the realtime protocol, their frames, and changes of rows as messages
--                 (realtime_protocol.rs)
--   Token         the minting and the checks of tokens (auth.rs); Token.Signed says what is accepted
--   Http          http.rs without its framework: Http.Forwarding passes requests on to another server,
--                 Http.RateLimit limits requests for authentication, Http.Accounts has the endpoints for
--                 users and sessions over AuthStore and Token, Http.Reads the queries of reads and the
--                 uris that are built of them, Http.Writes the preferences and the idempotency of writes,
--                 Http.Calendar the dates of timestamps
--   Fallible      results whose error is a component's own type
--   Tests         concrete instances of the parameters, and runs
--
-- State and operations: the object store is a `World`, a list of keys and objects with the faults that
-- its coming calls meet (a call succeeds, fails without effect, or fails although it took effect). The
-- state of a project (`ProjectState`) is passed explicitly beside the world (`Machine`). Every function
-- of the runtime keeps its name; a part of a long function has a name of its own.
--
-- Parameters: SQLite (`Sqlite`: a connection has content and a WAL file; a database file with a WAL
-- reads as content; `VACUUM INTO` writes a file with the content), the codecs (`Codec`: what was
-- written is parsed back), what each kind of job does and serde_json on the responses that are stored
-- (`Engine`), the order in which a `HashMap` is iterated (`HashOrder`), the lower case of texts and the
-- equality of JSON values, what serde derives for realtime payloads, HMAC, base64, Argon2 and SHA-256
-- (`Crypto`, `Library`), and the HTTP client with what the other server keeps (`Client`). The time is a parameter of
-- each operation.
--
-- Bounds: a takeover makes four rounds, as the source's loop does. The attempts of a forwarded request,
-- the batches of the writer and the years of a date are counted by fuel, which is the number of attempts
-- allowed, one more than there are jobs, and one more than there are days. The other loops recurse on
-- their lists. Tokens and sequence numbers are u64 and saturate; times are u128 in the source, and their sums
-- stay far below its end. A number is printed with at most 20 digits, enough for every u64.
--
-- Not modelled: the routes and handlers of tables, storage and events, which call one operation of the
-- runtime each, and the server framework; the SQL statements of the write jobs, which are a parameter;
-- the S3 adapter and the file system, whose calls appear as calls that may fail; the crash points
-- (`maybe_crash_after_stage`) and notifications, which have no effect on the state.
pub mod Base
pub mod Error
pub mod Text
pub mod Ident
pub mod Bookmark
pub mod Io
pub mod Store
pub mod Types
pub mod Lease
pub mod Project
pub mod Json
pub mod Batch
pub mod Forward
pub mod Access
pub mod Token
pub mod Http
pub mod Rows
pub mod TreeMap
pub mod Fallible
pub mod Control
pub mod AuthStore
pub mod Realtime
pub mod Sql
pub mod Policy
pub mod Postgrest
pub mod Tests
