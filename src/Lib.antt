-- ===== src/Lib.antt =====
-- A model of the package registry's API server, and the theorems that make it correct.
--
-- The server answers HTTP requests from a database and an artifact store. A request with a bearer token
-- passes the rate limiter, then a handler: it authenticates the token, authorizes it for an organisation,
-- reads and writes rows, and records what it did in a hash-chained audit log.
--
-- The parts, by file of this folder, with the source in src/:
--   * Prelude, HashMap, Text: lists, options, tests and maps; texts as lists of code points. They stand for
--     what the source uses of the standard library.
--   * Error (error.rs): an error's status and code, and the `?` operator.
--   * Db (entities/*.rs, and the unique keys of the migrations): rows, inserts and the errors of statements.
--   * State (state.rs): the world of tables and artifacts, and handlers as functions of it. `Outside` holds
--     what a run does not control: the statements that fail, the clock, fresh identifiers, and `race`, what
--     other requests commit before the transaction of the request at hand. State/Effects has the laws.
--   * Auth (auth.rs): `require_token` in both modes. Auth/Liveness: who gets through.
--   * Rbac (rbac.rs): roles and the two authorizers. Rbac/Authority: the rights that they grant.
--   * RateLimit (ratelimit.rs): the token bucket, in exact credits where the source has `f64`,
--     whose rounding is left out. RateLimit/Bounds and RateLimit/Usage: one check, and runs of checks and sweeps.
--   * Audit (audit.rs): `verify_chain`; Audit/Record: `append_chained` and `record`. Audit/Chain, Tamper and
--     Columns say what verification tells; Audit/Record/Entries, Growth and Runs what recording leaves.
--   * Storage (storage.rs): the three backends. Storage/Capacity: bounds. Storage/Keys: a key tells its digest.
--   * Files (files.rs): extraction of one file under a budget, and content types. Files/Budget, Files/Mime.
--   * Verify (verify.rs): which tag of which repository is asked for. Verify/Segments.
--   * Search (routes/search.rs): the tag filter and the LIKE pattern. Search/Like, Search/Tags.
--   * Routes (routes/mod.rs): shared lookups and views; Routes/Payload and Routes/Publish
--     (routes/publish.rs), Routes/Yank (routes/yank.rs), Routes/Orgs (routes/orgs.rs), Routes/Packages
--     (routes/packages.rs), Routes/Listing (routes/list.rs), Routes/Finding (routes/search.rs),
--     Routes/Artifacts (routes/artifacts.rs) and Routes/Trail (routes/audit.rs): the handlers, with their
--     theorems as children.
--   * Embeddings (embeddings.rs): padding, literals and the table of vectors; Routes/Semantic
--     (routes/semantic.rs): the vector endpoints, with their theorems as children.
--   * Anyhow, Text/Numbers: what the start-up code uses of `anyhow` and of the parsing of numbers.
--   * Config (config.rs): settings from an environment, which is an argument. Config/Sound: what they satisfy.
--   * Server (server.rs): the commands and the retry of the first connection; Server/Startup: what is set up
--     from the settings (storage.rs `from_config`, ratelimit.rs `from_env`). Server/Retry, Startup/Sound.
--   * Tokens (tokens.rs): `create-token` and, in Tokens/Revoke, `revoke-token`; Tokens/Arguments: their flags.
--     Tokens/Mint and Revoke/Table: what the commands mean for the requests that come after.
--   * RateLimit/Ideal, RateLimit/Refinement: the limiter against a full bucket for every caller.
--   * Migration (migration/src): Migration/Schema, what a statement does to a schema; Migration/Tables and
--     Statements, the eight migrations both ways on Postgres; Migration/Keys: the unique keys that they create.
--     Migration itself and Migration/Numbering: the numbering of the entries that were recorded before the chain.
--   * Registry (the routes of routes/mod.rs that write): one request as a step from world to world, and
--     `Reach`, any sequence of them. Registry/Parts and Handlers carry any relation that the statements keep
--     through the handlers (`Frame`); Registry/Growth and History take it to the rows, Registry/Backing and
--     Integrity to the artifacts, and Registry/Logs to the audit logs.
--   * Tests: concrete runs.
--
-- A handler is a function from the world to an answer and a world, so an early return is an error value
-- and every write shows in the world that is left. `transaction` restores the tables when its body ends in an
-- error. A query for one row takes the first that matches; the theorems hold for every order of the rows.
-- Strings are native texts; identifiers and times are numbers, and so is the position in an audit log,
-- an `i64` of the source that no log fills. A stored size is the length of the bytes,
-- since an artifact is smaller than 2^63 bytes. Fuel stands in two places: the attempts of `record`, which
-- is the source's own bound of 4, and the loop of the first connection, which gets half the configured
-- seconds and two rounds more; every round but the last sleeps two seconds, and Server/Retry proves that
-- the loop ends within them.
--
-- Not modelled: the framework's layers and body limits, and a request that a time-out cuts off; logging and
-- messages; the lock service around a claim, which fails open; metrics.rs, which the binary does not
-- declare; extensions and the methods of indexes in the migrations, and their variant for SQLite, on which
-- only tests run. Parameters: SHA-256, the preimage encoding of audit entries, archive readers, GitHub, the
-- manifest validator, the version order, the floats of a vector and the index that ranks them, the parsing
-- of a rate, and the calendar. The interference of other requests is one step, between the checks of a
-- request and its transaction; within the transaction the database isolates it, except that the audit log's
-- appender sees others between its read and its insert.
pub mod Anyhow
pub mod Audit
pub mod Auth
pub mod Config
pub mod Db
pub mod Embeddings
pub mod Error
pub mod Files
pub mod HashMap
pub mod Migration
pub mod Prelude
pub mod RateLimit
pub mod Rbac
pub mod Registry
pub mod Routes
pub mod Search
pub mod Server
pub mod State
pub mod Storage
pub mod Tests
pub mod Text
pub mod Tokens
pub mod Verify
