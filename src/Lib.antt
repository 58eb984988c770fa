-- ===== src/Lib.antt =====
-- The core of a personal carbon footprint calculator: backend/src of the repository, with
-- the state of its web client. The client makes a request of what is entered and recognized; it comes
-- in encrypted, with a bearer token, emissions and rewards are computed from spending and activities,
-- and jobs for a Solana program are stored, claimed by workers, and executed with retries. This
-- library models that code by functions on explicit states, and proves what the code promises.
--
-- Parts, and the files that model them:
--
-- - Prelude: shared types and lemmas: lists as tables with tests as WHERE clauses, texts as JavaScript
--   uses them, thrown errors as values (Outcome).
-- - Storage (backend/src/modules/storage/state-store.ts): the records of the job store.
-- - Db (backend/src/db/index.ts): Db/Tables has the tables that `migrate` makes and the row mappings,
--   Db/Statements one function for each prepared statement, Db/Store one for each call of the store.
--   A call takes the tables and gives its result, or what it throws, with the new tables. A
--   transaction that throws leaves the tables as they were. Db/Invariant says when tables are
--   consistent; Db/Trace has the calls as a data type, so that any interleaving of workers and
--   requests is a list of calls.
-- - Jobs (backend/src/modules/jobs/runner.ts): Jobs/Errors, Jobs/Payloads and Jobs/Runner. The clock,
--   the oracle client and what others do to the store during an `await` are fields of the runner.
--   The runner calls Db/Store as the source does, and its theorems use those on the store.
-- - Lca (backend/src/modules/lca): Lca/Request has the request's schema, `normalizeInput` and the source
--   summary, Lca/Orchestrator the emission factors, `calculateFootprint` and the multiplier,
--   Lca/Commitment what is hashed. The numbers are JavaScript's doubles, taken as an interface of
--   operations and laws (Lca/Numbers), which infinities and NaN have too; Examples/FixedPoint and
--   Examples/SignedPoint are arithmetics that have these laws.
-- - Metadata (backend/src/modules/metadata/publisher.ts): the document, its key, the storage in memory.
-- - Oracle (backend/src/modules/oracle/client.ts): the client's checks and the transactions it sends.
--   The transport and the addresses that @solana/web3.js derives are parameters.
-- - Ingestion (backend/src/modules/ingestion, backend/src/middleware/authenticate-siws.ts): tokens,
--   challenges and the replay check, which reserves a nonce in Db/Store. jose, keys and signatures
--   are parameters. For footprint-orchestration.ts, Ingestion/History decodes the emission history,
--   Ingestion/Orchestration has the ranks and the period keys, and Ingestion/Submission the handler:
--   Service follows `ingestDecryptedPayload` from the payload's schema to the two jobs, and calls Lca,
--   Oracle, Metadata and Db/Store as the source does.
-- - Http (backend/src/app/create-app.ts, decryption-service.ts, encrypted-request.ts): each route as a
--   function from a request and the state to the response and the state; the ingestion routes
--   compose the replay check, the decryption and Ingestion/Submission.
-- - Runtime (backend/src/config/env.ts, backend/src/runtime): the configuration's schema, the signers,
--   and the worker's loop, as a machine that takes events one by one.
-- - Scripts (backend/scripts/local-e2e/seed-emission-history.ts): the options and the bytes
--   that are seeded.
-- - Frontend (frontend/src): Frontend/Ocr and Frontend/Lines for features/input/ocr-helpers.ts,
--   Frontend/Workspace for features/input/smart-input-model.ts with the request's schema of
--   lib/domain/contracts.ts, Frontend/Flow for lib/domain/state.ts, with
--   the JSON value that is stored, and its check, in Frontend/Flow/Stored.
-- - Examples: concrete runs to which the theorems apply.
--
-- Conventions. SQL NULL and `undefined` are both `none`, as the row mappings make them. Numbers that
-- the code keeps as times, ids, grams or lamports are natural numbers, and
-- where a difference may be negative, or the code takes a signed word, an integer (Prelude/Integers). Ids come from sequences, as AUTOINCREMENT gives them.
--
-- Bounds. `number_to_string` prints with one unit of fuel for each digit and gives itself `n + 1`,
-- which `number_to_string-injective` uses. `run_loop` recurses on how many jobs it may still
-- process, so `runDueJobs` is modelled for a finite maxJobs, not for its default of Infinity. A bigint
-- that becomes a number is rounded to a double (`to_double`, whose fuel is enough below 2^117); a bigint
-- itself is exact. `Math.round` is modelled for finite numbers: where a reduction that
-- overflowed is made a bigint, the model throws as the code does, and a total of emissions that overflowed
-- has no number of grams in the model.
--
-- Not modelled: logging; the Anchor transport; what only builds the parts and passes them on; in the
-- web client the wallet adapters, the components, which render,
-- the API calls and the browser's cryptography; in the seeding script what sends transactions; the Solana program, which is not TypeScript.
pub mod Prelude
pub mod Storage
pub mod Db
pub mod Frontend
pub mod Lca
pub mod Metadata
pub mod Jobs
pub mod Oracle
pub mod Ingestion
pub mod Http
pub mod Runtime
pub mod Scripts
pub mod Examples
