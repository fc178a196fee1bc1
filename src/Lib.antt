-- ===== src/Lib.antt =====
-- The media service: documents of users, projects and clients in an object store, behind a virus
-- scan, with the workers that run its commands.
--
-- How the program works. A client asks for an address to upload a document to; the request writes
-- to the key under `quarantine/` (src/modules/media/document.service.ts for users,
-- src/modules/media/collab-document.service.ts for the commands of the collaboration service). The
-- confirmation looks for the object in production, else scans the copy in quarantine and moves it,
-- and polls for four seconds; then it registers the row in the database. A job scans what stays in
-- quarantine. Commands arrive on a stream with a signed token; those that fail go to a second
-- stream, from which they are replayed.
--
-- The files.
-- - Base: numbers, tests, lists, texts as lists of code points, decimal numerals.
-- - FileValidation: src/shared/security/file-validation.ts. Names, Headers, Zip and Document hold
--   the checks in the order of the source (`checkZipBomb` is `check_zip_bomb`, and so on). A read
--   outside a buffer, which throws in the source, is `none`.
-- - Sanitize: src/shared/sanitize-filename.ts.
-- - Effects: the calls to the database, the object store, the scanner, the clock and the timers. A
--   computation extends a trace of events and returns a value or throws; the environment (`Env`)
--   gives the reply of each call after each trace, so every order of failures and every change of
--   the store by others is some environment. Triple holds the rules of pre- and postconditions,
--   Keeps those of invariants.
-- - Storage: src/shared/storage/oci-storage.ts, and `getNamespace` of oci-client.ts.
-- - ParPrune: src/shared/storage/oci-par-prune.ts.
-- - Antivirus: src/shared/security/clamav.ts and sha256-reputation.service.ts.
-- - Standby: src/shared/security/clamav-standby.controller.ts as actions on a state, in any order;
--   Warmup holds its waits, with actions of others between.
-- - Media: the two document services. Promotion is `tryPromoteFromQuarantine`, Upload what both
--   flows share with their polling loops, Documents and Collab the services.
-- - Commands: src/workers/media-command-signature.ts; in Execute, `executeCommand` of
--   src/workers/media-command-processor.ts; in Worker, the publication of its responses and
--   src/workers/media-command.worker.ts; in Route, src/modules/media/internal-documents.routes.ts.
-- - Identity: src/workers/identity-event.worker.ts.
-- - MediaWorker: src/workers/media.worker.ts, the process that runs all workers, as steps in any
--   order.
-- - Partitions: audit-partition-utils.ts and ensure-audit-log-partitions.ts of src/db/scripts.
-- - StorageStats: src/modules/media/storage.service.ts.
-- - QuarantineScan: src/jobs/run-quarantine-scan.ts.
-- - Dlq: src/workers/media-command-dlq.ts; in Operator, src/scripts/media-commands-dlq.ts and the
--   route of src/app.ts that replays.
-- - RateLimit: src/shared/middlewares/rate-limit.middleware.ts.
-- - Avatars: src/modules/media/avatar-preset.service.ts; in Current, avatar.service.ts beside it; in
--   Lookup, the route `/avatars/users` of media.routes.ts; in Migration,
--   src/scripts/migrate-user-avatars.ts.
-- - EmailAuth: src/modules/email/email.authorization.ts.
-- - Email: Pieces, Shell and Templates are src/modules/email/email.templates.ts; Dispatch is
--   email.controller.ts and email.service.ts, Processor email.processor.ts and email.mailer.ts,
--   Crypto email.crypto.ts, all beside it.
-- - Examples: a concrete environment, and the theorems at concrete inputs.
--
-- Numbers and fuel. Sizes, times and counts are natural numbers; where the source subtracts times,
-- the comparison is written as a sum. The polling loops run on ten rounds of fuel: the wait is 4000
-- ms and each round sleeps 500 ms, so eight rounds, one that stands on the deadline and one that
-- ends the loop are enough under a clock that never runs backwards and timers that never fire early
-- (Media/Upload/Ends.antt). The wait for the scanner has one unit for each 300 ms of its timeout and
-- one more (Standby/Warmup/Ends.antt), the wait at the stop of the process one for each 100 ms of its
-- five seconds and one more (MediaWorker/Stops.antt). All other loops are structural.
--
-- Not modelled: the HTTP routes but the internal one, the lookup of avatars and the replay of dead
-- letters, the consumers of the streams, and the operational scripts but those of the avatars, the
-- dead letters and the partitions. The retries, the stream consumer, the schemas, the deterministic
-- avatars and the key client of cima-contracts belong to another project, and their replies are
-- parameters, as are the Unicode tables, SHA-256, AES-GCM, JSON, the queue, the mail server, the
-- check of signatures and the percentages of the statistics.
pub mod Base
pub mod FileValidation
pub mod Effects
pub mod Storage
pub mod Antivirus
pub mod Sanitize
pub mod Media
pub mod Dlq
pub mod RateLimit
pub mod Standby
pub mod Commands
pub mod QuarantineScan
pub mod ParPrune
pub mod Avatars
pub mod EmailAuth
pub mod Identity
pub mod Email
pub mod MediaWorker
pub mod Partitions
pub mod StorageStats
pub mod Examples
