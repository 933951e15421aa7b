-- ===== src/Lib.antt =====
-- ICEDR, the verification library of a workspace drive: the core of its backend.
--
-- The parts and how they interact:
--   * A transfer task is a row with a status, a progress and an expiry. Its states, the permitted
--     transitions and the lifecycle that clients see are backend/src/common/transfers/
--     transfer-task-state.ts: Transfers/State (canTransitionTransferTask is
--     can_transition_transfer_task, createTransferTaskLifecycle is create_transfer_task_lifecycle).
--   * backend/src/modules/downloads/transfers/transfers.repository.ts changes those rows, keeps the
--     row's upload session in step and writes audit events, each operation in one transaction:
--     Transfers/Repository. Repository.antt has the `where` and `data` of updateWithClient, Updates
--     its control flow, Audit the events, Operations and Deletions the operations themselves.
--   * backend/src/modules/files/upload-session-lifecycle.ts (with upload-session-types.ts and
--     upload-session-audit.ts) moves an upload session and its transfer together:
--     Files/UploadSessions, with setLegacyExpiry and updateStatus in Lifecycle, resume in
--     Lifecycle/Resume, the transaction of transitionFailure and cancel in Endings and the two
--     operations in Endings/Requests.
--   * backend/src/modules/files/upload-session-completion.ts has the operations of the worker that
--     completes an upload under a claim with a token: Files/UploadSessions/Completion (claim is
--     claim_completion, refresh, mark_storage_finalized and persist_node), and its child Finishing
--     (complete, fail and cancel). backend/src/modules/files/upload-session-parts.ts stores the
--     parts of an upload under such a claim: Completion/Parts.
--   * backend/src/modules/files/file-node-hierarchy-write.ts checks under locks that a parent folder
--     is fit before a node is created there or moved there: Files/Hierarchy. The parent that a move
--     stores (move of backend/src/modules/files/file-nodes.repository.ts) is move_row of
--     Hierarchy/Moves.
--   * backend/src/modules/files/file-storage-usage.repository.ts adds up what a space stores, and
--     assertWithinWorkspaceQuota of file-upload-policy.service.ts refuses an upload that does not
--     fit: Files/Quota. Quota/Spaces counts the same row by row, without the code.
--   * backend/src/modules/shares/share-rate-limit.repository.ts counts the requests to a share in
--     windows of time: Shares/RateLimit (consume) and RateLimit/Counters (the other operations).
--   * backend/src/modules/shares/share-download-commit.repository.ts starts a download or preview of a
--     share under a claimed intent: Shares/DownloadCommit, with share-visitor-fingerprint.ts and the
--     callback of share-download.service.ts that holds the limit of downloads; the transaction is
--     DownloadCommit/Transaction.
--   * backend/src/modules/shares/share-download-intent.repository.ts claims those intents before:
--     Shares/DownloadIntents.
--   * backend/src/common/database/serializable-transaction-retry.ts runs a transaction again after a
--     conflict: Retry.
--   * backend/src/modules/storage/storage-reconcile-policy.ts decides which object a cleanup may
--     remove, by the states of the rows that refer to it: Storage/Reconcile.
--   * backend/src/modules/storage/object-byte-range.ts reads the Range header of a download:
--     Storage/ByteRange.
--   * backend/src/modules/storage/storage-integrity-task.repository.ts queues the checks of stored
--     objects and lets one runner at a time work on one, under a lease: Storage/Integrity/Tasks (rows,
--     clauses) and its Operations, with the audit event of storage-integrity-audit.ts. Tasks/History
--     takes any sequence of their statements. saveResult is Storage/Integrity/Targets/Save, with what
--     storage-integrity-target.repository.ts writes to nodes and versions in Targets. The runner,
--     storage-integrity-task-runner.service.ts, is Storage/Integrity/Runner: one reference in Runner
--     (Runner/Stops says without the code how its attempts may end), the workers of a batch in
--     Runner/Batch, the claim loop in Runner/Loop. It calls
--     storage-integrity.service.ts, which reads an object: Storage/Integrity/Verify.
--   * backend/src/modules/storage/storage-object-keys.ts names the objects and decides which key an
--     upload may bring: Storage/ObjectKeys, with encodeURIComponent in Encoding and the forms that
--     are accepted in Payloads.
--   * backend/src/modules/admin/setup/setup-operation.service.ts lets one request at a time run the
--     initial setup, by a claim with a lease: Admin/Setup (types and clauses), Setup/Operations (its
--     statements) and Setup/Exclusive (runExclusive and withLease).
--
-- Tables are lists of rows (Transfers/Tables, Storage/Integrity/Tasks and Admin/Setup among others,
-- after database/schema.prisma). The database client is a package outside the repository and a
-- parameter: Prisma.antt has the calls as a record (Client) and what Prisma documents of them as
-- laws (IsPrisma), with a client in memory that satisfies them. A transaction that throws leaves
-- the tables as they were; between two statements that stand outside a transaction the models take
-- a function of the tables, `between` or `others`, for what other requests write, and
-- Admin/Setup/History takes any sequence of single statements.
--
-- The other modules are named for what their theorems are about; Prisma/Ensures has the rules by
-- which a condition is carried through the awaits of an operation, and the modules named Examples
-- run the definitions on concrete tables.
--
-- Dates are milliseconds since 1970, as natural numbers; the clock is an argument and is read
-- once in an operation, where the code may read it again within it. Progress, a decimal with one
-- place, is counted in tenths, and a number of the program that is not finite or negative is a
-- case of its own (ProgressValue). A date that may be invalid is a case of its own in the
-- reconcile policy. Safe integers are those below 2 ^ 53, and random numbers count the parts of a
-- unit that is cut into 2 ^ 53. The ids of audit events and buckets come from a function.
-- updateWithClient calls itself once at most, without the progress, which the model writes as two
-- passes. The rate limits make eight attempts, the retries five, and the verification of a
-- reference as many as its task permits: these loops recurse on the attempts that are left. Only the
-- loops over the ancestors of a node are on fuel: a round for each row of the table and one to
-- stop, which is enough because no row is met twice (Hierarchy/Walks). Texts whose characters matter
-- (a Range header, an object key, a checksum) are lists of code units. SHA-256 and toLowerCase
-- are arguments of the verification, and so is what the object store delivers.
--
-- Not modelled: reads that change nothing (findById, list), logging, error messages, timers (the
-- last renewal's error is an argument of withLease), hashing (node:crypto), the claim of an
-- integrity task by a statement of SQLite, the queries for the targets of a task, the bandwidth
-- limiter and the loop over the batches of a runner, the locked tree of a folder
-- (collectLockedActiveFileTree), the storage keys of file nodes, the services above the
-- repositories, the creation of download intents, authentication, the object stores, the web
-- interface and the deployment.
pub mod Prelude
pub mod Prisma
pub mod Retry
pub mod Transfers
pub mod Files
pub mod Storage
pub mod Shares
pub mod Admin
