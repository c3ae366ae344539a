-- ===== src/Lib.antt =====
-- A verification library for the server of file-share-manager, a workspace file service in Go.
--
-- The server keeps its state in tables and changes it in transactions. Here a component's tables are
-- a record `Store` of lists, in the order of their creation, and a transaction is a function from a
-- store to a result: an error leaves no new store, as a transaction that fails is rolled back. A
-- query is a Boolean test on rows; `First` is `find_first`, an update of a found row goes to the rows
-- with its primary key. `Create` fills a zero field for which the model has a default, in the row
-- and in the value itself: the definitions `inserted_…` do this where a default differs from zero.
--
-- Prelude passes on the shared library names, tests on numbers, lists as tables, and results.
--
-- Authorization: server/internal/service/authorization/service.go. `resolve`,
--   `resolve_access_level` and `entries_allow` are `Resolve`, `ResolveAccessLevel` and
--   `entriesAllow`; the loop over depths runs on fuel, for which the number of entries is enough,
--   since each round drops an entry at least. Runs, Nearest, Decision and Levels are its proofs,
--   Granted is an independent reading of its rules, Sources is the access summary.
-- Nodes: server/internal/dao/node.go over server/internal/model/node.go. Store has the tables, the
--   change log and the audit events; Tree has `CreateNodeWithAudit`, `RenameWithAudit` and
--   `MoveWithAudit`, Trash has `TrashSubtreeWithAudit` and `RestoreSubtreeWithAudit`. Paths is the
--   theory of chains of parents, Closure the promise of the closure table; Rows, Moving, MoveLaws
--   and Refusals are about moves, Creating and Adding about new nodes.
-- Files: server/internal/dao/file.go and server/internal/service/clamav/retry.go. Model has the table
--   of versions, Scans and Versions the operations of `FileDAO`, Retries the retry worker; the
--   doubling loop of `retryDelay` counts the attempts down. Newest, Delays and Claims are proofs.
-- Uploads: server/internal/dao/upload.go and the chunk arithmetic of server/internal/handler/upload.go.
--   Sessions and Finalize have the operations of `UploadDAO`, Quota the three updates of quotas,
--   whose test has the wrap-around of int64 written out. Keys, Reserved, Settling, Opening and
--   Accounting are about reservations, Bounds about quotas, Placing about the version of a finished upload.
-- Shares: server/internal/dao/share.go. Store and Downloads have the operations, Limits the proofs.
-- Acl: server/internal/dao/acl.go, and the checks of the authorization service on top of it. Tables
--   has the rules, the groups and the members, Effective the two queries for the rules that apply,
--   Changes grants, revocations and replacements, Service `authorize`, `NodeAccessLevels` and the
--   checks that call them. Reading, Bulk, Agreement, Upserts, Granting, Replacing and Revoking
--   are proofs.
-- Audit: server/internal/dao/operation_log.go, with the tables of server/internal/model/audit.go and
--   audit_archive.go. Store appends to a stream, Chain verifies it; Keys, Appending, Intact,
--   Longer, Others and Verified are about the chains that appending builds.
-- Notifications: server/internal/dao/notification.go and
--   server/internal/service/notification/service.go. Outbox has the channels and deliveries, Delivery
--   the worker, Inbox the notifications and preferences of a user. The doubling loop of
--   `notificationRetryDelay` counts the attempts down. Attempts, Outcome, Exhaustion, Stranding
--   and Reading are proofs.
-- Downloads: server/internal/dao/batch_download.go and
--   server/internal/service/batchdownload/service.go. Jobs has the operations, Worker `process` and
--   `buildArchive`; Consistency and Completion are proofs.
-- Archive: server/internal/dao/archive.go and server/internal/service/archive/service.go. Candidates
--   has `ListCandidates`, `Complete` and `RecordFailure`, Passes `RunOnce` and `archiveCandidate`;
--   what the two stores of objects answer (to opening, writing, closing, reading back and removing)
--   and `strings.EqualFold` are arguments. Completing, Listing and Safety are proofs.
-- Tests has the theorems at concrete inputs.
--
-- Uploads take the versions of Files and the rows of Nodes, so that a finished upload can create
-- both; Shares take the scan status of Files; moves, renamings and the trash append to the change
-- log and to the audit log. Acl reads the nodes and the closure rows of Nodes and resolves by
-- Authorization.
--
-- Parameters: whether the audit log accepts an event (`accepts`), the sum of an audit event
-- (`digest`), its redaction and classification, the test of an archive's manifest, the scanner and
-- the cancellation of its context, the delivery of a notification, the opening of the temporary
-- archive of a batch, the copying of a file into it and its publication. Times and sizes are numbers, the clock is an argument.
--
-- Not modelled: failures of the database, the JSON payloads of the change log, the columns that the
-- database layer fills with times, locks (a transaction runs alone), HTTP, the contents of files and
-- archives, backups, directory servers, configuration and the frontend.
pub mod Prelude
pub mod Authorization
pub mod Acl
pub mod Archive
pub mod Nodes
pub mod Files
pub mod Uploads
pub mod Shares
pub mod Notifications
pub mod Downloads
pub mod Audit
pub mod Tests
