-- ===== src/Lib.antt =====
-- A model of EduPay Academico, a school's learning platform: an API (apps/api, NestJS over Prisma
-- and PostgreSQL) and a web client (apps/web, Next.js).
--
-- How the parts interact. Every request passes four global guards, which authenticate it and fix
-- its tenant; a handler then asks the authorization service and the tables of its tenant. Commands
-- of the course builder carry an idempotency key: the command service runs their action and writes
-- a receipt in one transaction. The action may place an item among the items of a unit, whose
-- positions are sparse. The web client applies a command to its board at once, and confirms it or
-- rolls it back when the answer arrives. What a student may read is decided by a policy on rows;
-- work is submitted and reviewed as a state machine; both ask for notifications, which a worker
-- sends. Files are uploaded under quotas, in several steps between which other requests run.
-- Courses and students come from EduPay, page by page, and changes of enrollments go to its
-- finances through an outbox that a publisher drains. The department of inclusion keeps its members,
-- episodes of support, a journal with revisions, and actions that are assigned to members; the time
-- zone of its events is in the tenant's profile.
--
-- Files and code (paths below apps/api/src unless they begin with apps):
--   Access.antt: identity/identity.types.ts, tenant/trusted-tenant-context.ts and
--     authorization/authorization.service.ts: roles, capabilities, the trusted context.
--     Access/Selectors.antt is the walk over JSON values of tenant/tenant-context.guard.ts,
--     Access/Guards.antt the guards `canActivate` of authentication, tenant, authorization and
--     identity status, composed in the order of security/security-foundation.module.ts.
--   Idempotency.antt: `execute` of learning/idempotency/command-idempotency.service.ts. Other
--     requests commit receipts between its statements.
--   Ordering.antt: learning/ordering/sparse-ordering.service.ts: `computeMidpoint`,
--     `rebalanceUnitItems`, `determineItemPlacementPosition` over the rows of a table.
--   CourseBuilder.antt: apps/web/src/features/course-builder/course-builder-reducer.ts, one
--     constructor for each action of types.ts.
--   Visibility.antt: learning/read/learning-visibility.policy.ts, a function for each function.
--   Submissions.antt: `submit`, `submitRevision` and `review` of storage/submission.service.ts;
--     Submissions/Query.antt has the rows they read and the test of `requireEligibleVisibleItem`,
--     Submissions/Tables.antt the tables they write. What others write between the reads of
--     `review` and its transaction is a function on the state.
--   Deliveries.antt: `claimDeliveries`, `processClaim` and `recordFailure` of
--     notifications/notification-worker.service.ts.
--   Storage.antt: storage/storage.service.ts: the tables of uploads; Storage/Accounts.antt has
--     `adjustAccount` and `reserveAccount`, Storage/Uploads.antt `reserveUpload`, `failIntent`,
--     `expireIntent`, `releaseAndAccount` and `finalizeUpload`, Storage/Completion.antt
--     `completeUpload` and `cleanupExpiredUploads`. What other requests write while an upload waits
--     is a function on the state.
--   Learning.antt: learning/learning.service.ts: items, versions and revisions, and who may change
--     them; Learning/Writes.antt has `applyVersionedItemUpdate` and `recordRevision`,
--     Learning/Commands.antt the commands on one item, Learning/Reordering.antt `reorderItems`.
--     What others write between a command's check and its action is a function on the state.
--   Sync.antt: sync/sync-item-application.service.ts: the rows, with `safeSyncItemErrorCode`;
--     Sync/Courses.antt is `applyCourse`, Sync/Students.antt `applyStudent` on the rows of
--     Sync/StudentRows.antt; Sync/Drain.antt is the loop over pages of sync/sync.service.ts.
--   Publisher.antt: `publishPending` of
--     financial-projection/financial-projection-publisher.service.ts.
--   TenantProfile.antt: tenant-profile/tenant-operational-profile.service.ts; TenantProfile/Log.antt
--     has the log of contents that is its specification.
--   Die.antt: die/die.service.ts, the department of inclusion: the tables; Die/Actor.antt is
--     die/die-access.service.ts, Die/Duties.antt and Die/Members.antt have the commands on members,
--     Die/Support.antt on episodes of support, Die/Entries.antt and Die/Journal.antt on the journal, Die/Actions.antt on
--     actions. What others write between a command's checks and its transaction is a function on
--     the state; Identity's answers are a parameter.
--   Preparation.antt: `evaluateAcademicPreparation` of academic/academic-preparation.ts.
--   Prelude.antt: Boolean tests on numbers, JavaScript's array methods on lists, texts as lists of
--     code units.
-- The Examples module of each component runs its definitions on concrete values.
--
-- Bounds and fuel. Loops over lists are structural recursion; only the loop over the pages of
-- EduPay takes fuel, one unit a page, since it ends when the source gives no cursor. Numbers are
-- natural: positions, versions and dates stay far below 2 ^ 53, and no definition wraps around.
-- Where the code subtracts, the result is used only where it is not negative, or the case is
-- written out.
--
-- Parameters. The verifier of access tokens and Identity's answer on a session; the order that the
-- database gives to rows, with the laws of an order where they are used; the provider of e-mail
-- with the rendering of its text; the storage service's answer on the files of a submission; the
-- checks of an upload's parent, the validation and scan of its bytes and the physical store; the
-- order in which the database returns items; the ids of new rows; the platform's canonical names of
-- time zones.
--
-- Not modelled: JSON Web Token claims, the runs of the consumer of EduPay around these loops
-- (sync), the lists, files and PDF of inclusion (die), the validation of the bytes of files, downloads,
-- the payloads and snapshots of financial projections, the drafts of learning content, configuration,
-- HTTP and health, and the screens of the web client, most of which are presentation.
pub mod Prelude
pub mod Ordering
pub mod Idempotency
pub mod CourseBuilder
pub mod Access
pub mod Visibility
pub mod Preparation
pub mod Deliveries
pub mod Submissions
pub mod Storage
pub mod Learning
pub mod Sync
pub mod Publisher
pub mod TenantProfile
pub mod Die
