-- ===== src/Lib.antt =====
-- The core of the Bandai production API (PATS): the commands of app/pats/command-router.ts with
-- the transaction, idempotency and problem helpers of app/pats/command-support.ts, the route of a
-- part, and the subjects with their accounts and capabilities (app/pats/subject-admin.ts,
-- app/identity).
--
-- A command is an Express handler that parses its body, runs its work in one database transaction
-- under an Idempotency-Key, and answers with a status, a JSON body and headers, or with a
-- problem. The work of a command is a value of `Command.Work.Work`: the writes that it issues, in
-- order, with its response, or what it throws, which rolls the writes back. For the batches and
-- the plans the database is not modelled as a store: what the queries of a transaction return is
-- a record of functions (`Execution.Reads`, `Planning.PlanReads`, `Planning.Draft.DraftReads`),
-- an argument of each command; `Execution.Effects` says what the writes make of a batch row, and
-- `Planning.Release.Ledger` what those of a release make of the project and of the batches.
-- The commands of `Floor` run on the tables themselves: `Floor.Tx`. Ids, times and the request
-- are arguments.
--
-- The files:
--   Base: the names shared by all, Boolean tests, lists, JSON, text and decimals.
--   Command: app/pats/command-support.ts. Command.Problem the problems and `commandError`,
--     Command.Work the transaction, Command.Request `actorId`, `actorDisplay` and
--     `requireIfMatch`, Command.Audit `recordCommandSuccess`, Command.Idempotency
--     `executeCommand`.
--   Route: `nextExpectedRouteStep` of app/pats/batch-resolve.ts, which `batchRouteContext` and
--     the closing command of app/pats/command-router.ts repeat.
--   Execution: the floor commands of app/pats/command-router.ts. StageEvent POST /stage-events,
--     Inventory POST /inventory-transactions, Quality POST /quality-inspections and its
--     decisions, Defects POST /defect-analyses, Closure POST /batches/:batchId/closure,
--     Violations POST /routing-violations/:violationId/resolve. Execution.Lifecycle puts those
--     that touch a batch row, with the removal of the line that it is published to and a new parts
--     list for its lot, into one step relation, and proves what no sequence of them can break. Execution.Resolve is app/pats/batch-resolve.ts and the label quantity of
--     app/pats/print-job.ts; Quality.Scan is app/pats/quality-resolve.ts, on a table of batches
--     with their inspections.
--   Planning: the routes /projects and /batches of app/pats/command-router.ts. Release the
--     release and the completion of a project, Mint the minting of its batches, CycleTimes the
--     gate on designed cycle times, Response `projectResponse`. Draft has the commands on a
--     draft: Snapshot the creation and the replacement of requirements, Edits the patch, Routes
--     the route versions, Removal the deletions, Batches the batch that a planner adds, Overrides the
--     cycle times of a part.
--   Floor: the routes /lines, /operator-assignments, /work-processes, /production-lines and
--     /sections of app/pats/command-router.ts. A transaction is a state passing computation on
--     the tables. Lines has the lines and, in Operators, who works on them; the removal of a line
--     clears it from the batches, as the foreign key does; Processes the tree of
--     processes, with the walk that keeps it a tree in Chains and Climb and the deletion in
--     Removal; Machines the machines of a production line; Sections the sections, with the codes
--     that they get in Codes, their deletion in Removal and the order of the board in Board.
--     Floor.Integrity puts the commands into one step relation, and keeps the references between
--     the tables.
--   Printing: app/pats/print-job.ts. Binding is `resolvePrinterBinding` with the port that
--     app/pats/print-ports.ts selects, Label what a label shows, Jobs `recordPrintJob`.
--   Canonical: Collection app/canonical/collection.ts, Preconditions
--     app/canonical/preconditions.ts, Idempotency app/canonical/idempotency.ts over
--     app/canonical/prisma-idempotency-store.ts.
--   Identity: Policy is app/identity/policy.ts, `effectiveCapabilities` and its two tests.
--     Accounts has the tables of the accounts and the gate of app/canonical/router.ts that admits
--     a subject to a command; Subjects is app/pats/subject-admin.ts, with the patch in Patch,
--     Login app/identity/local-auth.ts. Authority puts the commands on subjects into one step
--     relation; Roles and Integrity are about what they leave.
--
-- Parameters: the tables of idempotency claims are the interfaces `IdempotencyTable` and
-- `CatalogTable`, whose laws are what PostgreSQL and Prisma promise of a unique key and of an
-- update and a deletion by id; the order of `localeCompare` is an argument of the release,
-- `toUpperCase` one of the creation of a section, `argon2` and `jwt.sign` those of the accounts,
-- the rendering and the delivery of a label those of a print job, the dates of `Date` one of the
-- patch; the SHA-256 of a body is an argument of `execute_command`. Loops over rows are
-- structural; the loop that mints series numbers recurses on the numbers that are left, and the
-- decimal of a number on the number itself, which has at least as many units as digits. Numbers
-- are natural numbers: the columns and the schemas of the request bodies admit no others, and the
-- sums stay far below 2^53.
--
-- Not modelled: the schemas of the request bodies beyond the types of their fields, the other
-- routes of the command router (stages, sub-stages, station steps, work instructions, desk
-- printing, monitoring sheets), the read side, the rendering and delivery of labels, the
-- inherited modules, middleware and server setup.
pub mod Base
pub mod Command
pub mod Route
pub mod Execution
pub mod Identity
pub mod Planning
pub mod Canonical
pub mod Floor
pub mod Printing
