-- ===== src/Lib.antt =====
-- The message router (src/kefu) takes customers' issues from consultation teams to development
-- teams through group chats. This library models its core, the case desk, with what it stands on.
--
-- Parts and files, with paths from the repository's root:
--   Prelude       numbers, Boolean tests, lists and texts that all parts share. A text is a list of
--                 code points; `strip`, `startswith` and the like are functions on it.
--   Models        src/kefu/persistence/models.py: the enumerations and the rows of the tables. A
--                 moment is a number of microseconds since the year 1, an identifier is a number.
--   Session       database sessions (and src/kefu/case_desk/errors.py). `Db` holds the tables as lists,
--                 in the order in which the rows were added; a `Query` reads and may raise, a `Tx` also
--                 writes, and `transact` is `with session.begin()`: it commits what returns and
--                 rolls back what raises. `Env` holds what comes from outside: the time, UUIDs, the
--                 draws of `secrets.choice`, the calendar of Shanghai, and Unicode's tables.
--   Directory     src/kefu/routing/directory.py: lookups (Lookup), authorizations (Access) and the
--                 binding of a group to a team (Binding).
--   Markers       src/kefu/case_desk/markers.py: the references of issues.
--   Numbering     src/kefu/case_desk/numbering.py: the numbers of issues, MMDDNN.
--   Formatting    src/kefu/wecom/formatting.py: the texts and cards that carry entries to the chats.
--   IssueTitles   src/kefu/tools/issue_titles.py: the customer's name before a title.
--   CaseDesk      src/kefu/case_desk/service.py and contracts.py. Commands has the commands, Execute
--                 `CaseDesk.execute`; Creation (with CreationChecks) is `_create_case`, Messages (with
--                 Speakers) `_post_formal_message`, Metadata, Deadlines, Transfers, Workflow and Corrections the
--                 other commands of users. Leasing is `claim_pending_deliveries`, by which a worker
--                 takes deliveries, and Outbox are its reports on them. Deferred completes or takes
--                 back the deliveries that a callback may carry. StatusJobs (with Claims) leases,
--                 completes and fails the evaluations of issues by the status agent. Timeline and Outgoing append
--                 entries and deliveries, and Common has the shared checks.
--                 Deferred.Final, StatusJobs.Once, StatusJobs.Stale, StatusJobs.Claims.Exclusive,
--                 Deadlines.Moves, Deadlines.Bounds, Workflow.Transitions, Leasing.Exclusive,
--                 Leasing.Total, Outbox.Leases, Outbox.Repeats, Outbox.Failures, Versions and
--                 Authorization prove what single operations do, and Invariants what all of them keep.
--                 System puts commands and workers together: `perform` is one operation and `Reach`
--                 any sequence of them; System.LifeCycle is the abstract life cycle of an issue.
--   WebAuth       src/kefu/web/auth.py: the login by OAuth, its sessions and the actor of a request.
--                 Hashing, quoting and the OAuth client are parameters; WebAuth.Login has the theorems.
--   Recipients    src/kefu/messages/recipients.py: the address of a recipient, and who may
--                 write to it; Recipients.Authorized and Recipients.Registered have the theorems.
--   Inspection    src/kefu/inspection/schedule.py: the daily times of the inspection. Python's tables of
--                 digits and the wall clock by `zoneinfo` are parameters; Inspection.Next and
--                 Inspection.Slots have the theorems.
--   Samples, Witnesses   a small deployment, and the theorems there.
--
-- How they interact: a command goes to its handler, which loads the issue by its normalized reference
-- (Markers), checks the version and the authorization (Directory), changes the row, appends an entry
-- (Timeline), and renders deliveries for the groups (Outgoing, Formatting, Numbering). The worker
-- later reports on each delivery (Outbox), and a success may hand the issue over to the other side.
-- Invariants.Stable is the interface between the tables' invariants and the handlers: what an
-- invariant shows of each single write, Invariants.Commands lifts to `execute`, Invariants.Worker and
-- Invariants.Evaluations to what the worker does, and System to sequences of operations.
--
-- Bounds and fuel: sixteen attempts to draw a reference, as in the source; `drop_angles` of
-- Formatting.Mentions runs on the length of its text, and takes a character at least in each round;
-- `digits` of Numbering.Decimal runs on more fuel than the number has digits.
--
-- Not modelled: the texts of errors, logging, row locks (a session runs alone), and the flush order of
-- the ORM; `issue_metadata_json` beyond the customer group's name; the lists and views for the web
-- pages; the text of the timeline that the status agent reads, and the markers of draft requests;
-- issue intake, relay, the outbox of pushes, media, the service of inspection, administration and the
-- web pages; the transport, the agent and the worker's loop, which are I/O.
pub mod Prelude
pub mod Models
pub mod Session
pub mod Directory
pub mod Markers
pub mod Numbering
pub mod Formatting
pub mod IssueTitles
pub mod CaseDesk
pub mod Samples
pub mod Witnesses
pub mod Inspection
pub mod WebAuth
pub mod Recipients
