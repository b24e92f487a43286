-- ===== src/Lib.antt =====
-- Verification of the Koranco web client: the offline capture of attendance and harvest on a shared
-- device, its synchronization with the server, and the session of the signed-in user.
--
-- The program's parts, and the file that models each (paths from the repository's root):
--   apps/web/src/lib/api/client.ts: Client. `apiRequest` is `api_request`, a function of what `fetch`
--     came to.
--   apps/web/src/lib/api/auth.ts: Session. The module's variables are the record `SessionState`, and
--     each exported function takes it and returns it changed.
--   apps/web/src/modules/attendance/offline/db.ts: Offline. The database is the record `Db` of
--     Offline/Db, and each exported function has the name of the source in lower case with
--     underscores: the lease in Offline/Lease, the caches in Offline/Reference, the drafts and outboxes
--     in Offline/Attendance and Offline/Harvest, the counts in Offline/Pending.
--   apps/web/src/modules/attendance/offline/sync.ts and modules/harvest/offline/sync.ts: Sync. What the
--     two share is in Sync/Answers; each engine is a loop over the operations of its outbox, in
--     Sync/Attendance and Sync/Harvest, and Sync/Lockstep compares them.
--   apps/web/src/modules/attendance/attendance-workspace.tsx: Workspace. The roster is in
--     Workspace/Roster; the state of the component is the record `WorkspaceState` of
--     Workspace/State; a session is opened in Workspace/Load, and the handlers, which take the state
--     with the database and return both, are in Workspace/Attendance; the search and the single
--     requests for a session are in Workspace/Details.
--     What a request came to and what the user answered are arguments.
--   The other functions of the `api.ts` files and of lib/api/administration.ts: Api, as the request that
--     each sends; a query and a body are lists of fields.
--   apps/web/src/modules/harvest/harvest-workspace.tsx: HarvestPage. The state of the component and its
--     form are in HarvestPage/State, `load` and the session check in HarvestPage/Load, the other
--     handlers in HarvestPage/Handlers and HarvestPage/Correction.
--   apps/web/src/modules/attendance/attendance-list.tsx and modules/harvest/harvest-list.tsx:
--     RecordLists, with how a device is prepared for field work.
--   apps/web/src/modules/workers/worker-register.tsx, modules/farm-structure/farm-structure-register.tsx
--     and components/admin/users-admin.tsx: Registers. A handler takes the state of its page and
--     returns it with the requests that it sent.
--   apps/web/src/modules/reports: Reports. The charts of series.ts and the ranges of dates are in
--     Reports/Series, and the pages, as steps on answers that come in any order, in Reports/Pages.
--   apps/web/src/components/pwa-registrar.tsx: Background. What `trySync` does between two awaits, and
--     the listener of the session, are steps on the record `Registrar`; the two syncs that it starts at
--     once are in Background/Together, an iteration of either at a time.
--   apps/web/src/components/shells/account-menu.tsx: SignOut. `handleSignOut` takes the menu, the
--     session and the database, and returns them.
--   apps/web/src/components/shells/management-navigation.ts: Navigation.
--   The paging loops of modules/attendance/api.ts and modules/farm-structure/api.ts: Paging.
--   The types of these and of the `api.ts` files of the modules are in Types.
-- Device puts the parts together: the calls of the pages and of the sign-in, for the several users of
-- one device, are events, and a run is any sequence of them.
--
-- How the code is read:
--   Dexie 4 over IndexedDB is a parameter, the record `Dexie` of tables with the calls the code makes
--     and their documented behaviour as laws; Dexie/Memory is a store in memory that meets the laws, on
--     which the examples run. A rejected call inside a transaction leaves the stores as they were. Only
--     `add` can fail: a full disk or a deleted database is not modelled.
--   `fetch` and the server are arguments: what a request came to, or a function from the operation sent
--     to the answer. Theorems hold for every one of them.
--   A time is a number of milliseconds since 1970, for the texts of `toISOString`, whose order is the
--     same until the year 9999. A call reads the clock once, and `crypto.randomUUID()` is an argument.
--   A thrown error is the value `err` of `Result`; the calls that return it return the database too.
--   The loops run over the list of operations that the query gave, so that no fuel is needed. The
--     paging loops take fuel; one more than the greatest total that the server names is enough.
--   An event of Device is a call taken as a whole: IndexedDB runs the transactions one after the other.
--     What happens between the iterations of an attendance sync is in Device/Interleaved, where an
--     iteration holds the operation as the sync read it.
--   A date of a chart, in the source a text YYYY-MM-DD, is its year, month and day; Calendar is the
--     civil calendar of `Date` in UTC from 1970 on, whose loop over the years takes the number of days
--     as fuel. The numbers of the charts are the parameter `Numbers`, and `toLocaleLowerCase` is the
--     parameter `lower`.
--   `Number(text) <= 0` is computed on the digits of the text; a number that is positive and rounds to
--     0, below 1e-323, counts as positive.
--   A page stays open while its requests run. What a list comes to, what the browser's question was
--     answered, and whether an event still names its form after an answer, are arguments.
--
-- Not modelled: the server (apps/api), the service worker, markup and routing, the design-system page,
--   the forms for signing in and for changing a password, the list of security events, and the labels
--   and number formats of the charts.
pub mod Base
pub mod Dexie
pub mod Types
pub mod Calendar
pub mod Client
pub mod Session
pub mod Offline
pub mod Sync
pub mod Device
pub mod HarvestPage
pub mod RecordLists
pub mod Workspace
pub mod Navigation
pub mod Reports
pub mod Registers
pub mod Paging
pub mod Api
pub mod Tests
pub mod Background
pub mod SignOut
