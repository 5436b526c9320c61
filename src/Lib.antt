-- ===== src/Lib.antt =====
-- The lock services of the SharePoint folder permission system in api/: time-based lock rules of an
-- order, the evaluator that moves folders between lock states, change requests that unlock folders
-- for some hours, manual locks, the permission matrix of roles and its inheritance along folder
-- paths, the circuit breaker and the retries of the calls of Microsoft Graph, idempotent operations,
-- the orders themselves, and the access of guests.
--
-- The parts and the files that model them:
-- - Locks/Model: the rows of api/models/lock.py, which all lock services share.
-- - Locks/Windows and Locks/Rules: LockRuleService of api/services/locks/lock_rule_service.py. Its
--   database is the table `lock_rule`. Below it, Disjoint and Changes treat the overlap of active
--   rules, Exclusive their windows in time, Templates the creation from a template.
-- - Locks/Evaluator and Locks/Evaluator/Apply: LockEvaluator of
--   api/services/locks/lock_evaluator.py over the tables `lock_rule`, `lock_state` and
--   `lock_transition_log`. It uses the rules of Locks/Rules: InForce needs the invariant of
--   Locks/Rules/Disjoint. Converge and Stuck treat applying a transition,
--   Expiry the expiry of manual locks.
-- - Locks/ChangeRequests: CRService of api/services/locks/cr_service.py, which writes the same
--   `lock_state` rows. Validation, Unlock, Closing and Expiry treat its operations.
-- - Rbac/Model and Rbac/LockService: LockService and LockOverrideEngine of
--   api/services/rbac/lock_service.py. Access has the reading operations, Single the invariant,
--   Reach the histories of calls, Effects what single calls do.
-- - Rbac/Roles, Rbac/FolderTypes and Rbac/PermissionEngine: PermissionEngine of
--   api/services/rbac/permission_engine.py over the tables of api/models/rbac.py. Segregation treats
--   the folder types, Conflicts the resolution of conflicting permissions.
-- - Rbac/Paths and Rbac/Inheritance: InheritanceService of api/services/rbac/inheritance_service.py,
--   over the permission assignments and the permissions of Rbac/PermissionEngine. Parents treats the
--   parents of paths, Sources what is inherited, Additions how it is added to calculated
--   permissions, Breaking the breaking and restoring of inheritance.
-- - Rbac/Reconciliation: ReconciliationService of api/services/rbac/reconciliation_service.py. Its
--   children Actual and Scan hold what SharePoint has and the scan; Levels treats the levels of
--   SharePoint roles, Drifts the comparison, in the terms of Wanted.
-- - Orders/Model and Orders: OrderService of api/services/orders.py over the tables of
--   api/models/contract.py. Ordering says what the order of a query promises, Sorting has a way of
--   keeping it, Pages treats the listing, Reach the histories of calls.
-- - Guests/Model: the rows of api/models/guest.py. Guests/Lifecycle and Guests/Lifecycle/Expiry:
--   GuestLifecycleService of api/services/guests/lifecycle_service.py. Moves says what a call does to
--   the guests, Steps that every operation does no more, Reach treats the histories of calls,
--   and Track, Found and Complete the automatic run.
-- - Core/CircuitBreaker: CircuitBreaker of api/core/retry.py. Its child History relates the breaker
--   to the steps of interleaved calls, Trips says what follows a failure that opens it. Core/Retry: retry_async of the same file.
-- - Core/Idempotency/Model and Core/Idempotency: api/core/idempotency.py over the table of
--   api/models/idempotency.py. Keys treats the keys, Once the interleaved steps of concurrent calls,
--   Replay repeated calls.
--
-- An operation is a function from its arguments and the database to a result and the database after
-- it (Prelude/Raise); an exception is an `err` with the class of the exception (Prelude/Outcome). An
-- operation that raises before its commit leaves the database as it was. A table is the list of its
-- rows in the order of a query without ORDER BY (Prelude/Table). Drawn identifiers (`uuid4()`) and
-- the current time are arguments, and one operation draws one time; times are microseconds since the
-- year 1, with the OverflowError of `datetime` (Prelude/Clock). Offsets and hours are integers
-- (Prelude/Int), text is a list of code points (Prelude/Text). All loops run over lists or over
-- the number of attempts left, but for the two along the parents of a path, which may run as often as
-- the path has characters: Rbac/Inheritance proves that this is enough.
--
-- Not modelled: logging, the texts of log rows and messages, notifications and the synchronisation
-- with SharePoint, which the services call with their exceptions swallowed, failures of the database
-- other than the constraints named in the files, concurrent sessions other than the interleaved
-- calls of Core, and the random delays between attempts. A value read from a column is the value
-- that was written, as it is within one session: enumeration members and times keep their classes.
-- What the database decides stands as a parameter: which rows the constraints of `lock_rule` refuse,
-- and how a query for a page arranges orders with the same time of creation.
pub mod Prelude
pub mod Locks
pub mod Rbac
pub mod Core
pub mod Orders
pub mod Guests
