-- ===== src/Lib.antt =====
-- Atlas DNS is a management plane for AdGuard Home nodes that run independently of each other. It
-- stores the desired configuration of a cluster as revisions, writes them to the nodes by
-- deployments, sends operational commands, watches DNS redundancy, and lets nodes go into
-- maintenance and come back.
--
-- The files, and the code that each is about:
--   Base          tests on numbers, lists, association lists (Map), signed integers (Int), the order
--                 of texts (Order), sorting (Sort), texts that stand for values (Code), keys that
--                 a loop has seen (Unique), parts of lists (Slices), and effectful code (Act);
--   Domain        internal/domain: the shared records and error kinds;
--   Auth          internal/auth: limiter.go (Limiter), the records (Model), password.go (Password),
--                 token.go (Tokens), the state and its calls (Calls), service.go (Sessions and
--                 Service), mfa.go (Recovery and Mfa, with Steps, Manage and Challenge); Granted,
--                 Entered, Factors, SecondFactor, StepUp, Lockout, RecoveryCodes, Issued and Hashed
--                 state what they do, and Platform has the functions of libraries that they call;
--   Users         internal/useradmin/service.go: the state (Calls), the operations (Service) and
--                 when they write (Changed);
--   Health        internal/operationalhealth: models.go (Model), tracker.go (Tracker);
--   Controlplane  internal/controlplane: the models (Model) and executor.go (Executor, with the
--                 calls it makes in Calls, a task in Nodes, the ends of a deployment in Endings);
--                 Outcome and the other children of Executor state what a run does,
--                 Settings relates what a run reads back to the settings of the revision;
--                 Reconciler has reconciler.go (Calls, Node, Run) and when it acts (Drift, Starts);
--                 Targets has the choice and order of the targets in service.go, Preview and
--                 PreviewDocument what a deployment would do, Starting how one is started, rolled
--                 back and cancelled; Planned, Created and Started state what these promise;
--   Configuration internal/configuration/model.go: the documents (Model), the cleaning of lists
--                 (Clean), the canonical form and what is read from it (Canonical), the rows that
--                 are compared (Rows), the differences (Diff); Cleaned, Sets, Settled, InOrder,
--                 Own and Compared state what these do, and Encoding is a writer to try `Diff` with; Validate has
--                 the validation (Checks, Leases, Settings, Required) and what it ensures (Bounds,
--                 Deployable, Ranges, Shared, Legacy);
--   Operations    internal/operations: model.go (Model) and executor.go (Executor, with Calls and
--                 Node); Outcome and Recovery state what a run and a restart do; Selection has the
--                 choice of the nodes in `start` of service.go;
--   Availability  internal/haoperations: models.go (Model) and, of service.go, Summary,
--                 Certificates and returnTLSCheck (Certificates), MaintenancePreflight and
--                 EnterMaintenance (Maintenance), and ReturnToService (Checks and
--                 Return);
--   Versions      internal/adguardcompat/compatibility.go (Model); Decimal has the order of numbers.
--
-- A Go method keeps its name, in the spelling used here: `RunOnce` is `run_once`. A method of a
-- struct that only changes its own fields (the limiter, the tracker) is a function from the
-- state to the state. The executors and the maintenance operations keep no state of their own and
-- work by calls of interfaces (repositories, the AdGuard client, the observer, the clock). Such
-- code is an `Act`: it runs on the list of the calls made before, and records each call that it
-- makes. A service that keeps limiters of attempts is a `Step` on those and the list (`World`).
-- What a call answers is a function of that list, so whatever another process changes in
-- between is covered. Those functions are the fields of a record `Answers` per component. A loop
-- whose body may return early is a recursion that stops at the first error. All recursion is on
-- lists, or on the number of recovery codes to make, so no fuel is used.
--
-- The components meet in the nodes: deployments and commands read the maintenance mode of a node,
-- which the maintenance operations set. Times are natural numbers of
-- nanoseconds since the zero time. The counters of the code are Go `int`s bounded by the number of
-- nodes or of sign-in attempts, and are not wrapped around here.
--
-- The executor uses the configuration documents through an interface (`Configuration`: documents,
-- the effective one of a node, differences, projection), which the documents of
-- internal/configuration fill (`documents` of Configuration/Compared). A document is a value: where
-- `Canonicalise` changes slices of its argument in place, it leaves them in a form that it would not
-- change again. A nil slice is an empty list. `Diff` compares
-- JSON, where a nil slice of clients, rewrites or static leases is `null` and an empty one `[]`; so
-- the code can show a difference in these three that the model does not, and no result relies on
-- `Diff` finding none of two documents that agree. A Go map an association list in the order of its
-- keys, and `sort.Slice` keeps the places of elements that its test does not tell apart, as it does
-- on slices of up to twelve elements.
--
-- The functions that internal/auth calls, argon2, HMAC, base64 and TOTP among them, are the record
-- `Platform`, and a code that a user types is its bytes. A slice of a text is taken of its bytes.
--
-- Parameters: `time.Parse`, `strings.TrimSpace`, `strings.ToLower`, `strings.EqualFold`,
-- `json.Marshal`, `json.Unmarshal`, `sort.Strings` of the executors and the encryption are arguments.
-- The groups that the version pattern finds in a text are an argument as well.
-- The address, URL and time zone functions that the validation calls are the record `Network`.
-- `ProbeNode`, `Versions` and the text of a failed return are answers too.
--
-- Not modelled: the SQL of internal/database, the HTTP of internal/adguard and internal/api, the
-- timers of internal/jobs, archives of internal/backup, process wiring under cmd, and the services
-- of internal/inventory,
-- internal/querylog, internal/telemetry, internal/updates and internal/onboarding. Messages that
-- only people read are kept where they are fixed texts.
pub mod Base
pub mod Domain
pub mod Auth
pub mod Health
pub mod Controlplane
pub mod Configuration
pub mod Operations
pub mod Availability
pub mod Versions
pub mod Users
