-- ===== src/Lib.antt =====
-- Verification of jolt, a control tower and its nodes: which requests the policies allow, what a
-- signed authorization proves, what a node's access filter lets through, which jobs a node starts,
-- and what the control tower keeps of approvals, shares, quotas and its audit log.
--
-- The control tower evaluates the policies of an actor (control/internal/rbac) and signs what it
-- decided, with the policy context, as a short authorization (internal/signedauth, which tower and
-- node share). The node verifies the authorization, compiles the context into a filter
-- (internal/filetypes, shared likewise), applies the filter to each entry it touches
-- (node/backend/internal/services/filesystem) and keeps its jobs, their plans and their leases in
-- a store of transactions (node/backend/internal/infra/state). The control tower keeps the requests
-- that wait for an approval, the public shares, the quotas of agents, the temporary policies and the
-- audit log, to which the other operations write, in an SQL database (control/internal/store).
--
-- The files:
--   Prelude        the shared names: Boolean tests, lists, results, and Go's `strings` and `unicode`
--                  functions on texts
--   FileTypes      node/backend/internal/filetypes: Selector is selector.go; Context is
--                  `Context.Compile`, and Evaluate is `matchPath` and `Filter.Evaluate` of context.go
--   Rbac           control/internal/rbac: Path, Policy, Evaluate, Scope, Compat and Matching are
--                  rbac.go, and Typed is typed.go
--   AccessFilter   node/backend/internal/services/filesystem/access_filter.go and
--                  access_filter_entry.go: Decide has the decision on an entry, Tree the checks of
--                  trees
--   SignedAuth     node/backend/internal/signedauth: Binding, Verify and Uploads are signedauth.go,
--                  Lease is job_lease.go
--   State          node/backend/internal/infra/state: Tables and Transaction are storage.go; Jobs,
--                  Secured and Claims are jobs.go; Plans is destructive_plans.go; Leases is
--                  job_authorizations.go and its Guard is job_authorization_guard.go; Entities has the
--                  records of
--                  node/backend/internal/entities/entities.go
--   ControlStore   control/internal/store: Pending is pending_operations.go, Audit is audit_chain.go and
--                  audit_detail.go, Shares is shares.go, Usage is agent_usage.go, Temporary is
--                  temporary_policies.go, and Enrollment is enrollment.go; Sql has what they use of
--                  database/sql, and Entities has the rows of the tables
-- A function keeps its Go name in snake case (`GetJob` is read_job, since get_job reads the tables),
-- and a helper that is a part of a Go function says of which. The Laws and the modules named for what
-- they prove hold the theorems, and each Tests module has runs at concrete data.
--
-- The conventions:
--   A text is a sequence of Unicode code points, so a limit of Go on bytes is one on code points
--   here. The lower case of a text is that of ASCII, Latin-1, Latin Extended-A and the unaccented
--   letters of Greek and Cyrillic; other characters stay as they are. The classes of letters are
--   those of the characters below U+0530.
--   Maps that are used as sets are lists without repetitions; an error value keeps only its kind.
--   Numbers are natural: the counts and ordinals of the code are never negative.
--   A time counts nanoseconds from Go's zero time, and the zero time is 0; in ControlStore it counts
--   from the Unix epoch.
--   The state of the store is a record, and an operation takes it and returns it. A callback of a
--   transaction reads the tables as they were and collects records, which the commit applies. Whether
--   the writes succeed, and whether the context has ended, are the record `Disk`; the orders of the
--   indexes, which Go writes as texts of fixed width, are numbers.
--   A table of the SQL store is the list of its rows, in the order of their insertion, and a statement
--   is a function on the tables. A transaction sees its own changes and saves them when it commits;
--   `Faults` says which statement fails, and the store has one connection, so that no statement of
--   another call comes into a transaction. The histories of Pending.Moves, Audit.Chain.History,
--   Shares.Downloads, Usage.Quota and Enrollment.History are lists of calls, each with its arguments
--   and faults. SHA-256 and SQLite's `julianday` are parameters. A time that SQL compares as a text
--   is compared as its text in RFC3339Nano.
--   The encodings, digests and signatures that signedauth.go and job_lease.go call are the record
--   `Wire`, on which nothing is assumed.
--   A walk of the file system is the list of the entries it visits, each with the results of the
--   system calls on it.
--   The goroutine of a guard is a fold over its wakes, each with what it finds in the store at its
--   time; that a wake comes, by the ticker or by the timer set to the expiry, is up to the runtime.
--   All loops are structural; no fuel is used.
--
-- Not modelled: the encrypted files of the store with their replay and their snapshots, the errors
-- of a read whose page does not load or whose record does not decode, the uploads, peers and grants
-- of the store, the decoding of JSON, `Sign`, the services that run jobs and transfers, the HTTP,
-- mTLS and MCP interfaces, the accounts, nodes and signed copies of the SQL store, the PKI of the
-- control tower, the commands, and the frontend: input and output, libraries and glue around the
-- parts above.

pub mod Prelude
pub mod FileTypes
pub mod Rbac
pub mod AccessFilter
pub mod SignedAuth
pub mod State
pub mod ControlStore
