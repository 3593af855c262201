-- ===== src/ControlStore/Pending.antt =====
-- pending_operations.go: requests that wait for an approval. The digest of a body, in hexadecimal,
-- and the text that `rand.Read` draws for an id are parameters.
pub mod Create
pub mod Rows
pub mod Moves
pub mod Laws
pub mod Decide
pub mod Listing
use Prim.Native.Nat.{zero, suc}
use Prim.Native.String.{[] as empty, ◌∷◌ as ◌⊲◌}
use jolt.Prelude.{
  ℕ, ◌+◌, ◌-◌, ◌*◌, String, ◌<>◌, Bool, true, false, ◌&&◌, ◌||◌, not, Option, none, some, List, [],
  ◌∷◌, ◌++◌, ◌==◌, ltb, leb, eqb, if◌then◌else◌, Result, ok, err, stamp, is_some, length, any,
}
use jolt.ControlStore.Entities.{PendingOperation, AuditRecord, Db}
use jolt.ControlStore.Sql.{
  DbError, database, not_found, conflict, pending_expired, pending_too_many, pending_corrupt,
  unknown_kind, Faults, Tx, M, ◌>>=◌, ◌>>◌, pure, fail, reject, row, checked_statement, statement,
  query, exec, commit, transaction, run_statement, update_where, delete_where, select_where,
  rows_where, count_where,
}
use jolt.ControlStore.Audit.{append_audit_tx}

abbrev pub pending_state : String
pending_state = "pending"

abbrev pub pending_executing : String
pending_executing = "executing"

abbrev pub pending_executed : String
pending_executed = "executed"

abbrev pub pending_failed : String
pending_failed = "failed"

abbrev pub pending_rejected : String
pending_rejected = "rejected"

abbrev pub pending_expired_state : String
pending_expired_state = "expired"

abbrev pub pending_indeterminate : String
pending_indeterminate = "indeterminate"

-- `PendingLifetime`, in nanoseconds
abbrev pub pending_lifetime : ℕ
pending_lifetime = 300000000000

-- `pendingKeep`
abbrev pub pending_keep : ℕ
pending_keep = 2592000000000000

unfoldable pub has_id : String → PendingOperation → Bool
has_id id op = op.id == id

unfoldable pub in_state : String → PendingOperation → Bool
in_state s op = op.state == s

-- a request that waits, and is late
unfoldable pub overdue : ℕ → PendingOperation → Bool
overdue now op = op.state == pending_state && leb op.expires_at now

-- a request that is closed, and was to be decided long ago
unfoldable pub forgotten : ℕ → PendingOperation → Bool
forgotten now op =
    not (op.state == pending_state || op.state == pending_executing)
    && ltb op.expires_at (now - pending_keep)

unfoldable pub with_state : String → PendingOperation → PendingOperation
with_state s op = record op { state = s }

-- `expirePending`
unfoldable pub expire_pending : ℕ → M (Unit {0})
unfolding with_state
expire_pending now = do
  exec (λ d. record d {
    pending = update_where (overdue now) (with_state pending_expired_state) d.pending;
  })
  exec (λ d. record d { pending = delete_where (forgotten now) d.pending })

-- a request of the same requester that waits
unfoldable pub waits_for : PendingOperation → PendingOperation → Bool
waits_for op p =
    p.requester_type == op.requester_type
    && p.requester_id == op.requester_id
    && p.state == pending_state

-- the request that was made before
unfoldable pub same_request : PendingOperation → PendingOperation → Bool
same_request op p =
    waits_for op p
    && p.kind == op.kind
    && p.method == op.method
    && p.node_id == op.node_id
    && p.resource == op.resource
    && p.raw_query == op.raw_query
    && p.body_sha256 == op.body_sha256

unfoldable pub insert_pending : PendingOperation → Db → Option (Unit {0} × Db)
insert_pending op d =
    if any (has_id op.id) d.pending
    then none
    else some (tt, record d { pending = d.pending ++ (op ∷ []) })

-- the record of the audit log; its `detail` names the request
unfoldable pub decision : String → String → String → String → PendingOperation → AuditRecord
decision by_type by_id action moment op = record {
  actor_id = by_id;
  actor_type = by_type;
  action = action;
  resource = "nodes/" <> op.node_id <> "/" <> op.resource;
  result = "allowed";
  correlation_id = "";
  created_at = moment;
  policy_ids = "";
  evaluated_path = "";
  capability = "";
  source_ip = "";
  detail = "{\"pending_operation_id\":\"" <> op.id <> "\"}";
}

-- the first bytes of a text
unfoldable pub first_bytes : ℕ → String → String
first_bytes zero s = empty
first_bytes (suc n) empty = empty
first_bytes (suc n) (c ⊲ s) = c ⊲ first_bytes n s

abbrev pub max_result_body : ℕ
max_result_body = 8192

unfoldable pub known_kind : PendingOperation → Bool
known_kind op = op.kind == "replay" || op.kind == "plan" || op.kind == "transfer"

module _ (digest : String → String) where
  -- `IntegrityOK`
  unfoldable pub integrity_ok : PendingOperation → Bool
  integrity_ok op = op.body_sha256 == digest op.body

  -- the request as it is compared and stored: its kind and its digest
  unfoldable pub prepared : PendingOperation → PendingOperation
  prepared op = record op {
    kind = if op.kind == "" then "replay" else op.kind;
    body_sha256 = digest op.body;
  }
