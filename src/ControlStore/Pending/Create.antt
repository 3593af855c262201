-- ===== src/ControlStore/Pending/Create.antt =====
-- pending_operations.go: `CreatePendingOperation`
pub mod Outcome
pub mod Retry
use jolt.Prelude.{
  ℕ, ◌+◌, ◌-◌, ◌*◌, String, ◌<>◌, Bool, true, false, ◌&&◌, ◌||◌, not, Option, none, some, List, [],
  ◌∷◌, ◌++◌, ◌==◌, ltb, leb, eqb, if◌then◌else◌, Result, ok, err, stamp, is_some, length, any,
}
use jolt.ControlStore.Entities.{PendingOperation, AuditRecord, Db}
use jolt.ControlStore.Sql.{
  DbError, database, not_found, conflict, pending_expired, pending_too_many, pending_corrupt,
  unknown_kind, Faults, Tx, M, ◌>>=◌, ◌>>◌, pure, fail, reject, row, checked_statement, statement,
  query, exec, commit, transaction, run_statement, update_where, delete_where, select_where,
  rows_where, count_where,
}
use jolt.ControlStore.Audit.{append_audit_tx}
use jolt.ControlStore.Pending.{
  pending_state, pending_executing, pending_executed, pending_failed, pending_rejected,
  pending_expired_state, pending_indeterminate, pending_lifetime, has_id, in_state, overdue,
  with_state, expire_pending, waits_for, same_request, insert_pending, decision, first_bytes,
  max_result_body, integrity_ok, prepared, known_kind,
}

-- the row of a new request
unfoldable pub opened : String → ℕ → PendingOperation → PendingOperation
opened drawn now op = record op {
  id = "pop_" <> drawn;
  state = pending_state;
  created_at = now;
  expires_at = now + pending_lifetime;
  summary = if op.summary == "" then "{}" else op.summary;
  decided_by_type = "";
  decided_by_id = "";
  decided_at = none;
  note = "";
  result_status = 0;
  result_body = "";
}

module _ (digest : String → String) where
  unfoldable pub store_new : PendingOperation → ℕ → M (PendingOperation × Bool)
  unfolding decision
  store_new op now = do
    checked_statement (insert_pending op)
    append_audit_tx digest now
        (decision op.requester_type op.requester_id "pending_operation_create" (stamp now) op)
    commit
    pure (op, false)

  -- the part of `CreatePendingOperation` behind the search for the same request
  unfoldable pub create_new : Option String → PendingOperation → ℕ → ℕ → M (PendingOperation × Bool)
  create_new drawn op max now = do
    open_requests ← query (λ d. count_where (waits_for op) d.pending)
    reject (leb max open_requests) pending_too_many
    text ← row database drawn
    store_new (opened text now op) now

  existing_or_new :
      Option String
      → PendingOperation
      → ℕ
      → ℕ
      → Option PendingOperation
      → M (PendingOperation × Bool)
  existing_or_new drawn op max now (some p) = pure (p, true)
  existing_or_new drawn op max now none = create_new drawn op max now

  -- `CreatePendingOperation`; the row that it returns is the one that it stored
  unfoldable pub create_pending_operation :
      Option String
      → PendingOperation
      → ℕ
      → ℕ
      → Faults
      → Db
      → Result DbError (PendingOperation × Bool) × Db
  unfolding existing_or_new
  create_pending_operation drawn op max now = transaction do
    expire_pending now
    reject (not (known_kind (prepared digest op))) unknown_kind
    existing ← query (λ d. select_where (same_request (prepared digest op)) d.pending)
    existing_or_new drawn (prepared digest op) max now existing
