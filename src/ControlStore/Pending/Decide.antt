-- ===== src/ControlStore/Pending/Decide.antt =====
-- pending_operations.go: the claim of a request for its approver, the end of its replay, its
-- rejection, and the recovery of the requests when the database opens
pub mod Outcome
use jolt.Prelude.{
  ℕ, ◌+◌, ◌-◌, ◌*◌, String, ◌<>◌, Bool, true, false, ◌&&◌, ◌||◌, not, Option, none, some, List, [],
  ◌∷◌, ◌++◌, ◌==◌, ltb, leb, eqb, if◌then◌else◌, Result, ok, err, stamp, is_some, length, any,
}
use jolt.ControlStore.Entities.{PendingOperation, AuditRecord, Db}
use jolt.ControlStore.Sql.{
  DbError, database, not_found, conflict, pending_expired, pending_too_many, pending_corrupt,
  unknown_kind, Faults, Tx, M, ◌>>=◌, ◌>>◌, pure, fail, reject, row, checked_statement, statement,
  query, exec, commit, transaction, run_statement, update_where, delete_where, select_where,
  rows_where, count_where,
}
use jolt.ControlStore.Audit.{append_audit_tx}
use jolt.ControlStore.Pending.{
  pending_state, pending_executing, pending_executed, pending_failed, pending_rejected,
  pending_expired_state, pending_indeterminate, pending_lifetime, has_id, in_state, overdue,
  with_state, expire_pending, waits_for, same_request, insert_pending, decision, first_bytes,
  max_result_body, integrity_ok, prepared, known_kind,
}

-- the conditions of the updates
abbrev pub waiting : String → PendingOperation → Bool
waiting id p = has_id id p && in_state pending_state p

abbrev pub executing : String → PendingOperation → Bool
executing id p = has_id id p && in_state pending_executing p

-- what the updates set
abbrev pub taken : String → String → ℕ → PendingOperation → PendingOperation
taken by_type by_id now p = record p {
  state = pending_executing;
  decided_by_type = by_type;
  decided_by_id = by_id;
  decided_at = some now;
}

abbrev pub finished : ℕ → String → PendingOperation → PendingOperation
finished status body p = record p {
  state = if leb 400 status then pending_failed else pending_executed;
  result_status = status;
  result_body = first_bytes max_result_body body;
}

abbrev pub rejected : String → String → String → ℕ → PendingOperation → PendingOperation
rejected by_type by_id note now p = record p {
  state = pending_rejected;
  decided_by_type = by_type;
  decided_by_id = by_id;
  decided_at = some now;
  note = note;
}

module _ (digest : String → String) where
  -- the claim of a request that has not expired
  unfoldable pub claim_waiting :
      String → String → String → ℕ → PendingOperation → M PendingOperation
  claim_waiting id by_type by_id now op = do
    reject (not (integrity_ok digest op)) pending_corrupt
    changed ← statement (λ d. (
      count_where (waiting id) d.pending,
      record d { pending = update_where (waiting id) (taken by_type by_id now) d.pending },
    ))
    reject (not (eqb changed 1)) conflict
    append_audit_tx digest now (decision by_type by_id "pending_operation_approve" (stamp now) op)
    commit
    pure (taken by_type by_id now op)

  -- a late claim closes the request, and commits that
  unfoldable pub claim_late : String → M PendingOperation
  claim_late id = do
    exec (λ d. record d {
      pending = update_where (waiting id) (with_state pending_expired_state) d.pending;
    })
    commit
    fail pending_expired

  unfoldable pub claim : String → String → String → ℕ → PendingOperation → M PendingOperation
  claim id by_type by_id now op =
      if overdue now op then claim_late id else claim_waiting id by_type by_id now op

  -- `ClaimPendingOperation`
  unfoldable pub claim_pending_operation :
      String → String → String → ℕ → Faults → Db → Result DbError PendingOperation × Db
  claim_pending_operation id by_type by_id now = transaction do
    found ← query (λ d. select_where (has_id id) d.pending)
    op ← row not_found found
    claim id by_type by_id now op

  -- `FinishPendingOperation`
  unfoldable pub finish_pending_operation :
      String → ℕ → String → Faults → Db → Result DbError (Unit {0}) × Db
  finish_pending_operation id status body = transaction do
    changed ← statement (λ d. (
      count_where (executing id) d.pending,
      record d { pending = update_where (executing id) (finished status body) d.pending },
    ))
    reject (not (eqb changed 1)) conflict
    commit

  unfoldable pub reject_found :
      String → String → String → String → ℕ → PendingOperation → M PendingOperation
  reject_found id by_type by_id note now op = do
    reject (not (in_state pending_state op)) conflict
    exec (λ d. record d {
      pending = update_where (waiting id) (rejected by_type by_id note now) d.pending;
    })
    append_audit_tx digest now (decision by_type by_id "pending_operation_reject" (stamp now) op)
    commit
    pure (record op { state = pending_rejected; note = note })

  -- `RejectPendingOperation`
  unfoldable pub reject_pending_operation :
      String → String → String → String → ℕ → Faults → Db → Result DbError PendingOperation × Db
  reject_pending_operation id by_type by_id note now = transaction do
    expire_pending now
    found ← query (λ d. select_where (has_id id) d.pending)
    op ← row not_found found
    reject_found id by_type by_id note now op

-- `recoverPendingOperations`
unfoldable pub recover_pending_operations : Bool → Db → Result DbError (Unit {0}) × Db
recover_pending_operations = run_statement (λ d. (
  tt,
  record d {
    pending =
        update_where (in_state pending_executing) (with_state pending_indeterminate) d.pending;
  },
))
