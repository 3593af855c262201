-- ===== src/ControlStore/Tests/Pending.antt =====
-- Requests that wait for an approval.
use jolt.Prelude.{
  ℕ, Bool, true, false, ◌≡◌, refl, ◌⊎◌, none, some, List, [], ◌∷◌, ◌==◌, leb, arith, Result, ok,
  err, is_ok,
}
use jolt.ControlStore.Entities.{PendingOperation, Db}
use jolt.ControlStore.Sql.{DbError, count_where, pending_expired}
use jolt.ControlStore.Pending.{waits_for, pending_lifetime}
use jolt.ControlStore.Pending.Rows.{row_of}
use jolt.ControlStore.Pending.Create.{create_pending_operation}
use jolt.ControlStore.Pending.Create.Retry.{create_pending_operation-retry}
use jolt.ControlStore.Pending.Decide.{
  claim_pending_operation, finish_pending_operation, reject_pending_operation,
}
use jolt.ControlStore.Pending.Laws.{claim_pending_operation-checked, pending_operation-errors}
use jolt.ControlStore.Pending.Moves.{
  Moves, Call, create, get, list, claim, finish, reject, recover, draws, state_of, run,
}
use jolt.ControlStore.Pending.Moves.Refines.{run-Moves}
use jolt.ControlStore.Pending.Moves.Once.{claim_pending_operation-once}
use jolt.ControlStore.Pending.Moves.Final.{run-closed}
use jolt.ControlStore.Tests.{digest, no_faults, now, request, waiting_request, no_rows, one_request}

abbrev later : ℕ
later = 1767225660000000000

abbrev calls : List Call
calls =
    finish "pop_1" 200 "done" no_faults
    ∷ create (some "2") request 5 later no_faults
    ∷ list "" "" "" 10 later no_faults
    ∷ []

abbrev created : Result DbError (PendingOperation × Bool) × Db
created = create_pending_operation digest (some "1") request 5 now no_faults no_rows

-- A request is made, approved and executed.
life :
    state_of "pop_1"
      (run digest
        (create (some "1") request 5 now no_faults
          ∷ claim "pop_1" "user" "eva" later no_faults
          ∷ finish "pop_1" 200 "done" no_faults
          ∷ [])
        no_rows).pending
    ≡ some "executed"
unfolding run jolt.ControlStore.Sql.select_where jolt.ControlStore.Pending.Moves.step
    finish_pending_operation jolt.ControlStore.Sql.transaction jolt.ControlStore.Sql.statement
    count_where claim_pending_operation create_pending_operation
    jolt.ControlStore.Pending.expire_pending jolt.ControlStore.Pending.known_kind
    jolt.ControlStore.Pending.prepared jolt.ControlStore.Sql.delete_where
    jolt.ControlStore.Sql.update_where jolt.ControlStore.Pending.Create.create_new
    jolt.ControlStore.Pending.Create.store_new jolt.ControlStore.Sql.checked_statement
    jolt.ControlStore.Pending.insert_pending jolt.ControlStore.Audit.append_audit_tx
    jolt.ControlStore.Sql.commit jolt.ControlStore.Pending.has_id
    jolt.ControlStore.Pending.Create.opened jolt.ControlStore.Pending.Decide.claim
    jolt.ControlStore.Pending.overdue jolt.ControlStore.Pending.Decide.claim_waiting
    jolt.ControlStore.Pending.integrity_ok jolt.ControlStore.Pending.in_state
life = refl

-- A late claim closes the request.
late_claim :
    (claim_pending_operation digest "pop_1" "user" "eva" 1767225900000000000 no_faults
      one_request).0
    ≡ err pending_expired
unfolding claim_pending_operation jolt.ControlStore.Sql.transaction jolt.ControlStore.Sql.statement
    jolt.ControlStore.Sql.select_where jolt.ControlStore.Pending.has_id
    jolt.ControlStore.Pending.Decide.claim jolt.ControlStore.Pending.overdue
    jolt.ControlStore.Pending.Decide.claim_late jolt.ControlStore.Sql.commit
late_claim = refl

-- A restart leaves an executing request indeterminate.
interrupted :
    state_of "pop_1"
      (run digest
        (claim "pop_1" "user" "eva" later no_faults ∷ recover false ∷ [])
        one_request).pending
    ≡ some "indeterminate"
unfolding run jolt.ControlStore.Sql.select_where jolt.ControlStore.Pending.Moves.step
    jolt.ControlStore.Pending.Decide.recover_pending_operations jolt.ControlStore.Sql.run_statement
    jolt.ControlStore.Sql.update_where claim_pending_operation jolt.ControlStore.Sql.transaction
    jolt.ControlStore.Sql.statement jolt.ControlStore.Pending.has_id
    jolt.ControlStore.Pending.Decide.claim jolt.ControlStore.Pending.overdue
    jolt.ControlStore.Pending.Decide.claim_waiting jolt.ControlStore.Pending.integrity_ok
    count_where jolt.ControlStore.Pending.in_state jolt.ControlStore.Audit.append_audit_tx
    jolt.ControlStore.Sql.commit jolt.ControlStore.Pending.with_state
interrupted = refl

claim_pending_operation-once_example :
    is_ok
      (claim_pending_operation digest "pop_1" "user" "bob" later no_faults (
        run digest calls
          (claim_pending_operation digest "pop_1" "user" "eva" later no_faults one_request).1)).0
    ≡ false
unfolding claim_pending_operation jolt.ControlStore.Sql.transaction jolt.ControlStore.Sql.statement
    jolt.ControlStore.Sql.select_where jolt.ControlStore.Pending.has_id
    jolt.ControlStore.Pending.Decide.claim jolt.ControlStore.Pending.overdue
    jolt.ControlStore.Pending.Decide.claim_waiting jolt.ControlStore.Pending.integrity_ok
    count_where jolt.ControlStore.Pending.in_state jolt.ControlStore.Audit.append_audit_tx
    jolt.ControlStore.Sql.commit
claim_pending_operation-once_example =
    claim_pending_operation-once digest "pop_1" "user" "eva" "user" "bob" later later no_faults
      no_faults calls one_request refl refl refl

run-Moves_example :
    Moves "pop_2" calls none (state_of "pop_2" (run digest calls one_request).pending)
unfolding run jolt.ControlStore.Sql.select_where jolt.ControlStore.Pending.has_id
run-Moves_example = run-Moves digest "pop_2" calls one_request refl

run-closed_example :
    (state_of "pop_1"
        (run digest calls
          (record no_rows { pending = record waiting_request { state = "rejected" } ∷ [] })).pending
      ≡ some "rejected")
    ⊎ (state_of "pop_1"
          (run digest calls (record no_rows {
            pending = record waiting_request { state = "rejected" } ∷ [];
          })).pending
        ≡ none)
unfolding run jolt.ControlStore.Sql.select_where jolt.ControlStore.Pending.has_id
run-closed_example =
    run-closed digest "pop_1" "rejected" calls
      (record no_rows { pending = record waiting_request { state = "rejected" } ∷ [] }) refl refl
      refl refl

claim_pending_operation-checked_example :
    (op : PendingOperation) × (row_of "pop_1" one_request.pending ≡ some op)
    × ((op.state == "pending") ≡ true)
    × (leb op.expires_at later ≡ false)
    × ((op.body_sha256 == digest op.body) ≡ true)
    × (◌≡◌ {A = PendingOperation}
        (record waiting_request {
          state = "executing";
          decided_by_type = "user";
          decided_by_id = "eva";
          decided_at = some later;
        })
        (record op {
          state = "executing";
          decided_by_type = "user";
          decided_by_id = "eva";
          decided_at = some later;
        }))
    × (row_of "pop_1"
          (claim_pending_operation digest "pop_1" "user" "eva" later no_faults
            one_request).1.pending
        ≡ some (record waiting_request {
          state = "executing";
          decided_by_type = "user";
          decided_by_id = "eva";
          decided_at = some later;
        }))
unfolding claim_pending_operation jolt.ControlStore.Sql.transaction jolt.ControlStore.Sql.statement
    jolt.ControlStore.Sql.select_where jolt.ControlStore.Pending.has_id
    jolt.ControlStore.Pending.Decide.claim jolt.ControlStore.Pending.overdue
    jolt.ControlStore.Pending.Decide.claim_waiting jolt.ControlStore.Pending.integrity_ok
    count_where jolt.ControlStore.Pending.in_state jolt.ControlStore.Audit.append_audit_tx
    jolt.ControlStore.Sql.commit
claim_pending_operation-checked_example =
    claim_pending_operation-checked digest "pop_1" "user" "eva" later no_faults one_request
      (record waiting_request {
        state = "executing";
        decided_by_type = "user";
        decided_by_id = "eva";
        decided_at = some later;
      })
      refl refl

create_pending_operation-retry_example :
    create_pending_operation digest (some "2") request 1 later no_faults created.1
    ≡ (ok (waiting_request, true), created.1)
unfolding create_pending_operation jolt.ControlStore.Sql.transaction
    jolt.ControlStore.Pending.expire_pending jolt.ControlStore.Sql.statement
    jolt.ControlStore.Pending.known_kind jolt.ControlStore.Pending.prepared
    jolt.ControlStore.Sql.select_where jolt.ControlStore.Sql.delete_where
    jolt.ControlStore.Sql.update_where jolt.ControlStore.Pending.Create.create_new count_where
    jolt.ControlStore.Pending.Create.store_new jolt.ControlStore.Sql.checked_statement
    jolt.ControlStore.Pending.insert_pending jolt.ControlStore.Audit.append_audit_tx
    jolt.ControlStore.Sql.commit jolt.ControlStore.Pending.Create.opened
create_pending_operation-retry_example =
    create_pending_operation-retry digest (some "1") (some "2") request waiting_request 5 1 now
      later no_faults no_faults no_rows refl (omega arith) (λ i. refl)

pending_operation-errors_example :
    ((is_ok (create_pending_operation digest none request 5 now no_faults one_request).0 ≡ true)
      ⊎ ((create_pending_operation digest none request 5 now no_faults one_request).1
          ≡ one_request))
    × ((is_ok (finish_pending_operation digest "pop_1" 200 "" no_faults one_request).0 ≡ true)
        ⊎ ((finish_pending_operation digest "pop_1" 200 "" no_faults one_request).1 ≡ one_request))
    × ((is_ok (reject_pending_operation digest "pop_1" "user" "eva" "" now no_faults one_request).0
          ≡ true)
        ⊎ ((reject_pending_operation digest "pop_1" "user" "eva" "" now no_faults one_request).1
            ≡ one_request))
    × ((is_ok (claim_pending_operation digest "pop_1" "user" "eva" now no_faults one_request).0
          ≡ true)
        ⊎ ((claim_pending_operation digest "pop_1" "user" "eva" now no_faults one_request).0
            ≡ err pending_expired)
        ⊎ ((claim_pending_operation digest "pop_1" "user" "eva" now no_faults one_request).1
            ≡ one_request))
pending_operation-errors_example =
    pending_operation-errors digest none request "pop_1" "user" "eva" "" "" 5 200 now no_faults
      one_request
