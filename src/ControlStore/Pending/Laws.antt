-- ===== src/ControlStore/Pending/Laws.antt =====
-- What each operation on waiting requests promises.
use jolt.Prelude.{
  ℕ, ◌≤◌, String, true, false, ◌≡◌, refl, Option, some, ◌==◌, ◌⊎◌, leb, arith, Bool-cases, inl, inr,
  ok, err, is_ok,
}
use jolt.ControlStore.Entities.{PendingOperation, Db}
use jolt.ControlStore.Sql.{pending_expired, Faults, count_where}
use jolt.ControlStore.Sql.Laws.{select_where_passes, count_where-append}
use jolt.ControlStore.Pending.{has_id, in_state, overdue, integrity_ok, prepared, waits_for}
use jolt.ControlStore.Pending.Rows.{row_of, distinct, row_of-update}
use jolt.ControlStore.Pending.Create.{opened, create_pending_operation}
use jolt.ControlStore.Pending.Create.Outcome.{expired, Created, create_pending_operation-Created}
use jolt.ControlStore.Pending.Decide.{
  waiting, taken, claim_pending_operation, finish_pending_operation, reject_pending_operation,
}
use jolt.ControlStore.Pending.Decide.Outcome.{
  Claimed, Rejected, claim_pending_operation-Claimed, finish_pending_operation-Commits,
  reject_pending_operation-Rejected,
}
use jolt.ControlStore.Pending.Moves.Once.{count_settled}

module _ (digest : String → String) where
  -- Where no two rows have one id: a claim that succeeds found the request stored, pending, not yet
  -- expired, and with the body of its digest; it returns that request as executing, decided by the
  -- caller now, and stores what it returns.
  pub claim_pending_operation-checked :
      (id by_type by_id : String) (now : ℕ) (fails : Faults) (d : Db) (q : PendingOperation)
      → distinct d.pending ≡ true
      → (claim_pending_operation digest id by_type by_id now fails d).0 ≡ ok q
      → (op : PendingOperation) × (row_of id d.pending ≡ some op)
        × ((op.state == "pending") ≡ true)
        × (leb op.expires_at now ≡ false)
        × ((op.body_sha256 == digest op.body) ≡ true)
        × (q ≡ record op {
          state = "executing";
          decided_by_type = by_type;
          decided_by_id = by_id;
          decided_at = some now;
        })
        × (row_of id (claim_pending_operation digest id by_type by_id now fails d).1.pending
            ≡ some q)
  unfolding integrity_ok overdue in_state
  claim_pending_operation-checked id by_type by_id now fails d q h o =
      elim (claim_pending_operation-Claimed digest id by_type by_id now fails d) [
        | Claimed.refused x y ↦ absurd (ground arith)
        | Claimed.late op s l x y ↦ absurd (ground arith)
        | Claimed.approved op s l g n x y ↦
            let waits : (op.state == "pending") ≡ true = elim (Bool-cases (op.state == "pending")) [
              | inl e ↦ e
              | inr e ↦ absurd (ground (arith, count_settled id d.pending h (rw s e)))
            ] in
            let mine : has_id id op ≡ true = select_where_passes (has_id id) d.pending op s in
            (
              op,
              s,
              waits,
              ground arith,
              g,
              ground arith,
              rw
                  (
                    y,
                    row_of-update (waiting id) (taken by_type by_id now) (λ r. refl) id d.pending,
                    s,
                  )
                  (ground arith),
            )
      ]

  -- Whatever statement fails: a creation, a finish or a rejection that answers an error stored
  -- nothing, and a claim that answers an error stored nothing, except where the error is that the
  -- request has expired.
  pub pending_operation-errors :
      (drawn : Option String) (op : PendingOperation) (id by_type by_id note body : String)
      (max status now : ℕ) (fails : Faults) (d : Db)
      → ((is_ok (create_pending_operation digest drawn op max now fails d).0 ≡ true)
          ⊎ ((create_pending_operation digest drawn op max now fails d).1 ≡ d))
        × ((is_ok (finish_pending_operation digest id status body fails d).0 ≡ true)
            ⊎ ((finish_pending_operation digest id status body fails d).1 ≡ d))
        × ((is_ok (reject_pending_operation digest id by_type by_id note now fails d).0 ≡ true)
            ⊎ ((reject_pending_operation digest id by_type by_id note now fails d).1 ≡ d))
        × ((is_ok (claim_pending_operation digest id by_type by_id now fails d).0 ≡ true)
            ⊎ ((claim_pending_operation digest id by_type by_id now fails d).0
                ≡ err pending_expired)
            ⊎ ((claim_pending_operation digest id by_type by_id now fails d).1 ≡ d))
  pending_operation-errors drawn op id by_type by_id note body max status now fails d = (
    elim (create_pending_operation-Created digest drawn op max now fails d) [
      | Created.refused x y ↦ inr y
      | Created.repeated p x y ↦ inl (rw y refl)
      | Created.added text e k s m a x y ↦ inl (rw x refl)
    ],
    elim (finish_pending_operation-Commits digest id status body fails d) [
      | inl (x, y) ↦ inr y
      | inr (n, x, y) ↦ inl (rw x refl)
    ],
    elim (reject_pending_operation-Rejected digest id by_type by_id note now fails d) [
      | Rejected.refused x y ↦ inr y
      | Rejected.closed q s w x y ↦ inl (rw x refl)
    ],
    elim (claim_pending_operation-Claimed digest id by_type by_id now fails d) [
      | Claimed.refused x y ↦ inr (inr y)
      | Claimed.late q s l x y ↦ inr (inl x)
      | Claimed.approved q s l g n x y ↦ inl (rw x refl)
    ],
  )

  -- A creation that stores a new request leaves at most `max` requests of its requester pending.
  pub create_pending_operation-le-max :
      (drawn : Option String) (op : PendingOperation) (max now : ℕ) (fails : Faults) (d : Db)
      (q : PendingOperation)
      → (create_pending_operation digest drawn op max now fails d).0 ≡ ok (q, false)
      → count_where
          (waits_for op)
          (create_pending_operation digest drawn op max now fails d).1.pending
        ≤ max
  unfolding waits_for prepared
  create_pending_operation-le-max drawn op max now fails d q o =
      elim (create_pending_operation-Created digest drawn op max now fails d) [
        | Created.refused x y ↦ absurd (ground arith)
        | Created.repeated p x y ↦ absurd (ground arith)
        | Created.added text e k s m a x y ↦
            let below : leb max (count_where (waits_for op) (expired now d.pending)) ≡ false = m in
            rw y (
              ground (
                arith,
                count_where-append (waits_for op) (opened text now (prepared digest op))
                    (expired now d.pending),
                below,
              ))
      ]
