-- ===== src/ControlStore/Pending/Decide/Outcome.antt =====
-- What a claim, a finish, a rejection and a recovery make of the rows, whatever fails.
use jolt.Prelude.{
  ℕ, ◌+◌, String, true, false, eqb, ◌≡◌, refl, some, ◌⊎◌, inl, inr, arith, ◌∙◌, ap, sym, Result, ok,
  err, stamp, Bool-cases, Option-cases, is_ok,
}
use jolt.ControlStore.Entities.{PendingOperation, Db}
use jolt.ControlStore.Sql.{
  Tx, Faults, statement, commit, transaction, update_where, select_where, count_where, DbError,
  pending_expired,
}
use jolt.ControlStore.Audit.Keeps.{audited-Commits}
use jolt.ControlStore.Pending.{
  has_id, in_state, overdue, with_state, pending_state, pending_expired_state, expire_pending,
  decision, integrity_ok,
}
use jolt.ControlStore.Pending.Create.Outcome.{expired}
use jolt.ControlStore.Pending.Decide.{
  waiting, executing, taken, finished, rejected, claim_waiting, claim_late, claim, reject_found,
  claim_pending_operation, finish_pending_operation, reject_pending_operation,
}

module _ (digest : String → String) where
  claim_waiting-Commits :
      (id by_type by_id : String) (now : ℕ) (op : PendingOperation) (tx : Tx)
      → (((is_ok (claim_waiting digest id by_type by_id now op tx).0 ≡ false)
            × ((claim_waiting digest id by_type by_id now op tx).1.saved ≡ tx.saved))
          ⊎ ((integrity_ok digest op ≡ true)
              × (eqb (count_where (waiting id) tx.db.pending) 1 ≡ true)
              × ((claim_waiting digest id by_type by_id now op tx).0
                  ≡ ok (taken by_type by_id now op))
              × ((claim_waiting digest id by_type by_id now op tx).1.saved.pending
                  ≡ update_where (waiting id) (taken by_type by_id now) tx.db.pending)))
  unfolding claim_waiting statement
  claim_waiting-Commits id by_type by_id now op tx = elim (Bool-cases (integrity_ok digest op)) [
    | inr i ↦ inl (ground arith, ground arith)
    | inl i ↦ elim (Bool-cases (tx.fails tx.calls)) [
      | inl e ↦ inl (ground arith, ground arith)
      | inr e ↦ elim (Bool-cases (eqb (count_where (waiting id) tx.db.pending) 1)) [
        | inr n ↦ inl (ground arith, ground arith)
        | inl n ↦
            elim (audited-Commits digest now
              (decision by_type by_id "pending_operation_approve" (stamp now) op)
              (taken by_type by_id now op)
              (record tx {
                calls = tx.calls + 1;
                db = record tx.db {
                  pending = update_where (waiting id) (taken by_type by_id now) tx.db.pending;
                };
              })) [
                | inl (x, y) ↦ inl (ground arith, ground arith)
                | inr (x, y) ↦ inr (i, n, ground arith, ground arith)
              ]
      ]
    ]
  ]

  -- what a claim answers and stores
  pub data Claimed (id by_type by_id : String) (now : ℕ) (d : Db)
      (r : Result DbError PendingOperation × Db) : Type 0 where
    refused : is_ok r.0 ≡ false → r.1 ≡ d → Claimed id by_type by_id now d r
    late :
        (op : PendingOperation)
        → select_where (has_id id) d.pending ≡ some op
        → overdue now op ≡ true
        → r.0 ≡ err pending_expired
        → r.1.pending ≡ update_where (waiting id) (with_state pending_expired_state) d.pending
        → Claimed id by_type by_id now d r
    approved :
        (op : PendingOperation)
        → select_where (has_id id) d.pending ≡ some op
        → overdue now op ≡ false
        → integrity_ok digest op ≡ true
        → eqb (count_where (waiting id) d.pending) 1 ≡ true
        → r.0 ≡ ok (taken by_type by_id now op)
        → r.1.pending ≡ update_where (waiting id) (taken by_type by_id now) d.pending
        → Claimed id by_type by_id now d r

  claim_late-Commits :
      (id : String) (tx : Tx)
      → (is_ok (claim_late digest id tx).0 ≡ false)
        × (((claim_late digest id tx).1.saved ≡ tx.saved)
            ⊎ (((claim_late digest id tx).0 ≡ err pending_expired)
                × ((claim_late digest id tx).1.saved.pending
                    ≡ update_where (waiting id) (with_state pending_expired_state) tx.db.pending)))
  unfolding claim_late statement commit
  claim_late-Commits id tx = elim (Bool-cases (tx.fails tx.calls)) [
    | inl e ↦ (ground arith, inl (ground arith))
    | inr e ↦ elim (Bool-cases (tx.fails (tx.calls + 1))) [
      | inl e' ↦ (ground arith, inl (ground arith))
      | inr e' ↦ (ground arith, inr (ground arith, ground arith))
    ]
  ]

  -- the part of a claim behind the search of the row
  claim-Claimed :
      (id by_type by_id : String) (now : ℕ) (op : PendingOperation) (d : Db) (tx : Tx)
      → select_where (has_id id) d.pending ≡ some op
      → tx.db ≡ d
      → tx.saved ≡ d
      → Claimed id by_type by_id now d (
        (claim digest id by_type by_id now op tx).0,
        (claim digest id by_type by_id now op tx).1.saved,
      )
  unfolding claim
  claim-Claimed id by_type by_id now op d tx s same kept = elim (Bool-cases (overdue now op)) [
    | inl l ↦
        let (x, b) = claim_late-Commits id tx in
        elim b [
          | inl y ↦ refused (rw l x) (rw l (y ∙ kept))
          | inr (y, z) ↦ late op s l (rw l y) (
              rw l (
                z
                ∙ ap
                    (λ (e : Db).
                      update_where (waiting id) (with_state pending_expired_state) e.pending)
                    same))
        ]
    | inr l ↦ elim (claim_waiting-Commits id by_type by_id now op tx) [
      | inl (x, y) ↦ refused (rw l x) (rw l (y ∙ kept))
      | inr (i, n, x, y) ↦
          approved op s l i
            (ap (λ (e : Db). eqb (count_where (waiting id) e.pending) 1) (sym same) ∙ n) (rw l x)
            (rw l (
              y
              ∙ ap (λ (e : Db). update_where (waiting id) (taken by_type by_id now) e.pending)
                  same))
    ]
  ]

  pub claim_pending_operation-Claimed :
      (id by_type by_id : String) (now : ℕ) (fails : Faults) (d : Db)
      → Claimed id by_type by_id now d (claim_pending_operation digest id by_type by_id now fails d)
  unfolding claim_pending_operation transaction statement
  claim_pending_operation-Claimed id by_type by_id now fails d = elim (Bool-cases (fails 0)) [
    | inl e ↦ rw e (refused refl refl)
    | inr e0 ↦ elim (Bool-cases (fails 1)) [
      | inl e ↦ rw (e0, e) (refused refl refl)
      | inr e1 ↦ elim (Option-cases (select_where (has_id id) d.pending)) [
        | inl n ↦ rw (e0, e1, n) (refused refl refl)
        | inr (op, s) ↦
            rw (e0, e1, s)
              (claim-Claimed id by_type by_id now op d
                (record { db = d; saved = d; fails = fails; calls = 2 }) s refl refl)
      ]
    ]
  ]

  -- A finish either changes nothing, and says so, or closes the one row that is executing.
  pub finish_pending_operation-Commits :
      (id : String) (status : ℕ) (body : String) (fails : Faults) (d : Db)
      → (((is_ok (finish_pending_operation digest id status body fails d).0 ≡ false)
            × ((finish_pending_operation digest id status body fails d).1 ≡ d))
          ⊎ ((eqb (count_where (executing id) d.pending) 1 ≡ true)
              × ((finish_pending_operation digest id status body fails d).0 ≡ ok tt)
              × ((finish_pending_operation digest id status body fails d).1 ≡ record d {
                pending = update_where (executing id) (finished status body) d.pending;
              })))
  unfolding finish_pending_operation transaction statement commit
  finish_pending_operation-Commits id status body fails d = elim (Bool-cases (fails 0)) [
    | inl e ↦ inl (ground arith, ground arith)
    | inr e0 ↦ elim (Bool-cases (fails 1)) [
      | inl e ↦ inl (ground arith, ground arith)
      | inr e1 ↦ elim (Bool-cases (eqb (count_where (executing id) d.pending) 1)) [
        | inr n ↦ inl (ground arith, ground arith)
        | inl n ↦ elim (Bool-cases (fails 2)) [
          | inl e ↦ inl (ground arith, ground arith)
          | inr e2 ↦ inr (n, ground arith, ground arith)
        ]
      ]
    ]
  ]

  -- what a rejection answers and stores
  pub data Rejected (id by_type by_id note : String) (now : ℕ) (d : Db)
      (r : Result DbError PendingOperation × Db) : Type 0 where
    refused : is_ok r.0 ≡ false → r.1 ≡ d → Rejected id by_type by_id note now d r
    closed :
        (op : PendingOperation)
        → select_where (has_id id) (expired now d.pending) ≡ some op
        → in_state pending_state op ≡ true
        → r.0 ≡ ok (record op { state = "rejected"; note = note })
        → r.1.pending
          ≡ update_where (waiting id) (rejected by_type by_id note now) (expired now d.pending)
        → Rejected id by_type by_id note now d r

  reject_found-Commits :
      (id by_type by_id note : String) (now : ℕ) (op : PendingOperation) (tx : Tx)
      → (((is_ok (reject_found digest id by_type by_id note now op tx).0 ≡ false)
            × ((reject_found digest id by_type by_id note now op tx).1.saved ≡ tx.saved))
          ⊎ ((in_state pending_state op ≡ true)
              × ((reject_found digest id by_type by_id note now op tx).0
                  ≡ ok (record op { state = "rejected"; note = note }))
              × ((reject_found digest id by_type by_id note now op tx).1.saved.pending
                  ≡ update_where (waiting id) (rejected by_type by_id note now) tx.db.pending)))
  unfolding reject_found statement
  reject_found-Commits id by_type by_id note now op tx =
      elim (Bool-cases (in_state pending_state op)) [
        | inr w ↦ inl (ground arith, ground arith)
        | inl w ↦ elim (Bool-cases (tx.fails tx.calls)) [
          | inl e ↦ inl (ground arith, ground arith)
          | inr e ↦
              elim (audited-Commits digest now
                (decision by_type by_id "pending_operation_reject" (stamp now) op)
                (record op { state = "rejected"; note = note })
                (record tx {
                  calls = tx.calls + 1;
                  db = record tx.db {
                    pending =
                        update_where (waiting id) (rejected by_type by_id note now) tx.db.pending;
                  };
                })) [
                  | inl (x, y) ↦ inl (ground arith, ground arith)
                  | inr (x, y) ↦ inr (w, ground arith, ground arith)
                ]
        ]
      ]

  pub reject_pending_operation-Rejected :
      (id by_type by_id note : String) (now : ℕ) (fails : Faults) (d : Db)
      → Rejected id by_type by_id note now d
          (reject_pending_operation digest id by_type by_id note now fails d)
  unfolding reject_pending_operation transaction statement expire_pending
  reject_pending_operation-Rejected id by_type by_id note now fails d =
      elim (Bool-cases (fails 0)) [
        | inl e ↦ rw e (refused refl refl)
        | inr e0 ↦ elim (Bool-cases (fails 1)) [
          | inl e ↦ rw (e0, e) (refused refl refl)
          | inr e1 ↦ elim (Bool-cases (fails 2)) [
            | inl e ↦ rw (e0, e1, e) (refused refl refl)
            | inr e2 ↦ elim (Bool-cases (fails 3)) [
              | inl e ↦ rw (e0, e1, e2, e) (refused refl refl)
              | inr e3 ↦ elim (Option-cases (select_where (has_id id) (expired now d.pending))) [
                | inl n ↦ rw (e0, e1, e2, e3, n) (refused refl refl)
                | inr (op, s) ↦
                    elim (reject_found-Commits id by_type by_id note now op (record {
                      db = record d { pending = expired now d.pending };
                      saved = d;
                      fails = fails;
                      calls = 4;
                    })) [
                      | inl (x, y) ↦ rw (e0, e1, e2, e3, s) (refused x y)
                      | inr (w, x, y) ↦ rw (e0, e1, e2, e3, s) (closed op s w x y)
                    ]
              ]
            ]
          ]
        ]
      ]
