-- ===== src/ControlStore/Pending/Create/Outcome.antt =====
-- What `CreatePendingOperation` makes of the rows, whatever fails.
use jolt.Prelude.{
  ℕ, ◌+◌, String, Bool, true, false, leb, ◌≡◌, refl, Option, none, some, List, [], ◌∷◌, ◌++◌, ◌⊎◌,
  inl, inr, any, arith, Result, ok, stamp, Bool-cases, Option-cases, is_ok,
}
use jolt.ControlStore.Entities.{PendingOperation, Db}
use jolt.ControlStore.Sql.{
  Tx, Faults, statement, checked_statement, commit, transaction, update_where, delete_where,
  select_where, count_where, DbError,
}
use jolt.ControlStore.Audit.Keeps.{audited-Commits}
use jolt.ControlStore.Pending.{
  has_id, overdue, forgotten, with_state, pending_expired_state, expire_pending, insert_pending,
  decision, prepared, known_kind, same_request, waits_for,
}
use jolt.ControlStore.Pending.Create.{
  opened, store_new, create_new, existing_or_new, create_pending_operation,
}

-- the rows behind `expirePending`
abbrev pub expired : ℕ → List PendingOperation → List PendingOperation
expired now ps =
    delete_where (forgotten now) (update_where (overdue now) (with_state pending_expired_state) ps)

module _ (digest : String → String) where
  -- the transaction is dropped, or it stores a row whose id is new
  abbrev pub Stores :
      PendingOperation
      → List PendingOperation
      → Db
      → Result DbError (PendingOperation × Bool) × Tx
      → Type 0
  Stores op ps saved r =
      ((is_ok r.0 ≡ false) × (r.1.saved ≡ saved))
      ⊎ ((r.0 ≡ ok (op, false))
          × (any (has_id op.id) ps ≡ false)
          × (r.1.saved.pending ≡ ps ++ (op ∷ [])))

  store_new-Stores :
      (op : PendingOperation) (now : ℕ) (tx : Tx)
      → Stores op tx.db.pending tx.saved (store_new digest op now tx)
  unfolding store_new checked_statement insert_pending commit
  store_new-Stores op now tx = elim (Bool-cases (tx.fails tx.calls)) [
    | inl e ↦ inl (ground arith, ground arith)
    | inr e ↦ elim (Bool-cases (any (has_id op.id) tx.db.pending)) [
      | inl h ↦ inl (ground arith, ground arith)
      | inr h ↦
          let tx' : Tx = record tx {
            calls = tx.calls + 1;
            db = record tx.db { pending = tx.db.pending ++ (op ∷ []) };
          } in
          elim (audited-Commits digest {A = PendingOperation × Bool} now
            (decision op.requester_type op.requester_id "pending_operation_create" (stamp now) op)
            (op, false) tx') [
              | inl (x, y) ↦ inl (ground arith, ground arith)
              | inr (x, y) ↦ inr (ground arith, h, ground arith)
            ]
    ]
  ]

  -- what a creation answers and stores
  pub data Created (drawn : Option String) (op : PendingOperation) (max now : ℕ) (d : Db)
      (r : Result DbError (PendingOperation × Bool) × Db) : Type 0 where
    refused : is_ok r.0 ≡ false → r.1 ≡ d → Created drawn op max now d r
    repeated :
        (p : PendingOperation)
        → select_where (same_request (prepared digest op)) (expired now d.pending) ≡ some p
        → r ≡ (ok (p, true), d)
        → Created drawn op max now d r
    added :
        (text : String)
        → drawn ≡ some text
        → known_kind (prepared digest op) ≡ true
        → select_where (same_request (prepared digest op)) (expired now d.pending) ≡ none
        → leb max (count_where (waits_for (prepared digest op)) (expired now d.pending)) ≡ false
        → any (has_id (opened text now (prepared digest op)).id) (expired now d.pending) ≡ false
        → r.0 ≡ ok (opened text now (prepared digest op), false)
        → r.1.pending ≡ expired now d.pending ++ (opened text now (prepared digest op) ∷ [])
        → Created drawn op max now d r

  abbrev expired_tx : ℕ → ℕ → Faults → Db → Tx
  expired_tx calls now fails d = record {
    db = record d { pending = expired now d.pending };
    saved = d;
    fails = fails;
    calls = calls;
  }

  create_new-Created :
      (drawn : Option String) (op : PendingOperation) (max now : ℕ) (fails : Faults) (d : Db)
      → known_kind (prepared digest op) ≡ true
      → select_where (same_request (prepared digest op)) (expired now d.pending) ≡ none
      → Created drawn op max now d (
          let (r, tx) =
            create_new digest drawn (prepared digest op) max now (expired_tx 4 now fails d) in
          (r, tx.saved))
  unfolding create_new statement
  create_new-Created none op max now fails d k s = refused (ground arith) (ground arith)
  create_new-Created (some text) op max now fails d k s = elim (Bool-cases (fails 4)) [
    | inl e ↦ refused (ground arith) (ground arith)
    | inr e ↦
        elim (Bool-cases
          (leb max (count_where (waits_for (prepared digest op)) (expired now d.pending)))) [
            | inl m ↦ refused (ground arith) (ground arith)
            | inr m ↦
                elim (store_new-Stores (opened text now (prepared digest op)) now
                  (expired_tx 5 now fails d)) [
                    | inl (x, y) ↦ refused (ground arith) (ground arith)
                    | inr (x, y, z) ↦ added text refl k s m y (ground arith) (ground arith)
                  ]
          ]
  ]

  pub create_pending_operation-Created :
      (drawn : Option String) (op : PendingOperation) (max now : ℕ) (fails : Faults) (d : Db)
      → Created drawn op max now d (create_pending_operation digest drawn op max now fails d)
  unfolding create_pending_operation transaction expire_pending statement existing_or_new
  create_pending_operation-Created drawn op max now fails d = elim (Bool-cases (fails 0)) [
    | inl e ↦ refused (ground arith) (ground arith)
    | inr e0 ↦ elim (Bool-cases (fails 1)) [
      | inl e ↦ refused (ground arith) (ground arith)
      | inr e1 ↦ elim (Bool-cases (fails 2)) [
        | inl e ↦ refused (ground arith) (ground arith)
        | inr e2 ↦ elim (Bool-cases (known_kind (prepared digest op))) [
          | inr e ↦ refused (ground arith) (ground arith)
          | inl k ↦ elim (Bool-cases (fails 3)) [
            | inl e ↦ refused (ground arith) (ground arith)
            | inr e3 ↦
                elim (Option-cases
                  (select_where (same_request (prepared digest op)) (expired now d.pending))) [
                    | inl n ↦
                        rw (e0, e1, e2, k, e3, n) (create_new-Created drawn op max now fails d k n)
                    | inr (p, s) ↦ repeated p s (ground arith)
                  ]
          ]
        ]
      ]
    ]
  ]
