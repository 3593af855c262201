-- ===== src/ControlStore/Pending/Create/Retry.antt =====
-- A request that is made again while it waits.
use jolt.Prelude.{
  ℕ, ◌+◌, ◌<◌, String, true, false, ◌≡◌, refl, Option, none, some, List, [], ◌∷◌, ◌++◌, arith,
  eq_refl, Bool-cases, inl, inr, ok,
}
use jolt.ControlStore.Entities.{PendingOperation, Db}
use jolt.ControlStore.Sql.{Faults, update_where, delete_where, select_where, statement, transaction}
use jolt.ControlStore.Pending.{
  overdue, forgotten, with_state, pending_expired_state, pending_lifetime, prepared, known_kind,
  same_request, waits_for, expire_pending,
}
use jolt.ControlStore.Pending.Create.{opened, existing_or_new, create_pending_operation}
use jolt.ControlStore.Pending.Create.Outcome.{expired, Created, create_pending_operation-Created}

expired_apart :
    (op r : PendingOperation) → same_request op (with_state pending_expired_state r) ≡ false
unfolding same_request waits_for with_state
expired_apart op r = ground arith

-- What expires no longer waits, so the search finds the last row where it found none before it.
select-expired :
    (op q : PendingOperation) (now : ℕ) (rs : List PendingOperation)
    → select_where (same_request op) rs ≡ none
    → same_request op q ≡ true
    → overdue now q ≡ false
    → forgotten now q ≡ false
    → select_where (same_request op) (expired now (rs ++ (q ∷ []))) ≡ some q
unfolding select_where update_where delete_where
select-expired op q now [] n s o f = ground arith
select-expired op q now (r ∷ rs) n s o f = elim (Bool-cases (overdue now r)) [
  | inl e ↦ ground (arith, select-expired op q now rs, expired_apart op r)
  | inr e ↦ ground (arith, select-expired op q now rs)
]

-- a creation that finds the request
create_pending_operation_again :
    (digest : String → String) (drawn : Option String) (op q : PendingOperation) (max now : ℕ)
    (fails : Faults) (d : Db)
    → known_kind (prepared digest op) ≡ true
    → select_where (same_request (prepared digest op)) (expired now d.pending) ≡ some q
    → ((i : ℕ) → fails i ≡ false)
    → create_pending_operation digest drawn op max now fails d ≡ (ok (q, true), d)
unfolding create_pending_operation transaction expire_pending statement existing_or_new
create_pending_operation_again digest drawn op q max now fails d k s f =
    rw (f 0, f 1, f 2, k, f 3, s) refl

still_open :
    (now later : ℕ) (text : String) (op : PendingOperation)
    → later < now + pending_lifetime
    → (overdue later (opened text now op) ≡ false) × (forgotten later (opened text now op) ≡ false)
unfolding overdue forgotten opened
still_open now later text op l = ground arith

same_request_self :
    (digest : String → String) (op : PendingOperation) (text : String) (now : ℕ)
    → same_request (prepared digest op) (opened text now (prepared digest op)) ≡ true
unfolding same_request waits_for opened prepared
same_request_self digest op text now = simp eq_refl

-- Where a creation has stored a request, the same creation before the request expires returns that
-- request and changes nothing, if no statement of it fails, whatever id it would have drawn and
-- whatever limit applies.
pub create_pending_operation-retry :
    (digest : String → String) (drawn other : Option String) (op q : PendingOperation)
    (max limit now later : ℕ) (fails faults : Faults) (d : Db)
    → (create_pending_operation digest drawn op max now fails d).0 ≡ ok (q, false)
    → later < now + pending_lifetime
    → ((i : ℕ) → faults i ≡ false)
    → create_pending_operation digest other op limit later faults
        (create_pending_operation digest drawn op max now fails d).1
      ≡ (ok (q, true), (create_pending_operation digest drawn op max now fails d).1)
create_pending_operation-retry digest drawn other op q max limit now later fails faults d o l f =
    elim (create_pending_operation-Created digest drawn op max now fails d) [
      | Created.refused x y ↦ absurd (ground arith)
      | Created.repeated p x y ↦ absurd (ground arith)
      | Created.added text e k s m a x y ↦
          let w = still_open now later text (prepared digest op) l in
          let made : opened text now (prepared digest op) ≡ q = ground arith in
          create_pending_operation_again digest other op q limit later faults _ k
            (rw (y, ← made)
              (select-expired (prepared digest op) (opened text now (prepared digest op)) later
                (expired now d.pending) s (same_request_self digest op text now) w.0 w.1))
            f
    ]
