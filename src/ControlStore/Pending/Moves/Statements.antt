-- ===== src/ControlStore/Pending/Moves/Statements.antt =====
-- The statements on the rows, as changes of one request.
use jolt.Prelude.{
  ℕ, String, Bool, true, ◌≡◌, refl, Option, none, some, List, arith, eq_iff, Bool-cases, inl, inr,
}
use jolt.ControlStore.Entities.{PendingOperation}
use jolt.ControlStore.Sql.{update_where}
use jolt.ControlStore.Pending.{overdue, forgotten, with_state, pending_expired_state}
use jolt.ControlStore.Pending.Rows.{
  row_of, distinct, changed_if, kept_unless, row_of-update, row_of-delete, distinct-update,
  distinct-delete,
}
use jolt.ControlStore.Pending.Create.Outcome.{expired}
use jolt.ControlStore.Pending.Moves.{
  state_if, state_of, Change, expire, forget, Changes, same, after,
}

-- An update whose rows each make a change.
pub update-Changes :
    (p : PendingOperation → Bool) (f : PendingOperation → PendingOperation) (id : String)
    (ps : List PendingOperation)
    → ((r : PendingOperation) → (f r).id ≡ r.id)
    → ((r : PendingOperation) → p r ≡ true → Change (some r.state) (some (f r).state))
    → Changes (state_of id ps) (state_of id (update_where p f ps))
update-Changes p f id ps keeps moves = rw (row_of-update p f keeps id ps) (by_row (row_of id ps))
  where
    by_row : (o : Option PendingOperation) → Changes (state_if o) (state_if (changed_if p f o))
    by_row none = same
    by_row (some r) = elim (Bool-cases (p r)) [
      | inl e ↦ rw e (after same (moves r e))
      | inr e ↦ rw e same
    ]

pub expired-distinct :
    (now : ℕ) (ps : List PendingOperation) → distinct ps ≡ true → distinct (expired now ps) ≡ true
unfolding with_state
expired-distinct now ps h =
    distinct-delete (forgotten now) _
      (rw (distinct-update (overdue now) (with_state pending_expired_state) (λ r. refl) ps) h)

forget-Changes :
    (now : ℕ) (p o : Option PendingOperation)
    → Changes (state_if p) (state_if o)
    → Changes (state_if p) (state_if (kept_unless (forgotten now) o))
unfolding forgotten
forget-Changes now p none c = c
forget-Changes now p (some r) c = elim (Bool-cases (forgotten now r)) [
  | inl e ↦ rw e (after c (forget r.state refl (ground arith) refl))
  | inr e ↦ rw e c
]

-- `expirePending` lets a request expire, and forgets closed ones.
pub expired-Changes :
    (now : ℕ) (id : String) (ps : List PendingOperation)
    → distinct ps ≡ true
    → Changes (state_of id ps) (state_of id (expired now ps))
unfolding with_state overdue
expired-Changes now id ps h =
    let d = distinct-update (overdue now) (with_state pending_expired_state) (λ r. refl) ps in
    rw
      (row_of-delete (forgotten now) id
        (update_where (overdue now) (with_state pending_expired_state) ps) (rw d h))
      (forget-Changes now (row_of id ps)
        (row_of id (update_where (overdue now) (with_state pending_expired_state) ps))
        (update-Changes (overdue now) (with_state pending_expired_state) id ps (λ r. refl)
          (λ r e. expire (rw ((eq_iff r.state "pending").0 (ground arith)) refl) refl)))
