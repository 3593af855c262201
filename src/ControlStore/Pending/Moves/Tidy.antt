-- ===== src/ControlStore/Pending/Moves/Tidy.antt =====
-- One request under the statements, as steps of the machine.
use jolt.Prelude.{
  ℕ, String, Bool, true, ◌≡◌, refl, Option, none, some, List, ◌⊎◌, arith, eq_iff, Bool-cases,
  Option-cases, inl, inr,
}
use jolt.ControlStore.Entities.{PendingOperation}
use jolt.ControlStore.Sql.{update_where}
use jolt.ControlStore.Sql.Laws.{select_where_passes}
use jolt.ControlStore.Pending.{
  has_id, in_state, overdue, forgotten, with_state, pending_expired_state,
}
use jolt.ControlStore.Pending.Rows.{
  row_of, distinct, changed_if, kept_unless, row_of-update, row_of-delete, distinct-update,
}
use jolt.ControlStore.Pending.Create.Outcome.{expired}
use jolt.ControlStore.Pending.Moves.{state_if, state_of, Call, Acts, Tidied, kept, lapsed, dropped}

module _ (now : ℕ) where
  -- what `expirePending` makes of one row
  tidied_row :
      (o : Option PendingOperation)
      → Tidied (state_if o) (
          state_if (
            kept_unless
              (forgotten now)
              (changed_if (overdue now) (with_state pending_expired_state) o)))
  unfolding forgotten overdue with_state in_state
  tidied_row none = kept refl
  tidied_row (some r) = elim (Bool-cases (overdue now r)) [
    | inl e ↦
        let pending : r.state ≡ "pending" = (eq_iff r.state "pending").0 (ground arith) in
        elim (Bool-cases (forgotten now (with_state pending_expired_state r))) [
          | inl f ↦ rw (e, f) (dropped r.state refl (rw pending refl) refl)
          | inr f ↦ rw (e, f) (lapsed (rw pending refl) refl)
        ]
    | inr e ↦ elim (Bool-cases (forgotten now r)) [
      | inl f ↦ rw (e, f) (dropped r.state refl (ground arith) refl)
      | inr f ↦ rw (e, f) (kept refl)
    ]
  ]

  pub expired-Tidied :
      (id : String) (ps : List PendingOperation)
      → distinct ps ≡ true
      → Tidied (state_of id ps) (state_of id (expired now ps))
  unfolding with_state
  expired-Tidied id ps h =
      let d = distinct-update (overdue now) (with_state pending_expired_state) (λ r. refl) ps in
      rw
        (
          row_of-delete (forgotten now) id
              (update_where (overdue now) (with_state pending_expired_state) ps) (rw d h),
          row_of-update (overdue now) (with_state pending_expired_state) (λ r. refl) id ps,
        )
        (tidied_row (row_of id ps))

-- An update that changes the rows of one condition alone, each as the call may.
pub update-Acts :
    (c : Call) (p : PendingOperation → Bool) (f : PendingOperation → PendingOperation) (id : String)
    (ps : List PendingOperation)
    → ((r : PendingOperation) → (f r).id ≡ r.id)
    → ((r : PendingOperation)
        → r.id ≡ id
        → p r ≡ true
        → Acts id c (some r.state) (some (f r).state))
    → (state_of id (update_where p f ps) ≡ state_of id ps)
      ⊎ Acts id c (state_of id ps) (state_of id (update_where p f ps))
unfolding has_id
update-Acts c p f id ps keeps acts = elim (Option-cases (row_of id ps)) [
  | inl n ↦ inl (rw (row_of-update p f keeps id ps, n) refl)
  | inr (r, found) ↦
      let named : r.id ≡ id = (eq_iff r.id id).0 (select_where_passes (has_id id) ps r found) in
      elim (Bool-cases (p r)) [
        | inl e ↦ inr (rw (row_of-update p f keeps id ps, found, e) (acts r named e))
        | inr e ↦ inl (rw (row_of-update p f keeps id ps, found, e) refl)
      ]
]
