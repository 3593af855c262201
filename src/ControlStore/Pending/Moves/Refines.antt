-- ===== src/ControlStore/Pending/Moves/Refines.antt =====
-- Every history of calls moves each request along the machine.
use jolt.Prelude.{
  ℕ, String, Bool, true, false, ◌≡◌, refl, Option, List, [], ◌∷◌, ◌==◌, ◌<>◌, inl, inr, ap, Result,
}
use jolt.ControlStore.Entities.{PendingOperation, Db}
use jolt.ControlStore.Sql.{Faults, DbError, run_statement}
use jolt.ControlStore.Pending.{
  has_id, in_state, with_state, pending_expired_state, pending_indeterminate, pending_executing,
  prepared,
}
use jolt.ControlStore.Pending.Rows.{distinct}
use jolt.ControlStore.Pending.Create.{opened, create_pending_operation}
use jolt.ControlStore.Pending.Create.Outcome.{expired, Created, create_pending_operation-Created}
use jolt.ControlStore.Pending.Decide.{
  waiting, executing, taken, finished, rejected, claim_pending_operation, finish_pending_operation,
  reject_pending_operation, recover_pending_operations,
}
use jolt.ControlStore.Pending.Decide.Outcome.{
  Claimed, Rejected, claim_pending_operation-Claimed, finish_pending_operation-Commits,
  reject_pending_operation-Rejected,
}
use jolt.ControlStore.Pending.Listing.{get_pending_operation, list_pending_operations}
use jolt.ControlStore.Pending.Moves.{
  state_of, Change, finish, expire, approve, decline, interrupt, same, Call, create, get, list,
  claim, reject, recover, draws, step, run, Moves, stop, move,
}
use jolt.ControlStore.Pending.Moves.Statements.{expired-Changes, expired-distinct}
use jolt.ControlStore.Pending.Moves.StepOf.{Tidies, get-Tidies, list-Tidies, step-Stepped}
use jolt.ControlStore.Pending.Moves.Steps.{
  Steps, Steps-same, Steps-expired, Steps-update, from_waiting, from_executing, and_right,
  Steps-append, finished_ends,
}

module _ (digest : String → String) (id : String) (d : Db) (h : distinct d.pending ≡ true) where
  create-Steps :
      (drawn : Option String) (op : PendingOperation) (max now : ℕ) (fails : Faults)
      → Steps id
          (draws id (Call.create drawn op max now fails))
          d.pending
          (create_pending_operation digest drawn op max now fails d).1.pending
  create-Steps drawn op max now fails =
      elim (create_pending_operation-Created digest drawn op max now fails d) [
        | Created.refused x y ↦ Steps-same id _ _ _ h (ap (λ (e : Db). e.pending) y)
        | Created.repeated p x y ↦
            Steps-same id _ _ _ h
              (ap (λ (r : Result DbError (PendingOperation × Bool) × Db). r.1.pending) y)
        | Created.added text e k s m a x y ↦
            rw (y, e)
              (Steps-append id (opened text now (prepared digest op)) ("pop_" <> text == id)
                d.pending (expired now d.pending) a (λ i. unfold opened in i)
                (unfold opened in refl) (expired-distinct now d.pending h)
                (expired-Changes now id d.pending h))
      ]

  claim-Steps :
      (i by_type by_id : String) (now : ℕ) (fails : Faults)
      → Steps id false d.pending
          (claim_pending_operation digest i by_type by_id now fails d).1.pending
  unfolding with_state
  claim-Steps i by_type by_id now fails =
      elim (claim_pending_operation-Claimed digest i by_type by_id now fails d) [
        | Claimed.refused x y ↦ Steps-same id _ _ _ h (ap (λ (e : Db). e.pending) y)
        | Claimed.late op s l x y ↦
            Steps-update (waiting i) (with_state pending_expired_state) id _ _ d.pending _
              (λ r. refl) (λ r w. expire (from_waiting i r w) refl) h same y
        | Claimed.approved op s l g n x y ↦
            Steps-update (waiting i) (taken by_type by_id now) id _ _ d.pending _ (λ r. refl)
              (λ r w. approve (from_waiting i r w) refl) h same y
      ]

  finish-Steps :
      (i : String) (status : ℕ) (body : String) (fails : Faults)
      → Steps id false d.pending (finish_pending_operation digest i status body fails d).1.pending
  finish-Steps i status body fails =
      elim (finish_pending_operation-Commits digest i status body fails d) [
        | inl (x, y) ↦ Steps-same id _ _ _ h (ap (λ (e : Db). e.pending) y)
        | inr (n, x, y) ↦
            Steps-update (executing i) (finished status body) id _ _ d.pending _ (λ r. refl)
              (λ r w.
                Change.finish (from_executing r (and_right (has_id i r) _ w))
                  (finished_ends status body r))
              h same (ap (λ (e : Db). e.pending) y)
      ]

  reject-Steps :
      (i by_type by_id note : String) (now : ℕ) (fails : Faults)
      → Steps id false d.pending
          (reject_pending_operation digest i by_type by_id note now fails d).1.pending
  reject-Steps i by_type by_id note now fails =
      elim (reject_pending_operation-Rejected digest i by_type by_id note now fails d) [
        | Rejected.refused x y ↦ Steps-same id _ _ _ h (ap (λ (e : Db). e.pending) y)
        | Rejected.closed op s w x y ↦
            Steps-update (waiting i) (rejected by_type by_id note now) id _ _
              (expired now d.pending) _ (λ r. refl) (λ r w'. decline (from_waiting i r w') refl)
              (expired-distinct now d.pending h) (expired-Changes now id d.pending h) y
      ]

  recover-Steps :
      (fails : Bool) → Steps id false d.pending (recover_pending_operations fails d).1.pending
  unfolding recover_pending_operations run_statement with_state
  recover-Steps true = Steps-same id _ _ _ h refl
  recover-Steps false =
      Steps-update (in_state pending_executing) (with_state pending_indeterminate) id _ _ d.pending
        _ (λ r. refl) (λ r w. interrupt (from_executing r w) refl) h same refl

  tidied-Steps : (now : ℕ) (d' : Db) → Tidies now d d' → Steps id false d.pending d'.pending
  tidied-Steps now d' (inl e) = Steps-same id _ _ _ h e
  tidied-Steps now d' (inr e) = Steps-expired now id _ _ _ h e

  pub step-Steps : (c : Call) → Steps id (draws id c) d.pending (step digest c d).pending
  unfolding step
  step-Steps (create drawn op max now fails) = create-Steps drawn op max now fails
  step-Steps (get i now fails) =
      tidied-Steps now (get_pending_operation i now fails d).1 (get-Tidies d i now fails)
  step-Steps (list state requester_type requester_id limit now fails) =
      tidied-Steps now
        (list_pending_operations state requester_type requester_id limit now fails d).1
        (list-Tidies d state requester_type requester_id limit now fails)
  step-Steps (claim i by_type by_id now fails) = claim-Steps i by_type by_id now fails
  step-Steps (finish i status body fails) = finish-Steps i status body fails
  step-Steps (reject i by_type by_id note now fails) = reject-Steps i by_type by_id note now fails
  step-Steps (recover fails) = recover-Steps fails

-- Where no two rows have one id, any sequence of calls of the store, of which any may fail at any
-- statement, takes each request along the machine, one step for each call: a call that creates makes
-- only the request whose id it draws, as pending, and only where it is not stored; a claim takes only
-- the request it names, from pending to executing or, late, to expired; a finish only from executing
-- to executed or failed; a rejection only from pending to rejected; a recovery from executing to
-- indeterminate. Creations, readings, listings and rejections may also let a pending request expire
-- and forget one that is not executing. Nothing else happens to a request.
pub run-Moves :
    (digest : String → String) (id : String) (cs : List Call) (d : Db)
    → distinct d.pending ≡ true
    → Moves id cs (state_of id d.pending) (state_of id (run digest cs d).pending)
unfolding run
run-Moves digest id [] d h = stop
run-Moves digest id (c ∷ cs) d h =
    move (step-Stepped digest id d h c)
      (run-Moves digest id cs (step digest c d) (step-Steps digest id d h c).stay)
