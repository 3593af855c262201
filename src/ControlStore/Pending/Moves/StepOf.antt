-- ===== src/ControlStore/Pending/Moves/StepOf.antt =====
-- What each call makes of one request, as a step of the machine.
use jolt.Prelude.{
  ◌&&◌, ◌⊎◌, any, arith, eq_iff, sym, ◌∙◌, ◌++◌, none, some, ℕ, String, Bool, true, false, ◌≡◌,
  refl, Option, List, [], ◌∷◌, ◌==◌, ◌<>◌, Bool-cases, Option-cases, inl, inr, ap, Result,
}
use jolt.ControlStore.Entities.{PendingOperation, Db}
use jolt.ControlStore.Sql.{
  Faults, DbError, select_where, statement, transaction, commit, run_statement,
}
use jolt.ControlStore.Pending.{
  has_id, in_state, with_state, pending_expired_state, pending_indeterminate, pending_executing,
  expire_pending, prepared,
}
use jolt.ControlStore.Pending.Rows.{row_of, row_of-append, row_of_absent, distinct}
use jolt.ControlStore.Pending.Create.{opened, create_pending_operation}
use jolt.ControlStore.Pending.Create.Outcome.{expired, Created, create_pending_operation-Created}
use jolt.ControlStore.Pending.Decide.{
  waiting, executing, taken, finished, rejected, claim_pending_operation, finish_pending_operation,
  reject_pending_operation, recover_pending_operations,
}
use jolt.ControlStore.Pending.Decide.Outcome.{
  Claimed, Rejected, claim_pending_operation-Claimed, finish_pending_operation-Commits,
  reject_pending_operation-Rejected,
}
use jolt.ControlStore.Pending.Listing.{get_pending_operation, list_pending_operations}
use jolt.ControlStore.Pending.Moves.{
  state_of, finish, Call, create, get, list, claim, reject, recover, step, Acts, tidies, Stepped,
  quiet, tidied, acted, tidied_and_acted,
}
use jolt.ControlStore.Pending.Moves.Steps.{from_waiting, from_executing, and_right, finished_ends}
use jolt.ControlStore.Pending.Moves.Tidy.{expired-Tidied, update-Acts}

-- the rows are as before, or as `expirePending` leaves them
abbrev pub Tidies : ℕ → Db → Db → Type 0
Tidies now d d' = (d'.pending ≡ d.pending) ⊎ (d'.pending ≡ expired now d.pending)

pub get-Tidies :
    (d : Db) (i : String) (now : ℕ) (fails : Faults)
    → Tidies now d (get_pending_operation i now fails d).1
unfolding get_pending_operation transaction statement commit expire_pending
get-Tidies d i now fails = elim (Bool-cases (fails 0)) [
  | inl e ↦ rw e (inl refl)
  | inr e0 ↦ elim (Bool-cases (fails 1)) [
    | inl e ↦ rw (e0, e) (inl refl)
    | inr e1 ↦ elim (Bool-cases (fails 2)) [
      | inl e ↦ rw (e0, e1, e) (inl refl)
      | inr e2 ↦ elim (Bool-cases (fails 3)) [
        | inl e ↦ rw (e0, e1, e2, e) (inl refl)
        | inr e3 ↦ elim (Option-cases (select_where (has_id i) (expired now d.pending))) [
          | inl n ↦ rw (e0, e1, e2, e3, n) (inl refl)
          | inr (op, s) ↦ elim (Bool-cases (fails 4)) [
            | inl e ↦ rw (e0, e1, e2, e3, s, e) (inl refl)
            | inr e4 ↦ rw (e0, e1, e2, e3, s, e4) (inr refl)
          ]
        ]
      ]
    ]
  ]
]

pub list-Tidies :
    (d : Db) (state requester_type requester_id : String) (limit now : ℕ) (fails : Faults)
    → Tidies now d (list_pending_operations state requester_type requester_id limit now fails d).1
unfolding list_pending_operations transaction statement commit expire_pending
list-Tidies d state requester_type requester_id limit now fails = elim (Bool-cases (fails 0)) [
  | inl e ↦ rw e (inl refl)
  | inr e0 ↦ elim (Bool-cases (fails 1)) [
    | inl e ↦ rw (e0, e) (inl refl)
    | inr e1 ↦ elim (Bool-cases (fails 2)) [
      | inl e ↦ rw (e0, e1, e) (inl refl)
      | inr e2 ↦ elim (Bool-cases (fails 3)) [
        | inl e ↦ rw (e0, e1, e2, e) (inl refl)
        | inr e3 ↦ elim (Bool-cases (fails 4)) [
          | inl e ↦ rw (e0, e1, e2, e3, e) (inl refl)
          | inr e4 ↦ rw (e0, e1, e2, e3, e4) (inr refl)
        ]
      ]
    ]
  ]
]

module _ (digest : String → String) (id : String) (d : Db) (h : distinct d.pending ≡ true) where
  abbrev After : Call → Db → Type 0
  After c d' = Stepped id c (state_of id d.pending) (state_of id d'.pending)

  unchanged : (c : Call) (d' : Db) → d'.pending ≡ d.pending → After c d'
  unchanged c d' e = quiet (ap (state_of id) e)

  tidy : (c : Call) (now : ℕ) (d' : Db) → tidies c ≡ true → Tidies now d d' → After c d'
  tidy c now d' t (inl e) = unchanged c d' e
  tidy c now d' t (inr e) = rw e (tidied t (expired-Tidied now id d.pending h))

  own :
      (c : Call) (d' : Db) (qs : List PendingOperation)
      → d'.pending ≡ qs
      → (state_of id qs ≡ state_of id d.pending)
        ⊎ Acts id c (state_of id d.pending) (state_of id qs)
      → After c d'
  own c d' qs e (inl idle) = quiet (ap (state_of id) e ∙ idle)
  own c d' qs e (inr a) = rw e (acted a)

  naming :
      (i : String) (b : Bool) (r : PendingOperation) → r.id ≡ id → (has_id i r && b) ≡ true → i ≡ id
  unfolding has_id
  naming i b r n p = ground (arith, n, eq_iff r.id i)

  -- a request is made behind the tidying
  added :
      {drawn : Option String} {max : ℕ} {fails : Faults} (text : String) (op : PendingOperation)
      (now : ℕ) (d' : Db)
      → drawn ≡ some text
      → any (has_id ("pop_" <> text)) (expired now d.pending) ≡ false
      → d'.pending ≡ expired now d.pending ++ (opened text now (prepared digest op) ∷ [])
      → After (Call.create drawn op max now fails) d'
  unfolding opened has_id
  added text op now d' e a y =
      let ps = expired now d.pending in
      let q = opened text now (prepared digest op) in
      elim (Bool-cases ("pop_" <> text == id)) [
        | inr i ↦
            rw (y, row_of-append id q ps a, i) (tidied refl (expired-Tidied now id d.pending h))
        | inl i ↦
            let named : "pop_" <> text ≡ id = (eq_iff ("pop_" <> text) id).0 i in
            let gone : row_of id ps ≡ none =
              row_of_absent id ps (ap (λ k. any (has_id k) ps) (sym named) ∙ a) in
            tidied_and_acted (state_of id ps) refl (expired-Tidied now id d.pending h)
              (rw e i, rw gone refl, rw (y, row_of-append id q ps a, i) refl)
      ]

  create-Stepped :
      (drawn : Option String) (op : PendingOperation) (max now : ℕ) (fails : Faults)
      → After
          (Call.create drawn op max now fails)
          (create_pending_operation digest drawn op max now fails d).1
  unfolding opened
  create-Stepped drawn op max now fails =
      let c = Call.create drawn op max now fails in
      let d' = (create_pending_operation digest drawn op max now fails d).1 in
      elim (create_pending_operation-Created digest drawn op max now fails d) [
        | Created.refused x y ↦ unchanged c d' (ap (λ (e : Db). e.pending) y)
        | Created.repeated p x y ↦
            unchanged c d'
              (ap (λ (r : Result DbError (PendingOperation × Bool) × Db). r.1.pending) y)
        | Created.added text e k s m a x y ↦ added text op now d' e a y
      ]

  claim-Stepped :
      (i by_type by_id : String) (now : ℕ) (fails : Faults)
      → After
          (Call.claim i by_type by_id now fails)
          (claim_pending_operation digest i by_type by_id now fails d).1
  unfolding with_state in_state has_id
  claim-Stepped i by_type by_id now fails =
      let c = Call.claim i by_type by_id now fails in
      let d' = (claim_pending_operation digest i by_type by_id now fails d).1 in
      elim (claim_pending_operation-Claimed digest i by_type by_id now fails d) [
        | Claimed.refused x y ↦ unchanged c d' (ap (λ (e : Db). e.pending) y)
        | Claimed.late op s l x y ↦ own c d' _ y (
            update-Acts c (waiting i) (with_state pending_expired_state) id d.pending (λ r. refl)
              (λ r n p. (naming i _ r n p, from_waiting i r p, inr refl)))
        | Claimed.approved op s l g n x y ↦ own c d' _ y (
            update-Acts c (waiting i) (taken by_type by_id now) id d.pending (λ r. refl)
              (λ r n p. (naming i _ r n p, from_waiting i r p, inl refl)))
      ]

  finish-Stepped :
      (i : String) (status : ℕ) (body : String) (fails : Faults)
      → After
          (Call.finish i status body fails)
          (finish_pending_operation digest i status body fails d).1
  finish-Stepped i status body fails =
      let c = Call.finish i status body fails in
      let d' = (finish_pending_operation digest i status body fails d).1 in
      elim (finish_pending_operation-Commits digest i status body fails d) [
        | inl (x, y) ↦ unchanged c d' (ap (λ (e : Db). e.pending) y)
        | inr (n, x, y) ↦ own c d' _ (ap (λ (e : Db). e.pending) y) (
            update-Acts c (executing i) (finished status body) id d.pending (λ r. refl)
              (λ r n p. (
                naming i _ r n p,
                from_executing r (and_right (has_id i r) _ p),
                finished_ends status body r,
              )))
      ]

  reject-Stepped :
      (i by_type by_id note : String) (now : ℕ) (fails : Faults)
      → After
          (Call.reject i by_type by_id note now fails)
          (reject_pending_operation digest i by_type by_id note now fails d).1
  reject-Stepped i by_type by_id note now fails =
      let c = Call.reject i by_type by_id note now fails in
      let d' = (reject_pending_operation digest i by_type by_id note now fails d).1 in
      let ps = expired now d.pending in
      elim (reject_pending_operation-Rejected digest i by_type by_id note now fails d) [
        | Rejected.refused x y ↦ unchanged c d' (ap (λ (e : Db). e.pending) y)
        | Rejected.closed op s w x y ↦
            elim (update-Acts c (waiting i) (rejected by_type by_id note now) id ps (λ r. refl)
              (λ r n p. (naming i _ r n p, from_waiting i r p, refl))) [
                | inl idle ↦ rw (y, idle) (tidied refl (expired-Tidied now id d.pending h))
                | inr acts ↦ rw y (
                    tidied_and_acted (state_of id ps) refl (expired-Tidied now id d.pending h) acts)
              ]
      ]

  recover-Stepped :
      (fails : Bool) → After (Call.recover fails) (recover_pending_operations fails d).1
  unfolding recover_pending_operations run_statement with_state
  recover-Stepped true = quiet refl
  recover-Stepped false = own (Call.recover false) (recover_pending_operations false d).1 _ refl (
      update-Acts (Call.recover false) (in_state pending_executing)
        (with_state pending_indeterminate) id d.pending (λ r. refl)
        (λ r n p. (from_executing r p, refl)))

  pub step-Stepped : (c : Call) → After c (step digest c d)
  unfolding step
  step-Stepped (create drawn op max now fails) = create-Stepped drawn op max now fails
  step-Stepped (get i now fails) =
      tidy (Call.get i now fails) now (get_pending_operation i now fails d).1 refl
        (get-Tidies d i now fails)
  step-Stepped (list state requester_type requester_id limit now fails) =
      tidy (Call.list state requester_type requester_id limit now fails) now
        (list_pending_operations state requester_type requester_id limit now fails d).1 refl
        (list-Tidies d state requester_type requester_id limit now fails)
  step-Stepped (claim i by_type by_id now fails) = claim-Stepped i by_type by_id now fails
  step-Stepped (finish i status body fails) = finish-Stepped i status body fails
  step-Stepped (reject i by_type by_id note now fails) =
      reject-Stepped i by_type by_id note now fails
  step-Stepped (recover fails) = recover-Stepped fails
