-- ===== src/ControlStore/Pending/Moves/Once.antt =====
-- A request is approved at most once.
use jolt.Prelude.{
  ℕ, String, Bool, true, false, ◌≡◌, refl, Option, none, some, List, [], ◌∷◌, ◌==◌, any, arith,
  eq_iff, Bool-cases, inl, inr, if◌then◌else◌, ap, sym, ◌∙◌, is_ok,
}
use jolt.ControlStore.Entities.{PendingOperation, Db}
use jolt.ControlStore.Sql.{Faults, select_where, count_where}
use jolt.ControlStore.Sql.Laws.{select_where_passes}
use jolt.ControlStore.Pending.{has_id, in_state}
use jolt.ControlStore.Pending.Rows.{distinct, row_of-update, distinct-update}
use jolt.ControlStore.Pending.Decide.{waiting, taken, claim_pending_operation}
use jolt.ControlStore.Pending.Decide.Outcome.{Claimed, claim_pending_operation-Claimed}
use jolt.ControlStore.Pending.Moves.{
  state_of, Change, expire, approve, decline, finish, interrupt, forget, Changes, same, after, Call,
  draws, step, run,
}
use jolt.ControlStore.Pending.Moves.Refines.{step-Steps}

-- whether a state is that of a request that waits
abbrev pub is_pending : Option String → Bool
is_pending none = false
is_pending (some s) = s == "pending"

Change-settled : {p q : Option String} → Change p q → is_pending q ≡ false
Change-settled (expire a b) = rw b refl
Change-settled (approve a b) = rw b refl
Change-settled (decline a b) = rw b refl
Change-settled (finish a (inl b)) = rw b refl
Change-settled (finish a (inr b)) = rw b refl
Change-settled (interrupt a b) = rw b refl
Change-settled (forget s a x b) = rw b refl

Changes-settled : {p q : Option String} → is_pending p ≡ false → Changes p q → is_pending q ≡ false
Changes-settled h same = h
Changes-settled h (after c x) = Change-settled x

module _ (digest : String → String) (id : String) where
  step_settled :
      (c : Call) (d : Db)
      → distinct d.pending ≡ true
      → draws id c ≡ false
      → is_pending (state_of id d.pending) ≡ false
      → is_pending (state_of id (step digest c d).pending) ≡ false
  step_settled c d h n w = elim (step-Steps digest id d h c).moved [
    | inl m ↦ Changes-settled w m
    | inr (b, m, e) ↦ absurd (cc)
  ]

  run_settled :
      (cs : List Call) (d : Db)
      → distinct d.pending ≡ true
      → any (draws id) cs ≡ false
      → is_pending (state_of id d.pending) ≡ false
      → (distinct (run digest cs d).pending ≡ true)
        × (is_pending (state_of id (run digest cs d).pending) ≡ false)
  unfolding run
  run_settled [] d h n w = (h, w)
  run_settled (c ∷ cs) d h n w =
      run_settled cs (step digest c d) (step-Steps digest id d h c).stay (ground arith)
        (step_settled c d h (ground arith) w)

count_absent :
    (id : String) (ps : List PendingOperation)
    → any (has_id id) ps ≡ false
    → count_where (waiting id) ps ≡ 0
unfolding count_where
count_absent id [] h = refl
count_absent id (r ∷ ps) h = ground (arith, count_absent id ps)

pub count_settled :
    (id : String) (ps : List PendingOperation)
    → distinct ps ≡ true
    → is_pending (state_of id ps) ≡ false
    → count_where (waiting id) ps ≡ 0
unfolding count_where select_where in_state
count_settled id [] h w = refl
count_settled id (r ∷ ps) h w = elim (Bool-cases (has_id id r)) [
  | inl e ↦
      let alone : any (has_id id) ps ≡ false =
        ap (λ k. any (has_id k) ps) (sym ((eq_iff r.id id).0 (unfold has_id in e)))
        ∙ ground arith in
      ground (arith, count_absent id ps)
  | inr e ↦ ground (arith, count_settled id ps)
]

module _ (digest : String → String) (id : String) where
  claim_settles :
      (by_type by_id : String) (now : ℕ) (fails : Faults) (d : Db)
      → distinct d.pending ≡ true
      → is_ok (claim_pending_operation digest id by_type by_id now fails d).0 ≡ true
      → (distinct (claim_pending_operation digest id by_type by_id now fails d).1.pending ≡ true)
        × (is_pending
              (state_of id (claim_pending_operation digest id by_type by_id now fails d).1.pending)
            ≡ false)
  unfolding in_state
  claim_settles by_type by_id now fails d h o =
      elim (claim_pending_operation-Claimed digest id by_type by_id now fails d) [
        | Claimed.refused x y ↦ absurd (cc)
        | Claimed.late op s l x y ↦ absurd (ground arith)
        | Claimed.approved op s l g n x y ↦ (
          rw (y, distinct-update (waiting id) (taken by_type by_id now) (λ r. refl) d.pending) h,
          rw (y, row_of-update (waiting id) (taken by_type by_id now) (λ r. refl) id d.pending, s)
              (of_taken op (select_where_passes (has_id id) d.pending op s)),
        )
      ]
    where
      of_taken :
          (op : PendingOperation)
          → has_id id op ≡ true
          → is_pending (some (if waiting id op then taken by_type by_id now op else op).state)
            ≡ false
      of_taken op i = elim (Bool-cases (waiting id op)) [
        | inl e ↦ rw e refl
        | inr e ↦ rw e (ground arith)
      ]

  claim_refused :
      (by_type by_id : String) (now : ℕ) (fails : Faults) (d : Db)
      → distinct d.pending ≡ true
      → is_pending (state_of id d.pending) ≡ false
      → is_ok (claim_pending_operation digest id by_type by_id now fails d).0 ≡ false
  claim_refused by_type by_id now fails d h w =
      elim (claim_pending_operation-Claimed digest id by_type by_id now fails d) [
        | Claimed.refused x y ↦ x
        | Claimed.late op s l x y ↦ ground arith
        | Claimed.approved op s l g n x y ↦ absurd (ground (arith, count_settled id d.pending))
      ]

-- Where no two rows have one id: behind a claim of a request that succeeded, and behind any further
-- calls of which none draws the same id for a new request, no claim of the request succeeds, whoever
-- makes it and whatever failed in between.
pub claim_pending_operation-once :
    (digest : String → String) (id : String) (by_type by_id other_type other_id : String)
    (now later : ℕ) (fails faults : Faults) (cs : List Call) (d : Db)
    → distinct d.pending ≡ true
    → is_ok (claim_pending_operation digest id by_type by_id now fails d).0 ≡ true
    → any (draws id) cs ≡ false
    → is_ok
        (claim_pending_operation digest id other_type other_id later faults
          (run digest cs (claim_pending_operation digest id by_type by_id now fails d).1)).0
      ≡ false
claim_pending_operation-once digest id by_type by_id other_type other_id now later fails faults cs d
      h o n =
    let s = claim_settles digest id by_type by_id now fails d h o in
    let r =
      run_settled digest id cs (claim_pending_operation digest id by_type by_id now fails d).1 s.0 n
        s.1 in
    claim_refused digest id other_type other_id later faults _ r.0 r.1
