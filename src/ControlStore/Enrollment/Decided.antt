-- ===== src/ControlStore/Enrollment/Decided.antt =====
-- An enrollment that is not pending keeps its state.
use jolt.Prelude.{
  ℕ, String, Bool, true, false, ◌≡◌, refl, Option, none, some, List, [], ◌∷◌, ◌++◌, ◌==◌, eqb, ok,
  arith, eq_iff, Bool-cases, Option-cases, inl, inr, any,
}
use jolt.ControlStore.Entities.{JoinToken, Enrollment, Db}
use jolt.ControlStore.Sql.{
  Faults, statement, commit, transaction, run_statement, update_where, select_where, count_where,
}
use jolt.ControlStore.Enrollment.{
  enrollment_pending, enrollment_expired, get_enrollment, shown, insert_token, create_join_token,
  clashes, refuse_none, revoke_join_token, unused, still_pending, start_enrollment,
  enrollment_id_is, decidable, decided, decide_enrollment, pending_id, replace_poll_secret, lapsed,
  expire_enrollments, raise_enrollment_version,
}
use jolt.ControlStore.Enrollment.Once.{start_enrollment-Starts}
use jolt.ControlStore.Enrollment.History.{
  EnrollmentCall, create, revoke, start, decide, replace, expire, enrollment_step, run_enrollment,
}

state_is : String → Option Enrollment → Bool
state_is state none = false
state_is state (some e) = e.state == state

module _ (id state : String) where
  -- the enrollment is there, in the state
  in_state : List Enrollment → Bool
  unfolding state_is
  in_state es = state_is state (select_where (enrollment_id_is id) es)

  append-in_state :
      (e : Enrollment) (es : List Enrollment)
      → in_state es ≡ true
      → in_state (es ++ (e ∷ [])) ≡ true
  unfolding in_state state_is select_where
  append-in_state e [] h = ground arith
  append-in_state e (x ∷ es) h = ground (arith, append-in_state e es)

  -- an update of pending rows that keeps the ids leaves a row of another state alone
  update-in_state :
      (p : Enrollment → Bool) (f : Enrollment → Enrollment) (es : List Enrollment)
      → ((e : Enrollment) → p e ≡ true → e.state ≡ enrollment_pending)
      → ((e : Enrollment) → (f e).id ≡ e.id)
      → (state == enrollment_pending) ≡ false
      → in_state es ≡ true
      → in_state (update_where p f es) ≡ true
  unfolding in_state state_is select_where update_where enrollment_id_is
  update-in_state p f [] pending keeps n h = ground arith
  update-in_state p f (x ∷ es) pending keeps n h = ground (
    arith,
    update-in_state p f es pending keeps n,
    pending x,
    keeps x,
    eq_iff x.state state,
    eq_iff state enrollment_pending,
  )

  abbrev Stays : Db → Db → Type 0
  Stays d d' = in_state d.enrollments ≡ true → in_state d'.enrollments ≡ true

  create-in_state :
      (t : JoinToken) (fails : Faults) (d : Db) → Stays d (create_join_token t fails d).1
  unfolding create_join_token transaction raise_enrollment_version statement insert_token commit
  create-in_state t fails d h = elim (Bool-cases (fails 0)) [
    | inl f ↦ rw f h
    | inr f0 ↦ elim (Bool-cases (fails 1)) [
      | inl f ↦ rw (f0, f) h
      | inr f1 ↦ elim (Bool-cases (fails 2)) [
        | inl f ↦ rw (f0, f1, f) h
        | inr f2 ↦ elim (Bool-cases (any (clashes t) d.join_tokens)) [
          | inl a ↦ rw (f0, f1, f2, a) h
          | inr a ↦ elim (Bool-cases (fails 3)) [
            | inl f ↦ rw (f0, f1, f2, a, f) h
            | inr f3 ↦ rw (f0, f1, f2, a, f3) h
          ]
        ]
      ]
    ]
  ]

  revoke-in_state : (i : String) (fails : Bool) (d : Db) → Stays d (revoke_join_token i fails d).1
  unfolding revoke_join_token run_statement refuse_none
  revoke-in_state i true d h = h
  revoke-in_state i false d h = elim (Bool-cases (eqb (count_where (unused i) d.join_tokens) 0)) [
    | inl z ↦ rw z h
    | inr z ↦ rw z h
  ]

  start-in_state :
      (hash : String) (e : Enrollment) (now : ℕ) (fails : Faults) (d : Db)
      → Stays d (start_enrollment hash e now fails d).1
  start-in_state hash e now fails d h = elim (start_enrollment-Starts hash e now fails d) [
    | inl (_, same) ↦ rw same h
    | inr (t, _, _, _, begins) ↦
        rw begins
          (append-in_state (record e { token_id = t.id; decided_at = none }) d.enrollments h)
  ]

  module _ (n : (state == enrollment_pending) ≡ false) where
    decide-in_state :
        (i to by note response : String) (now : ℕ) (fails : Bool) (d : Db)
        → Stays d (decide_enrollment i to by note response now fails d).1
    unfolding decide_enrollment run_statement refuse_none decidable still_pending decided
    decide-in_state i to by note response now true d h = h
    decide-in_state i to by note response now false d h =
        let kept =
          update-in_state (decidable i now) (decided to by note response now) d.enrollments
            (λ e p. ground (arith, p, eq_iff e.state enrollment_pending)) (λ e. refl) n h in
        elim (Bool-cases (eqb (count_where (decidable i now) d.enrollments) 0)) [
          | inl z ↦ rw z kept
          | inr z ↦ rw z kept
        ]

    enrollment_step-in_state : (c : EnrollmentCall) (d : Db) → Stays d (enrollment_step c d)
    unfolding replace_poll_secret expire_enrollments run_statement pending_id lapsed
    enrollment_step-in_state (create t fails) d h = create-in_state t fails d h
    enrollment_step-in_state (revoke i fails) d h = revoke-in_state i fails d h
    enrollment_step-in_state (start hash e now fails) d h = start-in_state hash e now fails d h
    enrollment_step-in_state (decide i to by note response now fails) d h =
        decide-in_state i to by note response now fails d h
    enrollment_step-in_state (replace i secret true) d h = h
    enrollment_step-in_state (replace i secret false) d h =
        update-in_state (pending_id i) (λ e. record e { poll_hash = secret }) d.enrollments
          (λ e p. ground (arith, p, eq_iff e.state enrollment_pending)) (λ e. refl) n h
    enrollment_step-in_state (expire now true) d h = h
    enrollment_step-in_state (expire now false) d h =
        update-in_state (lapsed now)
          (λ e. record e {
            state = enrollment_expired;
            csr_pem = "";
            operational_encrypted = "";
            decided_at = some now;
          })
          d.enrollments (λ e p. ground (arith, p, eq_iff e.state enrollment_pending)) (λ e. refl) n
          h

    run_enrollment-in_state : (cs : List EnrollmentCall) (d : Db) → Stays d (run_enrollment cs d)
    unfolding run_enrollment
    run_enrollment-in_state [] d h = h
    run_enrollment-in_state (c ∷ cs) d h =
        run_enrollment-in_state cs (enrollment_step c d) (enrollment_step-in_state c d h)

  -- what a reading shows of an enrollment that is in the state
  in_state-shown :
      (now : ℕ) (d : Db)
      → (state == enrollment_pending) ≡ false
      → in_state d.enrollments ≡ true
      → (e : Enrollment) × (get_enrollment id now false d ≡ ok e) × (e.state ≡ state)
  unfolding in_state state_is get_enrollment shown
  in_state-shown now d n h =
      elim (Option-cases (select_where (enrollment_id_is id) d.enrollments)) [
        | inl e ↦ absurd (ground (arith, e))
        | inr (o, e) ↦
            let same : o.state ≡ state = ground (arith, e, eq_iff o.state state) in
            (o, ground (arith, e, same), same)
      ]

-- An enrollment that is stored in another state than pending keeps it: a reading of it behind any
-- history of calls on tokens and enrollments, failing statements included, finds it in that state.
pub run_enrollment-decided :
    (id : String) (e : Enrollment) (cs : List EnrollmentCall) (now : ℕ) (d : Db)
    → select_where (enrollment_id_is id) d.enrollments ≡ some e
    → (e.state == enrollment_pending) ≡ false
    → (o : Enrollment) × (get_enrollment id now false (run_enrollment cs d) ≡ ok o)
      × (o.state ≡ e.state)
unfolding in_state state_is
run_enrollment-decided id e cs now d found n =
    in_state-shown id e.state now (run_enrollment cs d) n
      (run_enrollment-in_state id e.state n cs d (ground (arith, found, eq_iff e.state e.state)))
