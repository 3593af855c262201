-- ===== src/ControlStore/Enrollment/History.antt =====
-- Histories of calls on join tokens and enrollments.
use jolt.Prelude.{
  ℕ, String, Bool, true, false, ◌≡◌, none, List, [], ◌∷◌, eqb, arith, Bool-cases, inl, inr, any,
  is_ok,
}
use jolt.ControlStore.Entities.{JoinToken, Enrollment, Db}
use jolt.ControlStore.Sql.{Faults, statement, commit, transaction, run_statement, count_where}
use jolt.ControlStore.Enrollment.{
  token_id_is, clashes, insert_token, create_join_token, unused, refuse_none, revoke_join_token,
  start_enrollment, decidable, decide_enrollment, replace_poll_secret, expire_enrollments,
  raise_enrollment_version,
}
use jolt.ControlStore.Enrollment.Once.{
  is_spent, spent, append-spent, delete-spent, update-spent, spend-spent, start_enrollment-Starts,
}

-- the calls that write, each with its arguments and its faults
pub data EnrollmentCall : Type 0 where
  create : JoinToken → Faults → EnrollmentCall
  revoke : String → Bool → EnrollmentCall
  start : String → Enrollment → ℕ → Faults → EnrollmentCall
  decide : String → String → String → String → String → ℕ → Bool → EnrollmentCall
  replace : String → String → Bool → EnrollmentCall
  expire : ℕ → Bool → EnrollmentCall

abbrev pub enrollment_step : EnrollmentCall → Db → Db
enrollment_step (create t fails) d = (create_join_token t fails d).1
enrollment_step (revoke id fails) d = (revoke_join_token id fails d).1
enrollment_step (start hash e now fails) d = (start_enrollment hash e now fails d).1
enrollment_step (decide id state by note response now fails) d =
    (decide_enrollment id state by note response now fails d).1
enrollment_step (replace id hash fails) d = (replace_poll_secret id hash fails d).1
enrollment_step (expire now fails) d = (expire_enrollments now fails d).1

unfoldable pub run_enrollment : List EnrollmentCall → Db → Db
run_enrollment [] d = d
run_enrollment (c ∷ cs) d = run_enrollment cs (enrollment_step c d)

module _ (hash : String) where
  create-spent :
      (t : JoinToken) (fails : Faults) (d : Db)
      → spent hash d.join_tokens ≡ true
      → spent hash (create_join_token t fails d).1.join_tokens ≡ true
  unfolding create_join_token transaction raise_enrollment_version statement insert_token commit
  create-spent t fails d h = elim (Bool-cases (fails 0)) [
    | inl f ↦ rw f h
    | inr f0 ↦ elim (Bool-cases (fails 1)) [
      | inl f ↦ rw (f0, f) h
      | inr f1 ↦ elim (Bool-cases (fails 2)) [
        | inl f ↦ rw (f0, f1, f) h
        | inr f2 ↦ elim (Bool-cases (any (clashes t) d.join_tokens)) [
          | inl a ↦ rw (f0, f1, f2, a) h
          | inr a ↦ elim (Bool-cases (fails 3)) [
            | inl f ↦ rw (f0, f1, f2, a, f) h
            | inr f3 ↦
                rw (f0, f1, f2, a, f3)
                  (append-spent hash (record t { used_at = none; enrollment_id = "" }) d.join_tokens
                    h)
          ]
        ]
      ]
    ]
  ]

  revoke-spent :
      (id : String) (fails : Bool) (d : Db)
      → spent hash d.join_tokens ≡ true
      → spent hash (revoke_join_token id fails d).1.join_tokens ≡ true
  unfolding revoke_join_token run_statement refuse_none
  revoke-spent id true d h = h
  revoke-spent id false d h = elim (Bool-cases (eqb (count_where (unused id) d.join_tokens) 0)) [
    | inl z ↦ rw z (delete-spent hash id d.join_tokens h)
    | inr z ↦ rw z (delete-spent hash id d.join_tokens h)
  ]

  start-spent :
      (other : String) (e : Enrollment) (now : ℕ) (fails : Faults) (d : Db)
      → spent hash d.join_tokens ≡ true
      → spent hash (start_enrollment other e now fails d).1.join_tokens ≡ true
  start-spent other e now fails d h = elim (start_enrollment-Starts other e now fails d) [
    | inl (_, same) ↦ rw same h
    | inr (t, _, _, same, _) ↦
        rw same (update-spent hash (token_id_is t.id) e.id now d.join_tokens h)
  ]

  decide-spent :
      (id state by note response : String) (now : ℕ) (fails : Bool) (d : Db)
      → spent hash d.join_tokens ≡ true
      → spent hash (decide_enrollment id state by note response now fails d).1.join_tokens ≡ true
  unfolding decide_enrollment run_statement refuse_none
  decide-spent id state by note response now true d h = h
  decide-spent id state by note response now false d h =
      elim (Bool-cases (eqb (count_where (decidable id now) d.enrollments) 0)) [
        | inl z ↦ rw z h
        | inr z ↦ rw z h
      ]

  enrollment_step-spent :
      (c : EnrollmentCall) (d : Db)
      → spent hash d.join_tokens ≡ true
      → spent hash (enrollment_step c d).join_tokens ≡ true
  unfolding replace_poll_secret expire_enrollments run_statement
  enrollment_step-spent (create t fails) d h = create-spent t fails d h
  enrollment_step-spent (revoke id fails) d h = revoke-spent id fails d h
  enrollment_step-spent (start other e now fails) d h = start-spent other e now fails d h
  enrollment_step-spent (decide id state by note response now fails) d h =
      decide-spent id state by note response now fails d h
  enrollment_step-spent (replace id secret true) d h = h
  enrollment_step-spent (replace id secret false) d h = h
  enrollment_step-spent (expire now true) d h = h
  enrollment_step-spent (expire now false) d h = h

  run_enrollment-spent :
      (cs : List EnrollmentCall) (d : Db)
      → spent hash d.join_tokens ≡ true
      → spent hash (run_enrollment cs d).join_tokens ≡ true
  unfolding run_enrollment
  run_enrollment-spent [] d h = h
  run_enrollment-spent (c ∷ cs) d h =
      run_enrollment-spent cs (enrollment_step c d) (enrollment_step-spent c d h)

  spent-refused :
      (e : Enrollment) (now : ℕ) (fails : Faults) (d : Db)
      → spent hash d.join_tokens ≡ true
      → is_ok (start_enrollment hash e now fails d).0 ≡ false
  unfolding spent is_spent
  spent-refused e now fails d h = elim (start_enrollment-Starts hash e now fails d) [
    | inl (n, _) ↦ n
    | inr (t, found, u, _, _) ↦ absurd (ground (arith, found, u))
  ]

  started-spent :
      (e : Enrollment) (now : ℕ) (fails : Faults) (d : Db)
      → is_ok (start_enrollment hash e now fails d).0 ≡ true
      → spent hash (start_enrollment hash e now fails d).1.join_tokens ≡ true
  started-spent e now fails d h = elim (start_enrollment-Starts hash e now fails d) [
    | inl (n, _) ↦ absurd (ground (arith, n))
    | inr (t, found, _, same, _) ↦ rw same (spend-spent hash t e.id now d.join_tokens found)
  ]

-- A join token starts at most one enrollment: behind a call of StartEnrollment that succeeds, no
-- call with the same secret succeeds, whatever calls on tokens and enrollments come between and
-- whichever of their statements fail.
pub start_enrollment-once :
    (hash : String) (e : Enrollment) (now : ℕ) (fails : Faults) (d : Db) (cs : List EnrollmentCall)
    (e' : Enrollment) (now' : ℕ) (fails' : Faults)
    → is_ok (start_enrollment hash e now fails d).0 ≡ true
    → is_ok
        (start_enrollment hash e' now' fails'
          (run_enrollment cs (start_enrollment hash e now fails d).1)).0
      ≡ false
start_enrollment-once hash e now fails d cs e' now' fails' h =
    let d' = (start_enrollment hash e now fails d).1 in
    spent-refused hash e' now' fails' (run_enrollment cs d')
      (run_enrollment-spent hash cs d' (started-spent hash e now fails d h))
