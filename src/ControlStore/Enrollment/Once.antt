-- ===== src/ControlStore/Enrollment/Once.antt =====
-- A join token that is used stays so, and starts no other enrollment.
use jolt.Prelude.{
  ℕ, ◌+◌, String, Bool, true, false, not, ◌≡◌, ◌⊎◌, refl, Option, none, some, List, [], ◌∷◌, ◌++◌,
  ◌==◌, leb, Result, is_some, arith, eq_iff, Bool-cases, Option-cases, inl, inr, any, is_ok,
}
use jolt.ControlStore.Entities.{JoinToken, Enrollment, Db}
use jolt.ControlStore.Sql.{
  DbError, Faults, Tx, statement, checked_statement, commit, transaction, update_where,
  delete_where, select_where, count_where,
}
use jolt.ControlStore.Enrollment.{
  has_secret, token_id_is, unused, check_pending, insert_enrollment, spend, store_start, start_with,
  start_enrollment, raise_enrollment_version, enrollment_pending, max_pending_enroll, still_pending,
}

unfoldable pub is_spent : Option JoinToken → Bool
is_spent none = false
is_spent (some t) = is_some t.used_at

module _ (hash : String) where
  -- the token with the secret is there, and used
  unfoldable pub spent : List JoinToken → Bool
  unfolding is_spent
  spent ts = is_spent (select_where (has_secret hash) ts)

  pub append-spent :
      (t : JoinToken) (ts : List JoinToken) → spent ts ≡ true → spent (ts ++ (t ∷ [])) ≡ true
  unfolding spent select_where is_spent
  append-spent t [] h = ground arith
  append-spent t (x ∷ ts) h = ground (arith, append-spent t ts)

  pub delete-spent :
      (id : String) (ts : List JoinToken)
      → spent ts ≡ true
      → spent (delete_where (unused id) ts) ≡ true
  unfolding spent select_where is_spent delete_where unused
  delete-spent id [] h = ground arith
  delete-spent id (x ∷ ts) h = ground (arith, delete-spent id ts)

  pub update-spent :
      (p : JoinToken → Bool) (e : String) (now : ℕ) (ts : List JoinToken)
      → spent ts ≡ true
      → spent (update_where p (spend e now) ts) ≡ true
  unfolding spent select_where is_spent update_where spend has_secret
  update-spent p e now [] h = ground arith
  update-spent p e now (x ∷ ts) h = ground (arith, update-spent p e now ts)

  -- using the token that the query finds makes it spent
  pub spend-spent :
      (t : JoinToken) (e : String) (now : ℕ) (ts : List JoinToken)
      → select_where (has_secret hash) ts ≡ some t
      → spent (update_where (token_id_is t.id) (spend e now) ts) ≡ true
  unfolding spent select_where is_spent update_where spend has_secret token_id_is
  spend-spent t e now [] h = ground arith
  spend-spent t e now (x ∷ ts) h = ground (arith, spend-spent t e now ts, eq_iff t.id t.id)

-- the enrollments, with one that the token started
abbrev pub begun : JoinToken → Enrollment → List Enrollment → List Enrollment
begun t e es = es ++ (record e { token_id = t.id; decided_at = none } ∷ [])

abbrev Fails : Result DbError JoinToken × Tx → Db → Type 0
Fails r saved = (is_ok r.0 ≡ false) × (r.1.saved ≡ saved)

-- The transaction has failed and saved nothing, or has saved the token as used and the enrollment.
abbrev Starts : Result DbError JoinToken × Tx → Db → List JoinToken → List Enrollment → Type 0
Starts r saved ts es =
    Fails r saved
    ⊎ ((is_ok r.0 ≡ true) × (r.1.saved.join_tokens ≡ ts) × (r.1.saved.enrollments ≡ es))

store_start-Starts :
    (t : JoinToken) (e : Enrollment) (now : ℕ) (d saved : Db) (fails : Faults) (calls : ℕ)
    → Starts
        (store_start t e now (record { db = d; saved = saved; fails = fails; calls = calls }))
        saved
        (update_where (token_id_is t.id) (spend e.id now) d.join_tokens)
        (begun t e d.enrollments)
unfolding store_start raise_enrollment_version statement checked_statement insert_enrollment commit
store_start-Starts t e now d saved fails calls = elim (Bool-cases (fails calls)) [
  | inl f ↦ rw f (inl (refl, refl))
  | inr f0 ↦ elim (Bool-cases (fails (calls + 1))) [
    | inl f ↦ rw (f0, f) (inl (refl, refl))
    | inr f1 ↦ elim (Bool-cases (any (λ o. o.id == e.id) d.enrollments)) [
      | inl a ↦ rw (f0, f1, a) (inl (refl, refl))
      | inr a ↦ elim (Bool-cases (fails (calls + 1 + 1))) [
        | inl f ↦ rw (f0, f1, a, f) (inl (refl, refl))
        | inr f2 ↦ elim (Bool-cases (fails (calls + 1 + 1 + 1))) [
          | inl f ↦ rw (f0, f1, a, f2, f) (inl (refl, refl))
          | inr f3 ↦ rw (f0, f1, a, f2, f3) (inr (refl, refl, refl))
        ]
      ]
    ]
  ]
]

start_with-Starts :
    (t : JoinToken) (e : Enrollment) (now : ℕ) (d saved : Db) (fails : Faults) (calls : ℕ)
    → ((is_some t.used_at ≡ false)
        × Starts
            (start_with e now t (record { db = d; saved = saved; fails = fails; calls = calls }))
            saved
            (update_where (token_id_is t.id) (spend e.id now) d.join_tokens)
            (begun t e d.enrollments))
      ⊎ Fails
          (start_with e now t (record { db = d; saved = saved; fails = fails; calls = calls }))
          saved
unfolding start_with check_pending statement
start_with-Starts t e now d saved fails calls =
    elim (Bool-cases (not (t.node_name == e.node_name))) [
      | inl n ↦ rw n (inr (refl, refl))
      | inr n ↦ elim (Bool-cases (is_some t.used_at)) [
        | inl u ↦ rw (n, u) (inr (refl, refl))
        | inr u ↦ elim (Bool-cases (leb t.expires_at now)) [
          | inl x ↦ rw (n, u, x) (inr (refl, refl))
          | inr x ↦ elim (Bool-cases (e.state == enrollment_pending)) [
            | inr p ↦ rw (n, u, x, p) (inl (refl, store_start-Starts t e now d saved fails calls))
            | inl p ↦ elim (Bool-cases (fails calls)) [
              | inl f ↦ rw (n, u, x, p, f) (inr (refl, refl))
              | inr f ↦
                  elim (Bool-cases
                    (leb max_pending_enroll (count_where (still_pending now) d.enrollments))) [
                      | inl m ↦ rw (n, u, x, p, f, m) (inr (refl, refl))
                      | inr m ↦
                          rw (n, u, x, p, f, m)
                            (inl (refl, store_start-Starts t e now d saved fails (calls + 1)))
                    ]
            ]
          ]
        ]
      ]
    ]

-- A call with a secret either changes nothing and fails, or finds its token unused and uses it.
pub start_enrollment-Starts :
    (hash : String) (e : Enrollment) (now : ℕ) (fails : Faults) (d : Db)
    → ((is_ok (start_enrollment hash e now fails d).0 ≡ false)
        × ((start_enrollment hash e now fails d).1 ≡ d))
      ⊎ ((t : JoinToken) × (select_where (has_secret hash) d.join_tokens ≡ some t)
          × (is_some t.used_at ≡ false)
          × ((start_enrollment hash e now fails d).1.join_tokens
              ≡ update_where (token_id_is t.id) (spend e.id now) d.join_tokens)
          × ((start_enrollment hash e now fails d).1.enrollments ≡ begun t e d.enrollments))
unfolding start_enrollment transaction statement
start_enrollment-Starts hash e now fails d = elim (Bool-cases (fails 0)) [
  | inl f ↦ rw f (inl (refl, refl))
  | inr f0 ↦ elim (Bool-cases (fails 1)) [
    | inl f ↦ rw (f0, f) (inl (refl, refl))
    | inr f1 ↦ elim (Option-cases (select_where (has_secret hash) d.join_tokens)) [
      | inl n ↦ rw (f0, f1, n) (inl (refl, refl))
      | inr (t, found) ↦ elim (start_with-Starts t e now d d fails 2) [
        | inl (u, inr (_, saved, begins)) ↦ rw (f0, f1, found) (inr (t, refl, u, saved, begins))
        | inl (u, inl (n, saved)) ↦ rw (f0, f1, found) (inl (n, saved))
        | inr (n, saved) ↦ rw (f0, f1, found) (inl (n, saved))
      ]
    ]
  ]
]
