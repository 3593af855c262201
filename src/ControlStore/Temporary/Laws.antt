-- ===== src/ControlStore/Temporary/Laws.antt =====
-- How long a temporary assignment is in force.
use jolt.Prelude.{
  ℕ, ◌+◌, ◌≤◌, String, ◌<>◌, Bool, false, ◌&&◌, ◌||◌, ◌≡◌, refl, List, [], ◌∷◌, ◌==◌, ltb, eqb,
  Result, ok, err, is_ok, arith, eq_refl, Bool-cases, inl, inr, ◌⊎◌, any, ◌∙◌, contains, stamp,
  any-append,
}
use jolt.ControlStore.Entities.{TemporaryAssignment, Db}
use jolt.ControlStore.Sql.{DbError, Tx, Faults, statement, transaction, update_where, rows_where}
use jolt.ControlStore.Audit.Keeps.{audited}
use jolt.ControlStore.Temporary.{
  hour, of_subject, assigns, upsert, assignment_record, names, subjects, known_subject_type,
  store_grant, grant, grant_temporary_policy, insert_by_policy, by_policy, in_force,
  temporary_policies,
}

failed : {A : Type 0} {a : A} {e : DbError} → ◌≡◌ {A = Result DbError A} (err e) (ok a) → ⊥
failed h = cc

module _ (q : TemporaryAssignment → Bool) where
  any-insert :
      (a : TemporaryAssignment) (bs : List TemporaryAssignment)
      → any q (insert_by_policy a bs) ≡ (q a || any q bs)
  unfolding insert_by_policy
  any-insert a [] = refl
  any-insert a (b ∷ bs) = ground (arith, any-insert a bs)

  any-by_policy : (bs : List TemporaryAssignment) → any q (by_policy bs) ≡ any q bs
  unfolding by_policy
  any-by_policy [] = refl
  any-by_policy (b ∷ bs) = ground (arith, any-by_policy bs, any-insert b (by_policy bs))

  any-rows :
      (p : TemporaryAssignment → Bool) (bs : List TemporaryAssignment)
      → any q (rows_where p bs) ≡ any (λ b. p b && q b) bs
  unfolding rows_where
  any-rows p [] = refl
  any-rows p (b ∷ bs) = ground (arith, any-rows p bs)

abbrev pub for_policy : String → TemporaryAssignment → Bool
for_policy policy_id b = b.policy_id == policy_id

-- whether an assignment of a policy to a subject is in force at a time
abbrev holds : TemporaryAssignment → ℕ → TemporaryAssignment → Bool
holds a t b = in_force a.subject_type a.subject_id t b && for_policy a.policy_id b

holds-updated :
    (a : TemporaryAssignment) (t : ℕ) (bs : List TemporaryAssignment)
    → any (holds a t) (
        update_where
          (assigns a.policy_id a.subject_type a.subject_id)
          (λ b. record b {
            created_at = a.created_at;
            created_by = a.created_by;
            expires_at = a.expires_at;
          })
          bs)
      ≡ (any (assigns a.policy_id a.subject_type a.subject_id) bs && ltb t a.expires_at)
unfolding update_where assigns in_force of_subject
holds-updated a t [] = refl
holds-updated a t (b ∷ bs) = ground (arith, holds-updated a t bs)

holds-other :
    (a : TemporaryAssignment) (t : ℕ) (bs : List TemporaryAssignment)
    → any (assigns a.policy_id a.subject_type a.subject_id) bs ≡ false
    → any (holds a t) bs ≡ false
unfolding assigns in_force of_subject
holds-other a t [] h = refl
holds-other a t (b ∷ bs) h = ground (arith, holds-other a t bs)

holds_self : (a : TemporaryAssignment) (t : ℕ) → any (holds a t) (a ∷ []) ≡ ltb t a.expires_at
unfolding in_force of_subject
holds_self a t = ground (arith, eq_refl a.policy_id, eq_refl a.subject_type, eq_refl a.subject_id)

holds-upsert :
    (a : TemporaryAssignment) (t : ℕ) (bs : List TemporaryAssignment)
    → any (holds a t) (upsert a bs) ≡ ltb t a.expires_at
unfolding upsert
holds-upsert a t bs = elim (Bool-cases (any (assigns a.policy_id a.subject_type a.subject_id) bs)) [
  | inl e ↦ rw e (rw (holds-updated a t bs, e) refl)
  | inr e ↦ rw e (rw (any-append (holds a t) bs (a ∷ []), holds-other a t bs e) (holds_self a t))
]

-- What a grant answers and stores.
store_grant_outcome :
    (digest : String → String) (actor_type correlation_id : String) (a : TemporaryAssignment)
    (tx : Tx)
    → ((is_ok (store_grant digest actor_type correlation_id a tx).0 ≡ false)
        × ((store_grant digest actor_type correlation_id a tx).1.saved ≡ tx.saved))
      ⊎ (((store_grant digest actor_type correlation_id a tx).0 ≡ ok a)
          × ((store_grant digest actor_type correlation_id a tx).1.saved.assignments
              ≡ upsert a tx.db.assignments))
unfolding store_grant statement
store_grant_outcome digest actor_type correlation_id a tx = elim (Bool-cases (tx.fails tx.calls)) [
  | inl e ↦ inl (rw e refl, rw e refl)
  | inr e ↦ rw e (
      audited (λ d. d.assignments) (λ d es n c. refl) digest a.created_at
        (assignment_record a.created_by actor_type "grant_temporary_policy" correlation_id
          (stamp a.created_at) ("{\"expires_at\":\"" <> stamp a.expires_at <> "\"," <> names a) a)
        a
        (record tx {
          calls = tx.calls + 1;
          db = record tx.db { assignments = upsert a tx.db.assignments };
        }))
]

grant_outcome :
    (digest : String → String) (actor_type correlation_id : String) (a b : TemporaryAssignment)
    (fails : Faults) (d : Db)
    → (transaction (grant digest actor_type correlation_id a) fails d).0 ≡ ok b
    → (b ≡ a)
      × ((transaction (grant digest actor_type correlation_id a) fails d).1.assignments
          ≡ upsert a d.assignments)
unfolding transaction grant statement
grant_outcome digest actor_type correlation_id a b fails d o = elim (Bool-cases (fails 0)) [
  | inl f ↦ absurd (failed (rw f at o))
  | inr f0 ↦ elim (Bool-cases (fails 1)) [
    | inl f ↦ absurd (failed (rw (f0, f) at o))
    | inr f1 ↦ elim (Bool-cases (contains a.subject_id (subjects a.subject_type d))) [
      | inr f ↦ absurd (failed (rw (f0, f1, f) at o))
      | inl f2 ↦ elim (Bool-cases (fails 2)) [
        | inl f ↦ absurd (failed (rw (f0, f1, f2, f) at o))
        | inr f3 ↦ elim (Bool-cases (contains a.policy_id d.policies)) [
          | inr f ↦ absurd (failed (rw (f0, f1, f2, f3, f) at o))
          | inl f4 ↦
              let o' = rw (f0, f1, f2, f3, f4) at o in
              elim (store_grant_outcome digest actor_type correlation_id a
                (record { db = d; saved = d; fails = fails; calls = 3 })) [
                  | inl (x, y) ↦ absurd (cc)
                  | inr (x, y) ↦ (ground arith, rw (f0, f1, f2, f3, f4) y)
                ]
        ]
      ]
    ]
  ]
]

-- A grant that succeeds lasts at most an hour, and at any time the policies of its subject include its
-- policy exactly if its end is later.
pub grant_temporary_policy-listed :
    (digest : String → String)
    (subject_type subject_id policy_id actor_id actor_type correlation_id : String)
    (duration now t : ℕ) (fails : Faults) (d : Db) (a : TemporaryAssignment)
    → (grant_temporary_policy digest subject_type subject_id policy_id actor_id actor_type
        correlation_id duration now fails d).0
      ≡ ok a
    → (a.expires_at ≤ now + hour)
      × ((bs : List TemporaryAssignment) × (temporary_policies subject_type subject_id t false
              (grant_temporary_policy digest subject_type subject_id policy_id actor_id actor_type
                correlation_id duration now fails d).1
            ≡ ok bs)
          × (any (for_policy policy_id) bs ≡ ltb t a.expires_at))
unfolding grant_temporary_policy temporary_policies
grant_temporary_policy-listed digest subject_type subject_id policy_id actor_id actor_type
      correlation_id duration now t fails d a o =
    elim (Bool-cases (eqb duration 0 || ltb hour duration)) [
      | inl e ↦ absurd (failed (rw e at o))
      | inr e ↦ elim (Bool-cases (known_subject_type subject_type)) [
        | inr k ↦ absurd (failed (rw (e, k) at o))
        | inl k ↦
            let r : TemporaryAssignment = record {
              policy_id = policy_id;
              subject_type = subject_type;
              subject_id = subject_id;
              created_by = actor_id;
              created_at = now;
              expires_at = now + duration;
            } in
            let (same, stored) =
              grant_outcome digest actor_type correlation_id r a fails d (rw (e, k) at o) in
            rw (e, k, stored, same)
              (
                ground arith,
                (
                  by_policy
                      (rows_where (in_force subject_type subject_id t) (upsert r d.assignments)),
                  refl,
                  any-by_policy (for_policy policy_id) _
                      ∙ any-rows (for_policy policy_id) (in_force subject_type subject_id t)
                          (upsert r d.assignments)
                      ∙ holds-upsert r t d.assignments,
                ),
              )
      ]
    ]
