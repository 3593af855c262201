-- ===== src/State/Plans/Accept/Laws.antt =====
-- A confirmation is used once.
use jolt.Prelude.{
  ◌≡◌, sym, ◌∙◌, ap, String, Bool, true, false, some, List, [], ◌∷◌, arith, ◌==◌, eq_iff, eq_refl,
  is_some, ok, Option-cases, inl, inr,
}
use jolt.SignedAuth.Binding.{identifier, valid_key_id}
use jolt.State.Entities.{Job, DestructivePlan}
use jolt.State.Tables.{
  Write, put_job, put_plan, put_destructive_idempotency, get_job, get_plan, find, plan_key,
  plan_order, job_key, job_order, apply_write, apply_writes,
}
use jolt.State.Tables.Laws.{find-put}
use jolt.State.Transaction.{Store, Disk, Tx, M, begin, commit, update}
use jolt.State.Transaction.Rows.{update-result}
use jolt.State.Plans.Accept.{
  Acceptance, accept_again, accept_first, accept, accepted_job, consume,
  destructive_idempotency_key, accept_destructive_plan,
}

pub find_key :
    (k : String) (ps : List DestructivePlan) (p : DestructivePlan)
    → find plan_key plan_order k ps ≡ some p
    → p.id ≡ k
unfolding find
find_key k [] p h = ground arith
find_key k (q ∷ ps) p h = ground (arith, find_key k ps p, eq_iff q.id k)

pub required : (value : String) → valid_key_id value ≡ true → (value == "") ≡ false
unfolding identifier
required value h = ground arith

module _ (sha256_hex : String → String) where
  records : DestructivePlan → Acceptance → List Write
  records p a =
      put_plan (consume p a.job.id a.idempotency_key a.request_hash)
      ∷ put_job (accepted_job p a.job)
      ∷ put_destructive_idempotency
          (destructive_idempotency_key sha256_hex a.subject_type a.subject_id a.idempotency_key)
          (record { job_id = a.job.id; request_hash = a.request_hash })
      ∷ []

  first_result :
      (p : DestructivePlan) (a : Acceptance) (tx : Tx) (job : Job) (again : Bool)
      → (accept_first sha256_hex p a tx).0 ≡ ok (job, again)
      → (job ≡ accepted_job p a.job) × (valid_key_id a.job.id ≡ true)
  unfolding accept_first
  first_result p a tx job again h = (ground arith, ground arith)

  first_records :
      (p : DestructivePlan) (a : Acceptance) (d : Disk) (s : Store) (job : Job) (again : Bool)
      → (accept_first sha256_hex p a (begin d s)).0 ≡ ok (job, again)
      → (accept_first sha256_hex p a (begin d s)).1.writes ≡ records p a
  unfolding accept_first records
  first_records p a d s job again h = ground arith

  needs_plan :
      (a : Acceptance) (tx : Tx) (r : Job × Bool)
      → (accept sha256_hex a tx).0 ≡ ok r
      → is_some (get_plan tx.tables a.plan_id) ≡ true
  unfolding accept
  needs_plan a tx r h = ground arith

  is_first :
      (a : Acceptance) (tx : Tx) (p : DestructivePlan) (job : Job)
      → get_plan tx.tables a.plan_id ≡ some p
      → (accept sha256_hex a tx).0 ≡ ok (job, false)
      → accept sha256_hex a tx ≡ accept_first sha256_hex p a tx
  unfolding accept accept_again
  is_first a tx p job g h = ground arith

  accepts_first :
      (a : Acceptance) (d : Disk) (s : Store) (job : Job)
      → (accept sha256_hex a (begin d s)).0 ≡ ok (job, false)
      → (p : DestructivePlan) × (get_plan s.tables a.plan_id ≡ some p)
        × (job ≡ accepted_job p a.job)
        × (valid_key_id a.job.id ≡ true)
        × ((accept sha256_hex a (begin d s)).1.writes ≡ records p a)
  accepts_first a d s job h = elim (Option-cases (get_plan s.tables a.plan_id)) [
    | inl e ↦ absurd (ground (arith, needs_plan a (begin d s) (job, false) h))
    | inr (p, e) ↦
        let run = is_first a (begin d s) p job e h in
        let ran = sym (ap (λ r. r.0) run) ∙ h in
        let (made, valid) = first_result p a (begin d s) job false ran in
        (p, e, made, valid, ap (λ r. r.1.writes) run ∙ first_records p a d s job false ran)
  ]

  -- the tables behind the records
  consumed :
      (p : DestructivePlan) (a : Acceptance) (d : Disk) (s : Store) (m : M (Job × Bool))
      (r : Job × Bool)
      → (update d m s).0 ≡ ok r
      → (m (begin d s)).1.writes ≡ records p a
      → (get_plan (update d m s).1.tables p.id
          ≡ some (consume p a.job.id a.idempotency_key a.request_hash))
        × (get_job (update d m s).1.tables a.job.id ≡ some (accepted_job p a.job))
  unfolding update commit records apply_writes apply_write consume accepted_job
  consumed p a d s m r h e =
      let p' = consume p a.job.id a.idempotency_key a.request_hash in
      let j' = accepted_job p a.job in
      (
        ground (arith, find-put plan_key plan_order p.id p' s.tables.plans, eq_refl p.id),
        ground (arith, find-put job_key job_order a.job.id j' s.tables.jobs, eq_refl a.job.id),
      )

  -- an acceptance that succeeds was a transaction
  opened :
      (d : Disk) (a : Acceptance) (s : Store) (job : Job) (again : Bool)
      → (accept_destructive_plan sha256_hex d a s).0 ≡ ok (job, again)
      → ((update d (accept sha256_hex a) s).0 ≡ ok (job, again))
        × (accept_destructive_plan sha256_hex d a s ≡ update d (accept sha256_hex a) s)
  unfolding accept_destructive_plan
  opened d a s job again h = ground arith

  repeats :
      (a : Acceptance) (tx : Tx) (p : DestructivePlan) (job result : Job) (again : Bool)
      → get_plan tx.tables a.plan_id ≡ some p
      → (p.consumed_job_id == "") ≡ false
      → get_job tx.tables p.consumed_job_id ≡ some job
      → (accept sha256_hex a tx).0 ≡ ok (result, again)
      → (again ≡ true)
        × (result ≡ job)
        × (a.idempotency_key ≡ p.idempotency_key)
        × (a.request_hash ≡ p.request_hash)
  unfolding accept accept_again
  repeats a tx p job result again g c j h = (
    ground arith,
    ground arith,
    ground (arith, eq_iff p.idempotency_key a.idempotency_key),
    ground (arith, eq_iff p.request_hash a.request_hash),
  )

  -- A confirmation makes one job: behind the acceptance that makes it, an acceptance of the same
  -- plan succeeds only as a repetition, with the key and the digest of the request that made the
  -- job, and gets that job again.
  pub accept_destructive_plan-once :
      (d e : Disk) (a b : Acceptance) (s : Store) (job result : Job) (again : Bool)
      → (accept_destructive_plan sha256_hex d a s).0 ≡ ok (job, false)
      → b.plan_id ≡ a.plan_id
      → (accept_destructive_plan sha256_hex e b (accept_destructive_plan sha256_hex d a s).1).0
        ≡ ok (result, again)
      → (again ≡ true)
        × (result ≡ job)
        × (b.idempotency_key ≡ a.idempotency_key)
        × (b.request_hash ≡ a.request_hash)
  unfolding consume
  accept_destructive_plan-once d e a b s job result again h i g =
      let m = accept sha256_hex a in
      let (ran, same) = opened d a s job false h in
      let (p, stored, made, named, written) =
        accepts_first a d s job (update-result d m s (job, false) ran) in
      let (plan, kept) = consumed p a d s m (job, false) ran written in
      let s' = (accept_destructive_plan sha256_hex d a s).1 in
      let id = find_key a.plan_id s.tables.plans p stored in
      let (rerun, _) = opened e b s' result again g in
      let returned = update-result e (accept sha256_hex b) s' (result, again) rerun in
      let p' = consume p a.job.id a.idempotency_key a.request_hash in
      let found_plan : get_plan s'.tables b.plan_id ≡ some p' =
        ap (get_plan s'.tables) (i ∙ sym id) ∙ ap (λ r. get_plan r.1.tables p.id) same ∙ plan in
      let found_job : get_job s'.tables a.job.id ≡ some job =
        ap (λ r. get_job r.1.tables a.job.id) same ∙ kept ∙ ap some (sym made) in
      repeats b (begin e s') p' job result again found_plan (required a.job.id named) found_job
        returned
