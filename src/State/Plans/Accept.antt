-- ===== src/State/Plans/Accept.antt =====
-- destructive_plans.go: the acceptance of a plan, which makes its job; `sha256_hex` is the digest
pub mod Laws
use jolt.Prelude.{
  ℕ, String, ◌<>◌, Bool, true, false, ◌&&◌, ◌||◌, not, Option, none, some, ◌==◌, ltb, eqb,
  if◌then◌else◌, is_some, len, Result, ok, err,
}
use jolt.SignedAuth.Binding.{valid_key_id}
use jolt.SignedAuth.Verify.{Time, separator}
use jolt.State.Entities.{Job, DestructivePlan, IdempotencyRecord}
use jolt.State.Tables.{
  Tables, put_job, put_plan, put_destructive_idempotency, get_job, get_plan,
  get_destructive_idempotency,
}
use jolt.State.Transaction.{
  StoreError, in_use, idempotency_conflict, Store, Disk, Tx, M, ◌>>=◌, ◌>>◌, pure, fail, reject,
  reads, found, write, update,
}
use jolt.State.Plans.{plan_digest, plan_live}

differs : Bool → Bool → Bool
differs true b = not b
differs false b = b

-- the request of an acceptance
pub record Acceptance : Type 0 where
  pub plan_id : String
  pub subject_type : String
  pub subject_id : String
  pub token_hash : String
  pub tree_digest : String
  pub destination_exists : Bool
  pub destination_digest : String
  pub job : Job
  pub idempotency_key : String
  pub request_hash : String
  pub now : Time

-- the test before the transaction
unfoldable pub well_formed : Acceptance → Bool
well_formed a =
    valid_key_id a.plan_id
    && valid_key_id a.subject_id
    && plan_digest a.token_hash
    && plan_digest a.tree_digest
    && not (a.idempotency_key == "")
    && not (ltb 256 (len a.idempotency_key))
    && plan_digest a.request_hash
    && not (eqb a.now 0)

-- the job is the operation that the plan of the subject confirms
unfoldable pub confirms : DestructivePlan → Acceptance → Bool
unfolding differs
confirms p a =
    let job = a.job in
    p.subject_type == a.subject_type
    && p.subject_id == a.subject_id
    && p.token_hash == a.token_hash
    && job.mount_id == p.mount_id
    && job.source_path == p.source
    && job.destination == p.destination
    && not (differs job.overwrite p.overwrite)
    && not (p.operation == "delete" && (not (job.kind == "delete") || not job.recursive))
    && not (p.operation == "move" && not (job.kind == "move_local"))

-- the tree and the destination are still those that were confirmed
unfoldable pub unchanged : DestructivePlan → Acceptance → Bool
unfolding differs
unchanged p a =
    plan_live p a.now
    && p.tree_digest == a.tree_digest
    && not (differs p.destination_exists a.destination_exists)
    && p.destination_digest == a.destination_digest

-- a job as a request makes it
unfoldable pub fresh : Job → Bool
fresh job =
    job.state == "queued"
    && job.destructive_plan_id == ""
    && not (job.signed_auth_bound || job.requires_signed_auth)
    && job.signed_auth_actor_id == ""
    && job.signed_auth_credential_id == ""

unfoldable pub accepted_job : DestructivePlan → Job → Job
accepted_job p job = record job {
  destructive_plan_id = p.id;
  state = "waiting_validation";
  phase = "waiting_authorization";
  error = "destructive plan execution requires authorization";
}

unfoldable pub consume : DestructivePlan → String → String → String → DestructivePlan
consume p job_id key hash = record p {
  consumed_job_id = job_id;
  idempotency_key = key;
  request_hash = hash;
}

module _ (sha256_hex : String → String) where
  -- `destructiveIdempotencyKey`
  unfoldable pub destructive_idempotency_key : String → String → String → String
  destructive_idempotency_key subject_type subject_id key =
      sha256_hex (subject_type <> (separator <> (subject_id <> (separator <> key))))

  -- a plan that was consumed: the same request has its job again
  accept_again : DestructivePlan → Acceptance → M (Job × Bool)
  accept_again p a = do
    reject (not (p.idempotency_key == a.idempotency_key && p.request_hash == a.request_hash)) in_use
    t ← reads (λ t. t)
    job ← found (get_job t p.consumed_job_id)
    pure (job, true)

  accept_first : DestructivePlan → Acceptance → M (Job × Bool)
  accept_first p a = do
    reject (not (unchanged p a && valid_key_id a.job.id && fresh a.job)) in_use
    t ← reads (λ t. t)
    reject (is_some (get_job t a.job.id)) in_use
    let key = destructive_idempotency_key a.subject_type a.subject_id a.idempotency_key
    reject (is_some (get_destructive_idempotency t key)) idempotency_conflict
    write (put_plan (consume p a.job.id a.idempotency_key a.request_hash))
    write (put_job (accepted_job p a.job))
    write (
        put_destructive_idempotency key
          (record { job_id = a.job.id; request_hash = a.request_hash }))
    pure (accepted_job p a.job, false)

  -- the callback of `AcceptDestructivePlan`
  unfoldable pub accept : Acceptance → M (Job × Bool)
  unfolding accept_again accept_first
  accept a = do
    t ← reads (λ t. t)
    p ← found (get_plan t a.plan_id)
    reject (not (confirms p a)) in_use
    if p.consumed_job_id == "" then accept_first p a else accept_again p a

  -- `AcceptDestructivePlan`
  unfoldable pub accept_destructive_plan :
      Disk → Acceptance → Store → Result StoreError (Job × Bool) × Store
  accept_destructive_plan d a s =
      if not (well_formed a) then (err in_use, s) else update d (accept a) s
