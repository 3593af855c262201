-- ===== src/State/Jobs/Awaiting.antt =====
-- jobs.go: the creation of jobs that wait for a signed authorization
pub mod Laws
pub mod Moves
use jolt.Prelude.{
  String, Bool, true, false, ◌&&◌, ◌||◌, not, Option, none, some, List, [], ◌==◌, eqb, length,
  if◌then◌else◌, is_some, Result, err,
}
use jolt.SignedAuth.Binding.{valid_key_id}
use jolt.State.Entities.{Job, JobItem, DestructivePlan, MovePlanBinding, IdempotencyRecord}
use jolt.State.Tables.{put_job, put_plan, put_idempotency, get_job, get_plan, get_idempotency}
use jolt.State.Transaction.{
  StoreError, in_use, idempotency_conflict, Store, Disk, M, ◌>>=◌, ◌>>◌, pure, fail, reject, reads,
  found, write, ensure_security_version, update,
}
use jolt.State.Plans.{plan_digest, plan_live}
use jolt.State.Plans.Accept.{consume}
use jolt.State.Jobs.{carries_authorization, put_items}

-- the actor and the credential that a job is bound to
pub record Actor : Type 0 where
  pub actor_id : String
  pub credential_id : String

-- the tests of `consumeMovePlan`, whose failures are all alike
unfoldable pub move_confirmed : DestructivePlan → MovePlanBinding → String → Job → Bool
move_confirmed p binding actor_id job =
    p.operation == "transfer_move"
    && p.subject_type == binding.subject_type
    && p.subject_id == actor_id
    && p.mount_id == job.mount_id
    && p.consumed_job_id == ""
    && p.token_hash == binding.token_hash
    && p.tree_digest == binding.digest
    && plan_live p binding.now

consume_stored : Job → String → String → String → MovePlanBinding → Option DestructivePlan → M Job
consume_stored job actor_id key hash binding none = fail in_use
consume_stored job actor_id key hash binding (some p) = do
  reject (not (move_confirmed p binding actor_id job)) in_use
  write (put_plan (consume p job.id key hash))
  pure (record job { destructive_plan_id = p.id })

-- `consumeMovePlan`, where there is a plan
unfoldable pub consume_move_plan : Job → String → String → String → Option MovePlanBinding → M Job
unfolding consume_stored
consume_move_plan job actor_id key hash none = pure job
consume_move_plan job actor_id key hash (some binding) = do
  t ← reads (λ t. t)
  consume_stored job actor_id key hash binding (get_plan t binding.plan_id)

unfoldable pub awaiting : Job → Actor → Job
awaiting j a = record j {
  requires_signed_auth = true;
  signed_auth_actor_id = a.actor_id;
  signed_auth_credential_id = a.credential_id;
  state = "waiting_validation";
  phase = "waiting_authorization";
  error = "job execution requires authorization and validation";
  next_attempt_at = none;
}

wants_plan : Job → Option MovePlanBinding → Bool
wants_plan stored none = true
wants_plan stored (some binding) = stored.destructive_plan_id == binding.plan_id

-- a stored job that answers a repeated request
unfoldable pub answers : Job → Actor → Option MovePlanBinding → Bool
unfolding wants_plan
answers stored a plan =
    stored.requires_signed_auth
    && stored.signed_auth_actor_id == a.actor_id
    && stored.signed_auth_credential_id == a.credential_id
    && wants_plan stored plan

-- the callback of `createJobAwaitingAuthorization`, by what is stored under the key
unfoldable pub await :
    Job
    → List JobItem
    → Actor
    → String
    → String
    → Option MovePlanBinding
    → Option (String × IdempotencyRecord)
    → M (Job × Bool)
await j items a key hash plan (some previous) = do
  reject (not (previous.1.request_hash == hash)) idempotency_conflict
  t ← reads (λ t. t)
  stored ← found (get_job t previous.1.job_id)
  reject (not (answers stored a plan)) idempotency_conflict
  pure (stored, true)
await j items a key hash plan none = do
  t ← reads (λ t. t)
  reject (is_some (get_job t j.id)) in_use
  ensure_security_version 6
  planned ← consume_move_plan j a.actor_id key hash plan
  write (put_job (awaiting planned a))
  put_items j.id [] items
  write (put_idempotency key (record { job_id = j.id; request_hash = hash }))
  pure (awaiting planned a, false)

-- the first test of `createJobAwaitingAuthorization`
unfoldable pub may_await : Job → Actor → String → String → Bool
may_await j a key hash =
    valid_key_id j.id
    && valid_key_id j.mount_id
    && valid_key_id a.actor_id
    && valid_key_id a.credential_id
    && not (key == "")
    && not (hash == "")
    && j.state == "queued"
    && not (carries_authorization j)

create_awaiting :
    Disk
    → Job
    → List JobItem
    → Actor
    → String
    → String
    → Option MovePlanBinding
    → Store
    → Result StoreError (Job × Bool) × Store
create_awaiting d j items a key hash plan s =
    if not (may_await j a key hash)
    then (err in_use, s)
    else update d (do t ← reads (λ t. t); await j items a key hash plan (get_idempotency t key)) s

-- `CreateJobAwaitingAuthorization`
unfoldable pub create_job_awaiting_authorization :
    Disk → Job → Actor → String → String → Store → Result StoreError (Job × Bool) × Store
unfolding create_awaiting
create_job_awaiting_authorization d j a key hash s =
    if not (j.kind == "delete") && not (j.kind == "copy_local") && not (j.kind == "move_local")
    then (err in_use, s)
    else create_awaiting d j [] a key hash none s

-- `CreatePlannedJobAwaitingAuthorization`
unfoldable pub create_planned_job_awaiting_authorization :
    Disk
    → Job
    → List JobItem
    → Actor
    → String
    → String
    → Store
    → Result StoreError (Job × Bool) × Store
unfolding create_awaiting
create_planned_job_awaiting_authorization d j items a key hash s =
    if not (j.kind == "transfer_pull_batch") || eqb (length items) 0
    then (err in_use, s)
    else create_awaiting d j items a key hash none s

-- `CreatePlannedMoveAwaitingAuthorization`
unfoldable pub create_planned_move_awaiting_authorization :
    Disk
    → Job
    → List JobItem
    → Actor
    → String
    → String
    → MovePlanBinding
    → Store
    → Result StoreError (Job × Bool) × Store
unfolding create_awaiting
create_planned_move_awaiting_authorization d j items a key hash plan s =
    if not (j.kind == "transfer_move_batch")
      || eqb (length items) 0
      || not (valid_key_id plan.plan_id)
      || not (plan_digest plan.token_hash)
      || not (plan_digest plan.digest)
      || eqb plan.now 0
    then (err in_use, s)
    else create_awaiting d j items a key hash (some plan) s
