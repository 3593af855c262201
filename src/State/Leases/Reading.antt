-- ===== src/State/Leases/Reading.antt =====
-- job_authorizations.go: the reads of leases, of their status and of the plan of a job
pub mod Laws
use jolt.Prelude.{
  ℕ, String, ◌||◌, not, Option, none, some, [], ◌∷◌, ◌==◌, eqb, if◌then◌else◌, contains, Result, ok,
  err,
}
use jolt.FileTypes.Context.{Filter}
use jolt.SignedAuth.Binding.{Binding, valid_key_id}
use jolt.SignedAuth.Verify.{Wire, Keys, Time}
use jolt.State.Entities.{Job, DestructivePlan, JobAuthorization}
use jolt.State.Tables.{Tables, get_job, get_plan, get_authorization}
use jolt.State.Transaction.{StoreError, not_found, in_use, Store, Disk, view}
use jolt.State.Leases.{verified_job_lease}

module _ (w : Wire) (node_id : String) (keys : Keys) (now : Time) where
  verified_lease :
      Option (JobAuthorization × Filter) → Result StoreError (JobAuthorization × Filter)
  verified_lease none = err in_use
  verified_lease (some l) = ok l

  validate_job : Tables → Option Job → Result StoreError (JobAuthorization × Filter)
  unfolding verified_lease
  validate_job t none = err not_found
  validate_job t (some job) =
      if contains job.state ("queued" ∷ "running" ∷ "waiting_validation" ∷ [])
      then verified_lease (verified_job_lease w t job node_id keys now)
      else err in_use

  -- `ValidateJobAuthorization`
  unfoldable pub validate_job_authorization :
      Disk → String → Store → Result StoreError (JobAuthorization × Filter)
  unfolding validate_job
  validate_job_authorization d job_id s =
      if not (valid_key_id job_id) || not (valid_key_id node_id) || eqb now 0
      then err in_use
      else view d (λ t. validate_job t (get_job t job_id)) s

authorization_of : Option JobAuthorization → Result StoreError JobAuthorization
authorization_of none = err not_found
authorization_of (some a) = ok a

-- `GetJobAuthorization`
unfoldable pub get_job_authorization : Disk → String → Store → Result StoreError JobAuthorization
unfolding authorization_of
get_job_authorization d job_id s = view d (λ t. authorization_of (get_authorization t job_id)) s

plan_of : Job → Option DestructivePlan → Result StoreError DestructivePlan
plan_of job none = err not_found
plan_of job (some plan) =
    if not (plan.consumed_job_id == job.id)
      || not (plan.mount_id == job.mount_id)
      || not (plan.source == job.source_path)
      || not (plan.destination == job.destination)
      || (if plan.overwrite then not job.overwrite else job.overwrite)
    then err in_use
    else ok plan

plan_for : Tables → Option Job → Result StoreError DestructivePlan
unfolding plan_of
plan_for t none = err not_found
plan_for t (some job) =
    if job.destructive_plan_id == ""
    then err in_use
    else plan_of job (get_plan t job.destructive_plan_id)

-- `DestructivePlanForJob`
unfoldable pub destructive_plan_for_job : Disk → String → Store → Result StoreError DestructivePlan
unfolding plan_for
destructive_plan_for_job d job_id s =
    if not (valid_key_id job_id) then err in_use else view d (λ t. plan_for t (get_job t job_id)) s

-- `JobAuthorizationBinding`
unfoldable pub job_authorization_binding : Disk → String → Store → Result StoreError Binding
job_authorization_binding d job_id s = elim (get_job_authorization d job_id s) [
  | ok a ↦ ok a.binding
  | err e ↦ err e
]

-- the URL base64 of the SHA-256 digest of an envelope
module _ (envelope_digest : String → String) where
  lease_status : Job → Option JobAuthorization → Result StoreError (ℕ × Time × String)
  lease_status job none = if job.signed_auth_bound then err in_use else ok (0, 0, "")
  lease_status job (some current) =
      if not job.signed_auth_bound
        || not (current.job_id == job.id)
        || eqb current.revision 0
        || eqb current.expires_at 0
        || current.envelope == ""
      then err in_use
      else ok (current.revision, current.expires_at, envelope_digest current.envelope)

  job_status : Tables → Option Job → Result StoreError (ℕ × Time × String)
  unfolding lease_status
  job_status t none = err not_found
  job_status t (some job) = lease_status job (get_authorization t job.id)

  -- `JobAuthorizationStatus`
  unfoldable pub job_authorization_status :
      Disk → String → Store → Result StoreError (ℕ × Time × String)
  unfolding job_status
  job_authorization_status d job_id s = view d (λ t. job_status t (get_job t job_id)) s
