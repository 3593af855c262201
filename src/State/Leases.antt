-- ===== src/State/Leases.antt =====
-- job_authorizations.go: the signed leases of jobs, and their tests
pub mod Renewal
pub mod Reading
pub mod Guard
use jolt.Prelude.{
  ℕ, ◌+◌, ◌-◌, ◌*◌, String, Bool, true, false, ◌&&◌, ◌||◌, not, Option, none, some, List, [], ◌∷◌,
  ◌==◌, ltb, eqb, if◌then◌else◌, contains, is_some, Result, ok, err,
}
use jolt.FileTypes.Context.{Filter}
use jolt.SignedAuth.Binding.{Binding, same_binding, valid_key_id}
use jolt.SignedAuth.Verify.{JobOptions, Wire, Keys, Time, Verified, unix, from_unix}
use jolt.SignedAuth.Lease.{transfer_operations, verify_job_lease, verified_job_lease_binding}
use jolt.State.Entities.{Job, DestructivePlan, JobAuthorization}
use jolt.State.Tables.{
  Tables, Write, put_job, put_authorization, get_job, get_plan, get_authorization,
}
use jolt.State.Transaction.{
  StoreError, not_found, in_use, Store, Disk, Tx, M, ◌>>=◌, ◌>>◌, pure, fail, reject, reads, found,
  write, ensure_security_version, update, view,
}
use jolt.State.Secured.{secured_job_kind, executable_secured_job}

unfoldable pub job_options : Job → JobOptions
job_options job = record {
  overwrite = job.overwrite;
  recursive = job.recursive;
  conflict_policy = job.conflict_policy;
  source_change_policy = job.source_change_policy;
  verify_checksum = job.verify_checksum;
  bandwidth_limit = job.bandwidth_limit;
  max_parallel_files = job.max_parallel_files;
  max_parallel_chunks = job.max_parallel_chunks;
  max_attempts = job.max_attempts;
}

-- the `switch` of `jobAuthorizationMatches` on the type of the job
unfoldable pub scope_matches : Job → Binding → String → Bool
scope_matches job expected node_id =
    if job.kind == "delete"
    then expected.source_node_id == node_id
      && expected.source_mount_id == job.mount_id
      && expected.destination_node_id == ""
    else if job.kind == "copy_local" || job.kind == "move_local"
    then expected.source_node_id == node_id
      && expected.destination_node_id == node_id
      && expected.source_mount_id == job.mount_id
      && expected.destination_mount_id == job.mount_id
      && expected.destination_root == job.destination
    else if contains job.kind transfer_operations
    then expected.source_node_id == job.peer_node_id
      && expected.destination_node_id == node_id
      && expected.source_grant_id == job.source_grant_id
      && expected.destination_grant_id == job.destination_grant_id
      && expected.destination_mount_id == job.mount_id
      && expected.destination_root == job.destination
    else false

-- the plan of a job, if it has one, was consumed by this job and belongs to the actor
abbrev consumed_by : Job → String → Option DestructivePlan → Bool
consumed_by job actor_id none = false
consumed_by job actor_id (some plan) = plan.consumed_job_id == job.id && plan.subject_id == actor_id

unfoldable pub plan_confirms : Tables → Job → String → Bool
plan_confirms t job actor_id =
    job.destructive_plan_id == "" || consumed_by job actor_id (get_plan t job.destructive_plan_id)

module _ (w : Wire) where
  options_match : Job → Binding → Bool
  options_match job expected =
      let digest = expected.job_options_digest in
      not (
        job.requires_signed_auth && digest == ""
        || not (digest == "") && not (digest == w.options_digest (job_options job)))

  -- `jobAuthorizationMatches`
  unfoldable pub job_authorization_matches : Job → Binding → String → Bool
  unfolding options_match
  job_authorization_matches job expected node_id =
      if job.requires_signed_auth
        && (not (job.signed_auth_actor_id == expected.actor_id)
            || not (job.signed_auth_credential_id == expected.credential_id))
      then false
      else if not (options_match job expected)
      then false
      else if not (expected.plan_id == job.id)
          || not (expected.operation == job.kind)
          || not (expected.request_id == "")
          || not (expected.source_root == job.source_path)
      then false
      else scope_matches job expected node_id

  -- the last test of `verifiedJobLease`, on the claims
  checked_lease : JobAuthorization → Option Verified → Option (JobAuthorization × Filter)
  checked_lease current none = none
  checked_lease current (some v) =
      if eqb v.claims.expires_at (unix current.expires_at) then some (current, v.filter) else none

  persisted_lease :
      Tables
      → Job
      → String
      → Keys
      → Time
      → Option JobAuthorization
      → Option (JobAuthorization × Filter)
  unfolding checked_lease
  persisted_lease t job node_id keys now none = none
  persisted_lease t job node_id keys now (some current) =
      if not job.signed_auth_bound
        || not (current.job_id == job.id)
        || not (job_authorization_matches job current.binding node_id)
      then none
      else if not (plan_confirms t job current.binding.actor_id)
      then none
      else checked_lease current
          (verify_job_lease w current.envelope keys current.binding node_id current.revision now)

  -- `verifiedJobLease`; every failure is `ErrInUse`
  unfoldable pub verified_job_lease :
      Tables → Job → String → Keys → Time → Option (JobAuthorization × Filter)
  unfolding persisted_lease
  verified_job_lease t job node_id keys now =
      persisted_lease t job node_id keys now (get_authorization t job.id)
