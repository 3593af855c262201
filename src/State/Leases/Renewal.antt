-- ===== src/State/Leases/Renewal.antt =====
-- job_authorizations.go: the operations on the leases. `math.MaxUint64` bounds the revisions.
pub mod Laws
pub mod Safety
use jolt.Prelude.{
  ℕ, ◌+◌, String, ◌<>◌, Bool, true, false, ◌&&◌, ◌||◌, not, Option, none, some, List, [], ◌∷◌, ◌==◌,
  leb, eqb, if◌then◌else◌, contains, is_some, Result, ok, err,
}
use jolt.FileTypes.Context.{Filter}
use jolt.SignedAuth.Binding.{Binding, same_binding, valid_key_id}
use jolt.SignedAuth.Verify.{Wire, Keys, Time, Verified, unix, from_unix}
use jolt.SignedAuth.Lease.{verify_job_lease, verified_job_lease_binding}
use jolt.State.Entities.{Job, DestructivePlan, JobAuthorization}
use jolt.State.Tables.{
  Tables, Write, put_job, put_authorization, get_job, get_plan, get_authorization,
}
use jolt.State.Transaction.{
  StoreError, not_found, in_use, Store, Disk, Tx, M, ◌>>=◌, ◌>>◌, pure, fail, reject, reads, found,
  write, ensure_security_version, update, view,
}
use jolt.State.Secured.{secured_job_kind, executable_secured_job}
use jolt.State.Leases.{job_authorization_matches, plan_confirms, verified_job_lease}

abbrev pub max_revision : ℕ
max_revision = 18_446_744_073_709_551_615

-- the `switch` on the state of the job
unfoldable pub renewable : Job → Bool
renewable job =
    contains job.state ("queued" ∷ "waiting_validation" ∷ "paused" ∷ "interrupted" ∷ [])
    || job.state == "running" && executable_secured_job job

-- a job that stopped for lack of authorization resumes by itself
unfoldable pub resumes : Job → Bool
resumes job =
    secured_job_kind job
    && (job.state == "queued"
        || job.state == "waiting_validation" && job.phase == "waiting_authorization")

-- what a new lease makes of a job that is not running
unfoldable pub renewed : Job → Time → Job
renewed job now =
    let bound = record job { signed_auth_bound = true; updated_at = now } in
    if job.state == "paused"
    then bound
    else if resumes job
    then record bound { state = "queued"; phase = "validation"; error = "" }
    else record bound {
      state = "waiting_validation";
      phase = "waiting_validation";
      error = "job execution requires authorization renewal and validation";
      next_attempt_at = none;
    }

-- the stored lease cannot be renewed for the job and the binding
unfoldable pub stale : Job → Binding → JobAuthorization → Bool
stale job expected old =
    not job.signed_auth_bound
    || not (old.job_id == job.id)
    || eqb old.revision max_revision
    || not (same_binding old.binding expected)

expires_with : JobAuthorization → Option Verified → Bool
expires_with old none = false
expires_with old (some v) = eqb v.claims.expires_at (unix old.expires_at)

module _ (w : Wire) (node_id : String) (keys : Keys) (now : Time) where
  -- the end of `RenewJobAuthorization`, under the next revision
  record_lease : Job → String → Binding → ℕ → Option Verified → M JobAuthorization
  record_lease job envelope expected revision none = fail in_use
  record_lease job envelope expected revision (some v) =
      let authorization : JobAuthorization = record {
        job_id = job.id;
        binding = expected;
        revision = revision;
        envelope = envelope;
        expires_at = from_unix v.claims.expires_at;
      } in
      ensure_security_version 5
      >> write (put_authorization authorization)
      >> (if job.state == "running" then pure tt else write (put_job (renewed job now)))
      >> pure authorization

  next_lease : Job → String → Binding → ℕ → M JobAuthorization
  unfolding record_lease
  next_lease job envelope expected revision =
      record_lease job envelope expected revision
        (verify_job_lease w envelope keys expected node_id revision now)

  -- the test of the exact current envelope, and the choice of the revision
  after_lease : Job → String → Binding → Option JobAuthorization → M JobAuthorization
  unfolding next_lease expires_with
  after_lease job envelope expected none =
      if job.signed_auth_bound then fail in_use else next_lease job envelope expected 1
  after_lease job envelope expected (some old) =
      if stale job expected old
      then fail in_use
      else if old.envelope == envelope
      then reject
          (not
            (expires_with old (verify_job_lease w envelope keys expected node_id old.revision now)))
          in_use
        >> pure old
      else next_lease job envelope expected (old.revision + 1)

  -- the callback of `RenewJobAuthorization`
  unfoldable pub renew : String → String → Binding → M JobAuthorization
  unfolding after_lease
  renew job_id envelope expected = do
    t ← reads (λ t. t)
    job ← found (get_job t job_id)
    reject (not (renewable job)) in_use
    reject (not (job_authorization_matches w job expected node_id)) in_use
    reject (not (plan_confirms t job expected.actor_id)) in_use
    after_lease job envelope expected (get_authorization t job.id)

  -- `RenewJobAuthorization`
  unfoldable pub renew_job_authorization :
      Disk → String → String → Binding → Store → Result StoreError JobAuthorization × Store
  renew_job_authorization d job_id envelope expected s =
      if not (valid_key_id job_id) || not (valid_key_id node_id) || eqb now 0 || envelope == ""
      then (err in_use, s)
      else update d (renew job_id envelope expected) s

  registered : Result StoreError JobAuthorization → Result StoreError (ℕ × Time)
  registered (ok a) = ok (a.revision, a.expires_at)
  registered (err e) = err e

  register_binding :
      Disk → String → String → Option Binding → Store → Result StoreError (ℕ × Time) × Store
  unfolding registered
  register_binding d job_id envelope none s = (err in_use, s)
  register_binding d job_id envelope (some binding) s =
      if not (binding.plan_id == job_id)
      then (err in_use, s)
      else (let (r, s') = renew_job_authorization d job_id envelope binding s in (registered r, s'))

  -- `RegisterSignedJobAuthorization`
  unfoldable pub register_signed_job_authorization :
      Disk → String → String → Store → Result StoreError (ℕ × Time) × Store
  unfolding register_binding
  register_signed_job_authorization d job_id envelope s =
      register_binding d job_id envelope (verified_job_lease_binding w envelope keys node_id now) s
