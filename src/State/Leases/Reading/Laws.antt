-- ===== src/State/Leases/Reading/Laws.antt =====
-- What the validation of a job reads.
use jolt.Prelude.{◌≡◌, refl, String, Option, none, some, arith, ok}
use jolt.FileTypes.Context.{Filter}
use jolt.SignedAuth.Verify.{Wire, Keys, Time, Verified}
use jolt.SignedAuth.Lease.{verify_job_lease}
use jolt.State.Entities.{Job, JobAuthorization}
use jolt.State.Tables.{Tables, get_job, get_authorization, job_key, job_order}
use jolt.State.Tables.Laws.{find-key}
use jolt.State.Transaction.{Store, Disk, view}
use jolt.State.Leases.{checked_lease, persisted_lease, verified_job_lease}
use jolt.State.Leases.Reading.{verified_lease, validate_job, validate_job_authorization}

module _ (w : Wire) (node_id : String) (keys : Keys) (now : Time) where
  checked_lease-same :
      (a b : JobAuthorization) (f : Filter) (o : Option Verified)
      → checked_lease w a o ≡ some (b, f)
      → a ≡ b
  unfolding checked_lease
  checked_lease-same a b f none h = ground arith
  checked_lease-same a b f (some v) h = ground arith

  persisted_lease-stored :
      (t : Tables) (job : Job) (a : JobAuthorization) (f : Filter) (o : Option JobAuthorization)
      → persisted_lease w t job node_id keys now o ≡ some (a, f)
      → o ≡ some a
  unfolding persisted_lease
  persisted_lease-stored t job a f none h = ground arith
  persisted_lease-stored t job a f (some b) h = ground (
    arith,
    checked_lease-same b a f (verify_job_lease w b.envelope keys b.binding node_id b.revision now),
  )

  validate_job-stored :
      (t : Tables) (id : String) (a : JobAuthorization) (f : Filter) (o : Option Job)
      → get_job t id ≡ o
      → validate_job w node_id keys now t o ≡ ok (a, f)
      → get_authorization t id ≡ some a
  unfolding validate_job verified_lease verified_job_lease
  validate_job-stored t id a f none e h = ground arith
  validate_job-stored t id a f (some job) e h =
      let stored = persisted_lease-stored t job a f (get_authorization t job.id) in
      let same : job.id ≡ id = find-key job_key job_order id job t.jobs e in
      ground (arith, stored, same)

  -- a job that validates does so with the lease that is stored for it
  pub validate_job_authorization-stored :
      (d : Disk) (id : String) (s : Store) (a : JobAuthorization) (f : Filter)
      → validate_job_authorization w node_id keys now d id s ≡ ok (a, f)
      → get_authorization s.tables id ≡ some a
  unfolding validate_job_authorization view
  validate_job_authorization-stored d id s a f h =
      validate_job-stored s.tables id a f (get_job s.tables id) refl (ground arith)
