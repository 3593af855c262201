-- ===== src/State/Leases/Renewal/Safety.antt =====
-- A renewal starts no job.
use jolt.Prelude.{
  ℕ, ◌+◌, ◌≡◌, refl, ◌∙◌, ap, String, Bool, true, false, Option, none, some, [], ◌∷◌, ◌++◌, arith,
  ◌==◌, ok, implies, Bool-cases, Option-cases, inl, inr,
}
use jolt.SignedAuth.Binding.{Binding}
use jolt.SignedAuth.Verify.{Wire, Keys, Time, Verified, from_unix}
use jolt.SignedAuth.Lease.{verify_job_lease}
use jolt.State.Entities.{Job, JobAuthorization}
use jolt.State.Tables.{put_authorization, get_job, get_authorization}
use jolt.State.Transaction.{Store, Disk, Tx, begin, update, ensure_security_version}
use jolt.State.Transaction.Rows.{job_after, job_after-append, job_after-put, update-job}
use jolt.State.Claims.Secured.{runs}
use jolt.State.Leases.Renewal.{
  resumes, renewed, record_lease, next_lease, after_lease, renew, renew_job_authorization,
}

-- a job that is not running is none behind its renewal
renewed-runs :
    (job : Job) (now : Time)
    → (job.state == "running") ≡ false
    → runs (some (renewed job now)) ≡ false
unfolding renewed runs
renewed-runs job now h = elim (Bool-cases (job.state == "paused")) [
  | inl e ↦ ground (arith, e, h)
  | inr e ↦ elim (Bool-cases (resumes job)) [ inl r ↦ rw (e, r) refl | inr r ↦ rw (e, r) refl ]
]

module _ (w : Wire) (node_id : String) (keys : Keys) (now : Time) (k : String)
    (o : Option Job) where
  -- the records run no job that those of the state before do not
  abbrev no_start : Tx → Tx → Bool
  no_start tx tx' = implies (runs (job_after k tx'.writes o)) (runs (job_after k tx.writes o))

  record_lease-no_start :
      (job : Job) (envelope : String) (expected : Binding) (revision : ℕ) (v : Option Verified)
      (tx : Tx)
      → no_start tx (record_lease w node_id keys now job envelope expected revision v tx).1 ≡ true
  unfolding record_lease ensure_security_version job_after
  record_lease-no_start job envelope expected revision none tx = ground arith
  record_lease-no_start job envelope expected revision (some v) tx =
      let authorization : JobAuthorization = record {
        job_id = job.id;
        binding = expected;
        revision = revision;
        envelope = envelope;
        expires_at = from_unix v.claims.expires_at;
      } in
      let leased = tx.writes ++ (put_authorization authorization ∷ []) in
      ground (
        arith,
        job_after-append k tx.writes (put_authorization authorization ∷ []) o,
        job_after-put k leased (renewed job now) o,
        renewed-runs job now,
      )

  after_lease-no_start :
      (job : Job) (envelope : String) (expected : Binding) (stored : Option JobAuthorization)
      (tx : Tx)
      → no_start tx (after_lease w node_id keys now job envelope expected stored tx).1 ≡ true
  unfolding after_lease next_lease
  after_lease-no_start job envelope expected none tx = ground (
    arith,
    record_lease-no_start job envelope expected 1
        (verify_job_lease w envelope keys expected node_id 1 now) tx,
  )
  after_lease-no_start job envelope expected (some old) tx = ground (
    arith,
    record_lease-no_start job envelope expected (old.revision + 1)
        (verify_job_lease w envelope keys expected node_id (old.revision + 1) now) tx,
  )

  renew-no_start :
      (id envelope : String) (expected : Binding) (tx : Tx)
      → no_start tx (renew w node_id keys now id envelope expected tx).1 ≡ true
  unfolding renew
  renew-no_start id envelope expected tx = elim (Option-cases (get_job tx.tables id)) [
    | inl e ↦ ground arith
    | inr (job, e) ↦
        ground (
          arith,
          after_lease-no_start job envelope expected (get_authorization tx.tables job.id) tx,
        )
  ]

update_of :
    (w : Wire) (node_id : String) (keys : Keys) (now : Time) (d : Disk) (id envelope : String)
    (expected : Binding) (s : Store) (a : JobAuthorization)
    → (renew_job_authorization w node_id keys now d id envelope expected s).0 ≡ ok a
    → ((update d (renew w node_id keys now id envelope expected) s).0 ≡ ok a)
      × (renew_job_authorization w node_id keys now d id envelope expected s
          ≡ update d (renew w node_id keys now id envelope expected) s)
unfolding renew_job_authorization
update_of w node_id keys now d id envelope expected s a h = ground arith

-- A renewal of a lease that succeeds makes no stored job run: a job that it queues runs only when it
-- is claimed.
pub renew_job_authorization-starts_none :
    (w : Wire) (node_id : String) (keys : Keys) (now : Time) (d : Disk) (id envelope : String)
    (expected : Binding) (s : Store) (a : JobAuthorization) (k : String)
    → (renew_job_authorization w node_id keys now d id envelope expected s).0 ≡ ok a
    → implies
        (runs (
          get_job (renew_job_authorization w node_id keys now d id envelope expected s).1.tables k))
        (runs (get_job s.tables k))
      ≡ true
unfolding job_after
renew_job_authorization-starts_none w node_id keys now d id envelope expected s a k h =
    let m = renew w node_id keys now id envelope expected in
    let before = get_job s.tables k in
    let (ran, same) = update_of w node_id keys now d id envelope expected s a h in
    ap (λ r. implies (runs (get_job r.1.tables k)) (runs before)) same
    ∙ ap (λ x. implies (runs x) (runs before)) (update-job d m s a k ran)
    ∙ renew-no_start w node_id keys now k before id envelope expected (begin d s)
