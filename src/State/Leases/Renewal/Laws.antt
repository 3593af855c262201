-- ===== src/State/Leases/Renewal/Laws.antt =====
-- What a renewal has checked, and the revision that it records.
use jolt.Prelude.{
  ℕ, ◌+◌, ◌≡◌, refl, sym, ◌∙◌, ap, String, true, Option, none, some, arith, ◌==◌, eq_iff, eq_refl,
  if◌then◌else◌, is_some, ok, [], ◌∷◌, ◌++◌, Option-cases, inl, inr,
}
use jolt.SignedAuth.Binding.{Binding}
use jolt.SignedAuth.Verify.{Wire, Keys, Time, Verified, from_unix}
use jolt.SignedAuth.Lease.{verify_job_lease}
use jolt.State.Entities.{Job, JobAuthorization}
use jolt.SignedAuth.Laws.{same_binding-eq}
use jolt.State.Tables.{put_job, put_authorization, job_key, job_order, get_job, get_authorization}
use jolt.State.Tables.Laws.{find-key}
use jolt.State.Transaction.Leased.{lease_after, lease_after-append, update-lease}
use jolt.State.Transaction.{Store, Disk, Tx, M, begin, update, ensure_security_version}
use jolt.State.Transaction.Rows.{update-result}
use jolt.State.Leases.{job_authorization_matches, plan_confirms}
use jolt.State.Leases.Renewal.{
  renewable, renewed, stale, expires_with, record_lease, next_lease, after_lease, renew,
  renew_job_authorization,
}

-- The revision that a renewal by an envelope records: that of the stored lease, if it is the same
-- envelope again, and else the next.
abbrev pub next_revision : Option JobAuthorization → String → ℕ
next_revision none envelope = 1
next_revision (some old) envelope =
    if old.envelope == envelope then old.revision else old.revision + 1

module _ (w : Wire) (node_id : String) (keys : Keys) (now : Time) where
  next_lease-checked :
      (job : Job) (envelope : String) (expected : Binding) (revision : ℕ) (tx : Tx)
      (a : JobAuthorization)
      → (next_lease w node_id keys now job envelope expected revision tx).0 ≡ ok a
      → (is_some (verify_job_lease w envelope keys expected node_id revision now) ≡ true)
        × (a.envelope ≡ envelope)
        × (a.revision ≡ revision)
  unfolding next_lease record_lease ensure_security_version
  next_lease-checked job envelope expected revision tx a h =
      (ground arith, ground arith, ground arith)

  after_lease-checked :
      (job : Job) (envelope : String) (expected : Binding) (stored : Option JobAuthorization)
      (tx : Tx) (a : JobAuthorization)
      → (after_lease w node_id keys now job envelope expected stored tx).0 ≡ ok a
      → (is_some (verify_job_lease w envelope keys expected node_id a.revision now) ≡ true)
        × (a.envelope ≡ envelope)
        × (a.revision ≡ next_revision stored envelope)
  unfolding after_lease expires_with
  after_lease-checked job envelope expected none tx a h =
      let step = next_lease-checked job envelope expected 1 tx a in
      (ground (arith, step), ground (arith, step), ground (arith, step))
  after_lease-checked job envelope expected (some old) tx a h =
      let step = next_lease-checked job envelope expected (old.revision + 1) tx a in
      (
        ground (arith, step, eq_iff old.envelope envelope),
        ground (arith, step, eq_iff old.envelope envelope),
        ground (arith, step, eq_iff old.envelope envelope),
      )

  record_lease-stored :
      (job : Job) (envelope : String) (expected : Binding) (revision : ℕ) (v : Option Verified)
      (tx : Tx) (a : JobAuthorization) (o : Option JobAuthorization)
      → (record_lease w node_id keys now job envelope expected revision v tx).0 ≡ ok a
      → (a.binding ≡ expected)
        × (lease_after job.id
              (record_lease w node_id keys now job envelope expected revision v tx).1.writes
              o
            ≡ some a)
  unfolding record_lease ensure_security_version lease_after
  record_lease-stored job envelope expected revision none tx a o h = absurd (ground arith)
  record_lease-stored job envelope expected revision (some v) tx a o h =
      let authorization : JobAuthorization = record {
        job_id = job.id;
        binding = expected;
        revision = revision;
        envelope = envelope;
        expires_at = from_unix v.claims.expires_at;
      } in
      let leased = tx.writes ++ (put_authorization authorization ∷ []) in
      (
        ground arith,
        ground (
          arith,
          lease_after-append job.id tx.writes (put_authorization authorization ∷ []) o,
          lease_after-append job.id leased (put_job (renewed job now) ∷ []) o,
          eq_refl job.id,
        ),
      )

  after_lease-stored :
      (job : Job) (envelope : String) (expected : Binding) (stored : Option JobAuthorization)
      (tx : Tx) (a : JobAuthorization)
      → lease_after job.id tx.writes stored ≡ stored
      → (after_lease w node_id keys now job envelope expected stored tx).0 ≡ ok a
      → (a.binding ≡ expected)
        × (lease_after job.id
              (after_lease w node_id keys now job envelope expected stored tx).1.writes
              stored
            ≡ some a)
  unfolding after_lease next_lease stale
  after_lease-stored job envelope expected none tx a e h = ground (
    arith,
    record_lease-stored job envelope expected 1
        (verify_job_lease w envelope keys expected node_id 1 now) tx a none,
  )
  after_lease-stored job envelope expected (some old) tx a e h =
      let step =
        record_lease-stored job envelope expected (old.revision + 1)
          (verify_job_lease w envelope keys expected node_id (old.revision + 1) now) tx a
          (some old) in
      (ground (arith, step, same_binding-eq old.binding expected), ground (arith, step))

  renew-stored :
      (id envelope : String) (expected : Binding) (tx : Tx) (a : JobAuthorization)
      → (renew w node_id keys now id envelope expected tx).0 ≡ ok a
      → is_some (get_job tx.tables id) ≡ true
  unfolding renew
  renew-stored id envelope expected tx a h = ground arith

  renew-checked :
      (id envelope : String) (expected : Binding) (tx : Tx) (a : JobAuthorization) (job : Job)
      → get_job tx.tables id ≡ some job
      → (renew w node_id keys now id envelope expected tx).0 ≡ ok a
      → (renewable job ≡ true)
        × (job_authorization_matches w job expected node_id ≡ true)
        × (plan_confirms tx.tables job expected.actor_id ≡ true)
        × ((after_lease w node_id keys now job envelope expected
              (get_authorization tx.tables job.id)
              tx).0
            ≡ ok a)
  unfolding renew
  renew-checked id envelope expected tx a job g h =
      (ground arith, ground arith, ground arith, ground arith)

  ran :
      (d : Disk) (id envelope : String) (expected : Binding) (s : Store) (a : JobAuthorization)
      → (renew_job_authorization w node_id keys now d id envelope expected s).0 ≡ ok a
      → (update d (renew w node_id keys now id envelope expected) s).0 ≡ ok a
  unfolding renew_job_authorization
  ran d id envelope expected s a h = ground arith

  -- the writes of the callback are those of its last step
  renew-writes :
      (id envelope : String) (expected : Binding) (tx : Tx) (a : JobAuthorization) (job : Job)
      → get_job tx.tables id ≡ some job
      → (renew w node_id keys now id envelope expected tx).0 ≡ ok a
      → renew w node_id keys now id envelope expected tx
        ≡ after_lease w node_id keys now job envelope expected
            (get_authorization tx.tables job.id)
            tx
  unfolding renew
  renew-writes id envelope expected tx a job g h = ground arith

  runs_update :
      (d : Disk) (id envelope : String) (expected : Binding) (s : Store) (a : JobAuthorization)
      → (renew_job_authorization w node_id keys now d id envelope expected s).0 ≡ ok a
      → renew_job_authorization w node_id keys now d id envelope expected s
        ≡ update d (renew w node_id keys now id envelope expected) s
  unfolding renew_job_authorization
  runs_update d id envelope expected s a h = ground arith

  -- the lease that a renewal returns is stored for the job
  renew-recorded :
      (d : Disk) (id envelope : String) (expected : Binding) (s : Store) (a : JobAuthorization)
      (job : Job)
      → get_job s.tables id ≡ some job
      → (renew_job_authorization w node_id keys now d id envelope expected s).0 ≡ ok a
      → (a.binding ≡ expected)
        × (get_authorization
              (renew_job_authorization w node_id keys now d id envelope expected s).1.tables
              job.id
            ≡ some a)
  unfolding lease_after
  renew-recorded d id envelope expected s a job g h =
      let m : M JobAuthorization = renew w node_id keys now id envelope expected in
      let u = ran d id envelope expected s a h in
      let returned = update-result d m s a u in
      let last = renew-writes id envelope expected (begin d s) a job g returned in
      let stored = get_authorization s.tables job.id in
      let (bound, recorded) =
        after_lease-stored job envelope expected stored (begin d s) a refl
          (ap (λ r. r.0) (sym last) ∙ returned) in
      (
        bound,
        ap (λ r. get_authorization r.1.tables job.id) (runs_update d id envelope expected s a h)
            ∙ update-lease d m s a job.id u
            ∙ ap (λ r. lease_after job.id r.1.writes stored) last
            ∙ recorded,
      )

  -- A renewal that succeeds is of a stored job in a state that can be renewed, whose request,
  -- options and actor are those of the binding and whose plan, if it has one, it consumed. The lease
  -- that it returns is stored for the job behind it, with the binding and the envelope that were
  -- given; the envelope verifies now, for this node, under the revision of that lease, which is the
  -- one stored before where the envelope is the one stored before, and else the next.
  pub renew_job_authorization-checked :
      (d : Disk) (id envelope : String) (expected : Binding) (s : Store) (a : JobAuthorization)
      → (renew_job_authorization w node_id keys now d id envelope expected s).0 ≡ ok a
      → (job : Job) × (get_job s.tables id ≡ some job)
        × (renewable job ≡ true)
        × (job_authorization_matches w job expected node_id ≡ true)
        × (plan_confirms s.tables job expected.actor_id ≡ true)
        × (get_authorization
              (renew_job_authorization w node_id keys now d id envelope expected s).1.tables
              id
            ≡ some a)
        × (is_some (verify_job_lease w envelope keys expected node_id a.revision now) ≡ true)
        × (a.binding ≡ expected)
        × (a.envelope ≡ envelope)
        × (a.revision ≡ next_revision (get_authorization s.tables id) envelope)
  renew_job_authorization-checked d id envelope expected s a h =
      let tx = begin d s in
      let returned =
        update-result d (renew w node_id keys now id envelope expected) s a
          (ran d id envelope expected s a h) in
      elim (Option-cases (get_job s.tables id)) [
        | inl e ↦ absurd (ground (arith, renew-stored id envelope expected tx a returned))
        | inr (job, e) ↦
            let (state, scope, plan, rest) =
              renew-checked id envelope expected tx a job e returned in
            let key : job.id ≡ id = find-key job_key job_order id job s.tables.jobs e in
            let stored = get_authorization s.tables job.id in
            let (valid, same, next) = after_lease-checked job envelope expected stored tx a rest in
            let (bound, recorded) = renew-recorded d id envelope expected s a job e h in
            let after = (renew_job_authorization w node_id keys now d id envelope expected s).1 in
            (
              job,
              e,
              state,
              scope,
              plan,
              ap (get_authorization after.tables) (sym key) ∙ recorded,
              valid,
              bound,
              same,
              next ∙ ap (λ k. next_revision (get_authorization s.tables k) envelope) key,
            )
      ]
