-- ===== src/State/Leases/Guard/Laws.antt =====
-- The lease that a guard holds, and the end of its watch.
use jolt.Prelude.{
  ◌≤◌, ◌≡◌, refl, ◌∙◌, false, Option, none, some, List, [], ◌∷◌, ◌++◌, eqb, arith, eq_iff, ok, err,
  Bool-cases, inl, inr, String, ℕ,
}
use jolt.FileTypes.Context.{Filter}
use jolt.SignedAuth.Verify.{Wire, Keys, Time, Verified}
use jolt.SignedAuth.Laws.{same_binding-eq}
use jolt.State.Entities.{JobAuthorization}
use jolt.State.Transaction.{Store, Disk}
use jolt.State.Leases.Reading.{validate_job_authorization}
use jolt.State.Leases.Guard.{
  Cause, Guard, Watch, watching, canceled_by, Wake, done, woken, Reading, supersedes_not,
  verify_lease, follow, compare, open_guard, open_reading, observe, watch, guard_job_authorization,
}

module _ (w : Wire) (node_id : String) (keys : Keys) where
  -- the lease of the guard was verified once, with the policy context of the guard
  abbrev pub IsHeld : Guard → Type 0
  IsHeld g =
      (now : Time) × (v : Verified) × (verify_lease w node_id keys g.lease now ≡ some v)
      × (v.claims.context ≡ g.policy)

  -- the later guard has the policy and the binding of the earlier one, and no lower revision
  abbrev pub Follows : Guard → Guard → Type 0
  Follows g g' =
      (g'.policy ≡ g.policy)
      × (g'.lease.binding ≡ g.lease.binding)
      × (g.lease.revision ≤ g'.lease.revision)

  -- the reading shows the lease of the guard
  abbrev pub Shows : Reading → Guard → Type 0
  Shows r g =
      (a : JobAuthorization) × (f : Filter) × (r ≡ ok (a, f))
      × (a.envelope ≡ g.lease.envelope)
      × (a.revision ≡ g.lease.revision)
      × (a.binding ≡ g.lease.binding)

  -- what the tests of a turn say of a lease that goes on
  superseding :
      (current next : JobAuthorization)
      → supersedes_not current next ≡ false
      → (next.binding ≡ current.binding) × (current.revision ≤ next.revision)
  unfolding supersedes_not
  superseding current next h =
      (same_binding-eq next.binding current.binding (ground arith), ground arith)

  renewed_or_same :
      (current next : JobAuthorization)
      → supersedes_not current next ≡ false
      → next.revision ≡ current.revision
      → next.envelope ≡ current.envelope
  unfolding supersedes_not
  renewed_or_same current next h r = ground (arith, eq_iff next.envelope current.envelope)

  follow-kept :
      (g g' : Guard) (next : JobAuthorization) (now : Time) (o : Option Verified)
      → verify_lease w node_id keys next now ≡ o
      → follow w node_id keys g next o ≡ watching g'
      → (g'.policy ≡ g.policy) × (g'.lease ≡ next) × IsHeld g'
  unfolding follow
  follow-kept g g' next now none v h = ground arith
  follow-kept g g' next now (some u) v h =
      let policy : g'.policy ≡ g.policy = ground arith in
      let lease : g'.lease ≡ next = ground arith in
      (policy, lease, (now, u, rw (lease) v, ground (arith, eq_iff g.policy u.claims.context)))

  compare-kept :
      (g g' : Guard) (now : Time) (r : Reading)
      → IsHeld g
      → compare w node_id keys g now r ≡ watching g'
      → Follows g g' × IsHeld g' × Shows r g'
  unfolding compare
  compare-kept g g' now (err e) held h = ground arith
  compare-kept g g' now (ok (next, f)) held h =
      let (binding, revision) = superseding g.lease next (ground arith) in
      elim (Bool-cases (eqb next.revision g.lease.revision)) [
        | inl e ↦
            let same : g' ≡ g = ground arith in
            let envelope : next.envelope ≡ g.lease.envelope =
              renewed_or_same g.lease next (ground arith) (ground arith) in
            rw (same)
              ((refl, refl, ground arith), held, (next, f, refl, envelope, ground arith, binding))
        | inr e ↦
            let (policy, lease, held') =
              follow-kept g g' next now (verify_lease w node_id keys next now) refl
                (ground arith) in
            (
              (policy, rw (lease) binding, rw (lease) revision),
              held',
              (next, f, refl, rw (lease) refl, rw (lease) refl, rw (lease) refl),
            )
      ]

  open_guard-IsHeld :
      (g : Guard) (f filter : Filter) (current : JobAuthorization) (now : Time)
      (o : Option Verified)
      → verify_lease w node_id keys current now ≡ o
      → open_guard w node_id keys current filter o ≡ ok (g, f)
      → IsHeld g
  unfolding open_guard
  open_guard-IsHeld g f filter current now none v h = ground arith
  open_guard-IsHeld g f filter current now (some u) v h =
      let lease : g.lease ≡ current = ground arith in (now, u, rw (lease) v, ground arith)

  open_reading-IsHeld :
      (g : Guard) (f : Filter) (now : Time) (r : Reading)
      → open_reading w node_id keys now r ≡ ok (g, f)
      → IsHeld g
  unfolding open_reading
  open_reading-IsHeld g f now (err e) h = ground arith
  open_reading-IsHeld g f now (ok (current, filter)) h =
      open_guard-IsHeld g f filter current now (verify_lease w node_id keys current now) refl h

  module _ (job_id : String) where
    -- a watch that goes on has kept to the guard that began it
    abbrev Kept : Guard → Watch → Type 0
    Kept g o = (g' : Guard) → o ≡ watching g' → Follows g g' × IsHeld g'

    pub canceled-stays :
        (c : Cause) (wakes : List Wake)
        → watch w node_id keys job_id (canceled_by c) wakes ≡ canceled_by c
    unfolding watch
    canceled-stays c [] = refl
    canceled-stays c (x ∷ wakes) = refl

    observe-Kept :
        (g g' : Guard) (x : Wake)
        → Follows g g'
        → IsHeld g'
        → Kept g (observe w node_id keys job_id g' x)
    unfolding observe
    observe-Kept g g' done f held g'' h = ground arith
    observe-Kept g g' (woken d s now) (p, b, r) held g'' h =
        let ((p', b', r'), held', _) =
          compare-kept g' g'' now (validate_job_authorization w node_id keys now d job_id s) held
            h in
        ((p' ∙ p, b' ∙ b, ground arith), held')

    opening : (g : Guard) → IsHeld g → Kept g (watching g)
    opening g held g' h =
        let same : g' ≡ g = ground arith in rw (same) ((refl, refl, ground arith), held)

    watch-Kept :
        (g g' : Guard) (o : Watch) (wakes : List Wake) (d : Disk) (s : Store) (now : Time)
        → Kept g o
        → watch w node_id keys job_id o (wakes ++ (woken d s now ∷ [])) ≡ watching g'
        → Follows g g'
          × IsHeld g'
          × Shows (validate_job_authorization w node_id keys now d job_id s) g'
    unfolding watch observe
    watch-Kept g g' (canceled_by c) wakes d s now kept h =
        let stays = canceled-stays c (wakes ++ (woken d s now ∷ [])) in ground (arith, stays)
    watch-Kept g g' (watching k) [] d s now kept h =
        let ((p, b, r), held) = kept k refl in
        let ((p', b', r'), held', shown) =
          compare-kept k g' now (validate_job_authorization w node_id keys now d job_id s) held h in
        ((p' ∙ p, b' ∙ b, ground arith), held', shown)
    watch-Kept g g' (watching k) (x ∷ wakes) d s now kept h =
        let (f, held) = kept k refl in
        watch-Kept g g' (observe w node_id keys job_id k x) wakes d s now
          (observe-Kept g k x f held) h

    -- A guard that was opened and still watches behind a wake has, then, the store's word for its
    -- lease: the job validates with the envelope, the revision and the binding that the guard holds.
    -- The lease it holds was verified, with the policy context and the binding of the lease it was
    -- opened with, under no lower revision.
    pub watch-authorized :
        (interval : ℕ) (d : Disk) (s : Store) (now : Time) (g : Guard) (f : Filter)
        (wakes : List Wake) (d' : Disk) (s' : Store) (now' : Time) (g' : Guard)
        → guard_job_authorization w node_id keys job_id interval d s now ≡ ok (g, f)
        → watch w node_id keys job_id (watching g) (wakes ++ (woken d' s' now' ∷ [])) ≡ watching g'
        → Follows g g'
          × IsHeld g'
          × Shows (validate_job_authorization w node_id keys now' d' job_id s') g'
    unfolding guard_job_authorization
    watch-authorized interval d s now g f wakes d' s' now' g' o h =
        let held =
          open_reading-IsHeld g f now (validate_job_authorization w node_id keys now d job_id s)
            (ground arith) in
        watch-Kept g g' (watching g) wakes d' s' now' (opening g held) h
