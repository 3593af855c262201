-- ===== src/State/Leases/Guard/Expiry.antt =====
-- A watch ends when the lease of its guard is not renewed.
use jolt.Prelude.{
  ◌≤◌, ◌≡◌, refl, ◌∙◌, sym, ap, ◌⊎◌, Bool, true, false, Option, none, some, List, [], ◌∷◌, ◌++◌,
  leb, ltb, all, arith, ok, err, inl, inr, String,
}
use jolt.FileTypes.Context.{Filter}
use jolt.SignedAuth.Verify.{Wire, Keys, Time}
use jolt.State.Entities.{JobAuthorization}
use jolt.State.Tables.{get_authorization}
use jolt.State.Transaction.{Store, Disk}
use jolt.State.Leases.Reading.{validate_job_authorization}
use jolt.State.Leases.Reading.Laws.{validate_job_authorization-stored}
use jolt.State.Leases.Guard.{
  Guard, Watch, watching, canceled_by, stopped, Wake, done, woken, Reading, supersedes_not, compare,
  observe, watch,
}
use jolt.State.Leases.Guard.Laws.{canceled-stays}

-- the goroutine has canceled its context, or found it so, and returned
abbrev pub has_ended : Watch → Bool
has_ended (watching g) = false
has_ended (canceled_by c) = true

abbrev no_later : JobAuthorization → Option JobAuthorization → Bool
no_later current none = true
no_later current (some a) = leb a.revision current.revision

-- the store that a wake finds has no later lease of the job
abbrev pub unrenewed : String → JobAuthorization → Wake → Bool
unrenewed job_id current done = true
unrenewed job_id current (woken d s now) = no_later current (get_authorization s.tables job_id)

module _ (w : Wire) (node_id : String) (keys : Keys) where
  -- without a later lease a turn changes nothing before the expiry, or ends the watch
  compare-idle :
      (g : Guard) (now : Time) (r : Reading)
      → ((a : JobAuthorization) (f : Filter)
          → r ≡ ok (a, f)
          → leb a.revision g.lease.revision ≡ true)
      → ((compare w node_id keys g now r ≡ watching g) × (ltb now g.lease.expires_at ≡ true))
        ⊎ (has_ended (compare w node_id keys g now r) ≡ true)
  unfolding compare supersedes_not
  compare-idle g now (err e) idle = inr refl
  compare-idle g now (ok (a, f)) idle = ground (arith, idle a f refl)

  module _ (job_id : String) where
    reading-idle :
        (g : Guard) (d : Disk) (s : Store) (now : Time)
        → unrenewed job_id g.lease (woken d s now) ≡ true
        → (a : JobAuthorization) (f : Filter)
        → validate_job_authorization w node_id keys now d job_id s ≡ ok (a, f)
        → leb a.revision g.lease.revision ≡ true
    reading-idle g d s now h a f e =
        let stored = validate_job_authorization-stored w node_id keys now d job_id s a f e in
        ap (no_later g.lease) (sym stored) ∙ h

    woken-idle :
        (g : Guard) (d : Disk) (s : Store) (now : Time)
        → unrenewed job_id g.lease (woken d s now) ≡ true
        → ((observe w node_id keys job_id g (woken d s now) ≡ watching g)
            × (ltb now g.lease.expires_at ≡ true))
          ⊎ (has_ended (observe w node_id keys job_id g (woken d s now)) ≡ true)
    unfolding observe
    woken-idle g d s now h =
        compare-idle g now (validate_job_authorization w node_id keys now d job_id s)
          (reading-idle g d s now h)

    ended-stays :
        (o : Watch) (wakes : List Wake)
        → has_ended o ≡ true
        → has_ended (watch w node_id keys job_id o wakes) ≡ true
    ended-stays (watching g) wakes h = ground arith
    ended-stays (canceled_by c) wakes h = rw (canceled-stays w node_id keys job_id c wakes) refl

    -- a turn on which the guard goes on, if at all, as it was
    turn :
        (g : Guard) (o : Watch) (wakes : List Wake) {T : Type 0}
        → ((o ≡ watching g) × T) ⊎ (has_ended o ≡ true)
        → has_ended (watch w node_id keys job_id (watching g) wakes) ≡ true
        → has_ended (watch w node_id keys job_id o wakes) ≡ true
    turn g o wakes (inl (e, _)) rest = rw (e) rest
    turn g o wakes (inr e) rest = ended-stays o wakes e

    -- A guard ends its watch by the first wake at or after the expiry of its lease, whatever the
    -- wakes before it and behind it find, where the store has no later lease of the job up to then:
    -- it cancels its context, or found it canceled.
    pub watch-ends :
        (g : Guard) (before after : List Wake) (d : Disk) (s : Store) (late : Time)
        → all (unrenewed job_id g.lease) before ≡ true
        → unrenewed job_id g.lease (woken d s late) ≡ true
        → g.lease.expires_at ≤ late
        → has_ended (watch w node_id keys job_id (watching g) (before ++ (woken d s late ∷ after)))
          ≡ true
    unfolding watch observe
    watch-ends g [] after d s late h l past = elim (woken-idle g d s late l) [
      | inl (e, in_time) ↦ ground arith
      | inr e ↦ ended-stays (observe w node_id keys job_id g (woken d s late)) after e
    ]
    watch-ends g (done ∷ before) after d s late h l past =
        ended-stays (canceled_by stopped) (before ++ (woken d s late ∷ after)) refl
    watch-ends g (woken d' s' now' ∷ before) after d s late h l past =
        turn g (observe w node_id keys job_id g (woken d' s' now'))
          (before ++ (woken d s late ∷ after)) (woken-idle g d' s' now' (ground arith))
          (watch-ends g before after d s late (ground arith) l past)
