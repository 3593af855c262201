-- ===== src/State/Leases/Guard.antt =====
-- job_authorization_guard.go: the watch on the lease of a running job. The ticker and the timer wake
-- the goroutine alike, so a wake is what it finds then; after a cancellation its loop has ended.
pub mod Laws
pub mod Expiry
use jolt.Prelude.{
  ℕ, String, Bool, ◌&&◌, ◌||◌, not, Option, none, some, List, [], ◌∷◌, ◌==◌, ltb, leb, eqb,
  if◌then◌else◌, Result, ok, err,
}
use jolt.FileTypes.Context.{Filter}
use jolt.SignedAuth.Binding.{same_binding}
use jolt.SignedAuth.Verify.{Wire, Keys, Time, Verified}
use jolt.SignedAuth.Lease.{verify_job_lease}
use jolt.State.Entities.{JobAuthorization}
use jolt.State.Transaction.{StoreError, Store, Disk}
use jolt.State.Leases.Reading.{validate_job_authorization}

-- the causes of a cancellation: `ErrJobAuthorizationUnavailable`, `ErrJobAuthorizationChanged`, and
-- that of the caller or of its parent context
pub data Cause : Type 0 where
  authorization_unavailable authorization_changed stopped : Cause

-- the variables of the goroutine
pub record Guard : Type 0 where
  pub policy : String
  pub lease : JobAuthorization

pub data Watch : Type 0 where
  watching : Guard → Watch
  canceled_by : Cause → Watch

-- what a turn of the `select` finds: the context has ended, or the store at a time
pub data Wake : Type 0 where
  done : Wake
  woken : Disk → Store → Time → Wake

-- what the store reads for the guard
abbrev pub Reading : Type 0
Reading = Result StoreError (JobAuthorization × Filter)

-- the stored lease is not the current one nor a renewal of it
unfoldable pub supersedes_not : JobAuthorization → JobAuthorization → Bool
supersedes_not current next =
    ltb next.revision current.revision
    || not (same_binding next.binding current.binding)
    || eqb next.revision current.revision && not (next.envelope == current.envelope)

module _ (w : Wire) (node_id : String) (keys : Keys) where
  -- the verification of a lease under its own binding and revision
  abbrev pub verify_lease : JobAuthorization → Time → Option Verified
  verify_lease a now = verify_job_lease w a.envelope keys a.binding node_id a.revision now

  -- a renewed lease goes on only under the same policy context
  unfoldable pub follow : Guard → JobAuthorization → Option Verified → Watch
  follow g next none = canceled_by authorization_unavailable
  follow g next (some v) =
      if not (g.policy == v.claims.context)
      then canceled_by authorization_changed
      else watching (record { policy = g.policy; lease = next })

  unfoldable pub compare : Guard → Time → Reading → Watch
  compare g now (err e) = canceled_by authorization_unavailable
  compare g now (ok (next, _)) =
      if supersedes_not g.lease next
      then canceled_by authorization_unavailable
      else if not (eqb next.revision g.lease.revision)
      then follow g next (verify_lease next now)
      else if not (ltb now g.lease.expires_at)
      then canceled_by authorization_unavailable
      else watching g

  open_guard : JobAuthorization → Filter → Option Verified → Result Cause (Guard × Filter)
  open_guard current filter none = err authorization_unavailable
  open_guard current filter (some v) =
      ok (record { policy = v.claims.context; lease = current }, filter)

  open_reading : Time → Reading → Result Cause (Guard × Filter)
  unfolding open_guard
  open_reading now (err e) = err authorization_unavailable
  open_reading now (ok (current, filter)) = open_guard current filter (verify_lease current now)

module _ (w : Wire) (node_id : String) (keys : Keys) (job_id : String) where
  -- the body of the loop behind the `select`
  unfoldable pub observe : Guard → Wake → Watch
  observe g done = canceled_by stopped
  observe g (woken d s now) =
      compare w node_id keys g now (validate_job_authorization w node_id keys now d job_id s)

  -- the loop of the goroutine
  unfoldable pub watch : Watch → List Wake → Watch
  watch g [] = g
  watch (canceled_by cause) (wake ∷ wakes) = canceled_by cause
  watch (watching g) (wake ∷ wakes) = watch (observe g wake) wakes

  -- `guardJobAuthorization`, up to the start of the goroutine; the interval is in nanoseconds
  unfoldable pub guard_job_authorization : ℕ → Disk → Store → Time → Result Cause (Guard × Filter)
  unfolding open_reading
  guard_job_authorization interval d s now =
      if eqb interval 0 || ltb 1_000_000_000 interval
      then err authorization_unavailable
      else open_reading w node_id keys now
          (validate_job_authorization w node_id keys now d job_id s)

  -- `GuardJobAuthorization`, which looks every 250 milliseconds
  abbrev pub guard_every_quarter_second : Disk → Store → Time → Result Cause (Guard × Filter)
  guard_every_quarter_second = guard_job_authorization 250_000_000
