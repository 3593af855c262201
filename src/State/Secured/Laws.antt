-- ===== src/State/Secured/Laws.antt =====
-- A secured job is started by its claim alone.
use jolt.Prelude.{◌≡◌, ap, String, true, false, ◌&&◌, ◌||◌, arith, ◌==◌, eq_iff, implies}
use jolt.State.Entities.{Job}
use jolt.State.Secured.{
  executable_secured_job, is_secured, is_executing, is_completed, same_authorization, same_request,
  valid_secured_job_update,
}

at_literal : (state word : String) → (state == word) ≡ true → is_executing state ≡ is_executing word
at_literal state word h = ap is_executing ((eq_iff state word).0 h)

-- A waiting state, or the queue, is no state of an executor.
waiting_is_idle :
    (state : String)
    → (state == "waiting_validation"
        || state == "paused"
        || state == "canceled"
        || state == "queued")
      ≡ true
    → is_executing state ≡ false
unfolding is_executing
waiting_is_idle state h = ground (
  arith,
  at_literal state "waiting_validation",
  at_literal state "paused",
  at_literal state "canceled",
  at_literal state "queued",
)

completed_is_idle : (state : String) → is_completed state ≡ true → is_executing state ≡ false
unfolding is_completed is_executing
completed_is_idle state h =
    ground (arith, at_literal state "completed", at_literal state "completed_with_warnings")

-- A generic update that is accepted for a secured job keeps its authorization and its request. It
-- makes no job execute that an executor has not claimed, and makes nothing else of a job that is
-- canceled or, if the node can run it, completed.
pub valid_secured_job_update-keeps :
    (old next : Job)
    → is_secured old ≡ true
    → valid_secured_job_update old next ≡ true
    → (same_authorization old next ≡ true)
      × (same_request old next ≡ true)
      × (implies (is_executing next.state) (executable_secured_job old && is_executing old.state)
          ≡ true)
      × (implies (old.state == "canceled") (next.state == "canceled") ≡ true)
      × (implies (executable_secured_job old && is_completed old.state) (next.state == old.state)
          ≡ true)
unfolding valid_secured_job_update
valid_secured_job_update-keeps old next s h = (
  ground arith,
  ground arith,
  ground
      (arith, waiting_is_idle next.state, completed_is_idle old.state, eq_iff next.state old.state),
  ground arith,
  ground (arith, completed_is_idle old.state),
)
