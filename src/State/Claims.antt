-- ===== src/State/Claims.antt =====
-- jobs.go: the claims of queued jobs, and the jobs that a restart or a return changes
pub mod Laws
pub mod Changes
pub mod Secured
use jolt.Prelude.{
  ℕ, ◌+◌, String, Bool, true, false, ◌&&◌, ◌||◌, not, Option, none, some, List, [], ◌∷◌, ◌==◌, leb,
  eqb, if◌then◌else◌, contains, is_some, Result, ok, err,
}
use jolt.SignedAuth.Binding.{valid_key_id}
use jolt.SignedAuth.Verify.{Wire, Keys, Time}
use jolt.State.Entities.{Job}
use jolt.State.Tables.{Tables, Write, put_job}
use jolt.State.Transaction.{
  StoreError, not_found, in_use, Store, Disk, Tx, M, ◌>>=◌, ◌>>◌, pure, fail, reads, write, update,
}
use jolt.State.Secured.{executable_secured_job, is_secured}
use jolt.State.Leases.{verified_job_lease}

-- a selection of the ordered index by state
unfoldable pub in_state : String → List Job → List Job
in_state state [] = []
in_state state (j ∷ js) =
    let rest = in_state state js in if j.state == state then j ∷ rest else rest

unfoldable pub is_due : Option Time → Time → Bool
is_due none now = true
is_due (some t) now = leb t now

started : Option Time → Time → Option Time
started none now = some now
started (some t) now = some t

-- what a claim makes of a job
unfoldable pub start : Job → Time → Job
unfolding started
start j now = record j {
  state = "running";
  phase = "validation";
  updated_at = now;
  next_attempt_at = none;
  attempt = j.attempt + 1;
  started_at = started j.started_at now;
}

unfoldable pub claimable : Time → Job → Bool
claimable now j = j.state == "queued" && not (is_secured j) && is_due j.next_attempt_at now

-- the loop of `ClaimNextJob`
unfoldable pub claim_first : Time → List Job → M Job
claim_first now [] = fail not_found
claim_first now (j ∷ js) =
    let rest = claim_first now js in
    if not (claimable now j) then rest else write (put_job (start j now)) >> pure (start j now)

-- `ClaimNextJob`
unfoldable pub claim_next_job : Disk → Time → Store → Result StoreError Job × Store
claim_next_job d now =
    update d (do jobs ← reads (λ t. in_state "queued" t.jobs); claim_first now jobs)

-- a queued job without a valid lease
unfoldable pub park : Job → Time → Job
park j now = record j {
  state = "waiting_validation";
  phase = "waiting_authorization";
  updated_at = now;
  error = "job authorization expired; waiting for renewal";
}

-- the job of `ClaimNextSecuredJob`, whose empty id stands for no job
claimed : Result StoreError (Option Job) → Result StoreError Job
claimed (ok none) = err not_found
claimed (ok (some j)) = if j.id == "" then err not_found else ok j
claimed (err e) = err e

module _ (w : Wire) (node_id : String) (keys : Keys) (now : Time) where
  unfoldable pub secured_claimable : Job → Bool
  secured_claimable j =
      j.state == "queued" && executable_secured_job j && is_due j.next_attempt_at now

  unfoldable pub has_lease : Tables → Job → Bool
  has_lease t j = is_some (verified_job_lease w t j node_id keys now)

  -- the loop of `ClaimNextSecuredJob`: the leases are read in the tables before the transaction
  unfoldable pub claim_secured : Tables → List Job → M (Option Job)
  claim_secured t [] = pure none
  claim_secured t (j ∷ js) =
      let rest = claim_secured t js in
      if not (secured_claimable j)
      then rest
      else if not (has_lease t j)
      then write (put_job (park j now)) >> rest
      else write (put_job (start j now)) >> pure (some (start j now))

  -- `ClaimNextSecuredJob`
  unfoldable pub claim_next_secured_job : Disk → Store → Result StoreError Job × Store
  unfolding claimed
  claim_next_secured_job d s =
      if not (valid_key_id node_id) || eqb now 0
      then (err in_use, s)
      else (let (r, s') =
            update d (do t ← reads (λ t. t); claim_secured t (in_state "queued" t.jobs)) s in
          (claimed r, s'))

-- the states that a restart interrupts
abbrev pub interrupted_states : List String
interrupted_states =
    "running" ∷ "pause_requested" ∷ "cancel_requested" ∷ "queued" ∷ "waiting_peer" ∷ "waiting_mount"
    ∷ []

-- a wakeup does not queue these
unfoldable pub sleeps_on : Job → Bool
sleeps_on j =
    not (j.destructive_plan_id == "")
    || (j.signed_auth_bound || j.requires_signed_auth) && not (executable_secured_job j)

unfoldable pub requeue : Time → Job → Job
requeue now j = record j {
  state = "queued";
  phase = "validation";
  error = "";
  updated_at = now;
  next_attempt_at = none;
}

unfoldable pub interrupt : Time → Job → Job
interrupt now j = record j {
  state = "waiting_validation";
  phase = "waiting_validation";
  error = "node restarted before the operation completed; explicit validation is required";
  updated_at = now;
  next_attempt_at = none;
  eta_seconds = none;
  eta_confidence = "";
}

-- the tests of the loop of `changeJobs`
unfoldable pub changes : List String → (Job → Bool) → Bool → Job → Bool
changes states match recovery j =
    contains j.state states && match j && not (not recovery && sleeps_on j)

unfoldable pub changed : Bool → Time → Job → Job
changed recovery now j = if recovery then interrupt now j else requeue now j

unfoldable pub change_all : Time → List String → (Job → Bool) → Bool → List Job → M (List Job)
change_all now states match recovery [] = pure []
change_all now states match recovery (j ∷ js) =
    let rest = change_all now states match recovery js in
    if not (changes states match recovery j) then rest else (do
      write (put_job (changed recovery now j))
      out ← rest
      pure (changed recovery now j ∷ out))

-- `changeJobs`
unfoldable pub change_jobs :
    Disk → Time → List String → (Job → Bool) → Bool → Store → Result StoreError (List Job) × Store
change_jobs d now states match recovery =
    update d (do jobs ← reads (λ t. t.jobs); change_all now states match recovery jobs)

-- `RecoverRunningJobs`
unfoldable pub recover_running_jobs : Disk → Time → Store → Result StoreError (List Job) × Store
recover_running_jobs d now = change_jobs d now interrupted_states (λ _. true) true

-- `WakeWaitingPeerJobs`
unfoldable pub wake_waiting_peer_jobs :
    Disk → String → Time → Store → Result StoreError (List Job) × Store
wake_waiting_peer_jobs d id now =
    change_jobs d now ("waiting_peer" ∷ []) (λ j. j.peer_node_id == id) false

-- `WakeWaitingMountJobs`
unfoldable pub wake_waiting_mount_jobs :
    Disk → String → Time → Store → Result StoreError (List Job) × Store
wake_waiting_mount_jobs d id now =
    change_jobs d now ("waiting_mount" ∷ []) (λ j. j.mount_id == id) false
