-- ===== src/State/Tests/Claims.antt =====
-- Claims, a restart and a wakeup on the store of the tests.
use jolt.Prelude.{
  ◌≡◌, refl, String, Bool, true, false, ◌&&◌, ◌||◌, not, Option, none, some, List, [], ◌∷◌, ◌==◌,
  implies, map, contains, is_some, Result, err,
}
use jolt.SignedAuth.Tests.{wire, keys, now}
use jolt.State.Entities.{Job}
use jolt.State.Tables.{get_job}
use jolt.State.Secured.{executable_secured_job}
use jolt.State.Leases.{verified_job_lease}
use jolt.State.Jobs.Listing.{select}
use jolt.State.Claims.{
  is_due, start, claim_next_secured_job, interrupted_states, sleeps_on, requeue, interrupt,
  recover_running_jobs, wake_waiting_peer_jobs,
}
use jolt.State.Claims.Laws.{first}
use jolt.State.Claims.Secured.{
  runs, startable, claim_next_secured_job-verified, claim_next_secured_job-starts_one,
}
use jolt.State.Claims.Changes.{settled, recover_running_jobs-settles}
use jolt.State.Tests.{plain_job, copy_job, waiting_job, store, disk}

claim_next_secured_job-verified_example :
    (old : Job) × (first (startable wire "n1" keys now store.tables) store.tables.jobs ≡ some old)
    × (start copy_job now ≡ start old now)
    × ((old.state == "queued" && executable_secured_job old && is_due old.next_attempt_at now)
        ≡ true)
    × (is_some (verified_job_lease wire store.tables old "n1" keys now) ≡ true)
unfolding claim_next_secured_job jolt.SignedAuth.Binding.identifier jolt.Prelude.trim_space
    jolt.Prelude.any_char jolt.SignedAuth.Verify.from_unix jolt.State.Transaction.update
    jolt.State.Claims.claim_secured jolt.State.Claims.in_state jolt.State.Claims.secured_claimable
    executable_secured_job jolt.State.Secured.secured_job_kind is_due jolt.State.Claims.has_lease
    verified_job_lease jolt.State.Tables.find jolt.State.Leases.job_authorization_matches
    jolt.State.Leases.scope_matches jolt.State.Leases.plan_confirms
    jolt.SignedAuth.Lease.verify_job_lease jolt.SignedAuth.Lease.job_lease_binding
    jolt.SignedAuth.Lease.refuses_lease jolt.SignedAuth.Lease.job_lease_request_id
    jolt.SignedAuth.Binding.endpoint jolt.Prelude.has_prefix jolt.Prelude.path_clean
    jolt.Prelude.has_slash_prefix jolt.Prelude.split jolt.SignedAuth.Lease.valid_topology
    jolt.SignedAuth.Verify.verify jolt.SignedAuth.Verify.verify_signed
    jolt.SignedAuth.Binding.validate contains jolt.SignedAuth.Verify.unix
    jolt.SignedAuth.Binding.same_binding start
claim_next_secured_job-verified_example =
    claim_next_secured_job-verified wire "n1" keys now disk store (start copy_job now) refl

claim_next_secured_job-starts_one_example :
    implies
      (runs (get_job (claim_next_secured_job wire "n1" keys now disk store).1.tables "job0"))
      (runs (get_job store.tables "job0") || (start copy_job now).id == "job0")
    ≡ true
unfolding claim_next_secured_job jolt.SignedAuth.Binding.identifier jolt.Prelude.trim_space
    jolt.Prelude.any_char jolt.SignedAuth.Verify.from_unix jolt.State.Transaction.update
    jolt.State.Claims.claim_secured jolt.State.Claims.in_state jolt.State.Claims.secured_claimable
    executable_secured_job jolt.State.Secured.secured_job_kind is_due jolt.State.Claims.has_lease
    verified_job_lease jolt.State.Tables.find jolt.State.Leases.job_authorization_matches
    jolt.State.Leases.scope_matches jolt.State.Leases.plan_confirms
    jolt.SignedAuth.Lease.verify_job_lease jolt.SignedAuth.Lease.job_lease_binding
    jolt.SignedAuth.Lease.refuses_lease jolt.SignedAuth.Lease.job_lease_request_id
    jolt.SignedAuth.Binding.endpoint jolt.Prelude.has_prefix jolt.Prelude.path_clean
    jolt.Prelude.has_slash_prefix jolt.Prelude.split jolt.SignedAuth.Lease.valid_topology
    jolt.SignedAuth.Verify.verify jolt.SignedAuth.Verify.verify_signed
    jolt.SignedAuth.Binding.validate contains jolt.SignedAuth.Verify.unix
    jolt.SignedAuth.Binding.same_binding start
claim_next_secured_job-starts_one_example =
    claim_next_secured_job-starts_one wire "n1" keys now disk store (start copy_job now) "job0" refl

abbrev interrupted : List Job
interrupted = map (interrupt now) (plain_job ∷ copy_job ∷ waiting_job ∷ [])

recover_running_jobs-settles_example :
    (settled interrupted_states (get_job (recover_running_jobs disk now store).1.tables "job2")
      ≡ true)
    × (interrupted
        ≡ map (interrupt now) (select (λ j. contains j.state interrupted_states) store.tables.jobs))
unfolding recover_running_jobs jolt.State.Claims.change_jobs jolt.State.Transaction.update
    jolt.State.Claims.change_all jolt.State.Claims.changes contains jolt.State.Claims.changed
    interrupt
recover_running_jobs-settles_example =
    recover_running_jobs-settles disk now store interrupted "job2" refl
