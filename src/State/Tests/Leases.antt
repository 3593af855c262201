-- ===== src/State/Tests/Leases.antt =====
-- The renewal of a lease by the envelope that is stored.
use jolt.Prelude.{implies, ◌≡◌, refl, String, true, Option, some, is_some, Result, ok}
use jolt.SignedAuth.Lease.{verify_job_lease}
use jolt.SignedAuth.Tests.{wire, keys, now, copy_binding}
use jolt.State.Entities.{Job}
use jolt.State.Tables.{get_job, get_authorization}
use jolt.State.Leases.{job_authorization_matches, plan_confirms}
use jolt.State.Leases.Renewal.{renewable, renew_job_authorization}
use jolt.State.Leases.Renewal.Laws.{next_revision, renew_job_authorization-checked}
use jolt.State.Tests.{lease, store, disk}

renew_job_authorization-checked_example :
    (job : Job) × (get_job store.tables "job1" ≡ some job)
    × (renewable job ≡ true)
    × (job_authorization_matches wire job copy_binding "n1" ≡ true)
    × (plan_confirms store.tables job copy_binding.actor_id ≡ true)
    × (get_authorization
          (renew_job_authorization wire "n1" keys now disk "job1" "copy" copy_binding
            store).1.tables
          "job1"
        ≡ some lease)
    × (is_some (verify_job_lease wire "copy" keys copy_binding "n1" lease.revision now) ≡ true)
    × (lease.binding ≡ copy_binding)
    × (lease.envelope ≡ "copy")
    × (lease.revision ≡ next_revision (get_authorization store.tables "job1") "copy")
unfolding renew_job_authorization jolt.SignedAuth.Binding.identifier jolt.Prelude.trim_space
    jolt.Prelude.any_char jolt.SignedAuth.Verify.from_unix jolt.State.Transaction.update
    jolt.State.Leases.Renewal.renew jolt.State.Tables.find renewable jolt.Prelude.contains
    job_authorization_matches jolt.State.Leases.scope_matches plan_confirms
    jolt.State.Leases.Renewal.stale jolt.SignedAuth.Binding.same_binding verify_job_lease
    jolt.SignedAuth.Lease.job_lease_binding jolt.SignedAuth.Lease.refuses_lease
    jolt.SignedAuth.Lease.job_lease_request_id jolt.SignedAuth.Binding.endpoint
    jolt.Prelude.has_prefix jolt.Prelude.path_clean jolt.Prelude.has_slash_prefix jolt.Prelude.split
    jolt.SignedAuth.Lease.valid_topology jolt.SignedAuth.Verify.verify
    jolt.SignedAuth.Verify.verify_signed jolt.SignedAuth.Binding.validate
    jolt.SignedAuth.Verify.unix
renew_job_authorization-checked_example =
    renew_job_authorization-checked wire "n1" keys now disk "job1" "copy" copy_binding store lease
      refl
