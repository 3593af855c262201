-- ===== src/State/Tests/Guard.antt =====
-- A guard over the renewal of its lease, and one whose lease is not renewed.
use jolt.Prelude.{◌≡◌, refl, true, some, List, [], ◌∷◌, arith, Result, ok}
use jolt.SignedAuth.Verify.{from_unix}
use jolt.SignedAuth.Tests.{wire, keys, now}
use jolt.State.Entities.{JobAuthorization}
use jolt.State.Transaction.{Store}
use jolt.State.Leases.Reading.{validate_job_authorization}
use jolt.State.Leases.Guard.{Guard, watching, Wake, done, woken, watch, guard_job_authorization}
use jolt.State.Leases.Guard.Laws.{IsHeld, Follows, Shows, watch-authorized}
use jolt.State.Leases.Guard.Expiry.{has_ended, watch-ends}
use jolt.State.Tests.{lease, tables, store, disk}

abbrev guard : Guard
guard = record { policy = "{}"; lease = lease }

abbrev second : JobAuthorization
second = record lease { revision = 2 }

abbrev renewed_guard : Guard
renewed_guard = record guard { lease = second }

abbrev renewed_store : Store
renewed_store = record store { tables = record tables { authorizations = second ∷ [] } }

watch-authorized_example :
    Follows wire "n1" keys guard renewed_guard
    × IsHeld wire "n1" keys renewed_guard
    × Shows wire "n1" keys
        (validate_job_authorization wire "n1" keys now disk "job1" renewed_store)
        renewed_guard
unfolding guard_job_authorization validate_job_authorization jolt.SignedAuth.Binding.identifier
    jolt.Prelude.trim_space jolt.Prelude.any_char from_unix jolt.State.Transaction.view
    jolt.State.Tables.find jolt.Prelude.contains jolt.State.Leases.verified_job_lease
    jolt.State.Leases.job_authorization_matches jolt.State.Leases.scope_matches
    jolt.State.Leases.plan_confirms jolt.SignedAuth.Lease.verify_job_lease
    jolt.SignedAuth.Lease.job_lease_binding jolt.SignedAuth.Lease.refuses_lease
    jolt.SignedAuth.Lease.job_lease_request_id jolt.SignedAuth.Binding.endpoint
    jolt.Prelude.has_prefix jolt.Prelude.path_clean jolt.Prelude.has_slash_prefix jolt.Prelude.split
    jolt.SignedAuth.Lease.valid_topology jolt.SignedAuth.Verify.verify
    jolt.SignedAuth.Verify.verify_signed jolt.SignedAuth.Binding.validate
    jolt.SignedAuth.Verify.unix jolt.SignedAuth.Binding.same_binding watch
    jolt.State.Leases.Guard.observe jolt.State.Leases.Guard.compare
    jolt.State.Leases.Guard.supersedes_not jolt.State.Leases.Guard.follow
watch-authorized_example =
    watch-authorized wire "n1" keys "job1" 250_000_000 disk store now guard []
      (woken disk store now ∷ []) disk renewed_store now renewed_guard refl refl

watch-ends_example :
    has_ended (
      watch wire "n1" keys "job1"
        (watching guard)
        (woken disk store now ∷ woken disk store (from_unix 1020) ∷ done ∷ []))
    ≡ true
unfolding from_unix jolt.State.Tables.find
watch-ends_example =
    watch-ends wire "n1" keys "job1" guard (woken disk store now ∷ []) (done ∷ []) disk store
      (from_unix 1020) refl refl (omega arith)
