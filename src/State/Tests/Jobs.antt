-- ===== src/State/Tests/Jobs.antt =====
-- Transactions, updates and repeated requests on the store of the tests.
use jolt.Prelude.{◌≡◌, refl, some, true, false, ◌&&◌, ◌||◌, [], ◌==◌, implies, ok, is_ok, ◌⊎◌}
use jolt.State.Entities.{Job}
use jolt.State.Tables.{find, get_job}
use jolt.State.Transaction.{not_found, update}
use jolt.State.Transaction.Laws.{update-error}
use jolt.State.Secured.{executable_secured_job}
use jolt.State.Secured.Kept.{IsSameRequest}
use jolt.State.Jobs.Laws.{is_held, update_job-keeps}
use jolt.State.Jobs.{create_job_with_items_hashed, replace, update_job}
use jolt.State.Jobs.Retries.{create_job-retry}
use jolt.State.Jobs.Awaiting.{Actor}
use jolt.State.Tests.{plain_job, copy_job, store, disk}

abbrev missing : Job
missing = record plain_job { id = "job9" }

update-error_example :
    ((update disk (replace missing) store).1.tables ≡ store.tables)
    ⊎ (is_ok (update disk (replace copy_job) (update disk (replace missing) store).1).0 ≡ false)
unfolding update replace find
update-error_example =
    update-error disk disk (replace missing) (replace copy_job) store not_found refl

abbrev paused : Job
paused = record copy_job { state = "paused" }

update_job-keeps_example :
    (next : Job) × (get_job (update_job disk paused store).1.tables "job1" ≡ some next)
    × IsSameRequest copy_job next
    × (implies (is_held next.state) (executable_secured_job copy_job && is_held copy_job.state)
        ≡ true)
    × (implies (copy_job.state == "canceled") (next.state == "canceled") ≡ true)
    × (implies
          (executable_secured_job copy_job
            && (copy_job.state == "completed" || copy_job.state == "completed_with_warnings"))
          (next.state == copy_job.state)
        ≡ true)
unfolding update_job find update replace jolt.State.Secured.valid_secured_job_update
    jolt.State.Secured.same_authorization jolt.State.Secured.same_request executable_secured_job
    jolt.State.Secured.secured_job_kind
update_job-keeps_example = update_job-keeps disk paused copy_job store refl refl refl

create_job-retry_example :
    let s = (create_job_with_items_hashed disk missing [] "key" "hash" store).1 in
    ((create_job_with_items_hashed disk plain_job [] "key" "hash" s).0 ≡ ok (missing, true))
    × ((create_job_with_items_hashed disk plain_job [] "key" "hash" s).1.tables ≡ s.tables)
unfolding create_job_with_items_hashed jolt.State.Jobs.carries_authorization update
    jolt.State.Jobs.create find jolt.State.Jobs.put_items
create_job-retry_example =
    create_job-retry missing [] "key" "hash" disk disk store missing plain_job [] refl refl refl
      refl refl

abbrev alice : Actor
alice = record { actor_id = "alice"; credential_id = "c1" }

abbrev local_copy : Job
local_copy = record missing { kind = "copy_local" }
