-- ===== src/State/Jobs.antt =====
-- jobs.go: the creation of jobs and the generic updates of jobs, items and events
pub mod Laws
pub mod Retries
pub mod Awaiting
pub mod Listing
use jolt.Prelude.{
  ℕ, ◌+◌, String, Bool, true, false, ◌&&◌, ◌||◌, not, Option, none, some, List, [], ◌∷◌, ◌==◌,
  if◌then◌else◌, contains, is_some, Result, ok, err,
}
use jolt.State.Entities.{Job, JobItem, JobEvent, IdempotencyRecord, item_key}
use jolt.State.Tables.{
  Tables, Write, put_job, put_item, remove_item, put_event, put_idempotency, get_job, get_item,
  get_idempotency,
}
use jolt.State.Transaction.{
  StoreError, not_found, in_use, idempotency_conflict, job_exists, duplicate_item, foreign_event,
  Store, Disk, Tx, M, ◌>>=◌, ◌>>◌, pure, fail, reject, reads, found, write, update, view,
}
use jolt.State.Secured.{is_secured, valid_secured_job_update, job_items_writable}

-- the first test of `CreateJobWithItemsHashed`
unfoldable pub carries_authorization : Job → Bool
carries_authorization j =
    not (j.destructive_plan_id == "")
    || j.signed_auth_bound
    || j.requires_signed_auth
    || not (j.signed_auth_actor_id == "")
    || not (j.signed_auth_credential_id == "")

-- the loops that put the items of a job, with the keys seen so far
unfoldable pub put_items : String → List String → List JobItem → M (Unit {0})
put_items job_id seen [] = pure tt
put_items job_id seen (i ∷ is) =
    let item = record i { job_id = job_id } in
    let k = item_key item in
    let rest = put_items job_id (k ∷ seen) is in
    if contains k seen then fail duplicate_item else write (put_item item) >> rest

-- the job of an earlier request under the key
reuse : Tables → String → IdempotencyRecord → M (Job × Bool)
reuse t hash previous =
    if not (hash == "") && not (hash == previous.request_hash)
    then fail idempotency_conflict
    else (do
      j ← found (get_job t previous.job_id)
      reject (is_secured j) idempotency_conflict
      pure (j, true))

create_new : Tables → Job → List JobItem → String → String → M (Job × Bool)
create_new t j items key hash = do
  reject (is_some (get_job t j.id)) job_exists
  write (put_job j)
  put_items j.id [] items
  if key == ""
      then pure tt
      else write (put_idempotency key (record { job_id = j.id; request_hash = hash }))
  pure (j, false)

-- the callback of `CreateJobWithItemsHashed`, by what is stored under the key
create_or_reuse :
    Tables
    → Job
    → List JobItem
    → String
    → String
    → Option (String × IdempotencyRecord)
    → M (Job × Bool)
unfolding reuse create_new
create_or_reuse t j items key hash (some previous) =
    if key == "" then create_new t j items key hash else reuse t hash previous.1
create_or_reuse t j items key hash none = create_new t j items key hash

unfoldable pub create : Job → List JobItem → String → String → M (Job × Bool)
unfolding create_or_reuse
create j items key hash = do
  t ← reads (λ t. t)
  create_or_reuse t j items key hash (get_idempotency t key)

-- `CreateJobWithItemsHashed`
unfoldable pub create_job_with_items_hashed :
    Disk → Job → List JobItem → String → String → Store → Result StoreError (Job × Bool) × Store
create_job_with_items_hashed d j items key hash s =
    if carries_authorization j then (err in_use, s) else update d (create j items key hash) s

-- `CreateJobWithItems`
unfoldable pub create_job_with_items :
    Disk → Job → List JobItem → String → Store → Result StoreError (Job × Bool) × Store
create_job_with_items d j items key = create_job_with_items_hashed d j items key ""

-- `CreateJob`
unfoldable pub create_job : Disk → Job → String → Store → Result StoreError (Job × Bool) × Store
create_job d j key = create_job_with_items_hashed d j [] key ""

unfoldable pub replace : Job → M (Unit {0})
replace j = do
  t ← reads (λ t. t)
  old ← found (get_job t j.id)
  reject (not (valid_secured_job_update old j)) in_use
  write (put_job (record j { created_at = old.created_at }))

-- `UpdateJob`
unfoldable pub update_job : Disk → Job → Store → Result StoreError (Unit {0}) × Store
update_job d j = update d (replace j)

-- an event gets the number of the next transaction
numbered : Tables → JobEvent → JobEvent
numbered t event = record event { id = t.sequence + 1 }

-- `UpdateJobWithEvent`
unfoldable pub update_job_with_event :
    Disk → Job → JobEvent → Store → Result StoreError (Unit {0}) × Store
unfolding numbered
update_job_with_event d j event = update d (do
  reject (not (event.job_id == j.id)) foreign_event
  replace j
  t ← reads (λ t. t)
  write (put_event (numbered t event)))

-- `RecordJobEvent`
unfoldable pub record_job_event : Disk → JobEvent → Store → Result StoreError JobEvent × Store
unfolding numbered
record_job_event d event = update d (do
  t ← reads (λ t. t)
  reject (not (is_some (get_job t event.job_id))) not_found
  write (put_event (numbered t event))
  pure (numbered t event))

remove_items : String → List JobItem → M (Unit {0})
remove_items job_id [] = pure tt
remove_items job_id (i ∷ is) =
    let rest = remove_items job_id is in
    if i.job_id == job_id then write (remove_item (item_key i)) >> rest else rest

-- `ReplaceJobItems`
unfoldable pub replace_job_items :
    Disk → String → List JobItem → Store → Result StoreError (Unit {0}) × Store
unfolding remove_items
replace_job_items d id items = update d (do
  t ← reads (λ t. t)
  job ← found (get_job t id)
  reject (not (job_items_writable job)) in_use
  remove_items id t.items
  put_items id [] items)

-- `UpdateJobItem`
unfoldable pub update_job_item : Disk → JobItem → Store → Result StoreError (Unit {0}) × Store
update_job_item d item = update d (do
  t ← reads (λ t. t)
  job ← found (get_job t item.job_id)
  reject (not (job_items_writable job)) in_use
  reject (not (is_some (get_item t (item_key item)))) not_found
  write (put_item item))
