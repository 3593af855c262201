-- ===== src/State/Jobs/Listing.antt =====
-- jobs.go: the reads of jobs, items and events
use jolt.Prelude.{
  length, ℕ, zero, suc, String, Bool, ◌||◌, not, Option, none, some, List, [], ◌∷◌, ◌++◌, ◌==◌, ltb,
  leb, eqb, if◌then◌else◌, is_some, Result, ok, err,
}
use jolt.State.Entities.{Job, JobItem, JobEvent, IdempotencyRecord}
use jolt.State.Tables.{Tables, get_job, get_idempotency}
use jolt.State.Transaction.{StoreError, not_found, Store, Disk, view}

module _ {A : Type 0} where
  unfoldable pub select : (A → Bool) → List A → List A
  select p [] = []
  select p (x ∷ xs) = let rest = select p xs in if p x then x ∷ rest else rest

  unfoldable pub take : ℕ → List A → List A
  take zero xs = []
  take (suc n) [] = []
  take (suc n) (x ∷ xs) = x ∷ take n xs

  unfoldable pub reverse : List A → List A
  reverse [] = []
  reverse (x ∷ xs) = reverse xs ++ (x ∷ [])

  -- the rows from the first that has the property, as `sort.Search` finds it in an ordered list
  unfoldable pub from_first : (A → Bool) → List A → List A
  from_first p [] = []
  from_first p (x ∷ xs) = let rest = from_first p xs in if p x then x ∷ xs else rest

job_of : Option Job → Result StoreError Job
job_of none = err not_found
job_of (some j) = ok j

-- `GetJob`
unfoldable pub read_job : Disk → String → Store → Result StoreError Job
unfolding job_of
read_job d id s = view d (λ t. job_of (get_job t id)) s

stored_answer : IdempotencyRecord → Option Job → Result StoreError (Option (Job × String))
stored_answer r none = err not_found
stored_answer r (some j) = ok (some (j, r.request_hash))

idempotent_answer :
    Tables → Option (String × IdempotencyRecord) → Result StoreError (Option (Job × String))
unfolding stored_answer
idempotent_answer t none = ok none
idempotent_answer t (some row) = stored_answer row.1 (get_job t row.1.job_id)

-- `FindJobByIdempotency`
unfoldable pub find_job_by_idempotency :
    Disk → String → Store → Result StoreError (Option (Job × String))
unfolding idempotent_answer
find_job_by_idempotency d key s = view d (λ t. idempotent_answer t (get_idempotency t key)) s

-- `ListJobs`; a negative limit is `none`
unfoldable pub list_jobs : Disk → Option ℕ → Store → Result StoreError (List Job)
list_jobs d none s = view d (λ t. ok (reverse t.jobs)) s
list_jobs d (some limit) s = view d (λ t. ok (take limit (reverse t.jobs))) s

-- `keys` takes the empty parent for all rows
parent_is : String → String → Bool
parent_is parent id = parent == "" || id == parent

-- `ListJobsByPeer`
unfoldable pub list_jobs_by_peer : Disk → String → Store → Result StoreError (List Job)
unfolding parent_is
list_jobs_by_peer d peer s =
    view d (λ t. ok (reverse (select (λ j. parent_is peer j.peer_node_id) t.jobs))) s

-- `ListJobItems`
unfoldable pub list_job_items : Disk → String → Store → Result StoreError (List JobItem)
unfolding parent_is
list_job_items d id s = view d (λ t. ok (select (λ i. parent_is id i.job_id) t.items)) s

-- the limits of the pages
unfoldable pub page_limit : ℕ → ℕ → ℕ
page_limit standard limit = if eqb limit 0 || ltb 500 limit then standard else limit

-- `ListJobEvents`, for natural numbers `after` and `limit`
unfoldable pub list_job_events : Disk → ℕ → String → ℕ → Store → Result StoreError (List JobEvent)
unfolding parent_is
list_job_events d after id limit s =
    view d
      (λ t. ok (
        take (page_limit 100 limit)
          (from_first (λ e. ltb after e.id) (select (λ e. parent_is id e.job_id) t.events))))
      s

-- a page of items, and the order of the first item behind it, or 0
unfoldable pub page : ℕ → List JobItem → List JobItem × ℕ
page zero [] = ([], 0)
page zero (i ∷ is) = ([], i.ordinal)
page (suc n) [] = ([], 0)
page (suc n) (i ∷ is) = let (rest, next) = page n is in (i ∷ rest, next)

-- `ListJobItemsPage`, for natural numbers `after` and `limit`
unfoldable pub list_job_items_page :
    Disk → String → ℕ → ℕ → Store → Result StoreError (List JobItem × ℕ)
unfolding parent_is
list_job_items_page d id after limit s =
    view d
      (λ t.
        if not (is_some (get_job t id))
        then err not_found
        else ok (
            page (page_limit 200 limit) (
              from_first (λ i. leb after i.ordinal) (select (λ i. parent_is id i.job_id) t.items))))
      s

-- `JobSummary`: the number of jobs in each state; the time of the observation is left out
unfoldable pub job_summary : Disk → Store → Result StoreError (String → ℕ)
job_summary d s = view d (λ t. ok (λ state. length (select (λ j. j.state == state) t.jobs))) s
