-- ===== src/State/Transaction/Rows.antt =====
-- The jobs that a transaction leaves, from its records.
use jolt.Prelude.{
  ◌≡◌, refl, ◌∙◌, ap, String, true, Option, some, List, [], ◌∷◌, ◌++◌, arith, ◌==◌, eqb, length,
  if◌then◌else◌, ok,
}
use jolt.State.Entities.{Job}
use jolt.State.Tables.{
  Tables, Write, put_job, put_item, remove_item, put_event, put_plan, remove_plan,
  put_authorization, put_idempotency, put_destructive_idempotency, get_job, job_key, job_order,
  apply_write, apply_writes,
}
use jolt.State.Tables.Laws.{find-put}
use jolt.State.Transaction.{Store, Disk, M, begin, commit, update}

-- what is stored of the job `k` behind the records
unfoldable pub job_after : String → List Write → Option Job → Option Job
job_after k [] o = o
job_after k (put_job j ∷ ws) o = job_after k ws (if j.id == k then some j else o)
job_after k (put_item i ∷ ws) o = job_after k ws o
job_after k (remove_item i ∷ ws) o = job_after k ws o
job_after k (put_event e ∷ ws) o = job_after k ws o
job_after k (put_plan p ∷ ws) o = job_after k ws o
job_after k (remove_plan p ∷ ws) o = job_after k ws o
job_after k (put_authorization a ∷ ws) o = job_after k ws o
job_after k (put_idempotency i r ∷ ws) o = job_after k ws o
job_after k (put_destructive_idempotency i r ∷ ws) o = job_after k ws o

pub job_after-append :
    (k : String) (ws vs : List Write) (o : Option Job)
    → job_after k (ws ++ vs) o ≡ job_after k vs (job_after k ws o)
unfolding job_after
job_after-append k [] vs o = refl
job_after-append k (put_job j ∷ ws) vs o =
    job_after-append k ws vs (if j.id == k then some j else o)
job_after-append k (put_item i ∷ ws) vs o = job_after-append k ws vs o
job_after-append k (remove_item i ∷ ws) vs o = job_after-append k ws vs o
job_after-append k (put_event e ∷ ws) vs o = job_after-append k ws vs o
job_after-append k (put_plan p ∷ ws) vs o = job_after-append k ws vs o
job_after-append k (remove_plan p ∷ ws) vs o = job_after-append k ws vs o
job_after-append k (put_authorization a ∷ ws) vs o = job_after-append k ws vs o
job_after-append k (put_idempotency i r ∷ ws) vs o = job_after-append k ws vs o
job_after-append k (put_destructive_idempotency i r ∷ ws) vs o = job_after-append k ws vs o

-- a further record
pub job_after-put :
    (k : String) (ws : List Write) (j : Job) (o : Option Job)
    → job_after k (ws ++ (put_job j ∷ [])) o ≡ (if j.id == k then some j else job_after k ws o)
unfolding job_after
job_after-put k ws j o = job_after-append k ws (put_job j ∷ []) o

pub get_job-apply_writes :
    (k : String) (ws : List Write) (t : Tables)
    → get_job (apply_writes ws t) k ≡ job_after k ws (get_job t k)
unfolding job_after apply_writes apply_write
get_job-apply_writes k [] t = refl
get_job-apply_writes k (put_job j ∷ ws) t =
    get_job-apply_writes k ws (apply_write (put_job j) t)
    ∙ ap (job_after k ws) (find-put job_key job_order k j t.jobs)
get_job-apply_writes k (put_item i ∷ ws) t = get_job-apply_writes k ws (apply_write (put_item i) t)
get_job-apply_writes k (remove_item i ∷ ws) t =
    get_job-apply_writes k ws (apply_write (remove_item i) t)
get_job-apply_writes k (put_event e ∷ ws) t =
    get_job-apply_writes k ws (apply_write (put_event e) t)
get_job-apply_writes k (put_plan p ∷ ws) t = get_job-apply_writes k ws (apply_write (put_plan p) t)
get_job-apply_writes k (remove_plan p ∷ ws) t =
    get_job-apply_writes k ws (apply_write (remove_plan p) t)
get_job-apply_writes k (put_authorization a ∷ ws) t =
    get_job-apply_writes k ws (apply_write (put_authorization a) t)
get_job-apply_writes k (put_idempotency i r ∷ ws) t =
    get_job-apply_writes k ws (apply_write (put_idempotency i r) t)
get_job-apply_writes k (put_destructive_idempotency i r ∷ ws) t =
    get_job-apply_writes k ws (apply_write (put_destructive_idempotency i r) t)

-- A transaction that succeeds returned its callback's result.
pub update-result :
    {A : Type 0} (d : Disk) (m : M A) (s : Store) (a : A)
    → (update d m s).0 ≡ ok a
    → (m (begin d s)).0 ≡ ok a
unfolding update commit
update-result d m s a h = ground arith

no_records :
    (k : String) (ws : List Write) (o : Option Job)
    → eqb (length ws) 0 ≡ true
    → job_after k ws o ≡ o
unfolding job_after
no_records k [] o h = refl
no_records k (w ∷ ws) o h = ground arith

-- A transaction that succeeds leaves the jobs that its records say.
pub update-job :
    {A : Type 0} (d : Disk) (m : M A) (s : Store) (a : A) (k : String)
    → (update d m s).0 ≡ ok a
    → get_job (update d m s).1.tables k ≡ job_after k (m (begin d s)).1.writes (get_job s.tables k)
unfolding update commit
update-job d m s a k h = ground (
  arith,
  get_job-apply_writes k (m (begin d s)).1.writes s.tables,
  no_records k (m (begin d s)).1.writes (get_job s.tables k),
)
