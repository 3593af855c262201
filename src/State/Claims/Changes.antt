-- ===== src/State/Claims/Changes.antt =====
-- What a restart and a wakeup make of the stored jobs.
use jolt.Prelude.{
  ◌≡◌, refl, ◌∙◌, ap, String, Bool, true, false, ◌&&◌, ◌||◌, not, Option, none, some, List, [], ◌∷◌,
  ◌++◌, arith, ◌==◌, ok, implies, any, map, contains,
}
use jolt.SignedAuth.Verify.{Time}
use jolt.State.Entities.{Job}
use jolt.State.Tables.{put_job, get_job, find, job_key, job_order}
use jolt.State.Transaction.{Store, Disk, Tx, M, begin}
use jolt.State.Transaction.Rows.{job_after, job_after-put, update-result, update-job}
use jolt.State.Claims.{
  interrupted_states, sleeps_on, requeue, interrupt, changes, changed, change_all, change_jobs,
  recover_running_jobs, wake_waiting_peer_jobs,
}
use jolt.State.Claims.Secured.{runs}
use jolt.State.Jobs.Listing.{select}

-- nothing is stored, or a job in none of the states
unfoldable pub settled : List String → Option Job → Bool
settled states none = true
settled states (some j) = not (contains j.state states)

interrupt_fields :
    (now : Time) (j : Job)
    → ((interrupt now j).id ≡ j.id) × (settled interrupted_states (some (interrupt now j)) ≡ true)
unfolding interrupt settled contains
interrupt_fields now j = (refl, refl)

requeue_fields :
    (now : Time) (j : Job) → ((requeue now j).id ≡ j.id) × (runs (some (requeue now j)) ≡ false)
unfolding requeue runs
requeue_fields now j = (refl, refl)

change_all-result :
    (now : Time) (states : List String) (match : Job → Bool) (recovery : Bool) (js : List Job)
    (tx : Tx)
    → (change_all now states match recovery js tx).0
      ≡ ok (map (changed recovery now) (select (changes states match recovery) js))
unfolding change_all select
change_all-result now states match recovery [] tx = refl
change_all-result now states match recovery (j ∷ js) tx = ground (
  arith,
  change_all-result now states match recovery js tx,
  change_all-result now states match recovery js
      (record tx { writes = tx.writes ++ (put_job (changed recovery now j) ∷ []) }),
)

abbrev everything : Job → Bool
everything _ = true

abbrev interrupts : String → Job → Bool
interrupts k j = j.id == k && changes interrupted_states everything true j

-- behind a restart, a job is settled if it was changed or was settled before
change_all-settled :
    (now : Time) (js : List Job) (tx : Tx) (k : String) (o : Option Job)
    → settled interrupted_states
        (job_after k (change_all now interrupted_states everything true js tx).1.writes o)
      ≡ (any (interrupts k) js || settled interrupted_states (job_after k tx.writes o))
unfolding change_all changed
change_all-settled now [] tx k o = refl
change_all-settled now (j ∷ js) tx k o = ground (
  arith,
  change_all-settled now js tx k o,
  change_all-settled now js (record tx { writes = tx.writes ++ (put_job (interrupt now j) ∷ []) }) k
      o,
  job_after-put k tx.writes (interrupt now j) o,
  interrupt_fields now j,
)

-- a stored job is settled or interrupted
stored_settled :
    (k : String) (js : List Job)
    → (any (interrupts k) js || settled interrupted_states (find job_key job_order k js)) ≡ true
unfolding find settled changes
stored_settled k [] = refl
stored_settled k (j ∷ js) = ground (arith, stored_settled k js)

select-ext :
    (p q : Job → Bool) (js : List Job) → ((j : Job) → p j ≡ q j) → select p js ≡ select q js
unfolding select
select-ext p q [] h = refl
select-ext p q (j ∷ js) h = ground (arith, h j, select-ext p q js h)

interrupted_test :
    (j : Job) → changes interrupted_states everything true j ≡ contains j.state interrupted_states
unfolding changes
interrupted_test j = ground arith

changed_jobs : Time → List String → (Job → Bool) → Bool → M (List Job)
changed_jobs now states match recovery tx = change_all now states match recovery tx.tables.jobs tx

-- After a recovery that succeeds no stored job runs, is queued or waits for a peer or a mount, so
-- that nothing starts on its own; the jobs returned are those that did, in their order, each set to
-- wait for its validation.
pub recover_running_jobs-settles :
    (d : Disk) (now : Time) (s : Store) (out : List Job) (k : String)
    → (recover_running_jobs d now s).0 ≡ ok out
    → (settled interrupted_states (get_job (recover_running_jobs d now s).1.tables k) ≡ true)
      × (out
          ≡ map (interrupt now) (select (λ j. contains j.state interrupted_states) s.tables.jobs))
unfolding recover_running_jobs change_jobs changed job_after changed_jobs
recover_running_jobs-settles d now s out k h =
    let recover = changed_jobs now interrupted_states everything true in
    let jobs = s.tables.jobs in
    let result = change_all-result now interrupted_states everything true jobs (begin d s) in
    let returned = update-result d recover s out h in
    (
      ap (settled interrupted_states) (update-job d recover s out k h)
          ∙ change_all-settled now jobs (begin d s) k (get_job s.tables k)
          ∙ stored_settled k jobs,
      ground (arith, result)
          ∙ ap (map (interrupt now)) (
              select-ext (changes interrupted_states everything true)
                (λ j. contains j.state interrupted_states) jobs interrupted_test),
    )

change_all-runs :
    (now : Time) (states : List String) (match : Job → Bool) (js : List Job) (tx : Tx) (k : String)
    (o : Option Job)
    → implies
        (runs (job_after k (change_all now states match false js tx).1.writes o))
        (runs (job_after k tx.writes o))
      ≡ true
unfolding change_all changed
change_all-runs now states match [] tx k o = ground arith
change_all-runs now states match (j ∷ js) tx k o = ground (
  arith,
  change_all-runs now states match js tx k o,
  change_all-runs now states match js
      (record tx { writes = tx.writes ++ (put_job (requeue now j) ∷ []) }) k o,
  job_after-put k tx.writes (requeue now j) o,
  requeue_fields now j,
)

woken_test :
    (id : String) (j : Job)
    → changes ("waiting_peer" ∷ []) (λ i. i.peer_node_id == id) false j
      ≡ (contains j.state ("waiting_peer" ∷ []) && j.peer_node_id == id && not (sleeps_on j))
unfolding changes
woken_test id j = ground arith

-- A wakeup of the jobs that wait for a peer queues those of that peer, less those under a plan and
-- those under an authorization that the node cannot run under, returns them in their order, and
-- makes no stored job run.
pub wake_waiting_peer_jobs-queues :
    (d : Disk) (id : String) (now : Time) (s : Store) (out : List Job) (k : String)
    → (wake_waiting_peer_jobs d id now s).0 ≡ ok out
    → (out
        ≡ map (requeue now) (
            select
              (λ j.
                contains j.state ("waiting_peer" ∷ []) && j.peer_node_id == id && not (sleeps_on j))
              s.tables.jobs))
      × (implies
            (runs (get_job (wake_waiting_peer_jobs d id now s).1.tables k))
            (runs (get_job s.tables k))
          ≡ true)
unfolding wake_waiting_peer_jobs change_jobs changed job_after changed_jobs
wake_waiting_peer_jobs-queues d id now s out k h =
    let states = "waiting_peer" ∷ [] in
    let match : Job → Bool = λ j. j.peer_node_id == id in
    let wake = changed_jobs now states match false in
    let jobs = s.tables.jobs in
    let result = change_all-result now states match false jobs (begin d s) in
    let returned = update-result d wake s out h in
    (
      ground (arith, result)
          ∙ ap (map (requeue now)) (
              select-ext (changes states match false)
                (λ j.
                  contains j.state ("waiting_peer" ∷ [])
                  && j.peer_node_id == id
                  && not (sleeps_on j))
                jobs (woken_test id)),
      ap (λ o. implies (runs o) (runs (get_job s.tables k))) (update-job d wake s out k h)
          ∙ change_all-runs now states match jobs (begin d s) k (get_job s.tables k),
    )
