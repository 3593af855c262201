-- ===== src/State/Claims/Secured.antt =====
-- What a secured claim starts: jobs with a lease that verifies, and only one.
use jolt.Prelude.{
  ◌≡◌, refl, ◌∙◌, ap, String, Bool, true, false, ◌&&◌, ◌||◌, Option, none, some, List, [], ◌∷◌,
  ◌++◌, arith, ◌==◌, Result, ok, err, implies, inl, inr, is_some, Option-cases,
}
use jolt.SignedAuth.Verify.{Wire, Keys, Time}
use jolt.State.Entities.{Job}
use jolt.State.Tables.{Tables, put_job, get_job}
use jolt.State.Transaction.{StoreError, Store, Disk, Tx, M, begin, update}
use jolt.State.Transaction.Rows.{job_after, job_after-put, update-result, update-job}
use jolt.State.Secured.{executable_secured_job}
use jolt.State.Leases.{verified_job_lease}
use jolt.State.Claims.{
  in_state, is_due, start, park, secured_claimable, has_lease, claim_secured, claimed,
  claim_next_secured_job,
}
use jolt.State.Claims.Laws.{first}

-- a job that is stored and runs
unfoldable pub runs : Option Job → Bool
runs none = false
runs (some j) = j.state == "running"

abbrev is_named : String → Option Job → Bool
is_named k none = false
is_named k (some j) = j.id == k

start_all : Time → Option Job → Option Job
start_all now none = none
start_all now (some j) = some (start j now)

chosen_id : String → Result StoreError (Option Job) → Bool
chosen_id k (ok c) = is_named k c
chosen_id k (err e) = false

start_fields :
    (j : Job) (now : Time) → ((start j now).id ≡ j.id) × ((start j now).state ≡ "running")
unfolding start
start_fields j now = (refl, refl)

park_fields : (j : Job) (now : Time) → ((park j now).id ≡ j.id) × (runs (some (park j now)) ≡ false)
unfolding park runs
park_fields j now = (refl, refl)

module _ (w : Wire) (node_id : String) (keys : Keys) (now : Time) where
  unfoldable pub startable : Tables → Job → Bool
  startable t j = secured_claimable w node_id keys now j && has_lease w node_id keys now t j

  claim_secured-result :
      (t : Tables) (js : List Job) (tx : Tx)
      → (claim_secured w node_id keys now t (in_state "queued" js) tx).0
        ≡ ok (start_all now (first (startable t) js))
  unfolding claim_secured in_state first startable start_all secured_claimable
  claim_secured-result t [] tx = refl
  claim_secured-result t (j ∷ js) tx = ground (
    arith,
    claim_secured-result t js tx,
    claim_secured-result t js (record tx { writes = tx.writes ++ (put_job (park j now) ∷ []) }),
  )

  claim_secured-runs :
      (t : Tables) (js : List Job) (tx : Tx) (k : String) (o : Option Job)
      → implies (runs (job_after k (claim_secured w node_id keys now t js tx).1.writes o)) (
          runs (job_after k tx.writes o)
          || chosen_id k (claim_secured w node_id keys now t js tx).0)
        ≡ true
  unfolding claim_secured chosen_id
  claim_secured-runs t [] tx k o = ground arith
  claim_secured-runs t (j ∷ js) tx k o = ground (
    arith,
    claim_secured-runs t js tx k o,
    claim_secured-runs t js (record tx { writes = tx.writes ++ (put_job (park j now) ∷ []) }) k o,
    job_after-put k tx.writes (park j now) o,
    job_after-put k tx.writes (start j now) o,
    start_fields j now,
    park_fields j now,
  )

  claim : M (Option Job)
  claim tx = claim_secured w node_id keys now tx.tables (in_state "queued" tx.tables.jobs) tx

  attempt : Disk → Store → Result StoreError (Option Job) × Store
  attempt d s = update d claim s

  -- A secured claim that returns a job was a transaction that chose it.
  claimed_by :
      (d : Disk) (s : Store) (job : Job)
      → (claim_next_secured_job w node_id keys now d s).0 ≡ ok job
      → ((update d claim s).0 ≡ ok (some job))
        × ((claim_next_secured_job w node_id keys now d s).1 ≡ (update d claim s).1)
  unfolding claim_next_secured_job claimed claim
  claimed_by d s job h = ground arith

  first_takes : (p : Job → Bool) (js : List Job) (j : Job) → first p js ≡ some j → p j ≡ true
  unfolding first
  first_takes p [] j h = ground arith
  first_takes p (i ∷ js) j h = ground (arith, first_takes p js j)

  -- The job that a secured claim returns is the first of the queue that the node can run under its
  -- authorization, that is due and whose stored lease verifies now for this node, and it is returned
  -- started.
  pub claim_next_secured_job-verified :
      (d : Disk) (s : Store) (job : Job)
      → (claim_next_secured_job w node_id keys now d s).0 ≡ ok job
      → (old : Job) × (first (startable s.tables) s.tables.jobs ≡ some old)
        × (job ≡ start old now)
        × ((old.state == "queued" && executable_secured_job old && is_due old.next_attempt_at now)
            ≡ true)
        × (is_some (verified_job_lease w s.tables old node_id keys now) ≡ true)
  unfolding startable secured_claimable has_lease claim start_all
  claim_next_secured_job-verified d s job h =
      let chosen = first (startable s.tables) s.tables.jobs in
      let result = claim_secured-result s.tables s.tables.jobs (begin d s) in
      let returned = update-result d claim s (some job) (claimed_by d s job h).0 in
      elim (Option-cases chosen) [
        | inl e ↦ absurd (ground arith)
        | inr (old, e) ↦
            let takes = first_takes (startable s.tables) s.tables.jobs old e in
            (old, e, ground arith, ground arith, ground arith)
      ]

  -- Behind a secured claim that returns a job, a stored job runs only if it ran before or is the
  -- job that was returned.
  pub claim_next_secured_job-starts_one :
      (d : Disk) (s : Store) (job : Job) (k : String)
      → (claim_next_secured_job w node_id keys now d s).0 ≡ ok job
      → implies
          (runs (get_job (claim_next_secured_job w node_id keys now d s).1.tables k))
          (runs (get_job s.tables k) || job.id == k)
        ≡ true
  unfolding claim job_after chosen_id
  claim_next_secured_job-starts_one d s job k h =
      let t = s.tables in
      let queue = in_state "queued" t.jobs in
      let (returned, stored) = claimed_by d s job h in
      ground (
        arith,
        update-result d claim s (some job) returned,
        ap (λ x. get_job x.tables k) stored ∙ update-job d claim s (some job) k returned,
        claim_secured-runs t queue (begin d s) k (get_job t k),
      )
