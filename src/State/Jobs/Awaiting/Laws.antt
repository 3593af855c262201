-- ===== src/State/Jobs/Awaiting/Laws.antt =====
-- A job that is created to wait for its authorization starts on its own in no way.
use jolt.Prelude.{
  ℕ, ◌≡◌, refl, sym, ◌∙◌, ap, String, Bool, false, ◌||◌, Option, none, some, List, [], ◌∷◌, ◌++◌,
  arith, eq_refl, ok,
}
use jolt.SignedAuth.Verify.{Time, Wire, Keys}
use jolt.State.Entities.{Job, JobItem, IdempotencyRecord}
use jolt.State.Tables.{Write, put_job, put_idempotency, get_job, get_idempotency}
use jolt.State.Transaction.{Store, Disk, Tx, M, begin, update, ensure_security_version}
use jolt.State.Transaction.Rows.{
  job_after, job_after-append, job_after-put, update-result, update-job,
}
use jolt.State.Claims.{claimable, secured_claimable}
use jolt.State.Jobs.{put_items}
use jolt.State.Jobs.Retries.{put_items-job}
use jolt.State.Jobs.Awaiting.{
  Actor, awaiting, await, consume_move_plan, create_awaiting, create_job_awaiting_authorization,
}

-- the records behind the header's version, whatever it was
stored_waiting :
    (j : Job) (items : List JobItem) (a : Actor) (version : ℕ) (tx : Tx) (o : Option Job)
    → let first : Tx = record tx {
      version = version;
      writes = tx.writes ++ (put_job (awaiting j a) ∷ []);
    } in
      job_after j.id (put_items j.id [] items first).1.writes o ≡ some (awaiting j a)
unfolding awaiting
stored_waiting j items a version tx o =
    let first : Tx = record tx {
      version = version;
      writes = tx.writes ++ (put_job (awaiting j a) ∷ []);
    } in
    put_items-job j.id [] items first j.id o
    ∙ job_after-put j.id tx.writes (awaiting j a) o
    ∙ rw (eq_refl j.id) refl

awaits :
    (j : Job) (items : List JobItem) (a : Actor) (key hash : String) (tx : Tx) (job : Job)
    (o : Option Job)
    → (await j items a key hash none none tx).0 ≡ ok (job, false)
    → (job ≡ awaiting j a)
      × (job_after j.id (await j items a key hash none none tx).1.writes o ≡ some (awaiting j a))
unfolding await consume_move_plan ensure_security_version job_after
awaits j items a key hash tx job o h =
    let last = put_idempotency key (record { job_id = j.id; request_hash = hash }) in
    let first : ℕ → Tx =
      λ v. record tx { version = v; writes = tx.writes ++ (put_job (awaiting j a) ∷ []) } in
    let behind : ℕ → List Write = λ v. (put_items j.id [] items (first v)).1.writes in
    (
      ground arith,
      ground (
        arith,
        stored_waiting j items a tx.version tx o,
        stored_waiting j items a 6 tx o,
        job_after-append j.id (behind tx.version) (last ∷ []) o,
        job_after-append j.id (behind 6) (last ∷ []) o,
      ),
    )

-- a job that is new answers no earlier request
is_new :
    (j : Job) (items : List JobItem) (a : Actor) (key hash : String) (tx : Tx) (job : Job)
    (previous : Option (String × IdempotencyRecord))
    → (await j items a key hash none previous tx).0 ≡ ok (job, false)
    → previous ≡ none
unfolding await
is_new j items a key hash tx job none h = refl
is_new j items a key hash tx job (some previous) h = absurd (ground arith)

module _ (j : Job) (a : Actor) (key hash : String) where
  request : M (Job × Bool)
  request tx = await j [] a key hash none (get_idempotency tx.tables key) tx

  requested :
      (d : Disk) (s : Store) (job : Job) (again : Bool)
      → (create_job_awaiting_authorization d j a key hash s).0 ≡ ok (job, again)
      → ((update d request s).0 ≡ ok (job, again))
        × (create_job_awaiting_authorization d j a key hash s ≡ update d request s)
  unfolding create_job_awaiting_authorization create_awaiting request
  requested d s job again h = (ground arith, ground arith)

  waiting_unclaimable :
      (now : Time) (w : Wire) (node_id : String) (keys : Keys)
      → (claimable now (awaiting j a) || secured_claimable w node_id keys now (awaiting j a))
        ≡ false
  unfolding claimable secured_claimable awaiting
  waiting_unclaimable now w node_id keys = refl

  -- A job that this creation makes is stored as it is returned, bound to the actor and the credential
  -- and waiting, and neither claim takes it, whatever the time, the node and the keys.
  pub create_job_awaiting_authorization-waits :
      (d : Disk) (s : Store) (job : Job) (now : Time) (w : Wire) (node_id : String) (keys : Keys)
      → (create_job_awaiting_authorization d j a key hash s).0 ≡ ok (job, false)
      → (job ≡ awaiting j a)
        × (get_job (create_job_awaiting_authorization d j a key hash s).1.tables j.id ≡ some job)
        × ((claimable now job || secured_claimable w node_id keys now job) ≡ false)
  unfolding request
  create_job_awaiting_authorization-waits d s job now w node_id keys h =
      let (ran, same) = requested d s job false h in
      let tx = begin d s in
      let returned = update-result d request s (job, false) ran in
      let stored = get_idempotency s.tables key in
      let fresh = is_new j [] a key hash tx job stored returned in
      let run = ap (λ p. await j [] a key hash none p tx) fresh in
      let before = get_job s.tables j.id in
      let (made, kept) =
        awaits j [] a key hash tx job before (sym (ap (λ r. r.0) run) ∙ returned) in
      (
        made,
        ap (λ r. get_job r.1.tables j.id) same
            ∙ update-job d request s (job, false) j.id ran
            ∙ ap (λ r. job_after j.id r.1.writes before) run
            ∙ kept
            ∙ ap some (sym made),
        ap (λ x. claimable now x || secured_claimable w node_id keys now x) made
            ∙ waiting_unclaimable now w node_id keys,
      )
