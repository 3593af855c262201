-- ===== src/State/Jobs/Retries.antt =====
-- Requests that come again under their key.
use jolt.Prelude.{
  ◌≡◌, refl, sym, ◌∙◌, ap, String, Bool, true, false, Option, none, some, List, [], ◌∷◌, ◌++◌,
  arith, ◌==◌, eq_refl, ok,
}
use jolt.State.Entities.{Job, JobItem, IdempotencyRecord, item_key}
use jolt.State.Tables.{Tables, put_job, put_item, put_idempotency, get_job, get_idempotency}
use jolt.State.Transaction.{Store, Disk, Tx, M, begin, commit, update, available}
use jolt.State.Transaction.Rows.{
  job_after, job_after-append, job_after-put, update-result, update-job,
}
use jolt.State.Transaction.Keys.{key_after, key_after-append, update-key}
use jolt.State.Secured.{is_secured}
use jolt.State.Jobs.{
  carries_authorization, put_items, create, create_or_reuse, create_new, reuse,
  create_job_with_items_hashed,
}

pub put_items-job :
    (id : String) (seen : List String) (is : List JobItem) (tx : Tx) (k : String) (o : Option Job)
    → job_after k (put_items id seen is tx).1.writes o ≡ job_after k tx.writes o
unfolding put_items job_after
put_items-job id seen [] tx k o = refl
put_items-job id seen (i ∷ is) tx k o =
    let item = record i { job_id = id } in
    let ws = tx.writes ++ (put_item item ∷ []) in
    ground (
      arith,
      job_after-append k tx.writes (put_item item ∷ []) o,
      put_items-job id (item_key item ∷ seen) is (record tx { writes = ws }) k o,
    )

put_items-key :
    (id : String) (seen : List String) (is : List JobItem) (tx : Tx) (k : String)
    (o : Option (String × IdempotencyRecord))
    → key_after k (put_items id seen is tx).1.writes o ≡ key_after k tx.writes o
unfolding put_items key_after
put_items-key id seen [] tx k o = refl
put_items-key id seen (i ∷ is) tx k o =
    let item = record i { job_id = id } in
    let ws = tx.writes ++ (put_item item ∷ []) in
    ground (
      arith,
      key_after-append k tx.writes (put_item item ∷ []) o,
      put_items-key id (item_key item ∷ seen) is (record tx { writes = ws }) k o,
    )

module _ (j : Job) (items : List JobItem) (key hash : String) where
  abbrev answer : IdempotencyRecord
  answer = record { job_id = j.id; request_hash = hash }

  -- a creation that succeeds, with a key
  created :
      (t : Tables) (tx : Tx) (new : Job) (reused : Bool) (o : Option Job)
      (p : Option (String × IdempotencyRecord))
      → (key == "") ≡ false
      → (create_new t j items key hash tx).0 ≡ ok (new, reused)
      → (new ≡ j)
        × (job_after j.id (create_new t j items key hash tx).1.writes o ≡ some j)
        × (key_after key (create_new t j items key hash tx).1.writes p ≡ some (key, answer))
  unfolding create_new job_after key_after
  created t tx new reused o p n h =
      let first : Tx = record tx { writes = tx.writes ++ (put_job j ∷ []) } in
      let behind = (put_items j.id [] items first).1.writes in
      let last = put_idempotency key answer ∷ [] in
      (
        ground arith,
        ground (
          arith,
          eq_refl j.id,
          job_after-append j.id behind last o,
          put_items-job j.id [] items first j.id o,
          job_after-put j.id tx.writes j o,
        ),
        ground (arith, eq_refl key, key_after-append key behind last p),
      )

  -- a creation that is not of an earlier request's job makes a new one
  create-new :
      (tx : Tx) (new : Job)
      → (create j items key hash tx).0 ≡ ok (new, false)
      → create j items key hash tx ≡ create_new tx.tables j items key hash tx
  unfolding create create_or_reuse reuse
  create-new tx new h = ground arith

  reuses :
      (i : Job) (others : List JobItem) (tx : Tx)
      → (key == "") ≡ false
      → get_idempotency tx.tables key ≡ some (key, answer)
      → get_job tx.tables j.id ≡ some j
      → is_secured j ≡ false
      → create i others key hash tx ≡ (ok (j, true), tx)
  unfolding create create_or_reuse reuse
  reuses i others tx n p g u = ground (arith, eq_refl hash)

  opened :
      (d : Disk) (s : Store) (new : Job)
      → (create_job_with_items_hashed d j items key hash s).0 ≡ ok (new, false)
      → (is_secured j ≡ false)
        × ((update d (create j items key hash) s).0 ≡ ok (new, false))
        × (create_job_with_items_hashed d j items key hash s ≡ update d (create j items key hash) s)
  unfolding create_job_with_items_hashed carries_authorization
  opened d s new h = ground arith

  -- what the creation has left
  recorded :
      (d : Disk) (s : Store) (new : Job)
      → (key == "") ≡ false
      → (create_job_with_items_hashed d j items key hash s).0 ≡ ok (new, false)
      → let t = (create_job_with_items_hashed d j items key hash s).1.tables in
        (new ≡ j)
        × (get_job t j.id ≡ some j)
        × (get_idempotency t key ≡ some (key, answer))
        × (is_secured j ≡ false)
  recorded d s new n h =
      let m = create j items key hash in
      let (plain, ran, same) = opened d s new h in
      let returned = update-result d m s (new, false) ran in
      let run = create-new (begin d s) new returned in
      let tables = s.tables in
      let made =
        created tables (begin d s) new false (get_job tables j.id) (get_idempotency tables key) n
          (sym (ap (λ r. r.0) run) ∙ returned) in
      (
        made.0,
        ap (λ r. get_job r.1.tables j.id) same
            ∙ update-job d m s (new, false) j.id ran
            ∙ ap (λ r. job_after j.id r.1.writes (get_job tables j.id)) run
            ∙ made.1,
        ap (λ r. get_idempotency r.1.tables key) same
            ∙ update-key d m s (new, false) key ran
            ∙ ap (λ r. key_after key r.1.writes (get_idempotency tables key)) run
            ∙ made.2,
        plain,
      )

  passes :
      (i : Job) (others : List JobItem) (e : Disk) (s : Store)
      → carries_authorization i ≡ false
      → create_job_with_items_hashed e i others key hash s ≡ update e (create i others key hash) s
  unfolding create_job_with_items_hashed
  passes i others e s h = ground arith

  -- a transaction that only reads
  reads_only :
      {A : Type 0} (e : Disk) (m : M A) (s : Store) (a : A)
      → available e s ≡ none
      → s.read_only ≡ false
      → m (begin e s) ≡ (ok a, begin e s)
      → ((update e m s).0 ≡ ok a) × ((update e m s).1.tables ≡ s.tables)
  unfolding update commit
  reads_only e m s a v r h = (ground arith, ground arith)

  -- A creation that makes a job records its request: the next request on the store that it leaves,
  -- where it has the same key and digest and its job carries no plan and no authorization, gets the
  -- first job again, whatever job and items it brings, and the tables stay as they are, if the store
  -- can be read and written.
  pub create_job-retry :
      (d e : Disk) (s : Store) (new i : Job) (others : List JobItem)
      → let s' = (create_job_with_items_hashed d j items key hash s).1 in
        (key == "") ≡ false
        → (create_job_with_items_hashed d j items key hash s).0 ≡ ok (new, false)
        → carries_authorization i ≡ false
        → available e s' ≡ none
        → s'.read_only ≡ false
        → ((create_job_with_items_hashed e i others key hash s').0 ≡ ok (new, true))
          × ((create_job_with_items_hashed e i others key hash s').1.tables ≡ s'.tables)
  create_job-retry d e s new i others n h u a r =
      let s' = (create_job_with_items_hashed d j items key hash s).1 in
      let (same, stored, answered, plain) = recorded d s new n h in
      let run = reuses i others (begin e s') n answered stored plain in
      let (again, kept) = reads_only e (create i others key hash) s' (j, true) a r run in
      let opens = passes i others e s' u in
      (
        ap (λ x. x.0) opens ∙ again ∙ ap (λ x. ok (x, true)) (sym same),
        ap (λ x. x.1.tables) opens ∙ kept,
      )
