-- ===== src/State/Jobs/Awaiting/Moves.antt =====
-- A move between nodes uses its confirmation up.
use jolt.Prelude.{
  ℕ, ◌≡◌, refl, sym, ◌∙◌, ap, String, Bool, true, false, Option, none, some, List, [], ◌∷◌, ◌++◌,
  arith, ◌==◌, eq_refl, is_some, Result, ok, Option-cases, inl, inr,
}
use jolt.SignedAuth.Binding.{valid_key_id}
use jolt.State.Entities.{Job, JobItem, DestructivePlan, MovePlanBinding, item_key}
use jolt.State.Tables.{
  Write, put_job, put_item, put_plan, put_idempotency, get_plan, get_idempotency,
}
use jolt.State.Transaction.{StoreError, Store, Disk, Tx, begin, update, ensure_security_version}
use jolt.State.Transaction.Rows.{update-result}
use jolt.State.Transaction.Confirmed.{plan_after, plan_after-append, update-plan}
use jolt.State.Plans.Accept.{consume}
use jolt.State.Plans.Accept.Laws.{find_key, required}
use jolt.State.Jobs.{put_items}
use jolt.State.Jobs.Awaiting.{
  Actor, move_confirmed, consume_stored, consume_move_plan, awaiting, await, may_await,
  create_awaiting, create_planned_move_awaiting_authorization,
}

put_items-plan :
    (id : String) (seen : List String) (is : List JobItem) (tx : Tx) (k : String)
    (o : Option DestructivePlan)
    → plan_after k (put_items id seen is tx).1.writes o ≡ plan_after k tx.writes o
unfolding put_items plan_after
put_items-plan id seen [] tx k o = refl
put_items-plan id seen (i ∷ is) tx k o =
    let item = record i { job_id = id } in
    let ws = tx.writes ++ (put_item item ∷ []) in
    ground (
      arith,
      plan_after-append k tx.writes (put_item item ∷ []) o,
      put_items-plan id (item_key item ∷ seen) is (record tx { writes = ws }) k o,
    )

module _ (j : Job) (items : List JobItem) (a : Actor) (key hash : String)
    (binding : MovePlanBinding) where
  abbrev move : Tx → Result StoreError (Job × Bool) × Tx
  move tx = await j items a key hash (some binding) (get_idempotency tx.tables key) tx

  -- a new job is one that the stored plan confirms
  confirmed :
      (tx : Tx) (job : Job) (p : DestructivePlan)
      → get_plan tx.tables binding.plan_id ≡ some p
      → (move tx).0 ≡ ok (job, false)
      → (get_idempotency tx.tables key ≡ none)
        × (move_confirmed p binding a.actor_id j ≡ true)
        × (job.destructive_plan_id ≡ p.id)
  unfolding await consume_move_plan consume_stored ensure_security_version awaiting
  confirmed tx job p g h = (ground arith, ground arith, ground arith)

  abbrev used : DestructivePlan → DestructivePlan
  used p = consume p j.id key hash

  -- the plan behind the records, whatever the header's version was
  used_up :
      (tx : Tx) (p : DestructivePlan) (job : Job) (version : ℕ) (o : Option DestructivePlan)
      → let first : Tx = record tx {
        version = version;
        writes = (tx.writes ++ (put_plan (used p) ∷ [])) ++ (put_job job ∷ []);
      } in
        plan_after p.id (put_items j.id [] items first).1.writes o ≡ some (used p)
  unfolding plan_after consume
  used_up tx p job version o =
      let planned = tx.writes ++ (put_plan (used p) ∷ []) in
      let first : Tx = record tx { version = version; writes = planned ++ (put_job job ∷ []) } in
      put_items-plan j.id [] items first p.id o
      ∙ plan_after-append p.id planned (put_job job ∷ []) o
      ∙ plan_after-append p.id tx.writes (put_plan (used p) ∷ []) o
      ∙ rw (eq_refl p.id) refl

  moved_records :
      (tx : Tx) (job : Job) (p : DestructivePlan) (o : Option DestructivePlan)
      → get_plan tx.tables binding.plan_id ≡ some p
      → (move tx).0 ≡ ok (job, false)
      → plan_after p.id (move tx).1.writes o ≡ some (used p)
  unfolding await consume_move_plan consume_stored ensure_security_version plan_after
  moved_records tx job p o g h =
      let made = awaiting (record j { destructive_plan_id = p.id }) a in
      let last = put_idempotency key (record { job_id = j.id; request_hash = hash }) in
      let first : ℕ → Tx = λ v. record tx {
        version = v;
        writes = (tx.writes ++ (put_plan (used p) ∷ [])) ++ (put_job made ∷ []);
      } in
      let behind : ℕ → List Write = λ v. (put_items j.id [] items (first v)).1.writes in
      ground (
        arith,
        confirmed tx job p g h,
        used_up tx p made tx.version o,
        used_up tx p made 6 o,
        plan_after-append p.id (behind tx.version) (last ∷ []) o,
        plan_after-append p.id (behind 6) (last ∷ []) o,
      )

  needs_plan :
      (tx : Tx) (job : Job)
      → (move tx).0 ≡ ok (job, false)
      → is_some (get_plan tx.tables binding.plan_id) ≡ true
  unfolding await consume_move_plan consume_stored ensure_security_version
  needs_plan tx job h = ground arith

  asked :
      (d : Disk) (s : Store) (job : Job)
      → (create_planned_move_awaiting_authorization d j items a key hash binding s).0
        ≡ ok (job, false)
      → (valid_key_id j.id ≡ true)
        × ((update d move s).0 ≡ ok (job, false))
        × (create_planned_move_awaiting_authorization d j items a key hash binding s
            ≡ update d move s)
  unfolding create_planned_move_awaiting_authorization create_awaiting may_await
  asked d s job h = (ground arith, ground arith, ground arith)

  used_is_unconfirmed :
      (p : DestructivePlan) (next : MovePlanBinding) (actor_id : String) (job : Job)
      → (j.id == "") ≡ false
      → move_confirmed (used p) next actor_id job ≡ false
  unfolding move_confirmed consume
  used_is_unconfirmed p next actor_id job n = ground arith

  -- A planned move that makes a job carries the plan that it names; the plan is stored as consumed by
  -- that job, and then confirms no further move, whoever asks and with whatever token and digest.
  pub create_planned_move_awaiting_authorization-consumes :
      (d : Disk) (s : Store) (job next : Job) (other : MovePlanBinding) (actor_id : String)
      → (create_planned_move_awaiting_authorization d j items a key hash binding s).0
        ≡ ok (job, false)
      → (p : DestructivePlan) × (get_plan
            (create_planned_move_awaiting_authorization d j items a key hash binding s).1.tables
            binding.plan_id
          ≡ some p)
        × (p.consumed_job_id ≡ j.id)
        × (job.destructive_plan_id ≡ binding.plan_id)
        × (move_confirmed p other actor_id next ≡ false)
  unfolding consume
  create_planned_move_awaiting_authorization-consumes d s job next other actor_id h =
      let (named, ran, same) = asked d s job h in
      let tx = begin d s in
      let returned = update-result d move s (job, false) ran in
      elim (Option-cases (get_plan s.tables binding.plan_id)) [
        | inl e ↦ absurd (ground (arith, needs_plan tx job returned))
        | inr (p, e) ↦
            let id = find_key binding.plan_id s.tables.plans p e in
            let (_, _, carried) = confirmed tx job p e returned in
            let after = create_planned_move_awaiting_authorization d j items a key hash binding s in
            (
              used p,
              ap (get_plan after.1.tables) (sym id)
                  ∙ ap (λ r. get_plan r.1.tables p.id) same
                  ∙ update-plan d move s (job, false) p.id ran
                  ∙ moved_records tx job p (get_plan s.tables p.id) e returned,
              refl,
              carried ∙ id,
              used_is_unconfirmed p other actor_id next (required j.id named),
            )
      ]
