-- ===== src/State/Plans/Purge.antt =====
-- What a purge removes.
use jolt.Prelude.{
  ℕ, ◌+◌, ◌≤◌, ◌≡◌, refl, ◌∙◌, ap, String, Bool, false, ◌&&◌, Option, List, [], ◌∷◌, ◌++◌, arith,
  ◌==◌, leb, any, ok,
}
use jolt.SignedAuth.Verify.{Time}
use jolt.State.Entities.{DestructivePlan}
use jolt.State.Tables.{remove_plan, get_plan}
use jolt.State.Transaction.{Store, Disk, Tx, M, begin, update}
use jolt.State.Transaction.Rows.{update-result}
use jolt.State.Transaction.Confirmed.{plan_after, plan_after-append, update-plan}
use jolt.State.Plans.{purgeable, purge, purge_expired_destructive_plans}

purge-bounded :
    (now : Time) (removed n : ℕ) (ps : List DestructivePlan) (tx : Tx)
    → removed ≤ 1000
    → (purge now removed ps tx).0 ≡ ok n
    → n ≤ 1000
unfolding purge
purge-bounded now removed n [] tx b h = ground arith
purge-bounded now removed n (p ∷ ps) tx b h = ground (
  arith,
  purge-bounded now removed n ps tx,
  purge-bounded now (removed + 1) n ps
      (record tx { writes = tx.writes ++ (remove_plan p.id ∷ []) }),
)

-- the plan has the id, was not consumed, and has expired
abbrev pub expired_as : Time → String → DestructivePlan → Bool
expired_as now k p = p.id == k && p.consumed_job_id == "" && leb p.expires_at now

purge-keeps :
    (now : Time) (removed : ℕ) (ps : List DestructivePlan) (tx : Tx) (k : String)
    (o : Option DestructivePlan)
    → any (expired_as now k) ps ≡ false
    → plan_after k (purge now removed ps tx).1.writes o ≡ plan_after k tx.writes o
unfolding purge plan_after purgeable
purge-keeps now removed [] tx k o h = refl
purge-keeps now removed (p ∷ ps) tx k o h = ground (
  arith,
  purge-keeps now removed ps tx k o,
  purge-keeps now (removed + 1) ps (record tx { writes = tx.writes ++ (remove_plan p.id ∷ []) }) k
      o,
  plan_after-append k tx.writes (remove_plan p.id ∷ []) o,
)

purged_by :
    (d : Disk) (now : Time) (s : Store) (n : ℕ)
    → (purge_expired_destructive_plans d now s).0 ≡ ok n
    → let m : M ℕ = λ tx. purge now 0 tx.tables.plans tx in
      ((update d m s).0 ≡ ok n) × (purge_expired_destructive_plans d now s ≡ update d m s)
unfolding purge_expired_destructive_plans
purged_by d now s n h = (ground arith, ground arith)

-- A purge that succeeds reports at most a thousand removals, and keeps every plan that was consumed or
-- has not expired.
pub purge_expired_destructive_plans-keeps :
    (d : Disk) (now : Time) (s : Store) (n : ℕ) (k : String)
    → (purge_expired_destructive_plans d now s).0 ≡ ok n
    → any (expired_as now k) s.tables.plans ≡ false
    → (n ≤ 1000)
      × (get_plan (purge_expired_destructive_plans d now s).1.tables k ≡ get_plan s.tables k)
unfolding plan_after
purge_expired_destructive_plans-keeps d now s n k h none_expired =
    let m : M ℕ = λ tx. purge now 0 tx.tables.plans tx in
    let (ran, same) = purged_by d now s n h in
    let plans = s.tables.plans in
    (
      purge-bounded now 0 n plans (begin d s) (ground arith) (update-result d m s n ran),
      ap (λ r. get_plan r.1.tables k) same
          ∙ update-plan d m s n k ran
          ∙ purge-keeps now 0 plans (begin d s) k (get_plan s.tables k) none_expired,
    )
