-- ===== src/State/Transaction/Confirmed.antt =====
-- The plans that a transaction leaves, from its records.
use jolt.Prelude.{
  ◌≡◌, refl, ◌∙◌, ap, String, true, Option, none, some, List, [], ◌∷◌, ◌++◌, arith, ◌==◌, eqb,
  length, if◌then◌else◌, ok,
}
use jolt.State.Entities.{DestructivePlan}
use jolt.State.Tables.{
  Tables, Write, put_job, put_item, remove_item, put_event, put_plan, remove_plan,
  put_authorization, put_idempotency, put_destructive_idempotency, get_plan, plan_key, plan_order,
  apply_write, apply_writes,
}
use jolt.State.Tables.Laws.{find-put, find-without}
use jolt.State.Transaction.{Store, Disk, M, begin, commit, update}

-- what is stored of the plan `k` behind the records
unfoldable pub plan_after : String → List Write → Option DestructivePlan → Option DestructivePlan
plan_after k [] o = o
plan_after k (put_job j ∷ ws) o = plan_after k ws o
plan_after k (put_item i ∷ ws) o = plan_after k ws o
plan_after k (remove_item i ∷ ws) o = plan_after k ws o
plan_after k (put_event e ∷ ws) o = plan_after k ws o
plan_after k (put_plan p ∷ ws) o = plan_after k ws (if p.id == k then some p else o)
plan_after k (remove_plan i ∷ ws) o = plan_after k ws (if i == k then none else o)
plan_after k (put_authorization a ∷ ws) o = plan_after k ws o
plan_after k (put_idempotency i r ∷ ws) o = plan_after k ws o
plan_after k (put_destructive_idempotency i r ∷ ws) o = plan_after k ws o

pub plan_after-append :
    (k : String) (ws vs : List Write) (o : Option DestructivePlan)
    → plan_after k (ws ++ vs) o ≡ plan_after k vs (plan_after k ws o)
unfolding plan_after
plan_after-append k [] vs o = refl
plan_after-append k (put_job j ∷ ws) vs o = plan_after-append k ws vs o
plan_after-append k (put_item i ∷ ws) vs o = plan_after-append k ws vs o
plan_after-append k (remove_item i ∷ ws) vs o = plan_after-append k ws vs o
plan_after-append k (put_event e ∷ ws) vs o = plan_after-append k ws vs o
plan_after-append k (put_plan p ∷ ws) vs o =
    plan_after-append k ws vs (if p.id == k then some p else o)
plan_after-append k (remove_plan i ∷ ws) vs o =
    plan_after-append k ws vs (if i == k then none else o)
plan_after-append k (put_authorization a ∷ ws) vs o = plan_after-append k ws vs o
plan_after-append k (put_idempotency i r ∷ ws) vs o = plan_after-append k ws vs o
plan_after-append k (put_destructive_idempotency i r ∷ ws) vs o = plan_after-append k ws vs o

get_plan-apply_writes :
    (k : String) (ws : List Write) (t : Tables)
    → get_plan (apply_writes ws t) k ≡ plan_after k ws (get_plan t k)
unfolding plan_after apply_writes apply_write
get_plan-apply_writes k [] t = refl
get_plan-apply_writes k (put_job j ∷ ws) t = get_plan-apply_writes k ws (apply_write (put_job j) t)
get_plan-apply_writes k (put_item i ∷ ws) t =
    get_plan-apply_writes k ws (apply_write (put_item i) t)
get_plan-apply_writes k (remove_item i ∷ ws) t =
    get_plan-apply_writes k ws (apply_write (remove_item i) t)
get_plan-apply_writes k (put_event e ∷ ws) t =
    get_plan-apply_writes k ws (apply_write (put_event e) t)
get_plan-apply_writes k (put_plan p ∷ ws) t =
    get_plan-apply_writes k ws (apply_write (put_plan p) t)
    ∙ ap (plan_after k ws) (find-put plan_key plan_order k p t.plans)
get_plan-apply_writes k (remove_plan i ∷ ws) t =
    get_plan-apply_writes k ws (apply_write (remove_plan i) t)
    ∙ ap (plan_after k ws) (find-without plan_key plan_order k i t.plans)
get_plan-apply_writes k (put_authorization a ∷ ws) t =
    get_plan-apply_writes k ws (apply_write (put_authorization a) t)
get_plan-apply_writes k (put_idempotency i r ∷ ws) t =
    get_plan-apply_writes k ws (apply_write (put_idempotency i r) t)
get_plan-apply_writes k (put_destructive_idempotency i r ∷ ws) t =
    get_plan-apply_writes k ws (apply_write (put_destructive_idempotency i r) t)

no_records :
    (k : String) (ws : List Write) (o : Option DestructivePlan)
    → eqb (length ws) 0 ≡ true
    → plan_after k ws o ≡ o
unfolding plan_after
no_records k [] o h = refl
no_records k (w ∷ ws) o h = ground arith

-- A transaction that succeeds leaves the plans that its records say.
pub update-plan :
    {A : Type 0} (d : Disk) (m : M A) (s : Store) (a : A) (k : String)
    → (update d m s).0 ≡ ok a
    → get_plan (update d m s).1.tables k
      ≡ plan_after k (m (begin d s)).1.writes (get_plan s.tables k)
unfolding update commit
update-plan d m s a k h = ground (
  arith,
  get_plan-apply_writes k (m (begin d s)).1.writes s.tables,
  no_records k (m (begin d s)).1.writes (get_plan s.tables k),
)
