-- ===== src/State/Tests/Plans.antt =====
-- The acceptance of the plan of the tests, twice, and a purge of the store.
use jolt.Prelude.{◌≤◌, ◌≡◌, refl, String, true, false, Option, none, some, Result, ok}
use jolt.State.Entities.{Job}
use jolt.State.Tables.{get_plan}
use jolt.State.Plans.{purge_expired_destructive_plans}
use jolt.State.Plans.Purge.{purge_expired_destructive_plans-keeps}
use jolt.State.Plans.Accept.{Acceptance, accepted_job, accept_destructive_plan}
use jolt.State.Plans.Accept.Laws.{accept_destructive_plan-once}
use jolt.State.Tests.{plain_job, plan, digest, store, disk}

abbrev hash : String → String
hash s = "hash of the key"

abbrev removal : Job
removal = record plain_job {
  id = "job9";
  kind = "delete";
  source_path = "old";
  destination = "";
  recursive = true;
}

abbrev request : Acceptance
request = record {
  plan_id = "plan1";
  subject_type = "user";
  subject_id = "alice";
  token_hash = digest;
  tree_digest = digest;
  destination_exists = false;
  destination_digest = "";
  job = removal;
  idempotency_key = "key";
  request_hash = digest;
  now = 500;
}

accept_destructive_plan-once_example :
    (true ≡ true)
    × (accepted_job plan removal ≡ accepted_job plan removal)
    × (request.idempotency_key ≡ request.idempotency_key)
    × (request.request_hash ≡ request.request_hash)
unfolding accept_destructive_plan jolt.State.Plans.Accept.well_formed
    jolt.SignedAuth.Binding.identifier jolt.Prelude.trim_space jolt.Prelude.any_char
    jolt.State.Plans.plan_digest jolt.Prelude.to_lower jolt.State.Transaction.update
    jolt.State.Plans.Accept.accept jolt.State.Tables.find jolt.State.Plans.Accept.confirms
    jolt.State.Plans.Accept.unchanged jolt.State.Plans.plan_live jolt.State.Plans.Accept.fresh
    jolt.State.Plans.Accept.consume accepted_job jolt.State.Plans.Accept.destructive_idempotency_key
    jolt.State.Tables.apply_writes jolt.State.Tables.apply_write jolt.State.Tables.put
    jolt.State.Tables.insert jolt.State.Tables.without jolt.Rbac.Evaluate.Order.text_le
accept_destructive_plan-once_example =
    accept_destructive_plan-once hash disk disk request request store (accepted_job plan removal)
      (accepted_job plan removal) true refl refl refl

purge_expired_destructive_plans-keeps_example :
    (0 ≤ 1000)
    × (get_plan (purge_expired_destructive_plans disk 500 store).1.tables "plan1"
        ≡ get_plan store.tables "plan1")
unfolding purge_expired_destructive_plans jolt.State.Transaction.update jolt.State.Plans.purge
    jolt.State.Plans.purgeable
purge_expired_destructive_plans-keeps_example =
    purge_expired_destructive_plans-keeps disk 500 store 0 "plan1" refl refl
