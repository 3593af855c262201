-- ===== src/State/Tests/Moves.antt =====
-- A planned move between two nodes.
use jolt.Prelude.{◌≡◌, refl, String, true, false, Option, none, some, List, [], ◌∷◌, Result, ok}
use jolt.State.Entities.{Job, JobItem, DestructivePlan, MovePlanBinding}
use jolt.State.Tables.{get_plan}
use jolt.State.Transaction.{Store}
use jolt.State.Jobs.Awaiting.{
  Actor, move_confirmed, awaiting, create_planned_move_awaiting_authorization,
}
use jolt.State.Jobs.Awaiting.Moves.{create_planned_move_awaiting_authorization-consumes}
use jolt.State.Tests.{plain_job, plan, digest, tables, store, disk}

abbrev alice : Actor
alice = record { actor_id = "alice"; credential_id = "c1" }

abbrev moving : Job
moving = record plain_job { id = "job9"; kind = "transfer_move_batch" }

abbrev item : JobItem
item = record {
  job_id = "";
  ordinal = 0;
  relative_path = "a.txt";
  source_path = "a.txt";
  destination_path = "b.txt";
  kind = "file";
  size = 3;
  modified_at = 1;
  checksum = "";
  source_root = true;
  source_cleanup_state = "";
  action = "copy";
  state = "pending";
  bytes_completed = 0;
  attempt = 0;
  error = "";
  updated_at = 1;
}

abbrev move_plan : DestructivePlan
move_plan = record plan { id = "plan2"; operation = "transfer_move"; source = "" }

abbrev planned : Store
planned = record store { tables = record tables { plans = move_plan ∷ [] } }

abbrev confirmation : MovePlanBinding
confirmation = record {
  plan_id = "plan2";
  subject_type = "user";
  token_hash = digest;
  digest = digest;
  now = 500;
}

create_planned_move_awaiting_authorization-consumes_example :
    (p : DestructivePlan) × (get_plan
        (create_planned_move_awaiting_authorization disk moving
          (item ∷ [])
          alice
          "key"
          "hash"
          confirmation
          planned).1.tables
        "plan2"
      ≡ some p)
    × (p.consumed_job_id ≡ "job9")
    × ((awaiting (record moving { destructive_plan_id = "plan2" }) alice).destructive_plan_id
        ≡ "plan2")
    × (move_confirmed p confirmation "alice" moving ≡ false)
unfolding create_planned_move_awaiting_authorization jolt.SignedAuth.Binding.identifier
    jolt.Prelude.trim_space jolt.Prelude.any_char jolt.State.Plans.plan_digest jolt.Prelude.to_lower
    jolt.State.Jobs.Awaiting.may_await jolt.State.Jobs.carries_authorization
    jolt.State.Transaction.update jolt.State.Jobs.Awaiting.await jolt.State.Tables.find
    jolt.State.Transaction.ensure_security_version jolt.State.Jobs.Awaiting.consume_move_plan
    move_confirmed jolt.State.Plans.plan_live jolt.State.Jobs.put_items jolt.Prelude.contains
    jolt.State.Plans.Accept.consume awaiting jolt.State.Entities.item_key
    jolt.SignedAuth.Verify.separator
create_planned_move_awaiting_authorization-consumes_example =
    create_planned_move_awaiting_authorization-consumes moving (item ∷ []) alice "key" "hash"
      confirmation disk planned (awaiting (record moving { destructive_plan_id = "plan2" }) alice)
      moving confirmation "alice" refl
