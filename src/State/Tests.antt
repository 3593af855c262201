-- ===== src/State/Tests.antt =====
-- The jobs, plans and stores of the tests.
mod Claims
mod Jobs
mod Plans
mod Leases
mod Guard
mod Moves
use jolt.Prelude.{ℕ, String, Bool, true, false, Option, none, some, List, [], ◌∷◌}
use jolt.SignedAuth.Verify.{from_unix}
use jolt.SignedAuth.Tests.{copy_binding, now}
use jolt.State.Entities.{Job, DestructivePlan, JobAuthorization}
use jolt.State.Tables.{Tables}
use jolt.State.Transaction.{Store, Disk}

abbrev pub plain_job : Job
plain_job = record {
  parent_job_id = "";
  destructive_plan_id = "";
  signed_auth_bound = false;
  requires_signed_auth = false;
  signed_auth_actor_id = "";
  signed_auth_credential_id = "";
  sources_omitted = 0;
  id = "job0";
  kind = "transfer_pull";
  state = "queued";
  phase = "";
  mount_id = "m1";
  peer_node_id = "n2";
  source_grant_id = "";
  destination_grant_id = "";
  source_etag = "";
  source_path = "a.txt";
  destination = "b.txt";
  bytes_total = 0;
  bytes_completed = 0;
  eta_seconds = none;
  eta_confidence = "";
  files_total = 0;
  files_completed = 0;
  files_failed = 0;
  conflict_policy = "";
  source_change_policy = "";
  verify_checksum = false;
  bandwidth_limit = 0;
  max_parallel_files = 1;
  max_parallel_chunks = 1;
  overwrite = false;
  recursive = false;
  attempt = 0;
  max_attempts = 3;
  error = "";
  correlation_id = "";
  created_at = 1;
  updated_at = 1;
  started_at = none;
  next_attempt_at = none;
  completed_at = none;
}

-- a local copy under the authorization of the tokens of the tests
abbrev pub copy_job : Job
copy_job = record plain_job {
  id = "job1";
  kind = "copy_local";
  peer_node_id = "";
  signed_auth_bound = true;
  requires_signed_auth = true;
  signed_auth_actor_id = "alice";
  signed_auth_credential_id = "c1";
  created_at = 2;
}

abbrev pub waiting_job : Job
waiting_job = record plain_job { id = "job2"; state = "waiting_peer"; created_at = 3 }

abbrev pub lease : JobAuthorization
lease = record {
  job_id = "job1";
  binding = copy_binding;
  revision = 1;
  envelope = "copy";
  expires_at = from_unix 1020;
}

abbrev pub digest : String
digest = "0123456789abcdef0123456789abcdef0123456789abcdef0123456789abcdef"

abbrev pub plan : DestructivePlan
plan = record {
  id = "plan1";
  token_hash = digest;
  subject_type = "user";
  subject_id = "alice";
  operation = "delete";
  mount_id = "m1";
  source = "old";
  destination = "";
  overwrite = false;
  destination_exists = false;
  tree_digest = digest;
  destination_digest = "";
  created_at = 1;
  expires_at = 1_000;
  consumed_job_id = "";
  idempotency_key = "";
  request_hash = "";
}

abbrev pub tables : Tables
tables = record {
  jobs = plain_job ∷ copy_job ∷ waiting_job ∷ [];
  items = [];
  events = [];
  plans = plan ∷ [];
  authorizations = lease ∷ [];
  idempotency = [];
  destructive_idempotency = [];
  sequence = 7;
}

abbrev pub store : Store
store = record { tables = tables; version = 6; closed = false; poisoned = false; read_only = false }

abbrev pub disk : Disk
disk = record { canceled = false; header_ok = true; commit_ok = true; compaction_ok = true }
