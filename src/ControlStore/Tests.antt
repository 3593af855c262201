-- ===== src/ControlStore/Tests.antt =====
-- Runs of the store of the control tower on small tables, and the data that they share.
mod Audit
mod Pending
mod Shares
mod Enrollment
use Prim.Native.String
use jolt.Prelude.{
  ℕ, String, ◌<>◌, Bool, true, false, Option, none, some, List, [], ◌∷◌, ◌==◌, ◌≡◌, refl,
}
use jolt.ControlStore.Entities.{
  PendingOperation, AuditRecord, AuditEvent, Share, TimeColumn, null, time, AgentUsage, Db,
}
use jolt.ControlStore.Sql.{Faults}

abbrev pub digest : String → String
digest s = String.◌∷◌ "#" s

abbrev pub no_faults : Faults
no_faults i = false

-- 2026-01-01T00:00:00Z
abbrev pub now : ℕ
now = 1767225600000000000

abbrev pub request : PendingOperation
request = record {
  kind = "";
  credential_id = "";
  id = "";
  requester_type = "user";
  requester_id = "ana";
  method = "DELETE";
  node_id = "n1";
  resource = "files";
  raw_query = "";
  body = "{}";
  body_sha256 = "";
  summary = "";
  requirements = [];
  state = "";
  created_at = 0;
  expires_at = 0;
  decided_by_type = "";
  decided_by_id = "";
  decided_at = none;
  note = "";
  result_status = 0;
  result_body = "";
}

abbrev pub waiting_request : PendingOperation
waiting_request = record request {
  kind = "replay";
  id = "pop_1";
  body_sha256 = "#{}";
  summary = "{}";
  state = "pending";
  created_at = now;
  expires_at = 1767225900000000000;
}

abbrev pub login : AuditRecord
login = record {
  actor_id = "ana";
  actor_type = "user";
  action = "login";
  resource = "session";
  result = "allowed";
  correlation_id = "";
  created_at = "";
  policy_ids = "";
  evaluated_path = "";
  capability = "";
  source_ip = "";
  detail = "";
}

abbrev pub link : Share
link = record {
  id = "s1";
  token_hash = "t1";
  node_id = "n1";
  mount_id = "m1";
  path = "a";
  kind = "file";
  name = "a";
  password_hash = "";
  allow_archive = true;
  max_downloads = 2;
  download_count = 1;
  created_by = "ana";
  created_by_type = "user";
  created_credential_id = "";
  created_at = now;
  expires_at = time 1767225900000000000;
  revoked_at = null;
  last_access_at = null;
}

abbrev pub no_rows : Db
no_rows = record {
  pending = [];
  audit = [];
  audit_sequence = 0;
  chain = none;
  checkpoints = [];
  assignments = [];
  users = "ana" ∷ [];
  service_accounts = [];
  policies = "p1" ∷ [];
  minimum_security_version = none;
  shares = link ∷ [];
  usage = [];
  join_tokens = [];
  enrollments = [];
  nodes = "n1" ∷ [];
  managed_nodes = [];
}

abbrev pub one_request : Db
one_request = record no_rows { pending = waiting_request ∷ [] }
