-- ===== src/ControlStore/Temporary.antt =====
-- temporary_policies.go: policies that are assigned for a while. A subject or a policy is its id.
pub mod Laws
use jolt.Prelude.{
  ℕ, ◌+◌, String, ◌<>◌, Bool, true, false, ◌&&◌, ◌||◌, not, Option, none, some, List, [], ◌∷◌, ◌++◌,
  ◌==◌, ltb, leb, eqb, if◌then◌else◌, Result, ok, err, stamp, any, contains, json_string,
}
use jolt.Rbac.Evaluate.Order.{text_le}
use jolt.ControlStore.Entities.{TemporaryAssignment, AuditRecord, Db}
use jolt.ControlStore.Sql.{
  DbError, database, not_found, invalid_duration, Faults, M, ◌>>=◌, ◌>>◌, pure, fail, reject,
  statement, query, exec, commit, transaction, update_where, delete_where, rows_where, count_where,
}
use jolt.ControlStore.Audit.{append_audit_tx}

-- `time.Hour`
abbrev pub hour : ℕ
hour = 3600000000000

unfoldable pub of_subject : String → String → TemporaryAssignment → Bool
of_subject subject_type subject_id a = a.subject_type == subject_type && a.subject_id == subject_id

unfoldable pub assigns : String → String → String → TemporaryAssignment → Bool
assigns policy_id subject_type subject_id a =
    a.policy_id == policy_id && of_subject subject_type subject_id a

-- `INSERT … ON CONFLICT(policy_id,subject_type,subject_id) DO UPDATE`
unfoldable pub upsert : TemporaryAssignment → List TemporaryAssignment → List TemporaryAssignment
upsert a as' =
    if any (assigns a.policy_id a.subject_type a.subject_id) as'
    then update_where (assigns a.policy_id a.subject_type a.subject_id)
        (λ b. record b {
          created_at = a.created_at;
          created_by = a.created_by;
          expires_at = a.expires_at;
        })
        as'
    else as' ++ (a ∷ [])

-- `json.Marshal` of the map that names an assignment, whose keys come in their order
names : TemporaryAssignment → String
names a =
    "\"policy_id\":"
    <> json_string a.policy_id
    <> ",\"subject_id\":"
    <> json_string a.subject_id
    <> ",\"subject_type\":"
    <> json_string a.subject_type
    <> "}"

-- the record of the audit log
assignment_record :
    String → String → String → String → String → String → TemporaryAssignment → AuditRecord
assignment_record actor_id actor_type action correlation_id moment detail_text a = record {
  actor_id = actor_id;
  actor_type = actor_type;
  action = action;
  resource = "policy_assignments/" <> a.subject_type <> "/" <> a.subject_id;
  result = "allowed";
  correlation_id = correlation_id;
  created_at = moment;
  policy_ids = "";
  evaluated_path = "";
  capability = "";
  source_ip = "";
  detail = detail_text;
}

subjects : String → Db → List String
subjects subject_type d = if subject_type == "user" then d.users else d.service_accounts

known_subject_type : String → Bool
known_subject_type t = t == "user" || t == "service_account"

module _ (digest : String → String) where
  unfoldable pub store_grant : String → String → TemporaryAssignment → M TemporaryAssignment
  unfolding assignment_record names
  store_grant actor_type correlation_id a = do
    exec (λ d. record d { assignments = upsert a d.assignments })
    append_audit_tx digest a.created_at (
        assignment_record a.created_by actor_type "grant_temporary_policy" correlation_id
          (stamp a.created_at) ("{\"expires_at\":\"" <> stamp a.expires_at <> "\"," <> names a) a)
    commit
    pure a

  unfoldable pub grant : String → String → TemporaryAssignment → M TemporaryAssignment
  unfolding subjects
  grant actor_type correlation_id a = do
    known ← query (λ d. contains a.subject_id (subjects a.subject_type d))
    reject (not known) not_found
    policy ← query (λ d. contains a.policy_id d.policies)
    reject (not policy) not_found
    store_grant actor_type correlation_id a

  -- `GrantTemporaryPolicy`
  unfoldable pub grant_temporary_policy :
      String
      → String
      → String
      → String
      → String
      → String
      → ℕ
      → ℕ
      → Faults
      → Db
      → Result DbError TemporaryAssignment × Db
  unfolding known_subject_type
  grant_temporary_policy subject_type subject_id policy_id actor_id actor_type correlation_id
        duration now fails d =
      if eqb duration 0 || ltb hour duration
      then (err invalid_duration, d)
      else if not (known_subject_type subject_type)
      then (err not_found, d)
      else transaction
          (grant actor_type correlation_id (record {
            policy_id = policy_id;
            subject_type = subject_type;
            subject_id = subject_id;
            created_by = actor_id;
            created_at = now;
            expires_at = now + duration;
          }))
          fails d

  -- `RevokeTemporaryPolicy`
  unfoldable pub revoke_temporary_policy :
      String
      → String
      → String
      → String
      → String
      → String
      → ℕ
      → Faults
      → Db
      → Result DbError (Unit {0}) × Db
  unfolding assignment_record names
  revoke_temporary_policy subject_type subject_id policy_id actor_id actor_type correlation_id now =
      transaction do
        removed ← statement (λ d. (
          count_where (assigns policy_id subject_type subject_id) d.assignments,
          record d {
            assignments = delete_where (assigns policy_id subject_type subject_id) d.assignments;
          },
        ))
        reject (eqb removed 0) not_found
        append_audit_tx digest now (
            let a : TemporaryAssignment = record {
              policy_id = policy_id;
              subject_type = subject_type;
              subject_id = subject_id;
              created_by = actor_id;
              created_at = now;
              expires_at = 0;
            } in
            assignment_record actor_id actor_type "revoke_temporary_policy" correlation_id ""
              ("{" <> names a) a)
        commit
        pure tt

-- `ORDER BY policy_id`
insert_by_policy : TemporaryAssignment → List TemporaryAssignment → List TemporaryAssignment
insert_by_policy a [] = a ∷ []
insert_by_policy a (b ∷ bs) =
    let rest = insert_by_policy a bs in
    if text_le a.policy_id b.policy_id then a ∷ b ∷ bs else b ∷ rest

by_policy : List TemporaryAssignment → List TemporaryAssignment
unfolding insert_by_policy
by_policy [] = []
by_policy (a ∷ as') = insert_by_policy a (by_policy as')

unfoldable pub in_force : String → String → ℕ → TemporaryAssignment → Bool
in_force subject_type subject_id now a =
    of_subject subject_type subject_id a && ltb now a.expires_at

-- `TemporaryPolicies`
unfoldable pub temporary_policies :
    String → String → ℕ → Bool → Db → Result DbError (List TemporaryAssignment)
unfolding by_policy
temporary_policies subject_type subject_id now fails d =
    if fails
    then err database
    else ok (by_policy (rows_where (in_force subject_type subject_id now) d.assignments))
