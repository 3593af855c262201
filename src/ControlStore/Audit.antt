-- ===== src/ControlStore/Audit.antt =====
-- audit_chain.go and `PurgeAuditBefore` of audit_detail.go: the audit log and its hash chain, and
-- scripts/verify-audit-ndjson.py, which checks an export of it. The digest, `sha256.Sum256` in
-- hexadecimal, is a parameter, and so is SQLite's `julianday`.
pub mod Keeps
pub mod Chain
use jolt.Prelude.{
  ℕ, ◌+◌, String, Bool, true, false, ◌&&◌, ◌||◌, not, Option, none, some, List, [], ◌∷◌, ◌++◌, ◌==◌,
  ltb, leb, eqb, if◌then◌else◌, Result, ok, err, stamp, decimal, json_strings,
}
use jolt.ControlStore.Entities.{AuditRecord, AuditEvent, ChainState, AuditCheckpoint, Db}
use jolt.ControlStore.Sql.{
  DbError, database, Faults, Tx, M, ◌>>=◌, ◌>>◌, pure, statement, query, exec, commit, transaction,
  run_statement, update_where, delete_where, rows_where, count_where,
}

-- `strings.Repeat("0", 64)`
abbrev pub zero_hash : String
zero_hash = "0000000000000000000000000000000000000000000000000000000000000000"

pub largest_id : List AuditEvent → ℕ
largest_id [] = 0
largest_id (e ∷ es) = let rest = largest_id es in if ltb rest e.id then e.id else rest

activate : ℕ → ℕ → M (Unit {0})
activate now last_id = do
  exec (λ d. record d { chain = some (record { last_id = last_id; last_hash = zero_hash }) })
  exec (λ d. record d {
    checkpoints =
        d.checkpoints
        ++ record {
          event_id = last_id;
          event_hash = zero_hash;
          created_at = stamp now;
          reason = "activation";
        }
          ∷ [];
  })
  commit

activate_once : ℕ → Option ChainState → M (Unit {0})
unfolding activate
activate_once now (some s) = commit
activate_once now none = do last_id ← query (λ d. largest_id d.audit); activate now last_id

-- `EnableAuditChain`
unfoldable pub enable_audit_chain : ℕ → Faults → Db → Result DbError (Unit {0}) × Db
unfolding activate_once
enable_audit_chain now = transaction (query (λ d. d.chain) >>= activate_once now)

-- the defaults of `appendAuditTx`
unfoldable pub completed : ℕ → AuditRecord → AuditRecord
completed now r = record r {
  created_at = if r.created_at == "" then stamp now else r.created_at;
  policy_ids = if r.policy_ids == "" then "[]" else r.policy_ids;
  detail = if r.detail == "" then "{}" else r.detail;
}

-- what `appendAuditTx` chains
unfoldable pub fields : String → ℕ → AuditRecord → List String
fields previous id r =
    "jolt-audit-v1"
    ∷ previous
    ∷ decimal id
    ∷ r.actor_id
    ∷ r.actor_type
    ∷ r.action
    ∷ r.resource
    ∷ r.result
    ∷ r.correlation_id
    ∷ r.created_at
    ∷ r.policy_ids
    ∷ r.evaluated_path
    ∷ r.capability
    ∷ r.source_ip
    ∷ r.detail
    ∷ []

unfoldable pub payload : String → ℕ → AuditRecord → String
unfolding fields
payload previous id r = json_strings (fields previous id r)

insert_event : AuditRecord → Db → ℕ × Db
insert_event r d =
    let id = d.audit_sequence + 1 in
    (
      id,
      record d {
        audit = d.audit ++ (record { id = id; content = r; chain_data = ""; chain_hash = "" } ∷ []);
        audit_sequence = id;
      },
    )

has_id : ℕ → AuditEvent → Bool
has_id id e = eqb e.id id

module _ (digest : String → String) where
  chain_event : AuditRecord → ℕ → Option ChainState → M (Unit {0})
  unfolding has_id
  chain_event r id none = pure tt
  chain_event r id (some s) = do
    let data_text = payload s.last_hash id r
    exec (λ d. record d {
      audit =
          update_where (has_id id)
            (λ e. record e { chain_data = data_text; chain_hash = digest data_text }) d.audit;
    })
    exec (λ d. record d { chain = some (record { last_id = id; last_hash = digest data_text }) })

  -- `appendAuditTx`
  unfoldable pub append_audit_tx : ℕ → AuditRecord → M (Unit {0})
  unfolding insert_event chain_event
  append_audit_tx now r = do
    id ← statement (insert_event (completed now r))
    chain ← query (λ d. d.chain)
    chain_event (completed now r) id chain

  -- `appendAudit`
  unfoldable pub append_audit : ℕ → AuditRecord → Faults → Db → Result DbError (Unit {0}) × Db
  append_audit now r = transaction (append_audit_tx now r >> commit)

-- `AuditAgentRequest`, of a detail that is encoded
unfoldable pub audit_agent_request :
    (String → String)
    → String
    → String
    → String
    → String
    → String
    → String
    → ℕ
    → Faults
    → Db
    → Result DbError (Unit {0}) × Db
audit_agent_request digest actor_id resource result correlation_id source_ip encoded now =
    append_audit digest now (record {
      actor_id = actor_id;
      actor_type = "service_account";
      action = "agent_request";
      resource = resource;
      result = result;
      correlation_id = correlation_id;
      created_at = "";
      policy_ids = "";
      evaluated_path = "";
      capability = "";
      source_ip = source_ip;
      detail = encoded;
    })

unfoldable pub latest : List AuditCheckpoint → Option AuditCheckpoint
latest [] = none
latest (c ∷ []) = some c
latest (c ∷ d ∷ cs) = latest (d ∷ cs)

-- `AuditCheckpoint`
unfoldable pub audit_checkpoint : Bool → Db → Result DbError (Option AuditCheckpoint)
audit_checkpoint fails d = if fails then err database else ok (latest d.checkpoints)

-- whether a row is too young to go, or its time cannot be read
retained : (String → Option ℕ) → String → AuditEvent → Bool
retained julianday cutoff e = elim (julianday e.content.created_at) [
  | none ↦ true
  | some t ↦ elim (julianday cutoff) [ none ↦ false | some c ↦ leb c t ]
]

-- `COALESCE(MIN(id), …)` over the rows that stay for their age
lowest_retained : (AuditEvent → Bool) → List AuditEvent → Option ℕ
lowest_retained keep [] = none
lowest_retained keep (e ∷ es) =
    let rest = lowest_retained keep es in
    if keep e
    then elim rest [ none ↦ some e.id | some n ↦ some (if ltb e.id n then e.id else n) ]
    else rest

boundary : (AuditEvent → Bool) → List AuditEvent → ℕ
unfolding lowest_retained
boundary keep es = elim (lowest_retained keep es) [ some n ↦ n | none ↦ largest_id es + 1 ]

-- the chained row of the largest id below the boundary
unfoldable pub last_chained : ℕ → List AuditEvent → Option AuditEvent
last_chained b [] = none
last_chained b (e ∷ es) =
    let rest = last_chained b es in
    if ltb e.id b && not (e.chain_hash == "")
    then elim rest [ none ↦ some e | some f ↦ some (if ltb f.id e.id then e else f) ]
    else rest

mark : ℕ → Option AuditEvent → M (Unit {0})
mark now none = pure tt
mark now (some e) = exec (λ d. record d {
  checkpoints =
      d.checkpoints
      ++ record {
        event_id = e.id;
        event_hash = e.chain_hash;
        created_at = stamp now;
        reason = "retention";
      }
        ∷ [];
})

unfoldable pub below : ℕ → AuditEvent → Bool
below b e = ltb e.id b

-- the checkpoint, and the deletion of the rows below the boundary
unfoldable pub purge_below : ℕ → ℕ → Option AuditEvent → M ℕ
unfolding mark
purge_below now b last = do
  mark now last
  count ←
      statement
        (λ d. (count_where (below b) d.audit, record d { audit = delete_where (below b) d.audit }))
  commit
  pure count

-- `PurgeAuditBefore`
unfoldable pub purge_audit_before :
    (String → Option ℕ) → ℕ → ℕ → Faults → Db → Result DbError ℕ × Db
unfolding retained boundary
purge_audit_before julianday before now = transaction do
  b ← query (λ d. boundary (retained julianday (stamp before)) d.audit)
  last ← query (λ d. last_chained b d.audit)
  purge_below now b last
