-- ===== src/ControlStore/Entities.antt =====
-- The rows of the tables of control/internal/store. A column that holds a time as a text, or a list
-- as JSON, is the value that the store wrote.
use jolt.Prelude.{ℕ, String, Bool, Option, List}

pub record PendingRequirement : Type 0 where
  pub path : String
  pub capability : String

pub record PendingOperation : Type 0 where
  pub kind : String
  pub credential_id : String
  pub id : String
  pub requester_type : String
  pub requester_id : String
  pub method : String
  pub node_id : String
  pub resource : String
  pub raw_query : String
  pub body : String
  pub body_sha256 : String
  pub summary : String
  pub requirements : List PendingRequirement
  pub state : String
  pub created_at : ℕ
  pub expires_at : ℕ
  pub decided_by_type : String
  pub decided_by_id : String
  pub decided_at : Option ℕ
  pub note : String
  pub result_status : ℕ
  pub result_body : String

pub record AuditRecord : Type 0 where
  pub actor_id : String
  pub actor_type : String
  pub action : String
  pub resource : String
  pub result : String
  pub correlation_id : String
  pub created_at : String
  pub policy_ids : String
  pub evaluated_path : String
  pub capability : String
  pub source_ip : String
  pub detail : String

-- a row of `audit_events`
pub record AuditEvent : Type 0 where
  pub id : ℕ
  pub content : AuditRecord
  pub chain_data : String
  pub chain_hash : String

-- the row of `audit_chain_state`
pub record ChainState : Type 0 where
  pub last_id : ℕ
  pub last_hash : String

pub record AuditCheckpoint : Type 0 where
  pub event_id : ℕ
  pub event_hash : String
  pub created_at : String
  pub reason : String

-- a row of `temporary_policy_assignments`
pub record TemporaryAssignment : Type 0 where
  pub policy_id : String
  pub subject_type : String
  pub subject_id : String
  pub created_by : String
  pub created_at : ℕ
  pub expires_at : ℕ

-- a nullable text column that stands for a time
pub data TimeColumn : Type 0 where
  null : TimeColumn
  time : ℕ → TimeColumn
  unreadable : String → TimeColumn

pub record Share : Type 0 where
  pub id : String
  pub token_hash : String
  pub node_id : String
  pub mount_id : String
  pub path : String
  pub kind : String
  pub name : String
  pub password_hash : String
  pub allow_archive : Bool
  pub max_downloads : ℕ
  pub download_count : ℕ
  pub created_by : String
  pub created_by_type : String
  pub created_credential_id : String
  pub created_at : ℕ
  pub expires_at : TimeColumn
  pub revoked_at : TimeColumn
  pub last_access_at : TimeColumn

-- a row of `agent_usage`
pub record AgentUsage : Type 0 where
  pub token_id : String
  pub day : String
  pub charged_bytes : ℕ

-- a row of `join_tokens`, where a token that was not used has an empty `used_at`
pub record JoinToken : Type 0 where
  pub id : String
  pub secret_hash : String
  pub node_name : String
  pub approval : String
  pub created_by : String
  pub created_at : ℕ
  pub expires_at : ℕ
  pub used_at : Option ℕ
  pub enrollment_id : String

pub record Enrollment : Type 0 where
  pub id : String
  pub token_id : String
  pub state : String
  pub node_name : String
  pub node_id : String
  pub node_fingerprint : String
  pub api_endpoint : String
  pub remote_addr : String
  pub csr_pem : String
  pub csr_hash : String
  pub operational_encrypted : String
  pub poll_hash : String
  pub decided_by : String
  pub note : String
  pub response : String
  pub created_at : ℕ
  pub expires_at : ℕ
  pub decided_at : Option ℕ

pub record ManagedNode : Type 0 where
  pub node_id : String
  pub enrolled_at : ℕ
  pub bundle_version : ℕ
  pub cert_serial : String
  pub cert_not_before : ℕ
  pub cert_not_after : ℕ
  pub cert_fingerprint : String
  pub cert_issuer : String
  pub auth_mode : String
  pub last_error : String
  pub last_error_at : Option ℕ

-- The tables of the model. The rows of a table are in the order of their insertion;
-- `audit_sequence` is the row of `audit_events` in SQLite's table of sequences.
pub record Db : Type 0 where
  pub pending : List PendingOperation
  pub audit : List AuditEvent
  pub audit_sequence : ℕ
  pub chain : Option ChainState
  pub checkpoints : List AuditCheckpoint
  pub assignments : List TemporaryAssignment
  pub users : List String
  pub service_accounts : List String
  pub policies : List String
  pub minimum_security_version : Option ℕ
  pub shares : List Share
  pub usage : List AgentUsage
  pub join_tokens : List JoinToken
  pub enrollments : List Enrollment
  pub nodes : List String
  pub managed_nodes : List ManagedNode
