-- ===== src/State/Entities.antt =====
-- node/backend/internal/entities/entities.go and the records of the store. Counts are never
-- negative; `BytesPerSecond`, a float that no operation here reads, is left out.
use jolt.Prelude.{ℕ, String, ◌<>◌, Bool, Option}
use jolt.SignedAuth.Binding.{Binding}
use jolt.SignedAuth.Verify.{Time, separator}

pub record Job : Type 0 where
  pub parent_job_id : String
  pub destructive_plan_id : String
  pub signed_auth_bound : Bool
  pub requires_signed_auth : Bool
  pub signed_auth_actor_id : String
  pub signed_auth_credential_id : String
  pub sources_omitted : ℕ
  pub id : String
  pub kind : String  -- `Type`
  pub state : String
  pub phase : String
  pub mount_id : String
  pub peer_node_id : String
  pub source_grant_id : String
  pub destination_grant_id : String
  pub source_etag : String
  pub source_path : String
  pub destination : String
  pub bytes_total : ℕ
  pub bytes_completed : ℕ
  pub eta_seconds : Option ℕ
  pub eta_confidence : String
  pub files_total : ℕ
  pub files_completed : ℕ
  pub files_failed : ℕ
  pub conflict_policy : String
  pub source_change_policy : String
  pub verify_checksum : Bool
  pub bandwidth_limit : ℕ
  pub max_parallel_files : ℕ
  pub max_parallel_chunks : ℕ
  pub overwrite : Bool
  pub recursive : Bool
  pub attempt : ℕ
  pub max_attempts : ℕ
  pub error : String
  pub correlation_id : String
  pub created_at : Time
  pub updated_at : Time
  pub started_at : Option Time
  pub next_attempt_at : Option Time
  pub completed_at : Option Time

pub record JobItem : Type 0 where
  pub job_id : String
  pub ordinal : ℕ
  pub relative_path : String
  pub source_path : String
  pub destination_path : String
  pub kind : String  -- `Type`
  pub size : ℕ
  pub modified_at : Time
  pub checksum : String
  pub source_root : Bool
  pub source_cleanup_state : String
  pub action : String
  pub state : String
  pub bytes_completed : ℕ
  pub attempt : ℕ
  pub error : String
  pub updated_at : Time

pub record JobEvent : Type 0 where
  pub id : ℕ
  pub job_id : String
  pub kind : String  -- `Type`
  pub state : String
  pub phase : String
  pub bytes_total : ℕ
  pub bytes_completed : ℕ
  pub eta_seconds : Option ℕ
  pub eta_confidence : String
  pub files_total : ℕ
  pub files_completed : ℕ
  pub files_failed : ℕ
  pub message : String
  pub correlation_id : String
  pub created_at : Time

pub record DestructivePlan : Type 0 where
  pub id : String
  pub token_hash : String
  pub subject_type : String
  pub subject_id : String
  pub operation : String
  pub mount_id : String
  pub source : String
  pub destination : String
  pub overwrite : Bool
  pub destination_exists : Bool
  pub tree_digest : String
  pub destination_digest : String
  pub created_at : Time
  pub expires_at : Time
  pub consumed_job_id : String
  pub idempotency_key : String
  pub request_hash : String

pub record MovePlanBinding : Type 0 where
  pub plan_id : String
  pub subject_type : String
  pub token_hash : String
  pub digest : String
  pub now : Time

pub record JobAuthorization : Type 0 where
  pub job_id : String
  pub binding : Binding
  pub revision : ℕ
  pub envelope : String
  pub expires_at : Time

-- `idempotencyRecord`
pub record IdempotencyRecord : Type 0 where
  pub job_id : String
  pub request_hash : String

-- `itemKey`
unfoldable pub item_key : JobItem → String
item_key item = item.job_id <> (separator <> item.relative_path)
