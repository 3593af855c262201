-- ===== src/State/Secured/Kept.antt =====
-- What no update of a secured job changes.
use jolt.Prelude.{ℕ, ◌≡◌, String, Bool, true, arith, ◌==◌, eq_iff, eqb}
use jolt.State.Entities.{Job}
use jolt.State.Secured.{bool_eq, same_authorization, same_request}

-- the later job asks for what the earlier one does, under the same plan and authorization
pub record IsSameRequest (old next : Job) : Type 0 where
  pub destructive_plan_id : next.destructive_plan_id ≡ old.destructive_plan_id
  pub signed_auth_bound : next.signed_auth_bound ≡ old.signed_auth_bound
  pub requires_signed_auth : next.requires_signed_auth ≡ old.requires_signed_auth
  pub signed_auth_actor_id : next.signed_auth_actor_id ≡ old.signed_auth_actor_id
  pub signed_auth_credential_id : next.signed_auth_credential_id ≡ old.signed_auth_credential_id
  pub kind : next.kind ≡ old.kind
  pub mount_id : next.mount_id ≡ old.mount_id
  pub source_path : next.source_path ≡ old.source_path
  pub destination : next.destination ≡ old.destination
  pub overwrite : next.overwrite ≡ old.overwrite
  pub recursive : next.recursive ≡ old.recursive
  pub conflict_policy : next.conflict_policy ≡ old.conflict_policy
  pub source_change_policy : next.source_change_policy ≡ old.source_change_policy
  pub verify_checksum : next.verify_checksum ≡ old.verify_checksum
  pub bandwidth_limit : next.bandwidth_limit ≡ old.bandwidth_limit
  pub max_parallel_files : next.max_parallel_files ≡ old.max_parallel_files
  pub max_parallel_chunks : next.max_parallel_chunks ≡ old.max_parallel_chunks
  pub max_attempts : next.max_attempts ≡ old.max_attempts
  pub peer_node_id : next.peer_node_id ≡ old.peer_node_id
  pub source_grant_id : next.source_grant_id ≡ old.source_grant_id
  pub destination_grant_id : next.destination_grant_id ≡ old.destination_grant_id

bool_eq_eq : (a b : Bool) → bool_eq a b ≡ true → b ≡ a
unfolding bool_eq
bool_eq_eq a b h = ground arith

text_eq : (a b : String) → (a == b) ≡ true → b ≡ a
text_eq a b h = ground (arith, eq_iff a b)

number_eq : (a b : ℕ) → eqb a b ≡ true → b ≡ a
number_eq a b h = ground arith

pub same_request-IsSameRequest :
    (old next : Job)
    → same_authorization old next ≡ true
    → same_request old next ≡ true
    → IsSameRequest old next
unfolding same_authorization same_request
same_request-IsSameRequest old next a r = record {
  destructive_plan_id = text_eq _ _ (ground arith);
  signed_auth_bound = bool_eq_eq _ _ (ground arith);
  requires_signed_auth = bool_eq_eq _ _ (ground arith);
  signed_auth_actor_id = text_eq _ _ (ground arith);
  signed_auth_credential_id = text_eq _ _ (ground arith);
  kind = text_eq _ _ (ground arith);
  mount_id = text_eq _ _ (ground arith);
  source_path = text_eq _ _ (ground arith);
  destination = text_eq _ _ (ground arith);
  overwrite = bool_eq_eq _ _ (ground arith);
  recursive = bool_eq_eq _ _ (ground arith);
  conflict_policy = text_eq _ _ (ground arith);
  source_change_policy = text_eq _ _ (ground arith);
  verify_checksum = bool_eq_eq _ _ (ground arith);
  bandwidth_limit = number_eq _ _ (ground arith);
  max_parallel_files = number_eq _ _ (ground arith);
  max_parallel_chunks = number_eq _ _ (ground arith);
  max_attempts = number_eq _ _ (ground arith);
  peer_node_id = text_eq _ _ (ground arith);
  source_grant_id = text_eq _ _ (ground arith);
  destination_grant_id = text_eq _ _ (ground arith);
}
