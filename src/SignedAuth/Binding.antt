-- ===== src/SignedAuth/Binding.antt =====
-- signedauth.go: the claims and their validation
use jolt.Prelude.{
  ℕ, ◌-◌, String, Bool, true, false, ◌&&◌, ◌||◌, not, List, [], ◌∷◌, ◌==◌, ltb, leb, eqb, any, all,
  if◌then◌else◌, any_char, split, trim_space, has_prefix, path_clean, len, contains,
}
use jolt.FileTypes.Context.{max_context_bytes}

pub record Binding : Type 0 where
  pub actor_id : String
  pub credential_id : String
  pub operation : String
  pub request_id : String
  pub source_node_id : String
  pub source_grant_id : String
  pub source_mount_id : String
  pub source_root : String
  pub destination_node_id : String
  pub destination_grant_id : String
  pub destination_mount_id : String
  pub destination_root : String
  pub plan_id : String
  pub job_options_digest : String

-- `context` is the raw JSON; the times are Unix seconds
pub record Claims : Type 0 where
  pub version : ℕ
  pub key_id : String
  pub binding : Binding
  pub issued_at : ℕ
  pub expires_at : ℕ
  pub context : String

-- `claims.Binding != expected` compares all fields
unfoldable pub same_binding : Binding → Binding → Bool
same_binding a b =
    a.actor_id == b.actor_id
    && a.credential_id == b.credential_id
    && a.operation == b.operation
    && a.request_id == b.request_id
    && a.source_node_id == b.source_node_id
    && a.source_grant_id == b.source_grant_id
    && a.source_mount_id == b.source_mount_id
    && a.source_root == b.source_root
    && a.destination_node_id == b.destination_node_id
    && a.destination_grant_id == b.destination_grant_id
    && a.destination_mount_id == b.destination_mount_id
    && a.destination_root == b.destination_root
    && a.plan_id == b.plan_id
    && a.job_options_digest == b.job_options_digest

bad_identifier_character : ℕ → Bool
bad_identifier_character c =
    ltb c 0x21 || eqb c 0x7f || eqb c b'/' || eqb c b'\\' || eqb c b'?' || eqb c b'#'

unfoldable pub identifier : String → Bool → Bool
unfolding bad_identifier_character
identifier value required =
    if value == ""
    then not required
    else if ltb 128 (len value) || not (trim_space value == value)
    then false
    else not (any_char bad_identifier_character value)

-- `ValidKeyID`
abbrev pub valid_key_id : String → Bool
valid_key_id value = identifier value true

endpoint_root : String → Bool
endpoint_root root =
    if root == "."
    then true
    else if not (path_clean root == root)
    then false
    else not (any (λ part. part == "" || part == "." || part == "..") (split root))

unfoldable pub endpoint : String → String → String → String → Bool
unfolding endpoint_root
endpoint node grant mount root =
    if node == ""
    then grant == "" && mount == "" && root == ""
    else if mount == ""
        || root == ""
        || not (trim_space root == root)
        || ltb 2048 (len root)
        || any_char (λ c. eqb c b'\\' || eqb c 0) root
        || has_prefix root "/"
    then false
    else endpoint_root root

-- the operations of jobs
abbrev pub job_operations : List String
job_operations =
    "delete" ∷ "copy_local" ∷ "move_local" ∷ "transfer_pull" ∷ "transfer_pull_directory"
    ∷ "transfer_pull_batch" ∷ "transfer_move_batch" ∷ []

-- `MaxLifetime` in seconds
abbrev pub max_lifetime : ℕ
max_lifetime = 30

required_identifiers : Binding → List String
required_identifiers b = b.actor_id ∷ b.credential_id ∷ b.operation ∷ b.request_id ∷ []

optional_identifiers : Binding → List String
optional_identifiers b =
    b.source_node_id ∷ b.source_grant_id ∷ b.source_mount_id ∷ b.destination_node_id
    ∷ b.destination_grant_id ∷ b.destination_mount_id ∷ b.plan_id ∷ []

unfoldable pub valid_lifetime : Claims → Bool
valid_lifetime c = not (
    eqb c.issued_at 0
    || leb c.expires_at c.issued_at
    || ltb max_lifetime (c.expires_at - c.issued_at))

valid_endpoints : Binding → Bool
valid_endpoints b =
    not (b.source_node_id == "" && b.destination_node_id == "")
    && endpoint b.source_node_id b.source_grant_id b.source_mount_id b.source_root
    && endpoint b.destination_node_id b.destination_grant_id b.destination_mount_id
        b.destination_root

-- `validate`; `valid_digest` is `validJobOptionsDigest`
unfoldable pub validate : (String → Bool) → Claims → Bool
unfolding required_identifiers optional_identifiers valid_lifetime valid_endpoints
validate valid_digest c =
    let b = c.binding in
    eqb c.version 1
    && identifier c.key_id true
    && valid_lifetime c
    && valid_digest b.job_options_digest
    && (b.job_options_digest == "" || contains b.operation job_operations)
    && all (λ value. identifier value true) (required_identifiers b)
    && all (λ value. identifier value false) (optional_identifiers b)
    && valid_endpoints b
    && not (c.context == "")
    && leb (len c.context) max_context_bytes
