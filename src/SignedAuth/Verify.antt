-- ===== src/SignedAuth/Verify.antt =====
-- signedauth.go: the verification of tokens
use jolt.Prelude.{
  ℕ, ◌+◌, ◌-◌, ◌*◌, String, Bool, false, ◌&&◌, ◌||◌, not, Option, none, some, List, [], ◌∷◌, ◌==◌,
  ltb, leb, if◌then◌else◌, contains,
}
use jolt.FileTypes.Context.{Filter}
use Prim.Native.Nat.{◌/◌}
use Prim.Native.Char.{nul}
use jolt.SignedAuth.Binding.{Binding, Claims, same_binding, validate}

-- the fields of `JobOptions`
pub record JobOptions : Type 0 where
  pub overwrite : Bool
  pub recursive : Bool
  pub conflict_policy : String
  pub source_change_policy : String
  pub verify_checksum : Bool
  pub bandwidth_limit : ℕ
  pub max_parallel_files : ℕ
  pub max_parallel_chunks : ℕ
  pub max_attempts : ℕ

-- The encodings and the cryptography that the package calls.
pub record Wire : Type 0 where
  -- the claims of a token of the right size and form, by strict base64 and JSON
  pub decode_claims : String → Option Claims
  -- `ed25519.Verify` of a token's payload behind the domain prefix, under a public key
  pub signature_valid : String → String → Bool
  -- `filetypes.DecodeContext`
  pub decode_context : String → Option Filter
  -- `validJobOptionsDigest`, which tests a strict base64 encoding of 32 bytes
  pub valid_options_digest : String → Bool
  pub options_digest : JobOptions → String
  -- `%x` of `sha256.Sum256`
  pub sha256_hex : String → String

-- the configured public keys, by their ids
abbrev pub Keys : Type 0
Keys = String → Option String

-- Nanoseconds since the zero time of Go, 0001-01-01; the zero time itself is 0.
abbrev pub Time : Type 0
Time = ℕ

abbrev pub nanoseconds : ℕ
nanoseconds = 1_000_000_000

abbrev pub unix_epoch : ℕ
unix_epoch = 62_135_596_800

-- `Unix()`, with 0 for the times before 1970, which no claims admit
unfoldable pub unix : Time → ℕ
unix t = t / nanoseconds - unix_epoch

-- `time.Unix(seconds, 0)`
unfoldable pub from_unix : ℕ → Time
from_unix seconds = (seconds + unix_epoch) * nanoseconds

-- what a verified token gives
pub record Verified : Type 0 where
  pub claims : Claims
  pub filter : Filter

unfoldable pub separator : String
separator = String.◌∷◌ nul String.[]

unfoldable pub current : Claims → Time → Bool
current c now = leb c.issued_at (unix now) && ltb (unix now) c.expires_at

abbrev pub receives : String → Binding → Bool
receives node b = not (node == "") && (node == b.source_node_id || node == b.destination_node_id)

abbrev pub read_operations : List String
read_operations =
    "list" ∷ "metadata" ∷ "content" ∷ "archive" ∷ "archive_plan" ∷ "search" ∷ "disk_usage" ∷ []

-- the test of `VerifyLocalRead`
unfoldable pub is_local_read : String → String → String → String → Binding → Bool
is_local_read receiving_node operation mount_id root b =
    contains operation read_operations
    && not (receiving_node == "")
    && b.source_node_id == receiving_node
    && b.source_mount_id == mount_id
    && b.source_root == root
    && b.operation == operation
    && b.source_grant_id == ""
    && b.destination_node_id == ""
    && b.destination_grant_id == ""
    && b.destination_mount_id == ""
    && b.destination_root == ""
    && b.plan_id == ""

-- the part that all upload tests share: a destination alone, at this node
unfoldable pub is_destination : String → String → String → Binding → Bool
is_destination receiving_node mount_id destination b =
    not (receiving_node == "")
    && b.destination_node_id == receiving_node
    && b.destination_mount_id == mount_id
    && b.destination_root == destination
    && b.destination_grant_id == ""
    && b.source_node_id == ""
    && b.source_grant_id == ""
    && b.source_mount_id == ""
    && b.source_root == ""

abbrev pub upload_operations : List String
upload_operations = "upload_chunk" ∷ "upload_complete" ∷ "upload_abort" ∷ []

module _ (w : Wire) where
  signed : String → Option String → Bool
  signed token none = false
  signed token (some key) = w.signature_valid key token

  -- `verifySigned`; every failure is `ErrInvalid`
  unfoldable pub verify_signed : String → Keys → Time → Option Verified
  unfolding signed current
  verify_signed token keys now = elim (w.decode_claims token) [
    | none ↦ none
    | some claims ↦
        if validate w.valid_options_digest claims
          && signed token (keys claims.key_id)
          && current claims now
        then elim (w.decode_context claims.context) [
          | none ↦ none
          | some filter ↦ some (record { claims = claims; filter = filter })
        ]
        else none
  ]

  -- a token whose claims pass a test of its own
  unfoldable pub verify_where : (Claims → Bool) → String → Keys → Time → Option Verified
  verify_where test token keys now = elim (verify_signed token keys now) [
    | none ↦ none
    | some v ↦ if test v.claims then some v else none
  ]

  -- `Verify`
  unfoldable pub verify : String → Keys → Binding → String → Time → Option Verified
  unfolding verify_where
  verify token keys expected receiving_node now =
      verify_where (λ c. same_binding c.binding expected && receives receiving_node expected) token
        keys now

  -- `VerifyLocalRead`
  unfoldable pub verify_local_read :
      String → Keys → String → String → String → String → Time → Option Verified
  unfolding verify_where is_local_read
  verify_local_read token keys receiving_node operation mount_id root now =
      verify_where (λ c. is_local_read receiving_node operation mount_id root c.binding) token keys
        now

  -- `VerifyLocalUpload`
  unfoldable pub verify_local_upload :
      String
      → Keys
      → (actor credential receiving_node operation mount_id destination session : String) → Time
      → Option Verified
  unfolding verify_where is_destination
  verify_local_upload token keys actor credential receiving_node operation mount_id destination
        session now =
      verify_where
        (λ c.
          contains operation upload_operations
          && not (actor == "")
          && not (credential == "")
          && c.binding.actor_id == actor
          && c.binding.credential_id == credential
          && not (session == "")
          && c.binding.operation == operation
          && c.binding.plan_id == session
          && is_destination receiving_node mount_id destination c.binding)
        token keys now
