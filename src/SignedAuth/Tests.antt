-- ===== src/SignedAuth/Tests.antt =====
-- Runs of the verification under encodings that know three tokens.
use jolt.Prelude.{
  ℕ, ◌≡◌, ◌≢◌, ◌⊎◌, refl, arith, String, Bool, true, false, ◌&&◌, ◌||◌, not, Option, none, some,
  List, [], ◌∷◌, ◌==◌, if◌then◌else◌,
}
use jolt.SignedAuth.Binding.{Binding, Claims}
use jolt.SignedAuth.Verify.{Wire, Keys, Time, Verified, from_unix, verify, verify_local_read}
use jolt.SignedAuth.Lease.{valid_topology, job_lease_request_id, verify_job_lease}
use jolt.SignedAuth.Laws.{IsVerified, verify-IsVerified, verify_job_lease-bound}

-- the lease of a local copy, and its binding with and without the request id
abbrev pub copy_binding : Binding
copy_binding = record {
  actor_id = "alice";
  credential_id = "c1";
  operation = "copy_local";
  request_id = "";
  source_node_id = "n1";
  source_grant_id = "";
  source_mount_id = "m1";
  source_root = "a.txt";
  destination_node_id = "n1";
  destination_grant_id = "";
  destination_mount_id = "m1";
  destination_root = "b.txt";
  plan_id = "job1";
  job_options_digest = "digest";
}

abbrev lease_binding : Binding
lease_binding = record copy_binding { request_id = "job-0f" }

abbrev read_binding : Binding
read_binding = record lease_binding {
  operation = "content";
  request_id = "r1";
  destination_node_id = "";
  destination_mount_id = "";
  destination_root = "";
  plan_id = "";
  job_options_digest = "";
}

abbrev upload_binding : Binding
upload_binding = record lease_binding {
  operation = "upload_chunk";
  request_id = "u1";
  source_node_id = "";
  source_mount_id = "";
  source_root = "";
  plan_id = "s1";
  job_options_digest = "";
}

abbrev claims_of : Binding → Claims
claims_of b = record {
  version = 1;
  key_id = "k1";
  binding = b;
  issued_at = 1000;
  expires_at = 1020;
  context = "{}";
}

abbrev pub wire : Wire
wire = record {
  decode_claims = λ token.
      if token == "copy"
      then some (claims_of lease_binding)
      else if token == "read"
      then some (claims_of read_binding)
      else if token == "upload"
      then some (claims_of upload_binding)
      else none;
  signature_valid = λ key token. key == "public";
  decode_context = λ context. some [];
  valid_options_digest = λ d. d == "" || d == "digest";
  options_digest = λ o. "digest";
  sha256_hex = λ s. "0f";
}

abbrev pub keys : Keys
keys id = if id == "k1" then some "public" else none

abbrev pub now : Time
now = from_unix 1010

abbrev verified : Binding → Verified
verified b = record { claims = claims_of b; filter = [] }

verify-IsVerified_example :
    IsVerified wire "copy" keys now (verified lease_binding)
    × (lease_binding ≡ lease_binding)
    × (◌≢◌ {A = String} "n1" "")
    × ((copy_binding.source_node_id ≡ lease_binding.source_node_id)
        ⊎ (copy_binding.source_node_id ≡ lease_binding.destination_node_id))
unfolding verify jolt.SignedAuth.Verify.verify_signed jolt.SignedAuth.Binding.validate
    jolt.SignedAuth.Binding.identifier jolt.Prelude.trim_space jolt.Prelude.any_char
    jolt.Prelude.contains jolt.SignedAuth.Binding.endpoint jolt.Prelude.has_prefix
    jolt.Prelude.path_clean jolt.Prelude.split jolt.SignedAuth.Verify.unix from_unix
    jolt.SignedAuth.Binding.same_binding jolt.Prelude.has_slash_prefix
verify-IsVerified_example =
    verify-IsVerified wire "copy" keys lease_binding "n1" now (verified lease_binding) refl

verify_job_lease-bound_example :
    IsVerified wire "copy" keys now (verified lease_binding)
    × (lease_binding ≡ record copy_binding { request_id = job_lease_request_id wire "job1" 1 })
    × (valid_topology copy_binding ≡ true)
unfolding verify_job_lease jolt.SignedAuth.Lease.job_lease_binding
    jolt.SignedAuth.Lease.refuses_lease job_lease_request_id jolt.SignedAuth.Binding.identifier
    jolt.Prelude.trim_space jolt.Prelude.any_char jolt.SignedAuth.Binding.endpoint
    jolt.Prelude.has_prefix jolt.Prelude.path_clean jolt.Prelude.has_slash_prefix jolt.Prelude.split
    valid_topology verify jolt.SignedAuth.Verify.verify_signed jolt.SignedAuth.Binding.validate
    jolt.Prelude.contains jolt.SignedAuth.Verify.unix from_unix jolt.SignedAuth.Binding.same_binding
verify_job_lease-bound_example =
    verify_job_lease-bound wire "copy" keys copy_binding "n1" 1 now (verified lease_binding) refl
