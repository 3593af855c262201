-- ===== src/SignedAuth/Lease.antt =====
-- job_lease.go: the leases of jobs
use jolt.Prelude.{
  ℕ, String, ◌<>◌, Bool, true, false, ◌&&◌, ◌||◌, not, Option, none, some, List, [], ◌∷◌, ◌==◌, eqb,
  if◌then◌else◌, decimal, contains,
}
use jolt.SignedAuth.Binding.{Binding, identifier, endpoint}
use jolt.SignedAuth.Verify.{Wire, Keys, Time, Verified, separator, receives, verify_signed, verify}

abbrev pub transfer_operations : List String
transfer_operations =
    "transfer_pull" ∷ "transfer_pull_directory" ∷ "transfer_pull_batch" ∷ "transfer_move_batch" ∷ []

-- The `switch` of `JobLeaseBinding`: the shape that each operation wants.
unfoldable pub valid_topology : Binding → Bool
valid_topology b =
    if b.operation == "delete"
    then b.source_grant_id == "" && b.destination_node_id == ""
    else if b.operation == "copy_local" || b.operation == "move_local"
    then b.source_grant_id == ""
      && b.destination_grant_id == ""
      && b.destination_node_id == b.source_node_id
      && b.destination_mount_id == b.source_mount_id
    else if contains b.operation transfer_operations
    then not (b.source_grant_id == "")
      && not (b.destination_grant_id == "")
      && not (b.destination_node_id == "")
      && not (b.destination_node_id == b.source_node_id)
    else false

module _ (w : Wire) where
  -- `JobLeaseRequestID`
  unfoldable pub job_lease_request_id : String → ℕ → String
  job_lease_request_id job_id revision =
      if not (identifier job_id true) || eqb revision 0
      then ""
      else "job-"
        <> w.sha256_hex
            ("jolt-job-lease-v1" <> (separator <> (job_id <> (separator <> decimal revision))))

  lease_identifiers : Binding → Bool
  lease_identifiers b =
      identifier b.actor_id true
      && identifier b.credential_id true
      && identifier b.source_node_id true
      && identifier b.source_mount_id true
      && identifier b.source_grant_id false
      && identifier b.destination_node_id false
      && identifier b.destination_grant_id false
      && identifier b.destination_mount_id false
      && endpoint b.source_node_id b.source_grant_id b.source_mount_id b.source_root
      && endpoint b.destination_node_id b.destination_grant_id b.destination_mount_id
          b.destination_root

  -- the first test of `JobLeaseBinding`, with the request id of the revision
  unfoldable pub refuses_lease : Binding → String → Bool
  unfolding lease_identifiers
  refuses_lease b request_id =
      request_id == ""
      || not (w.valid_options_digest b.job_options_digest)
      || not (b.request_id == "") && not (b.request_id == request_id)
      || not (lease_identifiers b)

  -- `JobLeaseBinding`
  unfoldable pub job_lease_binding : Binding → ℕ → Option Binding
  job_lease_binding b revision =
      let request_id = job_lease_request_id b.plan_id revision in
      if refuses_lease b request_id
      then none
      else if not (valid_topology b)
      then none
      else some (record b { request_id = request_id })

  -- `VerifyJobLease`
  unfoldable pub verify_job_lease : String → Keys → Binding → String → ℕ → Time → Option Verified
  verify_job_lease token keys expected receiving_node revision now =
      elim (job_lease_binding expected revision) [
        | none ↦ none
        | some binding ↦ verify w token keys binding receiving_node now
      ]

  checked_binding : String → Binding → Option Binding
  checked_binding receiving_node b =
      let candidate = record b { request_id = "" } in
      if not (receives receiving_node b)
      then none
      else elim (job_lease_binding candidate 1) [ none ↦ none | some _ ↦ some candidate ]

  -- `VerifiedJobLeaseBinding`
  unfoldable pub verified_job_lease_binding : String → Keys → String → Time → Option Binding
  unfolding checked_binding
  verified_job_lease_binding token keys receiving_node now = elim (verify_signed w token keys now) [
    | none ↦ none
    | some v ↦ checked_binding receiving_node v.claims.binding
  ]
