-- ===== src/SignedAuth/Purposes.antt =====
-- No token serves two purposes: a token for a read or an upload is never a job's lease.
use jolt.Prelude.{
  ℕ, ◌≡◌, ◌∙◌, refl, ap, String, Bool, true, false, ◌||◌, not, none, some, arith, ◌==◌, contains,
  contains-all, Option-cases, inl, inr, eq_iff,
}
use jolt.SignedAuth.Binding.{Binding, Claims}
use jolt.SignedAuth.Verify.{
  Wire, Keys, Time, Verified, verify_local_read, verify_local_upload, is_local_read,
  read_operations, upload_operations,
}
use jolt.SignedAuth.Lease.{valid_topology, transfer_operations, verify_job_lease}
use jolt.SignedAuth.Laws.{verify_where-signed, verify_signed-IsVerified, verify_job_lease-bound}

is_job_operation : String → Bool
unfolding contains
is_job_operation s =
    s == "delete" || s == "copy_local" || s == "move_local" || contains s transfer_operations

topology-is_job_operation :
    (b : Binding) → valid_topology b ≡ true → is_job_operation b.operation ≡ true
unfolding valid_topology is_job_operation
topology-is_job_operation b h = ground arith

abbrev no_job_operation : String → Bool
no_job_operation s = not (is_job_operation s)

reads_are_no_jobs : (s : String) → contains s read_operations ≡ true → is_job_operation s ≡ false
unfolding is_job_operation
reads_are_no_jobs s h = ground (arith, contains-all no_job_operation s read_operations h refl)

uploads_are_no_jobs :
    (s : String) → contains s upload_operations ≡ true → is_job_operation s ≡ false
unfolding is_job_operation
uploads_are_no_jobs s h = ground (arith, contains-all no_job_operation s upload_operations h refl)

local_read-operation :
    (node operation mount_id root : String) (b : Binding)
    → is_local_read node operation mount_id root b ≡ true
    → (b.operation ≡ operation) × (contains operation read_operations ≡ true)
unfolding is_local_read
local_read-operation node operation mount_id root b h =
    (ground (arith, eq_iff b.operation operation), ground arith)

module _ (w : Wire) (token : String) (keys : Keys) (expected : Binding) (node : String)
    (revision : ℕ) (now : Time) where
  no_lease :
      (c : Claims)
      → w.decode_claims token ≡ some c
      → is_job_operation c.binding.operation ≡ false
      → verify_job_lease w token keys expected node revision now ≡ none
  no_lease c d other =
      elim (Option-cases (verify_job_lease w token keys expected node revision now)) [
        | inl e ↦ e
        | inr (v, e) ↦
            let (verified, bound, shape) =
              verify_job_lease-bound w token keys expected node revision now v e in
            let same : v.claims ≡ c = cc (verified.decoded, d) in
            let job = topology-is_job_operation expected shape in
            absurd (
              ground (
                arith,
                job,
                other,
                ap (λ (x : Claims). x.binding.operation) same,
                ap (λ (b : Binding). b.operation) bound,
              ))
      ]

-- A token that a node accepts for a local read, at whatever time, is accepted nowhere as the lease
-- of a job, whatever binding, revision, keys and time are tried.
pub read_is_no_lease :
    (w : Wire) (token : String) (keys keys' : Keys) (read_node operation mount_id root : String)
    (read_at : Time) (v : Verified)
    → verify_local_read w token keys read_node operation mount_id root read_at ≡ some v
    → (expected : Binding) (node : String) (revision : ℕ) (now : Time)
    → verify_job_lease w token keys' expected node revision now ≡ none
unfolding verify_local_read
read_is_no_lease w token keys keys' read_node operation mount_id root read_at v h expected node
      revision now =
    let (signed, test) =
      verify_where-signed w (λ c. is_local_read read_node operation mount_id root c.binding) token
        keys read_at v h in
    no_lease w token keys' expected node revision now v.claims
      (verify_signed-IsVerified w token keys read_at v signed).decoded
      (ap is_job_operation
          (local_read-operation read_node operation mount_id root v.claims.binding test).0
        ∙ reads_are_no_jobs operation
            (local_read-operation read_node operation mount_id root v.claims.binding test).1)

-- A token that a node accepts for a step of an upload is accepted nowhere as the lease of a job.
pub upload_is_no_lease :
    (w : Wire) (token : String) (keys keys' : Keys)
    (actor credential upload_node operation mount_id destination session : String)
    (upload_at : Time) (v : Verified)
    → verify_local_upload w token keys actor credential upload_node operation mount_id destination
        session upload_at
      ≡ some v
    → (expected : Binding) (node : String) (revision : ℕ) (now : Time)
    → verify_job_lease w token keys' expected node revision now ≡ none
unfolding verify_local_upload
upload_is_no_lease w token keys keys' actor credential upload_node operation mount_id destination
      session upload_at v h expected node revision now =
    let (signed, test) = verify_where-signed w _ token keys upload_at v h in
    no_lease w token keys' expected node revision now v.claims
      (verify_signed-IsVerified w token keys upload_at v signed).decoded
      (ap is_job_operation {x = v.claims.binding.operation} {y = operation}
          (ground (arith, eq_iff v.claims.binding.operation operation))
        ∙ uploads_are_no_jobs operation (ground arith))
