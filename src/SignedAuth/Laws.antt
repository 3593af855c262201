-- ===== src/SignedAuth/Laws.antt =====
-- What an accepted token proves, and that no token serves two purposes.
use jolt.Prelude.{
  ℕ, ◌+◌, ◌≤◌, ◌<◌, ◌≡◌, ◌≢◌, ◌⊎◌, ◌∙◌, refl, String, Bool, true, ◌&&◌, some, arith, eq_iff,
  Option-cases, inl, inr,
}
use jolt.SignedAuth.Binding.{Binding, Claims, same_binding, validate, max_lifetime}
use jolt.SignedAuth.Verify.{
  Wire, Keys, Time, Verified, unix, verify_signed, verify_where, verify, receives,
}
use jolt.SignedAuth.Lease.{
  valid_topology, job_lease_request_id, job_lease_binding, verify_job_lease,
}

pub same_binding-eq : (a b : Binding) → same_binding a b ≡ true → a ≡ b
unfolding same_binding
same_binding-eq a b h = ground (
  arith,
  eq_iff a.actor_id b.actor_id,
  eq_iff a.credential_id b.credential_id,
  eq_iff a.operation b.operation,
  eq_iff a.request_id b.request_id,
  eq_iff a.source_node_id b.source_node_id,
  eq_iff a.source_grant_id b.source_grant_id,
  eq_iff a.source_mount_id b.source_mount_id,
  eq_iff a.source_root b.source_root,
  eq_iff a.destination_node_id b.destination_node_id,
  eq_iff a.destination_grant_id b.destination_grant_id,
  eq_iff a.destination_mount_id b.destination_mount_id,
  eq_iff a.destination_root b.destination_root,
  eq_iff a.plan_id b.plan_id,
  eq_iff a.job_options_digest b.job_options_digest,
)

module _ (w : Wire) where
  -- What every accepted token has shown of its claims.
  pub record IsVerified (token : String) (keys : Keys) (now : Time) (v : Verified) : Type 0 where
    pub key : String
    -- the claims are those of the token, and their signature holds under the key that they name
    pub decoded : w.decode_claims token ≡ some v.claims
    pub configured : keys v.claims.key_id ≡ some key
    pub signature : w.signature_valid key token ≡ true
    -- the token is current, and lives no longer than the longest lifetime
    pub begun : v.claims.issued_at ≤ unix now
    pub current : unix now < v.claims.expires_at
    pub short : v.claims.expires_at ≤ v.claims.issued_at + max_lifetime
    -- the filter is that of the signed context
    pub filter : w.decode_context v.claims.context ≡ some v.filter

  verified_with :
      (token : String) (keys : Keys) (now : Time) (v : Verified) (c : Claims) (key : String)
      → w.decode_claims token ≡ some c
      → keys c.key_id ≡ some key
      → verify_signed w token keys now ≡ some v
      → IsVerified token keys now v
  unfolding verify_signed validate
  verified_with token keys now v c key d k h = record {
    key = key;
    decoded = ground arith;
    configured = ground arith;
    signature = ground arith;
    begun = ground arith;
    current = ground arith;
    short = ground arith;
    filter = ground arith;
  }

  pub verify_signed-IsVerified :
      (token : String) (keys : Keys) (now : Time) (v : Verified)
      → verify_signed w token keys now ≡ some v
      → IsVerified token keys now v
  verify_signed-IsVerified token keys now v h = elim (Option-cases (w.decode_claims token)) [
    | inl d ↦ absurd (unfold verify_signed in ground arith)
    | inr (c, d) ↦ elim (Option-cases (keys c.key_id)) [
      | inl k ↦ absurd (unfold verify_signed in ground arith)
      | inr (key, k) ↦ verified_with token keys now v c key d k h
    ]
  ]

  pub verify_where-signed :
      (test : Claims → Bool) (token : String) (keys : Keys) (now : Time) (v : Verified)
      → verify_where w test token keys now ≡ some v
      → (verify_signed w token keys now ≡ some v) × (test v.claims ≡ true)
  unfolding verify_where
  verify_where-signed test token keys now v h = (ground arith, ground arith)

  -- A token is accepted only with the expected binding, at a node that the binding names, under a
  -- configured key with a valid signature, and within its life of at most thirty seconds.
  pub verify-IsVerified :
      (token : String) (keys : Keys) (expected : Binding) (node : String) (now : Time)
      (v : Verified)
      → verify w token keys expected node now ≡ some v
      → IsVerified token keys now v
        × (v.claims.binding ≡ expected)
        × (node ≢ "")
        × ((node ≡ expected.source_node_id) ⊎ (node ≡ expected.destination_node_id))
  unfolding verify
  verify-IsVerified token keys expected node now v h =
      let (signed, test) =
        verify_where-signed (λ c. same_binding c.binding expected && receives node expected) token
          keys now v h in
      (
        verify_signed-IsVerified token keys now v signed,
        same_binding-eq v.claims.binding expected (ground arith),
        λ e. ground (arith, eq_iff node ""),
        ground
            (arith, eq_iff node expected.source_node_id, eq_iff node expected.destination_node_id),
      )

  topology-request_id :
      (b : Binding) (id : String) → valid_topology (record b { request_id = id }) ≡ valid_topology b
  unfolding valid_topology
  topology-request_id b id = refl

  lease_bound :
      (b c : Binding) (revision : ℕ)
      → job_lease_binding w b revision ≡ some c
      → (valid_topology b ≡ true)
        × (c ≡ record b { request_id = job_lease_request_id w b.plan_id revision })
  unfolding job_lease_binding
  lease_bound b c revision h = (ground arith, ground arith)

  -- A token is accepted as the lease of a revision only with the binding of the job, in the shape
  -- that its operation wants, and the request id of that very job and revision.
  pub verify_job_lease-bound :
      (token : String) (keys : Keys) (expected : Binding) (node : String) (revision : ℕ)
      (now : Time) (v : Verified)
      → verify_job_lease w token keys expected node revision now ≡ some v
      → IsVerified token keys now v
        × (v.claims.binding
            ≡ record expected { request_id = job_lease_request_id w expected.plan_id revision })
        × (valid_topology expected ≡ true)
  verify_job_lease-bound token keys expected node revision now v h =
      elim (Option-cases (job_lease_binding w expected revision)) [
        | inl e ↦ absurd (unfold verify_job_lease in ground arith)
        | inr (b, e) ↦
            let (shape, bound) = lease_bound expected b revision e in
            let (verified, same, _, _) =
              verify-IsVerified token keys b node now v (unfold verify_job_lease in ground arith) in
            (verified, same ∙ bound, shape)
      ]
