-- ===== src/ControlStore/Audit/Chain/Extend.antt =====
-- A verified log with one more row.
use jolt.Prelude.{
  ℕ, ◌≤◌, String, Bool, true, ◌≡◌, refl, some, List, [], ◌∷◌, ◌++◌, ltb, arith, Bool-cases, inl,
  inr,
}
use jolt.ControlStore.Entities.{AuditEvent, ChainState}
use jolt.ControlStore.Sql.{rows_where}
use jolt.ControlStore.Audit.Chain.{behind, ids_to, linked, verify_chain}

pub rows_where-append :
    (p : AuditEvent → Bool) (es : List AuditEvent) (e : AuditEvent)
    → p e ≡ true
    → rows_where p (es ++ (e ∷ [])) ≡ rows_where p es ++ (e ∷ [])
unfolding rows_where
rows_where-append p [] e h = ground arith
rows_where-append p (x ∷ es) e h = ground (arith, rows_where-append p es e h)

pub ids_to_mono : (n m : ℕ) (es : List AuditEvent) → n ≤ m → ids_to n es ≡ true → ids_to m es ≡ true
ids_to_mono n m [] h k = refl
ids_to_mono n m (x ∷ es) h k = ground (arith, ids_to_mono n m es)

module _ (digest : String → String) where
  pub verify_chain-append :
      (previous : String) (last : ℕ) (es : List AuditEvent) (e : AuditEvent) (s : ChainState)
      → verify_chain digest previous last es ≡ some s
      → linked digest s.last_hash s.last_id e ≡ true
      → verify_chain digest previous last (es ++ (e ∷ []))
        ≡ some (record { last_id = e.id; last_hash = e.chain_hash })
  unfolding verify_chain
  verify_chain-append previous last [] e s h k = ground arith
  verify_chain-append previous last (x ∷ es) e s h k =
      ground (arith, verify_chain-append x.chain_hash x.id es e s)

  pub verify_chain-le :
      (n : ℕ) (previous : String) (last : ℕ) (es : List AuditEvent) (s : ChainState) (after : ℕ)
      → verify_chain digest previous last (behind after es) ≡ some s
      → last ≤ n
      → ids_to n es ≡ true
      → s.last_id ≤ n
  unfolding verify_chain rows_where
  verify_chain-le n previous last [] s after h l k = ground arith
  verify_chain-le n previous last (x ∷ es) s after h l k = elim (Bool-cases (ltb after x.id)) [
    | inl e ↦ ground (arith, verify_chain-le n x.chain_hash x.id es s after)
    | inr e ↦ ground (arith, verify_chain-le n previous last es s after)
  ]
