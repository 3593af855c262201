-- ===== src/ControlStore/Audit/Chain/Tamper.antt =====
-- Two logs that end in one hash.
use jolt.Prelude.{
  ℕ, String, Bool, true, false, ◌&&◌, ◌≡◌, ◌≢◌, refl, ap, sym, ◌∙◌, some, List, [], ◌∷◌, ◌==◌,
  length, arith, eq_iff, eq_refl, Bool-cases, inl, inr, ◌⊎◌, decimal_injective, json_strings,
}
use jolt.ControlStore.Entities.{AuditEvent, ChainState}
use jolt.ControlStore.Audit.{payload, fields}
use jolt.ControlStore.Audit.Chain.{linked, verify_chain}

same_texts : List String → List String → Bool
same_texts [] [] = true
same_texts (x ∷ xs) (y ∷ ys) = x == y && same_texts xs ys
same_texts _ _ = false

same_texts_iff : (xs ys : List String) → same_texts xs ys ≡ true → xs ≡ ys
unfolding same_texts
same_texts_iff [] [] h = refl
same_texts_iff (x ∷ xs) (y ∷ ys) h = ground (arith, eq_iff x y, same_texts_iff xs ys)
same_texts_iff [] (y ∷ ys) h = absurd (ground arith)
same_texts_iff (x ∷ xs) [] h = absurd (ground arith)

same_texts_refl : (xs : List String) → same_texts xs xs ≡ true
unfolding same_texts
same_texts_refl [] = refl
same_texts_refl (x ∷ xs) = ground (arith, eq_refl x, same_texts_refl xs)

-- Two different rows, as `appendAuditTx` chains them, of one digest.
pub record Collision (digest : String → String) : Type 0 where
  pub first : List String
  pub second : List String
  pub differ : first ≢ second
  pub collide : digest (json_strings first) ≡ digest (json_strings second)

module _ (digest : String → String) where
  fields_of_digest :
      (xs ys : List String)
      → digest (json_strings xs) ≡ digest (json_strings ys)
      → (xs ≡ ys) ⊎ Collision digest
  fields_of_digest xs ys h = elim (Bool-cases (same_texts xs ys)) [
    | inl e ↦ inl (same_texts_iff xs ys e)
    | inr e ↦ inr (record {
      first = xs;
      second = ys;
      differ = λ k. cc (ap (same_texts xs) k, same_texts_refl xs, e);
      collide = h;
    })
  ]

  -- what a row is determined by
  linked-same :
      (p q : String) (l m : ℕ) (x y : AuditEvent)
      → linked digest p l x ≡ true
      → linked digest q m y ≡ true
      → x.chain_hash ≡ y.chain_hash
      → ((p ≡ q) × (x ≡ y)) ⊎ Collision digest
  unfolding payload fields
  linked-same p q l m x y h k e =
      let x_text : x.chain_data ≡ json_strings (fields p x.id x.content) =
        (eq_iff x.chain_data (payload p x.id x.content)).0 (ground arith) in
      let y_text : y.chain_data ≡ json_strings (fields q y.id y.content) =
        (eq_iff y.chain_data (payload q y.id y.content)).0 (ground arith) in
      let x_hash : x.chain_hash ≡ digest x.chain_data =
        (eq_iff x.chain_hash (digest x.chain_data)).0 (ground arith) in
      let y_hash : y.chain_hash ≡ digest y.chain_data =
        (eq_iff y.chain_hash (digest y.chain_data)).0 (ground arith) in
      elim (fields_of_digest (fields p x.id x.content) (fields q y.id y.content)
        (ap digest (sym x_text) ∙ sym x_hash ∙ e ∙ y_hash ∙ ap digest y_text)) [
          | inr c ↦ inr c
          | inl f ↦
              inl (ground arith, ground (arith, decimal_injective x.id y.id, ap json_strings f))
        ]

  -- Two logs of one length that verify, from whatever checkpoints, and end in the same hash hold the
  -- same rows, and are checked from the same hash; otherwise two different rows, as the store chains
  -- them, have one digest.
  pub verify_chain_tamper :
      (p q : String) (l m : ℕ) (xs ys : List AuditEvent) (s t : ChainState)
      → verify_chain digest p l xs ≡ some s
      → verify_chain digest q m ys ≡ some t
      → s.last_hash ≡ t.last_hash
      → length xs ≡ length ys
      → ((p ≡ q) × (xs ≡ ys)) ⊎ Collision digest
  unfolding verify_chain
  verify_chain_tamper p q l m [] [] s t h k e n = inl (ground arith, refl)
  verify_chain_tamper p q l m [] (y ∷ ys) s t h k e n = absurd (omega arith)
  verify_chain_tamper p q l m (x ∷ xs) [] s t h k e n = absurd (omega arith)
  verify_chain_tamper p q l m (x ∷ xs) (y ∷ ys) s t h k e n =
      elim (verify_chain_tamper x.chain_hash y.chain_hash x.id y.id xs ys s t (ground arith)
        (ground arith) e (omega arith)) [
          | inr c ↦ inr c
          | inl (i, r) ↦ elim (linked-same p q l m x y (ground arith) (ground arith) i) [
            | inr c ↦ inr c
            | inl (j, w) ↦ inl (j, ground arith)
          ]
        ]
