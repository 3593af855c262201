-- ===== src/ControlStore/Audit/Chain/History.antt =====
-- The chain from its start, over any history of records and purges.
use mathlib.Core.Path.{subst}
use jolt.Prelude.{
  ℕ, ◌+◌, ◌≤◌, String, true, false, ◌≡◌, refl, Option, none, some, List, [], ◌∷◌, ◌++◌, ◌==◌, all,
  arith, Bool-cases, inl, inr, Result, ok, err, stamp,
}
use jolt.ControlStore.Entities.{AuditRecord, AuditEvent, AuditCheckpoint, Db}
use jolt.ControlStore.Sql.{Faults, DbError, statement, commit, transaction, rows_where}
use jolt.ControlStore.Audit.{
  largest_id, activate, activate_once, enable_audit_chain, zero_hash, retained, boundary,
  last_chained, mark, purge_below, purge_audit_before, append_audit,
}
use jolt.ControlStore.Audit.Chain.{behind, unchained_to, ids_to, verify_chain, IsChained}
use jolt.ControlStore.Audit.Chain.Append.{append_audit-IsChained}
use jolt.ControlStore.Audit.Chain.Purge.{latest-append, purged, retention, purged-IsChained}

behind-largest : (es : List AuditEvent) (n : ℕ) → largest_id es ≤ n → behind n es ≡ []
unfolding rows_where largest_id
behind-largest [] n h = refl
behind-largest (e ∷ es) n h = ground (arith, behind-largest es n)

largest-le : (n : ℕ) (es : List AuditEvent) → ids_to n es ≡ true → largest_id es ≤ n
unfolding largest_id
largest-le n [] h = omega arith
largest-le n (e ∷ es) h = ground (arith, largest-le n es)

unchained_all :
    (k : ℕ) (es : List AuditEvent)
    → all (λ e. e.chain_hash == "") es ≡ true
    → unchained_to k es ≡ true
unchained_all k [] h = refl
unchained_all k (e ∷ es) h = ground (arith, unchained_all k es)

-- A call that writes the log, with its arguments.
pub data AuditCall : Type 0 where
  append : ℕ → AuditRecord → Faults → AuditCall
  purge : (String → Option ℕ) → ℕ → ℕ → Faults → AuditCall

unfoldable pub run_audit : (String → String) → List AuditCall → Db → Db
run_audit digest [] d = d
run_audit digest (append now r fails ∷ cs) d =
    run_audit digest cs (append_audit digest now r fails d).1
run_audit digest (purge julianday before now fails ∷ cs) d =
    run_audit digest cs (purge_audit_before julianday before now fails d).1

failed : {A : Type 0} {a : A} {e : DbError} → ◌≡◌ {A = Result DbError A} (err e) (ok a) → ⊥
failed h = cc

module _ (digest : String → String) where
  activation : ℕ → ℕ → AuditCheckpoint
  activation now id = record {
    event_id = id;
    event_hash = zero_hash;
    created_at = stamp now;
    reason = "activation";
  }

  activated : ℕ → Db → Db
  activated now d = record d {
    chain = some (record { last_id = largest_id d.audit; last_hash = zero_hash });
    checkpoints = d.checkpoints ++ (activation now (largest_id d.audit) ∷ []);
  }

  activated-IsChained :
      (now : ℕ) (d : Db)
      → all (λ e. e.chain_hash == "") d.audit ≡ true
      → ids_to d.audit_sequence d.audit ≡ true
      → IsChained digest (activated now d)
  unfolding activated activation verify_chain
  activated-IsChained now d h n = record {
    base = activation now (largest_id d.audit);
    last = record { last_id = largest_id d.audit; last_hash = zero_hash };
    noted = latest-append d.checkpoints (activation now (largest_id d.audit));
    stored = refl;
    verified = rw (behind-largest d.audit (largest_id d.audit) (omega arith)) refl;
    unchained = unchained_all (largest_id d.audit) d.audit h;
    numbered = n;
    based = largest-le d.audit_sequence d.audit n;
  }

  enable_audit_chain-activated :
      (now : ℕ) (fails : Faults) (d : Db)
      → d.chain ≡ none
      → (enable_audit_chain now fails d).0 ≡ ok tt
      → (enable_audit_chain now fails d).1 ≡ activated now d
  unfolding enable_audit_chain transaction statement activate_once activate commit activated
      activation
  enable_audit_chain-activated now fails d e o = elim (Bool-cases (fails 0)) [
    | inl f ↦ absurd (failed (rw f at o))
    | inr f0 ↦ elim (Bool-cases (fails 1)) [
      | inl f ↦ absurd (failed (rw (f0, f) at o))
      | inr f1 ↦ elim (Bool-cases (fails 2)) [
        | inl f ↦ absurd (failed (rw (f0, f1, e, f) at o))
        | inr f2 ↦ elim (Bool-cases (fails 3)) [
          | inl f ↦ absurd (failed (rw (f0, f1, e, f2, f) at o))
          | inr f3 ↦ elim (Bool-cases (fails 4)) [
            | inl f ↦ absurd (failed (rw (f0, f1, e, f2, f3, f) at o))
            | inr f4 ↦ elim (Bool-cases (fails 5)) [
              | inl f ↦ absurd (failed (rw (f0, f1, e, f2, f3, f4, f) at o))
              | inr f5 ↦ rw (f0, f1, e, f2, f3, f4, f5) refl
            ]
          ]
        ]
      ]
    ]
  ]

  -- Where nothing is chained yet and no row has an id above the sequence, an activation that succeeds
  -- leaves a log that verifies from the checkpoint of the activation.
  pub enable_audit_chain-IsChained :
      (now : ℕ) (fails : Faults) (d : Db)
      → d.chain ≡ none
      → all (λ e. e.chain_hash == "") d.audit ≡ true
      → ids_to d.audit_sequence d.audit ≡ true
      → (enable_audit_chain now fails d).0 ≡ ok tt
      → IsChained digest (enable_audit_chain now fails d).1
  enable_audit_chain-IsChained now fails d e h n o =
      rw (enable_audit_chain-activated now fails d e o) (activated-IsChained now d h n)

  module _ (written : (s : String) → (digest s == "") ≡ false) where
    purge_below-IsChained :
        (now b : ℕ) (o : Option AuditEvent) (d : Db) (fails : Faults) (calls : ℕ)
        → last_chained b d.audit ≡ o
        → IsChained digest d
        → IsChained digest
            (purge_below now b o
              (record { db = d; saved = d; fails = fails; calls = calls })).1.saved
    unfolding purge_below mark statement commit
    purge_below-IsChained now b none d fails calls k c = elim (Bool-cases (fails calls)) [
      | inl f ↦ rw f c
      | inr f0 ↦ elim (Bool-cases (fails (calls + 1))) [
        | inl f ↦ rw (f0, f) c
        | inr f1 ↦ elim (purged-IsChained digest written now b d c) [
          | inl (n, c') ↦ rw (f0, f1) c'
          | inr (e, n, c') ↦ absurd (ground arith)
        ]
      ]
    ]
    purge_below-IsChained now b (some x) d fails calls k c = elim (Bool-cases (fails calls)) [
      | inl f ↦ rw f c
      | inr f0 ↦ elim (Bool-cases (fails (calls + 1))) [
        | inl f ↦ rw (f0, f) c
        | inr f1 ↦ elim (Bool-cases (fails (calls + 1 + 1))) [
          | inl f ↦ rw (f0, f1, f) c
          | inr f2 ↦ elim (purged-IsChained digest written now b d c) [
            | inl (n, c') ↦ absurd (ground arith)
            | inr (e, n, c') ↦
                let same : e ≡ x = ground arith in
                rw (f0, f1, f2)
                  (subst
                    (λ y. IsChained digest (
                      purged digest written b
                        (d.checkpoints ++ (retention digest written now y ∷ [])) d))
                    same c')
          ]
        ]
      ]
    ]

    -- A log that verifies from its newest checkpoint verifies from the newest checkpoint behind a
    -- purge, whatever its age limit and whatever statement of it fails, if no digest is empty.
    pub purge_audit_before-IsChained :
        (julianday : String → Option ℕ) (before now : ℕ) (fails : Faults) (d : Db)
        → IsChained digest d
        → IsChained digest (purge_audit_before julianday before now fails d).1
    unfolding purge_audit_before transaction statement
    purge_audit_before-IsChained julianday before now fails d c = elim (Bool-cases (fails 0)) [
      | inl f ↦ rw f c
      | inr f0 ↦ elim (Bool-cases (fails 1)) [
        | inl f ↦ rw (f0, f) c
        | inr f1 ↦ elim (Bool-cases (fails 2)) [
          | inl f ↦ rw (f0, f1, f) c
          | inr f2 ↦
              rw (f0, f1, f2)
                (purge_below-IsChained now (boundary (retained julianday (stamp before)) d.audit) _
                  d fails 3 refl c)
        ]
      ]
    ]

    run_keeps :
        (cs : List AuditCall) (d : Db)
        → IsChained digest d
        → IsChained digest (run_audit digest cs d)
    unfolding run_audit
    run_keeps [] d c = c
    run_keeps (append now r fails ∷ cs) d c =
        run_keeps cs _ (append_audit-IsChained digest now r fails d c)
    run_keeps (purge julianday before now fails ∷ cs) d c =
        run_keeps cs _ (purge_audit_before-IsChained julianday before now fails d c)

    -- Where no digest is empty, nothing was chained, no row has an id above the sequence, and the
    -- activation of the chain succeeded: any sequence of records and purges, of which any may fail at
    -- any statement, leaves a log whose rows behind the newest checkpoint verify, from the hash and id
    -- of that checkpoint to the last hash and id that the store keeps.
    pub run_audit-IsChained :
        (now : ℕ) (fails : Faults) (cs : List AuditCall) (d : Db)
        → d.chain ≡ none
        → all (λ e. e.chain_hash == "") d.audit ≡ true
        → ids_to d.audit_sequence d.audit ≡ true
        → (enable_audit_chain now fails d).0 ≡ ok tt
        → IsChained digest (run_audit digest cs (enable_audit_chain now fails d).1)
    run_audit-IsChained now fails cs d e h n o =
        run_keeps cs _ (enable_audit_chain-IsChained now fails d e h n o)
