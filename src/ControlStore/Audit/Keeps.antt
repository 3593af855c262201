-- ===== src/ControlStore/Audit/Keeps.antt =====
-- What the record of an action leaves alone.
use jolt.Prelude.{
  ℕ, ◌+◌, String, false, ◌≡◌, refl, ◌∙◌, ◌⊎◌, inl, inr, Option, none, some, List, arith, Result, ok,
  is_ok, Result-cases, Bool-cases,
}
use jolt.ControlStore.Entities.{AuditRecord, AuditEvent, ChainState, PendingOperation, Db}
use jolt.ControlStore.Sql.{DbError, Tx, statement, commit, pure, ◌>>◌}
use jolt.ControlStore.Audit.{insert_event, chain_event, append_audit_tx, completed}

-- A transaction that answers no error stored these rows, and any other stored nothing.
abbrev pub Commits : {A : Type 0} → A → List PendingOperation → Db → Result DbError A × Tx → Type 0
Commits a ps saved r =
    ((is_ok r.0 ≡ false) × (r.1.saved ≡ saved)) ⊎ ((r.0 ≡ ok a) × (r.1.saved.pending ≡ ps))

-- a part of the tables that the audit log is not of
abbrev Ignores : {X : Type 0} → (Db → X) → Type 0
Ignores g =
    (d : Db) (es : List AuditEvent) (n : ℕ) (c : Option ChainState)
    → g (record d { audit = es; audit_sequence = n; chain = c }) ≡ g d

module _ {X : Type 0} (g : Db → X) (ignores : Ignores g) (digest : String → String) where
  chain_event-keeps :
      (r : AuditRecord) (id : ℕ) (s : Option ChainState) (tx : Tx)
      → (g (chain_event digest r id s tx).1.db ≡ g tx.db)
        × ((chain_event digest r id s tx).1.saved ≡ tx.saved)
  unfolding chain_event statement
  chain_event-keeps r id none tx = (refl, refl)
  chain_event-keeps r id (some s) tx = elim (Bool-cases (tx.fails tx.calls)) [
    | inl e ↦ (rw e refl, rw e refl)
    | inr e ↦ elim (Bool-cases (tx.fails (tx.calls + 1))) [
      | inl f ↦ (rw (e, f) (ignores tx.db _ _ _), rw (e, f) refl)
      | inr f ↦ (rw (e, f) (ignores tx.db _ _ _), rw (e, f) refl)
    ]
  ]

  -- The record changes the audit log alone, and commits nothing.
  append_audit_tx-keeps :
      (now : ℕ) (r : AuditRecord) (tx : Tx)
      → (g (append_audit_tx digest now r tx).1.db ≡ g tx.db)
        × ((append_audit_tx digest now r tx).1.saved ≡ tx.saved)
  unfolding append_audit_tx insert_event statement
  append_audit_tx-keeps now r tx = elim (Bool-cases (tx.fails tx.calls)) [
    | inl e ↦ (rw e refl, rw e refl)
    | inr e ↦ elim (Bool-cases (tx.fails (tx.calls + 1))) [
      | inl f ↦ (rw (e, f) (ignores tx.db _ _ _), rw (e, f) refl)
      | inr f ↦
          let k =
            chain_event-keeps (completed now r) (insert_event (completed now r) tx.db).0 tx.db.chain
              (record tx {
                calls = tx.calls + 1 + 1;
                db = (insert_event (completed now r) tx.db).1;
              }) in
          (rw (e, f) (k.0 ∙ ignores tx.db _ _ _), rw (e, f) k.1)
    ]
  ]

  -- The end of an operation: its record, and the commit.
  pub audited :
      {A : Type 0} (now : ℕ) (r : AuditRecord) (a : A) (tx : Tx)
      → ((is_ok ((append_audit_tx digest now r >> (commit >> pure a)) tx).0 ≡ false)
          × (((append_audit_tx digest now r >> (commit >> pure a)) tx).1.saved ≡ tx.saved))
        ⊎ ((((append_audit_tx digest now r >> (commit >> pure a)) tx).0 ≡ ok a)
            × (g ((append_audit_tx digest now r >> (commit >> pure a)) tx).1.saved ≡ g tx.db))
  unfolding commit
  audited now r a tx =
      let keeps = append_audit_tx-keeps now r tx in
      let s : Result DbError (Unit {0}) × Tx = append_audit_tx digest now r tx in
      elim (Result-cases s.0) [
        | inl (u, o) ↦ elim (Bool-cases (s.1.fails s.1.calls)) [
          | inl c ↦ inl (ground arith, ground (arith, keeps))
          | inr c ↦ inr (rw (o, c) refl, rw (o, c) keeps.0)
        ]
        | inr (x, o) ↦ inl (ground arith, ground (arith, keeps))
      ]

module _ (digest : String → String) where
  pub audited-Commits :
      {A : Type 0} (now : ℕ) (r : AuditRecord) (a : A) (tx : Tx)
      → Commits a tx.db.pending tx.saved ((append_audit_tx digest now r >> (commit >> pure a)) tx)
  audited-Commits now r a tx = audited (λ d. d.pending) (λ d es n c. refl) digest now r a tx
