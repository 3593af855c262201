-- ===== src/ControlStore/Audit/Chain/Append.antt =====
-- A record keeps the log verified, and so does the start of the chain.
use jolt.Prelude.{
  List, ℕ, ◌+◌, ◌≤◌, String, true, false, ◌||◌, ◌≡◌, refl, ap, ◌∙◌, Option, some, [], ◌∷◌, ◌++◌,
  ◌==◌, ltb, leb, all-append, arith, eq_refl, Bool-cases, inl, inr, ◌⊎◌, Result, ok, is_ok,
}
use mathlib.Core.Path.{subst}
use jolt.ControlStore.Entities.{AuditRecord, AuditEvent, ChainState, Db}
use jolt.ControlStore.Sql.{Tx, Faults, DbError, statement, commit, transaction, update_where}
use jolt.ControlStore.Audit.{
  payload, completed, insert_event, has_id, chain_event, append_audit_tx, append_audit,
}
use jolt.ControlStore.Audit.Chain.{behind, ids_to, IsChained}
use jolt.ControlStore.Audit.Chain.Extend.{
  rows_where-append, ids_to_mono, verify_chain-append, verify_chain-le,
}

-- an update of the row that was inserted last
update-last :
    (f : AuditEvent → AuditEvent) (n : ℕ) (es : List AuditEvent) (e : AuditEvent)
    → ids_to n es ≡ true
    → e.id ≡ n + 1
    → update_where (has_id (n + 1)) f (es ++ (e ∷ [])) ≡ es ++ (f e ∷ [])
unfolding update_where has_id
update-last f n [] e h i = ground arith
update-last f n (x ∷ es) e h i = ground (arith, update-last f n es e)

module _ (digest : String → String) where
  -- the row of a record in a chain
  abbrev chained : ChainState → ℕ → AuditRecord → AuditEvent
  chained s id r = record {
    id = id;
    content = r;
    chain_data = payload s.last_hash id r;
    chain_hash = digest (payload s.last_hash id r);
  }

  -- the tables behind a record
  abbrev recorded : ChainState → AuditRecord → Db → Db
  recorded s r d = record d {
    audit = d.audit ++ (chained s (d.audit_sequence + 1) r ∷ []);
    audit_sequence = d.audit_sequence + 1;
    chain = some (record {
      last_id = d.audit_sequence + 1;
      last_hash = digest (payload s.last_hash (d.audit_sequence + 1) r);
    });
  }

  recorded-IsChained :
      (r : AuditRecord) (d : Db) (c : IsChained digest d) → IsChained digest (recorded c.last r d)
  recorded-IsChained r d c =
      let id : ℕ = d.audit_sequence + 1 in
      let e : AuditEvent = chained c.last id r in
      let below : c.last.last_id ≤ d.audit_sequence =
        verify_chain-le digest d.audit_sequence c.base.event_hash c.base.event_id d.audit c.last
          c.base.event_id c.verified c.based c.numbered in
      record {
        base = c.base;
        last = record { last_id = id; last_hash = e.chain_hash };
        noted = c.noted;
        stored = refl;
        verified =
            rw
              (rows_where-append (λ x. ltb c.base.event_id x.id) d.audit e
                (ground (arith, c.based)))
              (verify_chain-append digest c.base.event_hash c.base.event_id
                (behind c.base.event_id d.audit) e c.last c.verified
                (ground (
                  arith,
                  below,
                  eq_refl (payload c.last.last_hash id r),
                  eq_refl (digest (payload c.last.last_hash id r)),
                )));
        unchained =
            all-append (λ x. ltb c.base.event_id x.id || x.chain_hash == "") d.audit (e ∷ [])
            ∙ ground (arith, c.unchained, c.based);
        numbered =
            all-append (λ x. leb x.id id) d.audit (e ∷ [])
            ∙ ground (arith, ids_to_mono d.audit_sequence id d.audit, c.numbered);
        based = ground (arith, c.based);
      }

  insert-chained :
      (s : ChainState) (r : AuditRecord) (d : Db)
      → ids_to d.audit_sequence d.audit ≡ true
      → update_where
          (has_id (d.audit_sequence + 1))
          (λ e. record e {
            chain_data = payload s.last_hash (d.audit_sequence + 1) r;
            chain_hash = digest (payload s.last_hash (d.audit_sequence + 1) r);
          })
          (insert_event r d).1.audit
        ≡ d.audit ++ (chained s (d.audit_sequence + 1) r ∷ [])
  unfolding insert_event
  insert-chained s r d h = update-last _ d.audit_sequence d.audit _ h refl

  chain_event-recorded :
      (r : AuditRecord) (s : ChainState) (d : Db) (saved : Db) (fails : Faults) (calls : ℕ)
      → ids_to d.audit_sequence d.audit ≡ true
      → ((chain_event digest r (d.audit_sequence + 1) (some s) (record {
        db = (insert_event r d).1;
        saved = saved;
        fails = fails;
        calls = calls;
      })).1.saved
          ≡ saved)
        × ((is_ok
                (chain_event digest r (d.audit_sequence + 1) (some s) (record {
                  db = (insert_event r d).1;
                  saved = saved;
                  fails = fails;
                  calls = calls;
                })).0
              ≡ false)
            ⊎ (((chain_event digest r (d.audit_sequence + 1) (some s) (record {
              db = (insert_event r d).1;
              saved = saved;
              fails = fails;
              calls = calls;
            })).0
                  ≡ ok tt)
                × ((chain_event digest r (d.audit_sequence + 1) (some s) (record {
                  db = (insert_event r d).1;
                  saved = saved;
                  fails = fails;
                  calls = calls;
                })).1.db
                    ≡ recorded s r d)))
  unfolding chain_event statement insert_event
  chain_event-recorded r s d saved fails calls h = elim (Bool-cases (fails calls)) [
    | inl f ↦ (rw f refl, inl (rw f refl))
    | inr f ↦ elim (Bool-cases (fails (calls + 1))) [
      | inl g ↦ (rw (f, g) refl, inl (rw (f, g) refl))
      | inr g ↦ (
        rw (f, g) refl,
        inr (
          rw (f, g) refl,
          rw (f, g) (ap (λ es. record (recorded s r d) { audit = es }) (insert-chained s r d h)),
        ),
      )
    ]
  ]

  -- the same, for the state that the chain is found in
  chain_event-found :
      (r : AuditRecord) (s : ChainState) (o : Option ChainState) (d : Db) (saved : Db)
      (fails : Faults) (calls : ℕ)
      → o ≡ some s
      → ids_to d.audit_sequence d.audit ≡ true
      → ((chain_event digest r (d.audit_sequence + 1) o (record {
        db = (insert_event r d).1;
        saved = saved;
        fails = fails;
        calls = calls;
      })).1.saved
          ≡ saved)
        × ((is_ok
                (chain_event digest r (d.audit_sequence + 1) o (record {
                  db = (insert_event r d).1;
                  saved = saved;
                  fails = fails;
                  calls = calls;
                })).0
              ≡ false)
            ⊎ (((chain_event digest r (d.audit_sequence + 1) o (record {
              db = (insert_event r d).1;
              saved = saved;
              fails = fails;
              calls = calls;
            })).0
                  ≡ ok tt)
                × ((chain_event digest r (d.audit_sequence + 1) o (record {
                  db = (insert_event r d).1;
                  saved = saved;
                  fails = fails;
                  calls = calls;
                })).1.db
                    ≡ recorded s r d)))
  chain_event-found r s o d saved fails calls e h =
      rw e (chain_event-recorded r s d saved fails calls h)

  -- a record in a chain either fails or has chained its row, and has committed nothing
  pub append_audit_tx-recorded :
      (now : ℕ) (r : AuditRecord) (s : ChainState) (tx : Tx)
      → tx.db.chain ≡ some s
      → ids_to tx.db.audit_sequence tx.db.audit ≡ true
      → ((append_audit_tx digest now r tx).1.saved ≡ tx.saved)
        × ((is_ok (append_audit_tx digest now r tx).0 ≡ false)
            ⊎ (((append_audit_tx digest now r tx).0 ≡ ok tt)
                × ((append_audit_tx digest now r tx).1.db ≡ recorded s (completed now r) tx.db)))
  unfolding append_audit_tx statement insert_event
  append_audit_tx-recorded now r s tx e h = elim (Bool-cases (tx.fails tx.calls)) [
    | inl f ↦ (rw f refl, inl (rw f refl))
    | inr f ↦ elim (Bool-cases (tx.fails (tx.calls + 1))) [
      | inl g ↦ (rw (f, g) refl, inl (rw (f, g) refl))
      | inr g ↦
          rw (f, g)
            (chain_event-found (completed now r) s tx.db.chain tx.db tx.saved tx.fails
              (tx.calls + 1 + 1) e h)
    ]
  ]

  -- A log that verifies from its newest checkpoint verifies so behind a further record, whatever
  -- statement of it fails.
  pub append_audit-IsChained :
      (now : ℕ) (r : AuditRecord) (fails : Faults) (d : Db)
      → IsChained digest d
      → IsChained digest (append_audit digest now r fails d).1
  unfolding append_audit transaction commit
  append_audit-IsChained now r fails d c = elim (Bool-cases (fails 0)) [
    | inl f ↦ rw f c
    | inr f ↦
        let tx : Tx = record { db = d; saved = d; fails = fails; calls = 1 } in
        let s : Result DbError (Unit {0}) × Tx = append_audit_tx digest now r tx in
        let (kept, o) = append_audit_tx-recorded now r c.last tx c.stored c.numbered in
        elim o [
          | inl x ↦ rw f (subst (IsChained digest) (ground arith) c)
          | inr (x, y) ↦ elim (Bool-cases (s.1.fails s.1.calls)) [
            | inl g ↦ rw f (subst (IsChained digest) (ground arith) c)
            | inr g ↦
                rw f (
                  subst (IsChained digest) (ground arith)
                    (recorded-IsChained (completed now r) d c))
          ]
        ]
  ]
