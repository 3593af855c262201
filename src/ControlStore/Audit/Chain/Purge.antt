-- ===== src/ControlStore/Audit/Chain/Purge.antt =====
-- A purge keeps what it retains verified, from the checkpoint that it leaves.
use jolt.Prelude.{
  ℕ, ◌≤◌, ◌<◌, String, Bool, true, false, ◌||◌, ◌≡◌, refl, sym, ◌∙◌, none, some, List, [], ◌∷◌,
  ◌++◌, ◌==◌, ltb, leb, all, arith, eq_iff, Bool-cases, Option-cases, inl, inr, ◌⊎◌, stamp,
}
use jolt.ControlStore.Entities.{AuditEvent, ChainState, AuditCheckpoint, Db}
use jolt.ControlStore.Sql.{rows_where, delete_where}
use jolt.ControlStore.Audit.{latest, last_chained, below}
use jolt.ControlStore.Audit.Chain.{behind, unchained_to, ids_to, linked, verify_chain, IsChained}

pub latest-append :
    (cs : List AuditCheckpoint) (c : AuditCheckpoint) → latest (cs ++ (c ∷ [])) ≡ some c
unfolding latest
latest-append [] c = refl
latest-append (x ∷ []) c = refl
latest-append (x ∷ y ∷ cs) c = latest-append (y ∷ cs) c

-- Rows that are deleted, and rows behind an id.
behind-delete :
    (k b : ℕ) (es : List AuditEvent)
    → behind k (delete_where (below b) es) ≡ delete_where (below b) (behind k es)
unfolding rows_where delete_where
behind-delete k b [] = refl
behind-delete k b (e ∷ es) = ground (arith, behind-delete k b es)

behind-delete_above :
    (k b : ℕ) (es : List AuditEvent)
    → k < b
    → behind k (delete_where (below b) es) ≡ delete_where (below b) es
unfolding rows_where delete_where below
behind-delete_above k b [] h = refl
behind-delete_above k b (e ∷ es) h = ground (arith, behind-delete_above k b es)

last_chained-behind :
    (k b : ℕ) (es : List AuditEvent)
    → unchained_to k es ≡ true
    → last_chained b (behind k es) ≡ last_chained b es
unfolding rows_where last_chained
last_chained-behind k b [] h = refl
last_chained-behind k b (e ∷ es) h = ground (arith, last_chained-behind k b es)

all-delete :
    (p : AuditEvent → Bool) (b : ℕ) (es : List AuditEvent)
    → all p es ≡ true
    → all p (delete_where (below b) es) ≡ true
unfolding delete_where
all-delete p b [] h = refl
all-delete p b (e ∷ es) h = ground (arith, all-delete p b es)

unchained-delete :
    (k b : ℕ) (es : List AuditEvent) → k < b → unchained_to k (delete_where (below b) es) ≡ true
unfolding delete_where below
unchained-delete k b [] h = refl
unchained-delete k b (e ∷ es) h = ground (arith, unchained-delete k b es)

last_chained-le :
    (n b : ℕ) (es : List AuditEvent) (e : AuditEvent)
    → ids_to n es ≡ true
    → last_chained b es ≡ some e
    → e.id ≤ n
unfolding last_chained
last_chained-le n b [] e h k = absurd (ground arith)
last_chained-le n b (x ∷ es) e h k = elim (Option-cases (last_chained b es)) [
  | inl m ↦ ground arith
  | inr (f, m) ↦ ground (arith, last_chained-le n b es f)
]

module _ (digest : String → String) (written : (s : String) → (digest s == "") ≡ false) where
  -- what a purge leaves of rows that verify
  Leaves : ℕ → ℕ → List AuditEvent → ChainState → Type 0
  Leaves last b es s =
      ((last_chained b es ≡ none) × (delete_where (below b) es ≡ es))
      ⊎ ((e : AuditEvent) × (last_chained b es ≡ some e)
          × (last < e.id)
          × (e.id < b)
          × (verify_chain digest e.chain_hash e.id (delete_where (below b) es) ≡ some s))

  hash_written :
      (previous : String) (last : ℕ) (e : AuditEvent)
      → linked digest previous last e ≡ true
      → (e.chain_hash == "") ≡ false
  hash_written previous last e h =
      let same : e.chain_hash ≡ digest e.chain_data =
        (eq_iff e.chain_hash (digest e.chain_data)).0 (ground arith) in
      rw same (written e.chain_data)

  verify_chain-Leaves :
      (b : ℕ) (previous : String) (last : ℕ) (es : List AuditEvent) (s : ChainState)
      → verify_chain digest previous last es ≡ some s
      → Leaves last b es s
  unfolding verify_chain last_chained delete_where Leaves below
  verify_chain-Leaves b previous last [] s h = inl (refl, refl)
  verify_chain-Leaves b previous last (x ∷ es) s h =
      elim (Bool-cases (linked digest previous last x)) [
        | inr l ↦ absurd (ground arith)
        | inl l ↦
            let w = hash_written previous last x l in
            elim (verify_chain-Leaves b x.chain_hash x.id es s (ground arith)) [
              | inl (n, d) ↦ elim (Bool-cases (ltb x.id b)) [
                | inl k ↦
                    inr (x, ground arith, ground arith, ground arith, rw (k, d) (ground arith))
                | inr k ↦ inl (ground arith, ground arith)
              ]
              | inr (f, n, a, c, v) ↦ elim (Bool-cases (ltb x.id b)) [
                | inl k ↦ inr (f, ground arith, ground arith, c, rw k v)
                | inr k ↦ absurd (ground arith)
              ]
            ]
      ]

  -- the tables behind a purge
  abbrev pub purged : ℕ → List AuditCheckpoint → Db → Db
  purged b cs d = record d { audit = delete_where (below b) d.audit; checkpoints = cs }

  abbrev pub retention : ℕ → AuditEvent → AuditCheckpoint
  retention now e = record {
    event_id = e.id;
    event_hash = e.chain_hash;
    created_at = stamp now;
    reason = "retention";
  }

  pub purged-IsChained :
      (now b : ℕ) (d : Db)
      → IsChained digest d
      → ((last_chained b d.audit ≡ none) × IsChained digest (purged b d.checkpoints d))
        ⊎ ((e : AuditEvent) × (last_chained b d.audit ≡ some e)
            × IsChained digest (purged b (d.checkpoints ++ (retention now e ∷ [])) d))
  unfolding Leaves
  purged-IsChained now b d c =
      let k : ℕ = c.base.event_id in
      let same = last_chained-behind k b d.audit c.unchained in
      elim (verify_chain-Leaves b c.base.event_hash k (behind k d.audit) c.last c.verified) [
        | inl (n, w) ↦ inl (
          sym same ∙ n,
          record {
            base = c.base;
            last = c.last;
            noted = c.noted;
            stored = c.stored;
            verified = rw (behind-delete k b d.audit, w) c.verified;
            unchained = all-delete (λ e. ltb k e.id || e.chain_hash == "") b d.audit c.unchained;
            numbered = all-delete (λ e. leb e.id d.audit_sequence) b d.audit c.numbered;
            based = c.based;
          },
        )
        | inr (e, n, l, m, v) ↦ inr (
          e,
          sym same ∙ n,
          record {
            base = retention now e;
            last = c.last;
            noted = latest-append d.checkpoints (retention now e);
            stored = c.stored;
            verified =
                rw
                  (
                    behind-delete_above e.id b d.audit m,
                    ← (behind-delete_above k b d.audit (ground arith)),
                    behind-delete k b d.audit,
                  )
                  v;
            unchained = unchained-delete e.id b d.audit m;
            numbered = all-delete (λ x. leb x.id d.audit_sequence) b d.audit c.numbered;
            based = last_chained-le d.audit_sequence b d.audit e c.numbered (sym same ∙ n);
          },
        )
      ]
