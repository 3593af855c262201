-- ===== src/ControlStore/Audit/Chain.antt =====
-- The check of an exported log, which scripts/verify-audit-ndjson.py makes from a checkpoint, as a
-- function of the rows: the payload is compared as the text that the store writes.
pub mod Extend
pub mod Append
pub mod Purge
pub mod History
pub mod Tamper
use jolt.Prelude.{
  ℕ, ◌+◌, ◌≤◌, String, Bool, true, false, ◌&&◌, ◌||◌, not, ◌≡◌, Option, none, some, List, [], ◌∷◌,
  ◌++◌, ◌==◌, ltb, leb, all, if◌then◌else◌, implies,
}
use jolt.ControlStore.Entities.{AuditRecord, AuditEvent, ChainState, AuditCheckpoint, Db}
use jolt.ControlStore.Sql.{rows_where}
use jolt.ControlStore.Audit.{payload, latest}

abbrev pub behind : ℕ → List AuditEvent → List AuditEvent
behind id es = rows_where (λ e. ltb id e.id) es

-- no row up to the id is chained
abbrev pub unchained_to : ℕ → List AuditEvent → Bool
unchained_to id es = all (λ e. ltb id e.id || e.chain_hash == "") es

abbrev pub ids_to : ℕ → List AuditEvent → Bool
ids_to n es = all (λ e. leb e.id n) es

module _ (digest : String → String) where
  -- a row that follows one of this hash and id
  abbrev pub linked : String → ℕ → AuditEvent → Bool
  linked previous last e =
      e.chain_data == payload previous e.id e.content
      && e.chain_hash == digest e.chain_data
      && ltb last e.id

  unfoldable pub verify_chain : String → ℕ → List AuditEvent → Option ChainState
  verify_chain previous last [] = some (record { last_id = last; last_hash = previous })
  verify_chain previous last (e ∷ es) =
      let rest = verify_chain e.chain_hash e.id es in if linked previous last e then rest else none

  -- A log whose rows behind the newest checkpoint verify, to the state that the store keeps.
  pub record IsChained (d : Db) : Type 0 where
    pub base : AuditCheckpoint
    pub last : ChainState
    pub noted : latest d.checkpoints ≡ some base
    pub stored : d.chain ≡ some last
    pub verified :
        verify_chain base.event_hash base.event_id (behind base.event_id d.audit) ≡ some last
    pub unchained : unchained_to base.event_id d.audit ≡ true
    pub numbered : ids_to d.audit_sequence d.audit ≡ true
    pub based : base.event_id ≤ d.audit_sequence
