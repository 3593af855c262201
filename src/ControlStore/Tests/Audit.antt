-- ===== src/ControlStore/Tests/Audit.antt =====
-- The audit log and temporary assignments.
use jolt.Prelude.{
  ℕ, ◌+◌, ◌≤◌, String, ◌<>◌, Bool, true, false, ◌≡◌, refl, ◌⊎◌, inl, inr, Option, none, some, List,
  [], ◌∷◌, ◌==◌, ltb, any, eq_iff, ap, Bool-cases, arith, Result, ok, err,
}
use jolt.ControlStore.Entities.{AuditEvent, ChainState, TemporaryAssignment}
use jolt.ControlStore.Audit.{enable_audit_chain, append_audit, audit_checkpoint, zero_hash}
use jolt.ControlStore.Audit.Chain.{verify_chain, IsChained}
use jolt.ControlStore.Audit.Chain.History.{AuditCall, append, purge, run_audit, run_audit-IsChained}
use jolt.ControlStore.Audit.Chain.Tamper.{Collision, verify_chain_tamper}
use jolt.ControlStore.Temporary.{hour, grant_temporary_policy, temporary_policies}
use jolt.ControlStore.Temporary.Laws.{for_policy, grant_temporary_policy-listed}
use jolt.ControlStore.Tests.{digest, no_faults, now, login, no_rows}

abbrev is_empty : String → Bool
is_empty String.[] = true
is_empty (String.◌∷◌ c s) = false

digest_written : (s : String) → (digest s == "") ≡ false
digest_written s = elim (Bool-cases (digest s == "")) [
  | inl e ↦ absurd (cc (ap is_empty ((eq_iff (digest s) "").0 e)))
  | inr e ↦ e
]

abbrev history : List AuditCall
history =
    append now login no_faults
    ∷ append now login no_faults
    ∷ purge (λ s. none) now now no_faults
    ∷ []

run_audit-IsChained_example :
    IsChained digest (run_audit digest history (enable_audit_chain now no_faults no_rows).1)
unfolding enable_audit_chain jolt.ControlStore.Sql.transaction jolt.ControlStore.Sql.statement
    jolt.ControlStore.Sql.commit
run_audit-IsChained_example =
    run_audit-IsChained digest digest_written now no_faults history no_rows refl refl refl refl

abbrev log : List AuditEvent
log = (append_audit digest now login no_faults (enable_audit_chain now no_faults no_rows).1).1.audit

abbrev log_end : ChainState
log_end = record {
  last_id = 1;
  last_hash =
      "#[\"jolt-audit-v1\",\"0000000000000000000000000000000000000000000000000000000000000000\",\"1\",\"ana\",\"user\",\"login\",\"session\",\"allowed\",\"\",\"2026-01-01T00:00:00Z\",\"[]\",\"\",\"\",\"\",\"{}\"]";
}

-- one record in a new chain
first_record : verify_chain digest zero_hash 0 log ≡ some log_end
unfolding verify_chain append_audit jolt.ControlStore.Sql.transaction
    jolt.ControlStore.Audit.append_audit_tx jolt.ControlStore.Sql.statement enable_audit_chain
    jolt.ControlStore.Sql.commit jolt.ControlStore.Sql.update_where jolt.ControlStore.Audit.payload
    jolt.Prelude.json_strings jolt.Prelude.decimal jolt.ControlStore.Audit.completed
    jolt.Prelude.stamp
first_record = refl

verify_chain_tamper_example :
    (◌≡◌ {A = String} zero_hash zero_hash × (log ≡ log)) ⊎ Collision digest
verify_chain_tamper_example =
    verify_chain_tamper digest zero_hash zero_hash 0 0 log log log_end log_end first_record
      first_record refl refl

abbrev assignment : TemporaryAssignment
assignment = record {
  policy_id = "p1";
  subject_type = "user";
  subject_id = "ana";
  created_by = "eva";
  created_at = now;
  expires_at = 1767225660000000000;
}

grant_temporary_policy-listed_example :
    (assignment.expires_at ≤ now + hour)
    × ((bs : List TemporaryAssignment) × (temporary_policies "user" "ana" now false
            (grant_temporary_policy digest "user" "ana" "p1" "eva" "user" "" 60000000000 now
              no_faults no_rows).1
          ≡ ok bs)
        × (any (for_policy "p1") bs ≡ ltb now assignment.expires_at))
unfolding grant_temporary_policy jolt.ControlStore.Sql.transaction jolt.ControlStore.Temporary.grant
    jolt.ControlStore.Sql.statement jolt.Prelude.contains jolt.ControlStore.Temporary.store_grant
    jolt.ControlStore.Audit.append_audit_tx jolt.ControlStore.Sql.commit
grant_temporary_policy-listed_example =
    grant_temporary_policy-listed digest "user" "ana" "p1" "eva" "user" "" 60000000000 now now
      no_faults no_rows assignment refl
