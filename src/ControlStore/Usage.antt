-- ===== src/ControlStore/Usage.antt =====
-- agent_usage.go: the daily quota of an agent's credential. Amounts are not negative.
pub mod Laws
pub mod Quota
use jolt.Prelude.{
  ℕ, ◌+◌, ◌-◌, String, Bool, true, false, ◌&&◌, not, Option, none, some, List, [], ◌∷◌, ◌++◌, ◌==◌,
  ltb, leb, eqb, if◌then◌else◌, Result, ok, err, any,
}
use jolt.ControlStore.Entities.{AgentUsage, Db}
use jolt.ControlStore.Sql.{
  DbError, database, agent_quota, Faults, M, ◌>>=◌, ◌>>◌, pure, reject, row, statement, query, exec,
  commit, transaction, run_statement, update_where, select_where, count_where,
}

unfoldable pub of_day : String → String → AgentUsage → Bool
of_day token day u = u.token_id == token && u.day == day

unfoldable pub open_day : String → String → List AgentUsage → List AgentUsage
open_day token day us =
    if any (of_day token day) us
    then us
    else us ++ (record { token_id = token; day = day; charged_bytes = 0 } ∷ [])

-- the rows that a charge still fits in
unfoldable pub fits : String → String → ℕ → ℕ → AgentUsage → Bool
fits token day requested daily u = of_day token day u && leb (u.charged_bytes + requested) daily

unfoldable pub charge : ℕ → AgentUsage → AgentUsage
charge n u = record u { charged_bytes = u.charged_bytes + n }

unfoldable pub at_most : ℕ → ℕ → ℕ
at_most limit n = if ltb limit n then limit else n

-- the part of `ReserveAgentBytes` behind the charge that it read
reserve : String → String → ℕ → ℕ → AgentUsage → M ℕ
unfolding fits charge at_most
reserve token day requested daily u = do
  let remaining = daily - u.charged_bytes
  let granted = at_most remaining requested
  reject (ltb remaining 1024) agent_quota
  changed ← statement (λ d. (
    count_where (fits token day granted daily) d.usage,
    record d { usage = update_where (fits token day granted daily) (charge granted) d.usage },
  ))
  reject (not (eqb changed 1)) agent_quota
  commit
  pure granted

-- `ReserveAgentBytes`
unfoldable pub reserve_agent_bytes : String → String → ℕ → ℕ → Faults → Db → Result DbError ℕ × Db
unfolding open_day reserve
reserve_agent_bytes token day requested daily = transaction do
  exec (λ d. record d { usage = open_day token day d.usage })
  found ← query (λ d. select_where (of_day token day) d.usage)
  u ← row database found
  reserve token day requested daily u

-- `RefundAgentBytes`
unfoldable pub refund_agent_bytes : String → String → ℕ → Bool → Db → Result DbError (Unit {0}) × Db
refund_agent_bytes token day amount fails d =
    if eqb amount 0
    then (ok tt, d)
    else run_statement
        (λ d. (
          tt,
          record d {
            usage =
                update_where (of_day token day)
                  (λ u. record u { charged_bytes = u.charged_bytes - amount }) d.usage;
          },
        ))
        fails d

-- `AgentUsage`
unfoldable pub agent_usage : String → String → Bool → Db → Result DbError ℕ
agent_usage token day fails d =
    if fails then err database else elim (select_where (of_day token day) d.usage) [
      | none ↦ ok 0
      | some u ↦ ok u.charged_bytes
    ]
