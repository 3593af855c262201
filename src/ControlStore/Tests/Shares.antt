-- ===== src/ControlStore/Tests/Shares.antt =====
-- Shares and quotas.
use jolt.Prelude.{◌+◌, ◌≤◌, false, ◌≡◌, refl, List, [], ◌∷◌, arith, err}
use jolt.ControlStore.Entities.{TimeColumn, time}
use jolt.ControlStore.Sql.{share_exhausted, agent_quota}
use jolt.ControlStore.Shares.{share_id, active, read_deadline, count_download}
use jolt.ControlStore.Shares.Downloads.{ShareCall, download, touch, served, remaining}
use jolt.ControlStore.Shares.Limit.{served-le-remaining}
use jolt.ControlStore.Usage.{reserve_agent_bytes}
use jolt.ControlStore.Usage.Laws.{charged_in}
use jolt.ControlStore.Usage.Quota.{
  UsageCall, reserve, refund, run_usage, total_granted, total_refunded, run_usage-le-quota,
}
use jolt.ControlStore.Tests.{no_faults, now, no_rows}

abbrev deadline : TimeColumn
deadline = time 1767225900000000000

abbrev downloads : List ShareCall
downloads =
    download "s1" now deadline false ∷ touch "s1" now false ∷ download "s1" now deadline false ∷ []

-- The limit leaves one download.
downloads-served : served "s1" downloads no_rows ≡ 1
unfolding served count_download jolt.ControlStore.Sql.run_statement
    jolt.ControlStore.Sql.count_where jolt.ControlStore.Shares.downloadable
    jolt.ControlStore.Shares.same_column jolt.ControlStore.Shares.touch_share
    jolt.ControlStore.Sql.update_where share_id jolt.ControlStore.Shares.downloaded
downloads-served = refl

served-le-remaining_example : served "s1" downloads no_rows ≤ remaining "s1" no_rows.shares
served-le-remaining_example = served-le-remaining "s1" downloads no_rows refl refl

abbrev usage_calls : List UsageCall
usage_calls =
    reserve "k1" "2026-01-01" 3000 no_faults
    ∷ refund "k1" "2026-01-01" 1000 false
    ∷ reserve "k1" "2026-01-01" 3000 no_faults
    ∷ []

-- The second reservation gets what is left.
usage_granted : total_granted "k1" "2026-01-01" 4096 usage_calls no_rows ≡ 5096
unfolding total_granted reserve_agent_bytes jolt.ControlStore.Sql.transaction
    jolt.ControlStore.Sql.statement jolt.ControlStore.Sql.select_where
    jolt.ControlStore.Usage.of_day jolt.ControlStore.Sql.count_where jolt.ControlStore.Sql.commit
    jolt.ControlStore.Usage.refund_agent_bytes jolt.ControlStore.Sql.run_statement
    jolt.ControlStore.Sql.update_where
usage_granted = refl

-- Too little is left.
quota_exhausted :
    (reserve_agent_bytes "k1" "2026-01-01" 100 1000 no_faults no_rows).0 ≡ err agent_quota
unfolding reserve_agent_bytes jolt.ControlStore.Sql.transaction jolt.ControlStore.Sql.statement
    jolt.ControlStore.Sql.select_where jolt.ControlStore.Usage.of_day
quota_exhausted = refl

run_usage-le-quota_example :
    (charged_in "k1" "2026-01-01" no_rows.usage
        + total_granted "k1" "2026-01-01" 4096 usage_calls no_rows
      ≤ 4096 + total_refunded "k1" "2026-01-01" usage_calls)
    × (charged_in "k1" "2026-01-01" (run_usage 4096 usage_calls no_rows).usage ≤ 4096)
unfolding charged_in
run_usage-le-quota_example =
    run_usage-le-quota "k1" "2026-01-01" 4096 usage_calls no_rows (omega arith)
