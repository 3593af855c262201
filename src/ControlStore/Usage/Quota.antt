-- ===== src/ControlStore/Usage/Quota.antt =====
-- The quota over a history of reservations and refunds.
use jolt.Prelude.{
  ℕ, ◌+◌, ◌-◌, ◌≤◌, String, Bool, ◌&&◌, ◌≡◌, List, [], ◌∷◌, ◌==◌, eqb, if◌then◌else◌, Result, ok,
  err, arith, eq_iff, Bool-cases, Result-cases, inl, inr,
}
use jolt.ControlStore.Entities.{AgentUsage, Db}
use jolt.ControlStore.Sql.{DbError, Faults, run_statement, update_where}
use jolt.ControlStore.Usage.{of_day, open_day, at_most, reserve_agent_bytes, refund_agent_bytes}
use jolt.ControlStore.Usage.Laws.{
  charged_in, charged_in-select, charged_in-open, charged_in-charge, charged_in-charge_other,
  refused, granted, reserve_agent_bytes-Reserved,
}

-- A call on the quotas, with its arguments.
pub data UsageCall : Type 0 where
  reserve : String → String → ℕ → Faults → UsageCall
  refund : String → String → ℕ → Bool → UsageCall

abbrev pub usage_step : ℕ → UsageCall → Db → Db
usage_step daily (reserve token day requested fails) d =
    (reserve_agent_bytes token day requested daily fails d).1
usage_step daily (refund token day amount fails) d = (refund_agent_bytes token day amount fails d).1

unfoldable pub run_usage : ℕ → List UsageCall → Db → Db
run_usage daily [] d = d
run_usage daily (c ∷ cs) d = run_usage daily cs (usage_step daily c d)

abbrev pub answered : Result DbError ℕ → ℕ
answered (ok n) = n
answered (err e) = 0

-- what a call grants to a credential in a day, and what it gives back
abbrev pub granted_by : String → String → ℕ → UsageCall → Db → ℕ
granted_by t e daily (reserve token day requested fails) d =
    if t == token && e == day
    then answered (reserve_agent_bytes token day requested daily fails d).0
    else 0
granted_by t e daily (refund token day amount fails) d = 0

abbrev pub refunded_by : String → String → UsageCall → ℕ
refunded_by t e (reserve token day requested fails) = 0
refunded_by t e (refund token day amount fails) = if t == token && e == day then amount else 0

unfoldable pub total_granted : String → String → ℕ → List UsageCall → Db → ℕ
total_granted t e daily [] d = 0
total_granted t e daily (c ∷ cs) d =
    granted_by t e daily c d + total_granted t e daily cs (usage_step daily c d)

unfoldable pub total_refunded : String → String → List UsageCall → ℕ
total_refunded t e [] = 0
total_refunded t e (c ∷ cs) = refunded_by t e c + total_refunded t e cs

charged_in-refund :
    (t e token day : String) (amount : ℕ) (us : List AgentUsage)
    → charged_in t e (
        update_where
          (of_day token day)
          (λ u. record u { charged_bytes = u.charged_bytes - amount })
          us)
      ≡ charged_in t e us - (if t == token && e == day then amount else 0)
unfolding charged_in update_where of_day
charged_in-refund t e token day amount [] = ground arith
charged_in-refund t e token day amount (x ∷ us) = ground (
  arith,
  charged_in-refund t e token day amount us,
  eq_iff x.token_id t,
  eq_iff x.token_id token,
  eq_iff x.day e,
  eq_iff x.day day,
  eq_iff t token,
  eq_iff e day,
)

-- A reservation charges what it grants, and within the quota.
reserve-Charges :
    (t e token day : String) (requested daily : ℕ) (fails : Faults) (d : Db)
    → (charged_in t e d.usage
          + (if t == token && e == day
              then answered (reserve_agent_bytes token day requested daily fails d).0
              else 0)
        ≡ charged_in t e (reserve_agent_bytes token day requested daily fails d).1.usage)
      × (charged_in t e d.usage ≤ daily
          → charged_in t e (reserve_agent_bytes token day requested daily fails d).1.usage ≤ daily)
unfolding at_most
reserve-Charges t e token day requested daily fails d =
    elim (reserve_agent_bytes-Reserved token day requested daily fails d) [
      | refused x y ↦
          elim (Result-cases (reserve_agent_bytes token day requested daily fails d).0) [
            | inl (n, o) ↦ absurd (ground arith)
            | inr (z, o) ↦ (rw (o, y) (ground arith), rw y (λ h. h))
          ]
      | granted u s f o y ↦
          let n : ℕ = at_most (daily - u.charged_bytes) requested in
          let us : List AgentUsage = open_day token day d.usage in
          let start = charged_in-open t e token day d.usage in
          rw (y, o)
            (elim (Bool-cases (t == token && e == day)) [
              | inl k ↦
                  let tt' : t ≡ token = (eq_iff t token).0 (ground arith) in
                  let ee' : e ≡ day = (eq_iff e day).0 (ground arith) in
                  let fit : u.charged_bytes + n ≤ daily = ground arith in
                  rw (k, tt', ee', charged_in-charge token day n daily us u s fit)
                    (
                      ground (arith, charged_in-open token day token day d.usage),
                      λ h. ground (arith, charged_in-select token day us u s),
                    )
              | inr k ↦
                  rw (k, charged_in-charge_other t e token day n daily us k)
                    (ground (arith, start), λ h. ground (arith, start))
            ])
    ]

refund-Charges :
    (t e token day : String) (amount : ℕ) (fails : Bool) (d : Db)
    → (charged_in t e d.usage
        ≤ charged_in t e (refund_agent_bytes token day amount fails d).1.usage
          + (if t == token && e == day then amount else 0))
      × (charged_in t e (refund_agent_bytes token day amount fails d).1.usage
          ≤ charged_in t e d.usage)
unfolding refund_agent_bytes run_statement
refund-Charges t e token day amount fails d = elim (Bool-cases (eqb amount 0)) [
  | inl z ↦ rw z (omega arith, omega arith)
  | inr z ↦ elim (Bool-cases fails) [
    | inl f ↦ rw (z, f) (omega arith, omega arith)
    | inr f ↦ rw (z, f, charged_in-refund t e token day amount d.usage) (ground arith, omega arith)
  ]
]

-- Where a credential is charged no more than the quota of a day, any sequence of reservations against
-- that quota and of refunds, for any credentials and days and with any statements failing, grants the
-- credential in that day at most the quota and what is refunded to it, less what it was charged
-- before, and leaves it charged no more than the quota.
pub run_usage-le-quota :
    (t e : String) (daily : ℕ) (cs : List UsageCall) (d : Db)
    → charged_in t e d.usage ≤ daily
    → (charged_in t e d.usage + total_granted t e daily cs d ≤ daily + total_refunded t e cs)
      × (charged_in t e (run_usage daily cs d).usage ≤ daily)
unfolding run_usage total_granted total_refunded
run_usage-le-quota t e daily [] d h = (omega arith, h)
run_usage-le-quota t e daily (reserve token day requested fails ∷ cs) d h =
    let c = reserve-Charges t e token day requested daily fails d in
    let r =
      run_usage-le-quota t e daily cs (reserve_agent_bytes token day requested daily fails d).1
        (c.1 h) in
    (omega (arith, c.0, r.0), r.1)
run_usage-le-quota t e daily (refund token day amount fails ∷ cs) d h =
    let c = refund-Charges t e token day amount fails d in
    let r =
      run_usage-le-quota t e daily cs (refund_agent_bytes token day amount fails d).1
        (omega (arith, c.1)) in
    (omega (arith, c.0, r.0), r.1)
