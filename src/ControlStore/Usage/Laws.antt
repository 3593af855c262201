-- ===== src/ControlStore/Usage/Laws.antt =====
-- What is charged to a credential in a day.
use jolt.Prelude.{
  ℕ, ◌+◌, ◌-◌, ◌≤◌, String, false, ◌&&◌, ◌≡◌, refl, some, List, [], ◌∷◌, ◌++◌, ◌==◌, ltb, eqb,
  if◌then◌else◌, Result, ok, arith, eq_iff, Bool-cases, Option-cases, inl, inr, is_ok,
}
use jolt.ControlStore.Entities.{AgentUsage, Db}
use jolt.ControlStore.Sql.{
  DbError, Faults, statement, commit, transaction, update_where, select_where, count_where,
}
use jolt.ControlStore.Usage.{of_day, open_day, fits, charge, at_most, reserve, reserve_agent_bytes}

-- what the row of a credential and a day is charged, or nothing
unfoldable pub charged_in : String → String → List AgentUsage → ℕ
charged_in token day [] = 0
charged_in token day (u ∷ us) =
    if of_day token day u then u.charged_bytes else charged_in token day us

pub charged_in-select :
    (token day : String) (us : List AgentUsage) (u : AgentUsage)
    → select_where (of_day token day) us ≡ some u
    → charged_in token day us ≡ u.charged_bytes
unfolding charged_in select_where
charged_in-select token day [] u h = absurd (ground arith)
charged_in-select token day (x ∷ us) u h = ground (arith, charged_in-select token day us u)

charged_in-append :
    (token day : String) (us : List AgentUsage) (u : AgentUsage)
    → u.charged_bytes ≡ 0
    → charged_in token day (us ++ (u ∷ [])) ≡ charged_in token day us
unfolding charged_in
charged_in-append token day [] u h = ground arith
charged_in-append token day (x ∷ us) u h = ground (arith, charged_in-append token day us u)

pub charged_in-open :
    (t e token day : String) (us : List AgentUsage)
    → charged_in t e (open_day token day us) ≡ charged_in t e us
unfolding open_day
charged_in-open t e token day us =
    ground
      (arith, charged_in-append t e us (record { token_id = token; day = day; charged_bytes = 0 }))

-- a charge that fits in the row adds to it
pub charged_in-charge :
    (token day : String) (n daily : ℕ) (us : List AgentUsage) (u : AgentUsage)
    → select_where (of_day token day) us ≡ some u
    → u.charged_bytes + n ≤ daily
    → charged_in token day (update_where (fits token day n daily) (charge n) us)
      ≡ charged_in token day us + n
unfolding charged_in select_where update_where fits charge of_day
charged_in-charge token day n daily [] u h l = absurd (ground arith)
charged_in-charge token day n daily (x ∷ us) u h l =
    ground (arith, charged_in-charge token day n daily us u)

-- and to no other row
pub charged_in-charge_other :
    (t e token day : String) (n daily : ℕ) (us : List AgentUsage)
    → (t == token && e == day) ≡ false
    → charged_in t e (update_where (fits token day n daily) (charge n) us) ≡ charged_in t e us
unfolding charged_in update_where fits charge of_day
charged_in-charge_other t e token day n daily [] h = refl
charged_in-charge_other t e token day n daily (x ∷ us) h = ground (
  arith,
  charged_in-charge_other t e token day n daily us,
  eq_iff x.token_id t,
  eq_iff x.token_id token,
  eq_iff x.day e,
  eq_iff x.day day,
  eq_iff t token,
  eq_iff e day,
)

-- what a reservation answers and stores
pub data Reserved (token day : String) (requested daily : ℕ) (d : Db) (r : Result DbError ℕ × Db)
    : Type 0 where
  refused : is_ok r.0 ≡ false → r.1 ≡ d → Reserved token day requested daily d r
  granted :
      (u : AgentUsage)
      → select_where (of_day token day) (open_day token day d.usage) ≡ some u
      → ltb (daily - u.charged_bytes) 1024 ≡ false
      → r.0 ≡ ok (at_most (daily - u.charged_bytes) requested)
      → r.1.usage
        ≡ update_where
            (fits token day (at_most (daily - u.charged_bytes) requested) daily)
            (charge (at_most (daily - u.charged_bytes) requested))
            (open_day token day d.usage)
      → Reserved token day requested daily d r

reserve-Reserved :
    (token day : String) (requested daily : ℕ) (u : AgentUsage) (d : Db) (fails : Faults)
    (calls : ℕ)
    → select_where (of_day token day) (open_day token day d.usage) ≡ some u
    → Reserved token day requested daily d (
        let (r, tx) = reserve token day requested daily u (record {
          db = record d { usage = open_day token day d.usage };
          saved = d;
          fails = fails;
          calls = calls;
        }) in
        (r, tx.saved))
unfolding reserve statement commit
reserve-Reserved token day requested daily u d fails calls s =
    let n : ℕ = at_most (daily - u.charged_bytes) requested in
    elim (Bool-cases (ltb (daily - u.charged_bytes) 1024)) [
      | inl f ↦ refused (rw f refl) (rw f refl)
      | inr f0 ↦ elim (Bool-cases (fails calls)) [
        | inl f ↦ refused (rw (f0, f) refl) (rw (f0, f) refl)
        | inr f1 ↦
            elim (Bool-cases
              (eqb (count_where (fits token day n daily) (open_day token day d.usage)) 1)) [
                | inr f ↦ refused (rw (f0, f1, f) refl) (rw (f0, f1, f) refl)
                | inl f2 ↦ elim (Bool-cases (fails (calls + 1))) [
                  | inl f ↦ refused (rw (f0, f1, f2, f) refl) (rw (f0, f1, f2, f) refl)
                  | inr f3 ↦ granted u s f0 (rw (f0, f1, f2, f3) refl) (rw (f0, f1, f2, f3) refl)
                ]
              ]
      ]
    ]

pub reserve_agent_bytes-Reserved :
    (token day : String) (requested daily : ℕ) (fails : Faults) (d : Db)
    → Reserved token day requested daily d (reserve_agent_bytes token day requested daily fails d)
unfolding reserve_agent_bytes transaction statement
reserve_agent_bytes-Reserved token day requested daily fails d = elim (Bool-cases (fails 0)) [
  | inl f ↦ refused (rw f refl) (rw f refl)
  | inr f0 ↦ elim (Bool-cases (fails 1)) [
    | inl f ↦ refused (rw (f0, f) refl) (rw (f0, f) refl)
    | inr f1 ↦ elim (Bool-cases (fails 2)) [
      | inl f ↦ refused (rw (f0, f1, f) refl) (rw (f0, f1, f) refl)
      | inr f2 ↦
          elim (Option-cases (select_where (of_day token day) (open_day token day d.usage))) [
            | inl n ↦ refused (rw (f0, f1, f2, n) refl) (rw (f0, f1, f2, n) refl)
            | inr (u, s) ↦
                rw (f0, f1, f2, s) (reserve-Reserved token day requested daily u d fails 3 s)
          ]
    ]
  ]
]
