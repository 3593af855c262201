-- ===== src/ControlStore/Sql/Laws.antt =====
-- The statements on lists of rows.
use jolt.Prelude.{
  ◌+◌, Bool, true, ◌≡◌, some, List, [], ◌∷◌, ◌++◌, arith, Bool-cases, inl, inr, if◌then◌else◌,
}
use jolt.ControlStore.Sql.{select_where, count_where}

module _ {R : Type 0} where
  -- the row that a query finds meets its condition
  pub select_where_passes :
      (p : R → Bool) (rs : List R) (r : R) → select_where p rs ≡ some r → p r ≡ true
  unfolding select_where
  select_where_passes p [] r h = absurd (ground arith)
  select_where_passes p (x ∷ rs) r h = elim (Bool-cases (p x)) [
    | inl e ↦ let same : x ≡ r = ground arith in rw (← same) e
    | inr e ↦ select_where_passes p rs r (ground arith)
  ]

  pub count_where-append :
      (p : R → Bool) (q : R) (rs : List R)
      → count_where p (rs ++ (q ∷ [])) ≡ count_where p rs + (if p q then 1 else 0)
  unfolding count_where
  count_where-append p q [] = ground arith
  count_where-append p q (r ∷ rs) = ground (arith, count_where-append p q rs)
