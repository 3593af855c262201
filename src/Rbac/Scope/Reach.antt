-- ===== src/Rbac/Scope/Reach.antt =====
-- `denyReachesScope` answers exactly whether a rule can match at or below a scope.
use jolt.Prelude.{
  ℕ, ◌+◌, ◌≡◌, ◌⊎◌, refl, String, Bool, true, false, Bool-cases, inl, inr, not, List, [], ◌∷◌, ◌++◌,
  arith, ◌==◌, eq_refl, all, leb, length, is_some, if◌then◌else◌, len,
}
use jolt.FileTypes.Evaluate.{split_recursive, score_parts, match_parts}
use jolt.Rbac.Scope.{shared_agree, deny_reaches_scope}

length-append : (xs ys : List String) → length (xs ++ ys) ≡ length xs + length ys
length-append [] ys = omega arith
length-append (x ∷ xs) ys = omega (arith, length-append xs ys)

-- A match of the whole path is an agreement on what is shared with the scope.
score_parts-shared_agree :
    (score : ℕ) (parts scope rest : List String)
    → is_some (score_parts score parts (scope ++ rest)) ≡ true
    → shared_agree parts scope ≡ true
unfolding score_parts shared_agree
score_parts-shared_agree score [] scope rest h = refl
score_parts-shared_agree score (part ∷ parts) [] rest h = refl
score_parts-shared_agree score (part ∷ parts) (name ∷ scope) rest h = ground (
  arith,
  score_parts-shared_agree score parts scope rest,
  score_parts-shared_agree (score + (100 + len part)) parts scope rest,
)

-- A rule that matches a path at or below the scope reaches the scope.
pub deny_reaches_scope-of_match :
    (pattern scope rest : List String)
    → is_some (match_parts pattern (scope ++ rest)) ≡ true
    → deny_reaches_scope pattern scope ≡ true
unfolding match_parts deny_reaches_scope
deny_reaches_scope-of_match pattern scope rest h = ground (
  arith,
  length-append scope rest,
  score_parts-shared_agree 0 (split_recursive pattern).0 scope rest,
)

abbrev pub no_star : List String → Bool
no_star = all (λ name. not (name == "*"))

-- What a pattern asks for below a scope that it agrees with.
abbrev pub below : List String → List String → List String
below parts [] = parts
below [] (name ∷ scope) = []
below (part ∷ parts) (name ∷ scope) = below parts scope

score_parts_self :
    (score : ℕ) (parts : List String) → is_some (score_parts score parts parts) ≡ true
unfolding score_parts
score_parts_self score [] = refl
score_parts_self score (part ∷ parts) = ground (
  arith,
  eq_refl part,
  score_parts_self score parts,
  score_parts_self (score + (100 + len part)) parts,
)

score_parts-below :
    (score : ℕ) (parts scope : List String)
    → no_star scope ≡ true
    → shared_agree parts scope ≡ true
    → is_some (score_parts score parts (scope ++ below parts scope)) ≡ true
unfolding score_parts shared_agree
score_parts-below score parts [] n h = score_parts_self score parts
score_parts-below score [] (name ∷ scope) n h = refl
score_parts-below score (part ∷ parts) (name ∷ scope) n h = ground (
  arith,
  score_parts-below score parts scope,
  score_parts-below (score + (100 + len part)) parts scope,
)

length-below :
    (parts scope : List String)
    → length (scope ++ below parts scope)
      ≡ (if leb (length scope) (length parts) then length parts else length scope)
length-below parts [] = ground arith
length-below [] (name ∷ scope) = ground (arith, length-append scope [])
length-below (part ∷ parts) (name ∷ scope) = ground (arith, length-below parts scope)

-- the path below the scope that goes on from it as the pattern does
reached_path :
    (pattern scope : List String)
    → no_star scope ≡ true
    → deny_reaches_scope pattern scope ≡ true
    → is_some (match_parts pattern (scope ++ below (split_recursive pattern).0 scope)) ≡ true
unfolding match_parts deny_reaches_scope
reached_path pattern scope n h =
    let parts = (split_recursive pattern).0 in
    ground (arith, length-below parts scope, score_parts-below 0 parts scope n)

-- A rule reaches a scope that has no part `*` just when it matches some path at or below it: where
-- it reaches the scope there is such a path, and where it does not it matches none.
pub deny_reaches_scope_exact :
    (pattern scope rest : List String)
    → no_star scope ≡ true
    → ((deny_reaches_scope pattern scope ≡ true)
        × ((more : List String) × (is_some (match_parts pattern (scope ++ more)) ≡ true)))
      ⊎ ((deny_reaches_scope pattern scope ≡ false)
          × (is_some (match_parts pattern (scope ++ rest)) ≡ false))
deny_reaches_scope_exact pattern scope rest n =
    elim (Bool-cases (deny_reaches_scope pattern scope)) [
      | inl e ↦ inl (e, (below (split_recursive pattern).0 scope, reached_path pattern scope n e))
      | inr e ↦ elim (Bool-cases (is_some (match_parts pattern (scope ++ rest)))) [
        | inl m ↦ absurd (ground (arith, e, deny_reaches_scope-of_match pattern scope rest m))
        | inr m ↦ inr (e, m)
      ]
    ]
