-- ===== src/Rbac/Evaluate/Laws.antt =====
-- What `Evaluate` decides, from the rules alone.
use jolt.Prelude.{
  ℕ, ◌≡◌, refl, ◌∙◌, String, Bool, true, false, ◌&&◌, not, Option, List, [], ◌∷◌, arith, ◌==◌,
  eq_refl, ltb, any, length, contains, is_some, if◌then◌else◌, Bool-cases, inl, inr,
}
use jolt.Rbac.Path.{normalize_path}
use jolt.Rbac.Policy.{Policy, Entry, entries, clean, requires_approval}
use jolt.Rbac.Evaluate.{Tally, empty_tally, count_policies, decide, evaluate}
use jolt.Rbac.Evaluate.Order.Laws.{contains-sorted_keys}
use jolt.Rbac.Evaluate.Levels.{
  at_level, best_level, best_any, is_some-best_level, best_level-attained,
}
use jolt.Rbac.Evaluate.Spec.{is_denial, grant_level}
use jolt.Rbac.Evaluate.Invariant.{Counts, tally-Counts}

module _ (p : Entry → Bool) where
  any-of_any-and :
      (q : Entry → Bool) (es : List Entry) → any (λ e. p e && q e) es ≡ true → any p es ≡ true
  any-of_any-and q [] h = h
  any-of_any-and q (e ∷ es) h = ground (arith, any-of_any-and q es)

  none_of_no_key :
      (es : List Entry) → ((k : String) → any (λ e. p e && e.0 == k) es ≡ false) → any p es ≡ false
  none_of_no_key [] h = refl
  none_of_no_key ((id, rule) ∷ es) h =
      ground (arith, h id, eq_refl id, none_of_no_key es (λ k. ground (arith, h k)))

  -- A set of ids is nonempty just where some entry put its id in.
  ids_nonempty :
      (ids : List String) (es : List Entry)
      → ((k : String) → contains k ids ≡ any (λ e. p e && e.0 == k) es)
      → ltb 0 (length ids) ≡ any p es
  unfolding contains
  ids_nonempty [] es h = ground (arith, none_of_no_key es (λ k. ground (arith, h k)))
  ids_nonempty (x ∷ ids) es h = ground (arith, h x, eq_refl x, any-of_any-and (λ e. e.0 == x) es)

contains-of_empty :
    (k : String) (ids : List String) → ltb 0 (length ids) ≡ false → contains k ids ≡ false
unfolding contains
contains-of_empty k [] h = refl
contains-of_empty k (x ∷ ids) h = ground arith

decide-policy_ids :
    (t : Tally) (path capability k : String)
    → contains k (decide t path capability).policy_ids
      ≡ (if (decide t path capability).denied then contains k t.denied else contains k t.allowed)
unfolding decide
decide-policy_ids t path capability k = elim (Bool-cases (ltb 0 (length t.denied))) [
  | inl e ↦ rw e (contains-sorted_keys k t.denied)
  | inr e ↦ rw e (elim (Bool-cases (ltb 0 (length t.allowed))) [
    | inl f ↦ rw f (contains-sorted_keys k t.allowed)
    | inr f ↦ rw (f, contains-of_empty k t.allowed f) (unfold contains in refl)
  ])
]

-- The rules of some policies, and what they say of a path and a capability as requested.
module _ (policies : List Policy) (path capability : String) where
  abbrev pub denial : Entry → Bool
  denial = is_denial (normalize_path path)

  abbrev pub level : Entry → Option ℕ
  level = grant_level (normalize_path path) (clean capability)

  abbrev tally : Tally
  tally = count_policies (normalize_path path) (clean capability) policies empty_tally

  counts : Counts (normalize_path path) (clean capability) (entries policies) tally
  counts = tally-Counts (normalize_path path) (clean capability) policies

  tally-denied : ltb 0 (length tally.denied) ≡ any denial (entries policies)
  tally-denied = ids_nonempty denial tally.denied (entries policies) counts.denied

  tally-allowed : ltb 0 (length tally.allowed) ≡ any (λ e. is_some (level e)) (entries policies)
  unfolding best_any
  tally-allowed =
      ids_nonempty (λ e. at_level (best_level level (entries policies)) (level e)) tally.allowed
        (entries policies) counts.allowed
      ∙ best_level-attained level (entries policies)
      ∙ is_some-best_level level (entries policies)

  -- Denial wins everywhere: a request is denied just when some rule that covers the path is a
  -- denial, whatever its specificity, its types and its place.
  pub evaluate-denied : (evaluate policies path capability).denied ≡ any denial (entries policies)
  unfolding evaluate decide
  evaluate-denied = ground (arith, tally-denied)

  -- A request is allowed just when no covering rule is a denial and some untyped rule that covers
  -- the path grants the capability.
  pub evaluate-allowed :
      (evaluate policies path capability).allowed
      ≡ (not (any denial (entries policies)) && any (λ e. is_some (level e)) (entries policies))
  unfolding evaluate decide
  evaluate-allowed = ground (arith, tally-denied, tally-allowed)

  -- An allowed request needs approval just when, of the granting rules of the highest specificity,
  -- some one asks for it; a request that is not allowed never does.
  pub evaluate-needs_approval : (evaluate policies path capability).needs_approval ≡ (
      (evaluate policies path capability).allowed
      && best_any level (λ e. requires_approval e.1 (clean capability)) (entries policies))
  unfolding evaluate decide
  evaluate-needs_approval = ground (arith, tally-denied, tally-allowed, counts.needs_approval)

  -- The ids of a denied request are those of the policies with a covering denial; the ids of any
  -- other are those of the policies that grant it at the highest specificity.
  pub evaluate-policy_ids :
      (k : String)
      → contains k (evaluate policies path capability).policy_ids ≡ (
          if (evaluate policies path capability).denied
          then any (λ e. denial e && e.0 == k) (entries policies)
          else best_any level (λ e. e.0 == k) (entries policies))
  unfolding evaluate
  evaluate-policy_ids k =
      decide-policy_ids tally (normalize_path path) (clean capability) k
      ∙ rw (counts.denied k, counts.allowed k)
