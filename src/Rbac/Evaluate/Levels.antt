-- ===== src/Rbac/Evaluate/Levels.antt =====
-- The highest level among the elements of a list, and the elements that are at it.
use jolt.Prelude.{
  ℕ, ◌≡◌, refl, Bool, true, false, ◌&&◌, ◌||◌, Option, none, some, List, [], ◌∷◌, ◌++◌, arith, ltb,
  if◌then◌else◌, any, any-append, is_some,
}
use jolt.Rbac.Evaluate.{exceeds, equals}

-- The higher of two levels; `none` is below all.
abbrev pub higher : Option ℕ → Option ℕ → Option ℕ
higher none b = b
higher (some a) none = some a
higher (some a) (some b) = if ltb a b then some b else some a

abbrev pub at_level : Option ℕ → Option ℕ → Bool
at_level b none = false
at_level b (some s) = equals s b

module _ {A : Type 0} (level : A → Option ℕ) where
  unfoldable pub best_level : List A → Option ℕ
  best_level [] = none
  best_level (x ∷ xs) = higher (level x) (best_level xs)

  -- Some element at the highest level passes a test.
  unfoldable pub best_any : (A → Bool) → List A → Bool
  best_any q xs = any (λ x. at_level (best_level xs) (level x) && q x) xs

unfoldable pub raised : Option ℕ → Option ℕ → Option ℕ
raised none b = b
raised (some s) b = if exceeds s b then some s else b

-- The test over the elements at the highest level, when one more element has come.
abbrev pub joined : Option ℕ → Option ℕ → Bool → Bool → Bool
joined none best old mark = old
joined (some s) best old mark =
    if exceeds s best then mark else if equals s best then old || mark else old

higher-raised : (a b s : Option ℕ) → higher a (raised s b) ≡ raised s (higher a b)
unfolding raised exceeds
higher-raised a b s = ground arith

module _ {A : Type 0} (level : A → Option ℕ) where
  pub best_level-append :
      (xs : List A) (e : A)
      → best_level level (xs ++ (e ∷ [])) ≡ raised (level e) (best_level level xs)
  unfolding best_level raised exceeds
  best_level-append [] e = ground arith
  best_level-append (x ∷ xs) e =
      ground
        (arith, best_level-append xs e, higher-raised (level x) (best_level level xs) (level e))

  none_at_level-above :
      (s : ℕ) (q : A → Bool) (xs : List A)
      → exceeds s (best_level level xs) ≡ true
      → any (λ x. at_level (some s) (level x) && q x) xs ≡ false
  unfolding best_level exceeds equals
  none_at_level-above s q [] h = refl
  none_at_level-above s q (x ∷ xs) h = ground (arith, none_at_level-above s q xs)

  pub best_any-append :
      (q : A → Bool) (xs : List A) (e : A)
      → best_any level q (xs ++ (e ∷ []))
        ≡ joined (level e) (best_level level xs) (best_any level q xs) (q e)
  unfolding best_any raised exceeds equals
  best_any-append q xs e = rw (best_level-append xs e, any-append) (append_cases (level e) refl)
    where
      append_cases :
          (l : Option ℕ)
          → level e ≡ l
          → (any (λ x. at_level (raised l (best_level level xs)) (level x) && q x) xs
              || (at_level (raised l (best_level level xs)) (level e) && q e || false))
            ≡ joined l
                (best_level level xs)
                (any (λ x. at_level (best_level level xs) (level x) && q x) xs)
                (q e)
      append_cases none h = rw h (ground arith)
      append_cases (some s) h = rw h (ground (arith, none_at_level-above s q xs))

  -- There is a highest level just where some element has a level, and it is then attained.
  pub is_some-best_level :
      (xs : List A) → is_some (best_level level xs) ≡ any (λ x. is_some (level x)) xs
  unfolding best_level
  is_some-best_level [] = refl
  is_some-best_level (x ∷ xs) = ground (arith, is_some-best_level xs)

  pub best_level-attained :
      (xs : List A)
      → any (λ x. at_level (best_level level xs) (level x)) xs ≡ is_some (best_level level xs)
  unfolding best_level equals
  best_level-attained [] = refl
  best_level-attained (x ∷ xs) = ground (arith, best_level-attained xs)
