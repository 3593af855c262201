-- ===== src/Rbac/Evaluate/Order/Total.antt =====
-- The order of texts is total: two texts that come before each other are one, and it is transitive.
use Prim.Native.Nat.{ℕ, Ordering, compare as compare_ℕ}
use Prim.Native.Char.{Char, code}
use Prim.Native.String.{then, compare}
use Prim.Native.String.compare
use text.Mathlib.Text.{is_le}
use text.Mathlib.TextEquality.{codes_equal}
use jolt.Prelude.{◌≡◌, refl, ◌∙◌, ap, String, true, false, ◌&&◌, ◌||◌, arith, ltb, eqb}
use jolt.Rbac.Evaluate.Order.{text_le}

is_le-then :
    (a b : ℕ) (p : Ordering) → is_le (then (compare_ℕ a b) p) ≡ (ltb a b || eqb a b && is_le p)
is_le-then a b p =
    elim (compare_ℕ a b)
      as (λ o. is_le (then o p) ≡ (
        elim o [ Ordering.lt ↦ true | _ ↦ false ]
        || elim o [ Ordering.eq ↦ true | _ ↦ false ] && is_le p)) [
          | Ordering.lt ↦ refl
          | Ordering.eq ↦ refl
          | Ordering.gt ↦ refl
        ]

text_le-cons :
    (c d : Char) (s t : String)
    → text_le (String.◌∷◌ c s) (String.◌∷◌ d t)
      ≡ (ltb (code c) (code d) || eqb (code c) (code d) && text_le s t)
unfolding text_le
text_le-cons c d s t =
    ap is_le (compare.cons-cons c d s t) ∙ is_le-then (code c) (code d) (compare s t)

text_le-nil : (t : String) → text_le String.[] t ≡ true
unfolding text_le
text_le-nil String.[] = ap is_le compare.nil-nil
text_le-nil (String.◌∷◌ d t) = ap is_le (compare.nil-cons d t)

cons-text_le-nil : (c : Char) (s : String) → text_le (String.◌∷◌ c s) String.[] ≡ false
unfolding text_le
cons-text_le-nil c s = ap is_le (compare.cons-nil c s)

pub text_le-total : (s t : String) → (text_le s t || text_le t s) ≡ true
text_le-total String.[] t = ground (arith, text_le-nil t)
text_le-total (String.◌∷◌ c s) String.[] = ground (arith, text_le-nil (String.◌∷◌ c s))
text_le-total (String.◌∷◌ c s) (String.◌∷◌ d t) =
    ground (arith, text_le-cons c d s t, text_le-cons d c t s, text_le-total s t)

pub text_le_trans : (s t u : String) → text_le s t ≡ true → text_le t u ≡ true → text_le s u ≡ true
text_le_trans String.[] t u h k = text_le-nil u
text_le_trans (String.◌∷◌ c s) String.[] u h k = absurd (ground (arith, cons-text_le-nil c s))
text_le_trans (String.◌∷◌ c s) (String.◌∷◌ d t) String.[] h k =
    absurd (ground (arith, cons-text_le-nil d t))
text_le_trans (String.◌∷◌ c s) (String.◌∷◌ d t) (String.◌∷◌ e u) h k =
    ground
      (arith, text_le-cons c d s t, text_le-cons d e t u, text_le-cons c e s u, text_le_trans s t u)

at_eq : (o : Ordering) → elim o [ Ordering.eq ↦ true | _ ↦ false ] ≡ true → o ≡ Ordering.eq
at_eq Ordering.lt h = absurd (ground arith)
at_eq Ordering.eq h = refl
at_eq Ordering.gt h = absurd (ground arith)

-- two characters of one number are one
code_eq : (c d : Char) → eqb (code c) (code d) ≡ true → c ≡ d
code_eq c d h = codes_equal c d (at_eq (compare_ℕ (code c) (code d)) h)

pub text_le-antisym : (s t : String) → text_le s t ≡ true → text_le t s ≡ true → s ≡ t
text_le-antisym String.[] String.[] h k = refl
text_le-antisym String.[] (String.◌∷◌ d t) h k = absurd (ground (arith, cons-text_le-nil d t))
text_le-antisym (String.◌∷◌ c s) String.[] h k = absurd (ground (arith, cons-text_le-nil c s))
text_le-antisym (String.◌∷◌ c s) (String.◌∷◌ d t) h k =
    let first : c ≡ d = code_eq c d (ground (arith, text_le-cons c d s t, text_le-cons d c t s)) in
    let rest : s ≡ t =
      text_le-antisym s t (ground (arith, text_le-cons c d s t, text_le-cons d c t s))
        (ground (arith, text_le-cons c d s t, text_le-cons d c t s)) in
    λ i. String.◌∷◌ (first i) (rest i)
