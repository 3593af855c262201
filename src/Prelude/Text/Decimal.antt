-- ===== src/Prelude/Text/Decimal.antt =====
-- `%d` of a number that is not negative
use Prim.Native.Nat.{ℕ, zero, suc, ◌+◌, ◌-◌, ◌*◌, ◌/◌, ◌%◌, ◌<◌}
use Prim.Native.Char.{char, code}
use Prim.Native.String.{String, [], ◌∷◌}
use mathlib.Core.Path.{◌≡◌, refl, sym, ap, ◌∙◌}
use mathlib.Core.Logic.{dif_pos}
use native.Mathlib.Omega.{arith}
use native.Mathlib.Bridge.{le_prop}
use native.Mathlib.Decide.{dec_lt}
use jolt.Prelude.Tests.{ltb, if◌then◌else◌}
use jolt.Prelude.Text.Case.{char_or}

decimal_loop : ℕ → ℕ → String → String
decimal_loop zero n acc = acc
decimal_loop (suc f) n acc =
    let acc' = char_or (48 + n % 10) (char 48 tt) ∷ acc in
    let rest = decimal_loop f (n / 10) acc' in if ltb n 10 then acc' else rest

-- One digit for each round, so the number itself is fuel enough.
unfoldable pub decimal : ℕ → String
unfolding decimal_loop char_or
decimal n = decimal_loop (suc n) n ""

decimal_test : decimal 1305 ≡ "1305"
unfolding decimal
decimal_test = refl

-- the number that a text of digits writes, behind one that is read already
value : ℕ → String → ℕ
value n [] = n
value n (c ∷ s) = value (10 * n + (code c - 48)) s

digit_value : (d : ℕ) → d < 10 → code (char_or (48 + d) (char 48 tt)) ≡ 48 + d
unfolding char_or
digit_value d h = rw (dif_pos (dec_lt (48 + d) 55296) le_prop (omega arith)) refl

decimal_loop-value : (f n : ℕ) (acc : String) → n < f → value 0 (decimal_loop f n acc) ≡ value n acc
unfolding decimal_loop value
decimal_loop-value zero n acc h = elim h [ ]
decimal_loop-value (suc f) n acc h = ground (
  arith,
  digit_value (n % 10),
  decimal_loop-value f (n / 10) (char_or (48 + n % 10) (char 48 tt) ∷ acc),
)

-- Numbers that are written alike are equal.
pub decimal_injective : (m n : ℕ) → decimal m ≡ decimal n → m ≡ n
unfolding decimal value
decimal_injective m n e =
    sym (decimal_loop-value (suc m) m "" (omega arith))
    ∙ ap (value 0) e
    ∙ decimal_loop-value (suc n) n "" (omega arith)
