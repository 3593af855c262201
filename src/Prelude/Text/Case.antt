-- ===== src/Prelude/Text/Case.antt =====
-- `strings.ToLower`: ASCII, Latin-1, Latin Extended-A, Greek, Cyrillic, and the two characters
-- outside these whose lower case is ASCII. Characters of other scripts stay as they are.
use Prim.Native.Nat.{ℕ, ◌+◌, ◌<◌, ◌%◌, compare, Ordering}
use Prim.Native.Char.{Char, char, code, IsScalar}
use Prim.Native.String.{String, [], ◌∷◌}
use mathlib.Core.Path.{◌≡◌, refl}
use mathlib.Core.Logic.{dite}
use mathlib.Core.Bool.{◌&&◌, ◌||◌}
use native.Mathlib.Omega.{arith}
use native.Mathlib.Decide.{dec_lt}
use jolt.Prelude.Tests.{leb, eqb, if◌then◌else◌}

lower_code : ℕ → ℕ
lower_code c =
    if leb b'A' c && leb c b'Z'
      || leb 0xc0 c && leb c 0xd6
      || leb 0xd8 c && leb c 0xde
      || leb 0x391 c && leb c 0x3a1
      || leb 0x3a3 c && leb c 0x3ab
      || leb 0x410 c && leb c 0x42f
    then c + 32
    else if leb 0x400 c && leb c 0x40f
    then c + 80
    else if eqb c 0x130
    then b'i'
    else if eqb c 0x178
    then 0xff
    else if eqb c 0x212a
    then b'k'
    else if (leb 0x100 c && leb c 0x136 || leb 0x14a c && leb c 0x176) && eqb (c % 2) 0
        || (leb 0x139 c && leb c 0x147 || leb 0x179 c && leb c 0x17d) && eqb (c % 2) 1
    then c + 1
    else c

pub compare-lt : (n m : ℕ) → n < m → compare n m ≡ Ordering.lt
compare-lt n m h = ground arith

pub IsScalar-of_lt : (n : ℕ) → n < 55296 → IsScalar n
IsScalar-of_lt n h = rw (compare-lt n 55296 h) tt

-- The character with a number below the surrogates, or else the given one.
unfoldable pub char_or : ℕ → Char → Char
unfolding dec_lt
char_or n c = dite (dec_lt n 55296) (λ h. char n (IsScalar-of_lt n h)) (λ _. c)

unfoldable pub to_lower : String → String
unfolding lower_code char_or
to_lower [] = []
to_lower (c ∷ s) = char_or (lower_code (code c)) c ∷ to_lower s

to_lower_test : to_lower "ReAD Éx Ž" ≡ "read éx ž"
unfolding to_lower
to_lower_test = refl
