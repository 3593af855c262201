-- ===== src/Prelude/Text.antt =====
-- What the programs use of Go's `strings` and `unicode` packages. A `String` is a text of Unicode
-- characters, which is what `encoding/json` gives: invalid UTF-8 has become U+FFFD there.
mod Case
mod Clean
mod Decimal
mod Stamp
mod Json
mod Split
unfoldable pub use Case.{to_lower}
unfoldable pub use Clean.{path_clean}
unfoldable pub use Split.{split, has_slash_prefix}
unfoldable pub use Decimal.{decimal}
pub use Decimal.{decimal_injective}
unfoldable pub use Stamp.{stamp}
unfoldable pub use Json.{json_string, json_strings}
use Prim.Native.Nat.{ℕ}
use Prim.Native.Char.{Char, code}
use Prim.Native.String.{String, [], ◌∷◌}
use mathlib.Core.Bool.{Bool, true, false, ◌&&◌, ◌||◌}
use mathlib.Core.Option.{Option, none, some}
use mathlib.Core.List.{List, [], ◌∷◌}
use mathlib.Core.Path.{◌≡◌, ap, sym, ◌∙◌}
use mathlib.Core.Logic.{inl, inr}
use native.Mathlib.Omega.{arith}
use text.Mathlib.Text.{◌==◌}
use text.Mathlib.TextEquality.{eq_iff}
use jolt.Prelude.Tests.{leb, eqb, if◌then◌else◌, is_some, Bool-cases}
use jolt.Prelude.Lists.{all}

-- `unicode.IsSpace`
pub is_space : ℕ → Bool
is_space c =
    leb 9 c && leb c 13
    || eqb c 0x20
    || eqb c 0x85
    || eqb c 0xa0
    || eqb c 0x1680
    || leb 0x2000 c && leb c 0x200a
    || eqb c 0x2028
    || eqb c 0x2029
    || eqb c 0x202f
    || eqb c 0x205f
    || eqb c 0x3000

-- A test of some character of a text.
unfoldable pub any_char : (ℕ → Bool) → String → Bool
any_char p [] = false
any_char p (c ∷ s) = p (code c) || any_char p s

unfoldable pub trim_left : (ℕ → Bool) → String → String
trim_left p [] = []
trim_left p (c ∷ s) = let rest = trim_left p s in if p (code c) then rest else c ∷ s

abbrev keep : Bool → Char → String → String
keep drop c [] = if drop then [] else c ∷ []
keep drop c (d ∷ s) = c ∷ d ∷ s

unfoldable pub trim_right : (ℕ → Bool) → String → String
trim_right p [] = []
trim_right p (c ∷ s) = keep (p (code c)) c (trim_right p s)

-- `strings.TrimSpace`
unfoldable pub trim_space : String → String
unfolding trim_left trim_right is_space
trim_space s = trim_right is_space (trim_left is_space s)

-- `strings.Trim(s, "/")`
unfoldable pub trim_slashes : String → String
unfolding trim_left trim_right
trim_slashes s = trim_right (eqb b'/') (trim_left (eqb b'/') s)

-- What is left of a text behind a prefix.
unfoldable pub strip_prefix : String → String → Option String
strip_prefix s [] = some s
strip_prefix [] (d ∷ p) = none
strip_prefix (c ∷ s) (d ∷ p) = if eqb (code c) (code d) then strip_prefix s p else none

-- `strings.HasPrefix`
unfoldable pub has_prefix : String → String → Bool
unfolding strip_prefix
has_prefix s p = is_some (strip_prefix s p)

-- `strings.HasSuffix(s, "/")`
unfoldable pub has_suffix_slash : String → Bool
has_suffix_slash [] = false
has_suffix_slash (c ∷ []) = eqb (code c) b'/'
has_suffix_slash (c ∷ d ∷ s) = has_suffix_slash (d ∷ s)

-- `strings.Contains(s, "//")`
unfoldable pub has_double_slash : String → Bool
has_double_slash [] = false
has_double_slash (c ∷ []) = false
has_double_slash (c ∷ d ∷ s) = eqb (code c) b'/' && eqb (code d) b'/' || has_double_slash (d ∷ s)

-- A set of texts, as a list without a second copy of any.
unfoldable pub contains : String → List String → Bool
contains k [] = false
contains k (x ∷ xs) = x == k || contains k xs

unfoldable pub insert_key : String → List String → List String
unfolding contains
insert_key k xs = if contains k xs then xs else k ∷ xs

-- What stands behind the last character of a kind, if there is one.
unfoldable pub after_last : ℕ → String → Option String
after_last d [] = none
after_last d (c ∷ s) = elim (after_last d s) [
  | some e ↦ some e
  | none ↦ if eqb (code c) d then some s else none
]

-- `path.Base`
unfoldable pub base_name : String → String
unfolding after_last trim_right
base_name s =
    let t = trim_right (eqb b'/') s in
    if s == ""
    then "."
    else if t == ""
    then "/"
    else elim (after_last b'/' t) [ some e ↦ e | none ↦ t ]

-- `strings.TrimPrefix(path.Ext(s), ".")` for a text without a slash
unfoldable pub extension : String → String
unfolding after_last
extension s = elim (after_last b'.' s) [ some e ↦ e | none ↦ "" ]

-- A key is in the set after its insertion, and no other key comes in.
pub contains-insert_key :
    (k j : String) (xs : List String) → contains k (insert_key j xs) ≡ (j == k || contains k xs)
unfolding insert_key
contains-insert_key k j xs = ground (arith, eq_iff j k, contains_of_eq j k xs)
  where
    contains_of_eq : (j k : String) (xs : List String) → j ≡ k → contains j xs ≡ contains k xs
    contains_of_eq j k xs e = ap (λ s. contains s xs) e

-- A test that every member of a set passes.
pub contains-all :
    (p : String → Bool) (k : String) (xs : List String)
    → contains k xs ≡ true
    → all p xs ≡ true
    → p k ≡ true
unfolding contains
contains-all p k [] h a = ground arith
contains-all p k (x ∷ xs) h a = elim (Bool-cases (x == k)) [
  | inl e ↦ ap p (sym ((eq_iff x k).0 e)) ∙ ground arith
  | inr e ↦ contains-all p k xs (ground arith) (ground arith)
]
