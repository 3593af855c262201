-- ===== src/Prelude/Text/Split.antt =====
-- `strings.Split(s, "/")` and a leading slash
use Prim.Native.Char.{Char, code}
use Prim.Native.String.{String, [], ◌∷◌}
use mathlib.Core.Bool.{Bool, false}
use mathlib.Core.List.{List, [], ◌∷◌}
use jolt.Prelude.Tests.{eqb, if◌then◌else◌}

abbrev pub push_front : Char → List String → List String
push_front c [] = (c ∷ []) ∷ []
push_front c (s ∷ more) = (c ∷ s) ∷ more

-- `strings.Split(s, "/")`, which is never empty
unfoldable pub split : String → List String
split [] = "" ∷ []
split (c ∷ s) = let parts = split s in if eqb (code c) b'/' then "" ∷ parts else push_front c parts

unfoldable pub has_slash_prefix : String → Bool
has_slash_prefix [] = false
has_slash_prefix (c ∷ s) = eqb (code c) b'/'
