-- ===== src/Rbac/Evaluate/Order.antt =====
-- rbac.go: `sortedKeys`. The order of texts is that of their bytes, as in Go.
pub mod Laws
pub mod Total
pub mod Unique
use Prim.Native.String.{compare}
use text.Mathlib.Text.{is_le}
use jolt.Prelude.{String, Bool, List, [], ◌∷◌, if◌then◌else◌}

unfoldable pub text_le : String → String → Bool
text_le s t = is_le (compare s t)

unfoldable pub insert_sorted : String → List String → List String
unfolding text_le
insert_sorted k [] = k ∷ []
insert_sorted k (x ∷ xs) = if text_le k x then k ∷ x ∷ xs else x ∷ insert_sorted k xs

unfoldable pub sorted_keys : List String → List String
unfolding insert_sorted
sorted_keys [] = []
sorted_keys (x ∷ xs) = insert_sorted x (sorted_keys xs)
