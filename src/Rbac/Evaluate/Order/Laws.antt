-- ===== src/Rbac/Evaluate/Order/Laws.antt =====
-- `sortedKeys` keeps the set of keys and puts it in order.
use jolt.Prelude.{◌≡◌, refl, String, ◌||◌, List, [], ◌∷◌, arith, ◌==◌, contains}
use jolt.Rbac.Evaluate.Order.{insert_sorted, sorted_keys}

contains-insert_sorted :
    (k j : String) (xs : List String) → contains k (insert_sorted j xs) ≡ (j == k || contains k xs)
unfolding insert_sorted contains
contains-insert_sorted k j [] = refl
contains-insert_sorted k j (x ∷ xs) = ground (arith, contains-insert_sorted k j xs)

pub contains-sorted_keys :
    (k : String) (xs : List String) → contains k (sorted_keys xs) ≡ contains k xs
unfolding sorted_keys contains
contains-sorted_keys k [] = refl
contains-sorted_keys k (x ∷ xs) =
    ground (arith, contains-insert_sorted k x (sorted_keys xs), contains-sorted_keys k xs)
