-- ===== src/Rbac/Evaluate/Order/Unique.antt =====
-- Two sets of keys in order are one list.
use jolt.Prelude.{
  ◌≡◌, refl, sym, ◌∙◌, ap, String, Bool, true, false, ◌&&◌, not, List, [], ◌∷◌, arith, ◌==◌, eq_iff,
  eq_refl, all, contains, Bool-cases, inl, inr,
}
use jolt.Rbac.Evaluate.Order.{text_le, insert_sorted, sorted_keys}
use jolt.Rbac.Evaluate.Order.Total.{text_le-total, text_le_trans, text_le-antisym}
use jolt.Rbac.Evaluate.Order.Laws.{contains-sorted_keys}

-- the text comes behind the other
abbrev pub above : String → String → Bool
above x y = text_le x y && not (x == y)

abbrev pub in_order : List String → Bool
in_order [] = true
in_order (x ∷ xs) = all (above x) xs && in_order xs

-- no key comes twice
abbrev pub no_repetition : List String → Bool
no_repetition [] = true
no_repetition (x ∷ xs) = not (contains x xs) && no_repetition xs

all-insert_sorted :
    (p : String → Bool) (k : String) (xs : List String)
    → all p (insert_sorted k xs) ≡ (p k && all p xs)
unfolding insert_sorted
all-insert_sorted p k [] = ground arith
all-insert_sorted p k (x ∷ xs) = ground (arith, all-insert_sorted p k xs)

above_trans : (x y z : String) → above x y ≡ true → above y z ≡ true → above x z ≡ true
above_trans x y z h k = elim (Bool-cases (x == z)) [
  | inl e ↦
      let same : x ≡ z = (eq_iff x z).0 e in
      let back : text_le y x ≡ true = ap (text_le y) same ∙ ground arith in
      let one : x ≡ y = text_le-antisym x y (ground arith) back in
      absurd (ground (arith, one, eq_iff x y))
  | inr e ↦ ground (arith, text_le_trans x y z)
]

all-above :
    (x y : String) (ys : List String)
    → above x y ≡ true
    → all (above y) ys ≡ true
    → all (above x) ys ≡ true
all-above x y [] h k = refl
all-above x y (z ∷ ys) h k = ground (arith, above_trans x y z, all-above x y ys)

insert_sorted-in_order :
    (k : String) (xs : List String)
    → contains k xs ≡ false
    → in_order xs ≡ true
    → in_order (insert_sorted k xs) ≡ true
unfolding insert_sorted contains
insert_sorted-in_order k [] n h = refl
insert_sorted-in_order k (x ∷ xs) n h = ground (
  arith,
  insert_sorted-in_order k xs,
  all-insert_sorted (above x) k xs,
  all-above k x xs,
  text_le-total k x,
  eq_iff k x,
  eq_iff x k,
)

pub sorted_keys-in_order :
    (xs : List String) → no_repetition xs ≡ true → in_order (sorted_keys xs) ≡ true
unfolding sorted_keys
sorted_keys-in_order [] h = refl
sorted_keys-in_order (x ∷ xs) h =
    insert_sorted-in_order x (sorted_keys xs) (contains-sorted_keys x xs ∙ ground arith)
      (sorted_keys-in_order xs (ground arith))

all-contains :
    (p : String → Bool) (k : String) (xs : List String)
    → all p xs ≡ true
    → contains k xs ≡ true
    → p k ≡ true
unfolding contains
all-contains p k [] h c = absurd (ground arith)
all-contains p k (x ∷ xs) h c = elim (Bool-cases (x == k)) [
  | inl e ↦ ap p (sym ((eq_iff x k).0 e)) ∙ ground arith
  | inr e ↦ all-contains p k xs (ground arith) (ground arith)
]

-- a list in order begins with its first key
begins :
    (x y : String) (xs : List String)
    → all (above x) xs ≡ true
    → contains y (x ∷ xs) ≡ true
    → text_le x y ≡ true
unfolding contains
begins x y xs h c = elim (Bool-cases (x == y)) [
  | inl e ↦ ap (text_le x) (sym ((eq_iff x y).0 e)) ∙ ground (arith, text_le-total x x)
  | inr e ↦ ground (arith, all-contains (above x) y xs h)
]

-- and has it once
once :
    (x k : String) (xs : List String)
    → all (above x) xs ≡ true
    → (x == k) ≡ true
    → contains k xs ≡ false
once x k xs h e = elim (Bool-cases (contains k xs)) [
  | inl c ↦ absurd (ground (arith, all-contains (above x) k xs h c, e))
  | inr c ↦ c
]

pub unique :
    (xs ys : List String)
    → in_order xs ≡ true
    → in_order ys ≡ true
    → ((k : String) → contains k xs ≡ contains k ys)
    → xs ≡ ys
unfolding contains
unique [] [] h k same = refl
unique [] (y ∷ ys) h k same = absurd (ground (arith, same y, eq_refl y))
unique (x ∷ xs) [] h k same = absurd (ground (arith, same x, eq_refl x))
unique (x ∷ xs) (y ∷ ys) h k same =
    let first : x ≡ y =
      text_le-antisym x y (begins x y xs (ground arith) (same y ∙ ground (arith, eq_refl y)))
        (begins y x ys (ground arith) (sym (same x) ∙ ground (arith, eq_refl x))) in
    let tails : (j : String) → contains j xs ≡ contains j ys = λ j. elim (Bool-cases (x == j)) [
      | inl e ↦
          once x j xs (ground arith) e
          ∙ sym (once y j ys (ground arith) (ap (λ z. z == j) (sym first) ∙ e))
      | inr e ↦ ground (arith, same j, e, ap (λ z. z == j) first)
    ] in
    λ i. first i ∷ unique xs ys (ground arith) (ground arith) tails i
