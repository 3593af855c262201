-- ===== src/State/Tables/Laws.antt =====
-- A bucket after a put or a removal: only the key that was written changes.
use jolt.Prelude.{
  ℕ, ◌≡◌, refl, ◌∙◌, String, none, some, List, [], ◌∷◌, arith, ◌==◌, eq_iff, eq_refl, if◌then◌else◌,
}
use jolt.State.Tables.{find, without, insert, put}

module _ {R : Type 0} (key : R → String) (order : R → ℕ) where
  pub find-without :
      (k j : String) (rs : List R)
      → find key order k (without key order j rs) ≡ (if j == k then none else find key order k rs)
  unfolding find without
  find-without k j [] = ground arith
  find-without k j (r ∷ rs) =
      ground (arith, find-without k j rs, eq_iff (key r) k, eq_iff (key r) j, eq_iff j k)

  pub find-key : (k : String) (r : R) (rs : List R) → find key order k rs ≡ some r → key r ≡ k
  unfolding find
  find-key k r [] h = ground arith
  find-key k r (s ∷ rs) h = ground (arith, find-key k r rs, eq_iff (key s) k)

  find-insert :
      (k : String) (r : R) (rs : List R)
      → find key order (key r) rs ≡ none
      → find key order k (insert key order r rs)
        ≡ (if key r == k then some r else find key order k rs)
  unfolding find insert
  find-insert k r [] h = refl
  find-insert k r (s ∷ rs) h =
      ground (arith, find-insert k r rs, eq_iff (key r) k, eq_iff (key s) k, eq_iff (key s) (key r))

  -- After a put a bucket finds the row under its key, and under every other key what it found before.
  pub find-put :
      (k : String) (r : R) (rs : List R)
      → find key order k (put key order r rs) ≡ (if key r == k then some r else find key order k rs)
  unfolding put
  find-put k r rs =
      find-insert k r (without key order (key r) rs) (find-without (key r) (key r) rs ∙ rw eq_refl)
      ∙ ground (arith, find-without k (key r) rs)
