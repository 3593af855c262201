-- ===== src/ControlStore/Enrollment/Listing.antt =====
-- enrollment.go: the listings of tokens and of enrollments
use Prim.Native.Nat.{zero, suc}
use jolt.Rbac.Evaluate.Order.{text_le}
use jolt.Prelude.{
  ℕ, String, Bool, true, false, ◌||◌, List, [], ◌∷◌, ◌==◌, if◌then◌else◌, Result, ok, err, stamp,
}
use jolt.ControlStore.Entities.{JoinToken, Enrollment, Db}
use jolt.ControlStore.Sql.{DbError, database, rows_where}
use jolt.ControlStore.Enrollment.{shown}

module _ {R : Type 0} (created_at : R → ℕ) (id : R → String) where
  -- `created_at` is a text, and the rows are ordered by it
  listed_before : R → R → Bool
  listed_before p q =
      if stamp (created_at p) == stamp (created_at q)
      then text_le (id p) (id q)
      else text_le (stamp (created_at q)) (stamp (created_at p))

  insert_listed : R → List R → List R
  unfolding listed_before
  insert_listed p [] = p ∷ []
  insert_listed p (q ∷ qs) =
      let rest = insert_listed p qs in if listed_before p q then p ∷ q ∷ qs else q ∷ rest

  -- `ORDER BY created_at DESC, id`
  ordered : List R → List R
  unfolding insert_listed
  ordered [] = []
  ordered (p ∷ ps) = insert_listed p (ordered ps)

  first_listed : ℕ → List R → List R
  first_listed zero ps = []
  first_listed (suc n) [] = []
  first_listed (suc n) (p ∷ ps) = p ∷ first_listed n ps

  -- `ORDER BY created_at DESC, id LIMIT ?`
  unfoldable newest : ℕ → List R → List R
  unfolding ordered first_listed
  newest limit ps = first_listed limit (ordered ps)

-- `ListJoinTokens`
unfoldable pub list_join_tokens : ℕ → Bool → Db → Result DbError (List JoinToken)
unfolding newest
list_join_tokens limit true d = err database
list_join_tokens limit false d = ok (newest (λ t. t.created_at) (λ t. t.id) limit d.join_tokens)

-- the rows as they are at the time, of which those that left the state are dropped
shown_all : String → ℕ → List Enrollment → List Enrollment
unfolding shown
shown_all state now [] = []
shown_all state now (e ∷ es) =
    let rest = shown_all state now es in
    if state == "" || (shown now e).state == state then shown now e ∷ rest else rest

-- `ListEnrollments`
unfoldable pub list_enrollments : String → ℕ → ℕ → Bool → Db → Result DbError (List Enrollment)
unfolding newest shown_all
list_enrollments state limit now true d = err database
list_enrollments state limit now false d = ok (
    shown_all state now (
      newest (λ e. e.created_at) (λ e. e.id) limit
        (rows_where (λ e. state == "" || e.state == state) d.enrollments)))
