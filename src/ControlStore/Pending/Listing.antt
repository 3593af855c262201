-- ===== src/ControlStore/Pending/Listing.antt =====
-- pending_operations.go: `GetPendingOperation` and `ListPendingOperations`
use Prim.Native.Nat.{zero, suc}
use jolt.Rbac.Evaluate.Order.{text_le}
use jolt.Prelude.{ℕ, String, Bool, ◌&&◌, ◌||◌, List, [], ◌∷◌, ◌==◌, if◌then◌else◌, Result, stamp}
use jolt.ControlStore.Entities.{PendingOperation, Db}
use jolt.ControlStore.Sql.{
  DbError, not_found, Faults, ◌>>=◌, ◌>>◌, pure, row, query, commit, transaction, select_where,
  rows_where,
}
use jolt.ControlStore.Pending.{has_id, expire_pending}

-- the part of a query's condition that a filter adds, which is none for an empty text
listed : String → String → String → PendingOperation → Bool
listed state requester_type requester_id op =
    (state == "" || op.state == state)
    && (requester_id == ""
        || op.requester_type == requester_type && op.requester_id == requester_id)

-- `created_at` is a text, and the rows are ordered by it
newer : PendingOperation → PendingOperation → Bool
newer p q = text_le (stamp q.created_at) (stamp p.created_at)

insert_newest : PendingOperation → List PendingOperation → List PendingOperation
unfolding newer
insert_newest p [] = p ∷ []
insert_newest p (q ∷ qs) =
    let rest = insert_newest p qs in if newer p q then p ∷ q ∷ qs else q ∷ rest

newest_first : List PendingOperation → List PendingOperation
unfolding insert_newest
newest_first [] = []
newest_first (p ∷ ps) = insert_newest p (newest_first ps)

limited : ℕ → List PendingOperation → List PendingOperation
limited zero ps = []
limited (suc n) [] = []
limited (suc n) (p ∷ ps) = p ∷ limited n ps

-- `GetPendingOperation`
unfoldable pub get_pending_operation :
    String → ℕ → Faults → Db → Result DbError PendingOperation × Db
get_pending_operation id now = transaction do
  expire_pending now
  found ← query (λ d. select_where (has_id id) d.pending)
  op ← row not_found found
  commit
  pure op

-- `ListPendingOperations`
unfoldable pub list_pending_operations :
    String → String → String → ℕ → ℕ → Faults → Db → Result DbError (List PendingOperation) × Db
unfolding listed newest_first limited
list_pending_operations state requester_type requester_id limit now = transaction do
  expire_pending now
  items ← query (λ d.
      limited limit
        (newest_first (rows_where (listed state requester_type requester_id) d.pending)))
  commit
  pure items
