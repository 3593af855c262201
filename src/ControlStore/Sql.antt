-- ===== src/ControlStore/Sql.antt =====
-- What control/internal/store uses of database/sql: statements on the tables, and transactions that
-- take effect when they commit. The store has one connection, so no other statement comes between
-- those of a transaction. Which statement fails is a parameter: each counts one call.
pub mod Laws
use jolt.Prelude.{
  ℕ, ◌+◌, Bool, true, false, Option, none, some, List, [], ◌∷◌, if◌then◌else◌, Result, ok, err,
}
use jolt.ControlStore.Entities.{JoinToken, Db}

pub data DbError : Type 0 where
  database not_found conflict : DbError
  pending_expired pending_too_many pending_corrupt unknown_kind : DbError
  invalid_duration invalid_creator share_exhausted agent_quota too_many_enrollments : DbError
  -- `ErrTokenUsed`, which comes with the token
  token_used : JoinToken → DbError

-- Whether the call of a number fails.
abbrev pub Faults : Type 0
Faults = ℕ → Bool

-- `db` is what the statements of the transaction see, `saved` what is committed.
pub record Tx : Type 0 where
  pub db : Db
  pub saved : Db
  pub fails : Faults
  pub calls : ℕ

abbrev pub M : Type 0 → Type 0
M A = Tx → Result DbError A × Tx

abbrev continue : {A B : Type 0} → Result DbError A → (A → M B) → M B
continue (ok a) f tx = f a tx
continue (err e) f tx = (err e, tx)

infixl 5 ◌>>=◌ ◌>>◌
abbrev pub ◌>>=◌ : {A B : Type 0} → M A → (A → M B) → M B
◌>>=◌ m f tx = let (r, tx') = m tx in continue r f tx'

abbrev pub ◌>>◌ : {B : Type 0} → M (Unit {0}) → M B → M B
m >> n = m >>= λ _. n

abbrev pub pure : {A : Type 0} → A → M A
pure a tx = (ok a, tx)

abbrev pub fail : {A : Type 0} → DbError → M A
fail e tx = (err e, tx)

abbrev pub reject : Bool → DbError → M (Unit {0})
reject true e tx = (err e, tx)
reject false e tx = (ok tt, tx)

-- a row, or the error for none
abbrev pub row : {A : Type 0} → DbError → Option A → M A
row e none tx = (err e, tx)
row e (some a) tx = (ok a, tx)

-- A statement that a constraint may refuse; what it answers and what it makes of the tables.
unfoldable pub checked_statement : {A : Type 0} → (Db → Option (A × Db)) → M A
checked_statement f tx =
    let tx' = record tx { calls = tx.calls + 1 } in
    if tx.fails tx.calls
    then (err database, tx')
    else elim (f tx.db) [ none ↦ (err database, tx') | some (a, d) ↦ (ok a, record tx' { db = d }) ]

unfoldable pub statement : {A : Type 0} → (Db → A × Db) → M A
statement f tx =
    let tx' = record tx { calls = tx.calls + 1 } in
    if tx.fails tx.calls
    then (err database, tx')
    else (ok (f tx.db).0, record tx' { db = (f tx.db).1 })

-- `tx.QueryRowContext` and `tx.QueryContext`
abbrev pub query : {A : Type 0} → (Db → A) → M A
query f = statement (λ d. (f d, d))

-- `tx.ExecContext`
abbrev pub exec : (Db → Db) → M (Unit {0})
exec f = statement (λ d. (tt, f d))

-- `tx.Commit`
unfoldable pub commit : M (Unit {0})
commit tx =
    let tx' = record tx { calls = tx.calls + 1 } in
    if tx.fails tx.calls then (err database, tx') else (ok tt, record tx' { saved = tx.db })

abbrev pub begin : Faults → Db → Tx
begin fails d = record { db = d; saved = d; fails = fails; calls = 1 }

-- `s.db.BeginTx`, the body, and the deferred `Rollback`
unfoldable pub transaction : {A : Type 0} → M A → Faults → Db → Result DbError A × Db
transaction m fails d =
    if fails 0 then (err database, d) else (let (r, tx) = m (begin fails d) in (r, tx.saved))

-- `s.db.ExecContext`: a transaction of its own
unfoldable pub run_statement : {A : Type 0} → (Db → A × Db) → Bool → Db → Result DbError A × Db
run_statement f fails d = if fails then (err database, d) else (ok (f d).0, (f d).1)

module _ {R : Type 0} where
  -- `UPDATE … SET … WHERE …`
  unfoldable pub update_where : (R → Bool) → (R → R) → List R → List R
  update_where p f [] = []
  update_where p f (r ∷ rs) = (if p r then f r else r) ∷ update_where p f rs

  -- `DELETE … WHERE …`
  unfoldable pub delete_where : (R → Bool) → List R → List R
  delete_where p [] = []
  delete_where p (r ∷ rs) = let rest = delete_where p rs in if p r then rest else r ∷ rest

  -- `SELECT … WHERE …`, the first row
  unfoldable pub select_where : (R → Bool) → List R → Option R
  select_where p [] = none
  select_where p (r ∷ rs) = if p r then some r else select_where p rs

  -- `SELECT … WHERE …`, all rows
  unfoldable pub rows_where : (R → Bool) → List R → List R
  rows_where p [] = []
  rows_where p (r ∷ rs) = let rest = rows_where p rs in if p r then r ∷ rest else rest

  -- `SELECT COUNT(*) … WHERE …`, and `RowsAffected`
  unfoldable pub count_where : (R → Bool) → List R → ℕ
  count_where p [] = 0
  count_where p (r ∷ rs) = (if p r then 1 else 0) + count_where p rs
