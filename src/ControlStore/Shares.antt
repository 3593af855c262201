-- ===== src/ControlStore/Shares.antt =====
-- shares.go: public links with a limit of downloads
pub mod Downloads
pub mod Limit
use jolt.Prelude.{
  ℕ, ◌+◌, String, Bool, true, false, ◌&&◌, ◌||◌, not, Option, none, some, List, [], ◌∷◌, ◌++◌, ◌==◌,
  ltb, leb, eqb, if◌then◌else◌, Result, ok, err, stamp, is_some, any,
}
use jolt.Rbac.Evaluate.Order.{text_le}
use jolt.ControlStore.Entities.{Share, TimeColumn, null, time, unreadable, Db}
use jolt.ControlStore.Sql.{
  DbError, database, not_found, invalid_creator, share_exhausted, Faults, M, ◌>>=◌, ◌>>◌, pure,
  reject, checked_statement, exec, commit, transaction, run_statement, update_where, delete_where,
  select_where, rows_where, count_where,
}

unfoldable pub is_null : TimeColumn → Bool
is_null null = true
is_null _ = false

-- `IS`, which compares the texts of two columns
unfoldable pub same_column : TimeColumn → TimeColumn → Bool
same_column null null = true
same_column (time s) (time t) = eqb s t
same_column (unreadable s) (unreadable t) = s == t
same_column _ _ = false

-- whether a deadline has come: `!now.Before(*s.ExpiresAt)` of a time that was read
passed : ℕ → TimeColumn → Bool
passed now null = false
passed now (time t) = leb t now
passed now (unreadable s) = true

-- `Active` of a share that was read
unfoldable pub active : ℕ → Share → Bool
unfolding is_null passed
active now s =
    is_null s.revoked_at
    && not (passed now s.expires_at)
    && not (ltb 0 s.max_downloads && leb s.max_downloads s.download_count)

unfoldable pub share_id : String → Share → Bool
share_id id s = s.id == id

-- `INSERT … ON CONFLICT` of the minimum security version
unfoldable pub raise_version : ℕ → Option ℕ → Option ℕ
raise_version n none = some n
raise_version n (some v) = some (if ltb v n then n else v)

with_creator : Share → Share
with_creator s = record s {
  created_by_type = if s.created_by_type == "" then "user" else s.created_by_type;
}

wrong_creator : Share → Bool
wrong_creator s =
    not (s.created_by_type == "user") && not (s.created_by_type == "service_account")
    || s.created_by_type == "service_account" && s.created_credential_id == ""
    || s.created_by_type == "user" && not (s.created_credential_id == "")

insert_share : Share → Db → Option (Unit {0} × Db)
insert_share s d =
    if any (λ t. t.id == s.id || t.token_hash == s.token_hash) d.shares
    then none
    else some (tt, record d { shares = d.shares ++ (s ∷ []) })

for_service_account : Share → M (Unit {0})
unfolding raise_version
for_service_account s =
    if s.created_by_type == "service_account"
    then exec
        (λ d. record d { minimum_security_version = raise_version 3 d.minimum_security_version })
    else pure tt

store_share : Share → M (Unit {0})
unfolding for_service_account insert_share
store_share s = do for_service_account s; checked_statement (insert_share s); commit

-- `CreateShare`
unfoldable pub create_share : Share → Faults → Db → Result DbError (Unit {0}) × Db
unfolding with_creator wrong_creator store_share
create_share s fails d =
    if wrong_creator (with_creator s)
    then (err invalid_creator, d)
    else transaction (store_share (with_creator s)) fails d

-- `scanShare` refuses a deadline that cannot be read
scan_share : Share → Result DbError Share
scan_share s = elim s.expires_at [
  | unreadable t ↦ err database
  | _ ↦ elim s.revoked_at [ unreadable t ↦ err database | _ ↦ ok s ]
]

found_share : Option Share → Result DbError Share
unfolding scan_share
found_share none = err not_found
found_share (some s) = scan_share s

-- `ShareByTokenHash`
unfoldable pub share_by_token_hash : String → Bool → Db → Result DbError Share
unfolding found_share
share_by_token_hash hash fails d =
    if fails then err database else found_share (select_where (λ s. s.token_hash == hash) d.shares)

-- `GetShare`
unfoldable pub get_share : String → Bool → Db → Result DbError Share
unfolding found_share
get_share id fails d =
    if fails then err database else found_share (select_where (share_id id) d.shares)

owned_by : String → String → Share → Bool
owned_by by actor_type s = by == "" || s.created_by == by && s.created_by_type == actor_type

-- `created_at` is a text, and the rows are ordered by it
insert_newest : Share → List Share → List Share
insert_newest s [] = s ∷ []
insert_newest s (t ∷ ts) =
    let rest = insert_newest s ts in
    if text_le (stamp t.created_at) (stamp s.created_at) then s ∷ t ∷ ts else t ∷ rest

newest_first : List Share → List Share
unfolding insert_newest
newest_first [] = []
newest_first (s ∷ ss) = insert_newest s (newest_first ss)

scan_all : List Share → Result DbError (List Share)
unfolding scan_share
scan_all [] = ok []
scan_all (s ∷ ss) =
    let rest = scan_all ss in
    elim (scan_share s) [ err e ↦ err e | ok t ↦ elim rest [ err e ↦ err e | ok ts ↦ ok (t ∷ ts) ] ]

-- `ListShares`
unfoldable pub list_shares : String → String → Bool → Db → Result DbError (List Share)
unfolding owned_by newest_first scan_all
list_shares by actor_type fails d =
    if fails
    then err database
    else scan_all (newest_first (rows_where (owned_by by actor_type) d.shares))

refuse_none : DbError → Result DbError ℕ × Db → Result DbError (Unit {0}) × Db
refuse_none e (err x, d) = (err x, d)
refuse_none e (ok n, d) = (if eqb n 0 then err e else ok tt, d)

not_revoked : String → Share → Bool
not_revoked id s = s.id == id && is_null s.revoked_at

-- `RevokeShare`
unfoldable pub revoke_share : String → ℕ → Bool → Db → Result DbError (Unit {0}) × Db
unfolding refuse_none not_revoked is_null
revoke_share id now fails d = refuse_none not_found (
    run_statement
      (λ d. (
        count_where (not_revoked id) d.shares,
        record d {
          shares = update_where (not_revoked id) (λ s. record s { revoked_at = time now }) d.shares;
        },
      ))
      fails d)

-- `DeleteShare`
unfoldable pub delete_share : String → Bool → Db → Result DbError (Unit {0}) × Db
delete_share id =
    run_statement (λ d. (tt, record d { shares = delete_where (share_id id) d.shares }))

unfoldable pub late_deadline : ℕ → TimeColumn → Bool
late_deadline now null = false
late_deadline now (time t) = leb t now
late_deadline now (unreadable s) = true

-- the first statement of `RegisterShareDownload`, with the check of the deadline that it read
unfoldable pub read_deadline : String → ℕ → Bool → Db → Result DbError TimeColumn
unfolding late_deadline
read_deadline id now fails d =
    if fails then err database else elim (select_where (share_id id) d.shares) [
      | none ↦ err share_exhausted
      | some s ↦ if late_deadline now s.expires_at then err share_exhausted else ok s.expires_at
    ]

-- the rows that the second statement counts a download of
unfoldable pub downloadable : String → TimeColumn → Share → Bool
unfolding is_null
downloadable id deadline s =
    s.id == id
    && is_null s.revoked_at
    && same_column s.expires_at deadline
    && (leb s.max_downloads 0 || ltb s.download_count s.max_downloads)

unfoldable pub downloaded : ℕ → Share → Share
downloaded now s = record s { download_count = s.download_count + 1; last_access_at = time now }

-- the second statement of `RegisterShareDownload`; other calls may come between the two
unfoldable pub count_download : String → ℕ → TimeColumn → Bool → Db → Result DbError (Unit {0}) × Db
unfolding refuse_none
count_download id now deadline fails d = refuse_none share_exhausted (
    run_statement
      (λ d. (
        count_where (downloadable id deadline) d.shares,
        record d { shares = update_where (downloadable id deadline) (downloaded now) d.shares },
      ))
      fails d)

-- `TouchShare`
unfoldable pub touch_share : String → ℕ → Bool → Db → Result DbError (Unit {0}) × Db
touch_share id now = run_statement (λ d. (
  tt,
  record d {
    shares = update_where (share_id id) (λ s. record s { last_access_at = time now }) d.shares;
  },
))

-- the candidates of `PurgeExpiredShares`
expired_shares : ℕ → List Share → List (String × TimeColumn)
expired_shares before [] = []
expired_shares before (s ∷ ss) =
    let rest = expired_shares before ss in
    elim s.expires_at [ time t ↦ if ltb t before then (s.id, time t) ∷ rest else rest | _ ↦ rest ]

of_candidate : String × TimeColumn → Share → Bool
of_candidate (id, deadline) s = s.id == id && same_column s.expires_at deadline

-- the deletions, each a statement of its own; an error ends them
remove_expired : List (String × TimeColumn) → ℕ → ℕ → Faults → Db → Result DbError ℕ × Db
unfolding of_candidate
remove_expired [] removed calls fails d = (ok removed, d)
remove_expired (c ∷ cs) removed calls fails d =
    let rest =
      remove_expired cs (removed + count_where (of_candidate c) d.shares) (calls + 1) fails
        (record d { shares = delete_where (of_candidate c) d.shares }) in
    if fails calls then (err database, d) else rest

-- `PurgeExpiredShares`
unfoldable pub purge_expired_shares : ℕ → Faults → Db → Result DbError ℕ × Db
unfolding expired_shares remove_expired
purge_expired_shares before fails d =
    if fails 0
    then (err database, d)
    else remove_expired (expired_shares before d.shares) 0 1 fails d
