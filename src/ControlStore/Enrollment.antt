-- ===== src/ControlStore/Enrollment.antt =====
-- enrollment.go: the tokens with which nodes join, and their enrollments. The times of a row are
-- texts, and SQL compares them as such.
pub mod Once
pub mod History
pub mod Decided
pub mod Listing
pub mod Nodes
use jolt.Rbac.Evaluate.Order.{text_le}
use jolt.Prelude.{
  ℕ, String, Bool, true, false, ◌&&◌, ◌||◌, not, Option, none, some, List, [], ◌∷◌, ◌++◌, ◌==◌, ltb,
  leb, eqb, any, is_some, if◌then◌else◌, Result, ok, err, stamp,
}
use jolt.ControlStore.Entities.{JoinToken, Enrollment, Db}
use jolt.ControlStore.Sql.{
  DbError, database, not_found, conflict, too_many_enrollments, token_used, Faults, M, ◌>>=◌, ◌>>◌,
  pure, reject, row, checked_statement, statement, query, exec, commit, transaction, run_statement,
  update_where, delete_where, select_where, count_where,
}
use jolt.ControlStore.Shares.{raise_version}

abbrev pub enrollment_pending : String
enrollment_pending = "pending"

abbrev pub enrollment_issued : String
enrollment_issued = "issued"

abbrev pub enrollment_expired : String
enrollment_expired = "expired"

-- `maxPendingEnroll`
abbrev pub max_pending_enroll : ℕ
max_pending_enroll = 20

-- the text of a time is behind that of another
unfoldable pub later_text : ℕ → ℕ → Bool
later_text a b = not (text_le (stamp a) (stamp b))

-- `raiseVersion`
unfoldable pub raise_enrollment_version : M (Unit {0})
raise_enrollment_version =
    exec (λ d. record d { minimum_security_version = raise_version 10 d.minimum_security_version })

unfoldable pub has_secret : String → JoinToken → Bool
has_secret hash t = t.secret_hash == hash

unfoldable pub token_id_is : String → JoinToken → Bool
token_id_is id t = t.id == id

unfoldable pub clashes : JoinToken → JoinToken → Bool
clashes token t = t.id == token.id || t.secret_hash == token.secret_hash

-- the `INSERT`, which leaves the columns of the use empty; whether the constraints admit it
unfoldable pub insert_token : JoinToken → Db → Bool × Db
insert_token token d = if any (clashes token) d.join_tokens then (false, d) else (
  true,
  record d {
    join_tokens = d.join_tokens ++ (record token { used_at = none; enrollment_id = "" } ∷ []);
  },
)

-- `CreateJoinToken`
unfoldable pub create_join_token : JoinToken → Faults → Db → Result DbError (Unit {0}) × Db
create_join_token token = transaction do
  raise_enrollment_version
  inserted ← statement (insert_token token)
  reject (not inserted) conflict
  commit
  pure tt

unfoldable pub unused : String → JoinToken → Bool
unused id t = t.id == id && not (is_some t.used_at)

refuse_none : Result DbError ℕ × Db → DbError → Result DbError (Unit {0}) × Db
refuse_none (ok n, d) e = if eqb n 0 then (err e, d) else (ok tt, d)
refuse_none (err e, d) _ = (err e, d)

-- `RevokeJoinToken`
unfoldable pub revoke_join_token : String → Bool → Db → Result DbError (Unit {0}) × Db
unfolding refuse_none
revoke_join_token id fails d =
    refuse_none
      (run_statement
        (λ e. (
          count_where (unused id) e.join_tokens,
          record e { join_tokens = delete_where (unused id) e.join_tokens },
        ))
        fails d)
      not_found

unfoldable pub still_pending : ℕ → Enrollment → Bool
still_pending now e = e.state == enrollment_pending && later_text e.expires_at now

-- the limit on the enrollments that wait
unfoldable pub check_pending : Enrollment → ℕ → M (Unit {0})
check_pending e now =
    if e.state == enrollment_pending
    then (do
      waiting ← query (λ d. count_where (still_pending now) d.enrollments)
      reject (leb max_pending_enroll waiting) too_many_enrollments)
    else pure tt

-- the `INSERT` of an enrollment, which leaves it undecided; a constraint on its id
unfoldable pub insert_enrollment : Enrollment → Db → Option (Unit {0} × Db)
insert_enrollment e d =
    if any (λ o. o.id == e.id) d.enrollments
    then none
    else some
        (tt, record d { enrollments = d.enrollments ++ (record e { decided_at = none } ∷ []) })

unfoldable pub spend : String → ℕ → JoinToken → JoinToken
spend enrollment_id now t = record t { used_at = some now; enrollment_id = enrollment_id }

-- the statements that spend the token
unfoldable pub store_start : JoinToken → Enrollment → ℕ → M JoinToken
store_start token e now = do
  raise_enrollment_version
  checked_statement (insert_enrollment (record e { token_id = token.id }))
  exec (λ d. record d {
    join_tokens = update_where (token_id_is token.id) (spend e.id now) d.join_tokens;
  })
  commit
  pure (spend e.id now token)

-- the tests on a token that was found
unfoldable pub start_with : Enrollment → ℕ → JoinToken → M JoinToken
start_with e now token = do
  reject (not (token.node_name == e.node_name)) not_found
  reject (is_some token.used_at) (token_used token)
  reject (leb token.expires_at now) not_found
  check_pending e now
  store_start token e now

-- `StartEnrollment`
unfoldable pub start_enrollment :
    String → Enrollment → ℕ → Faults → Db → Result DbError JoinToken × Db
start_enrollment secret_hash e now = transaction do
  found ← query (λ d. select_where (has_secret secret_hash) d.join_tokens)
  token ← row not_found found
  start_with e now token

unfoldable pub enrollment_id_is : String → Enrollment → Bool
enrollment_id_is id e = e.id == id

unfoldable pub decidable : String → ℕ → Enrollment → Bool
decidable id now e = e.id == id && still_pending now e

unfoldable pub decided : String → String → String → String → ℕ → Enrollment → Enrollment
decided state by note response now e = record e {
  state = state;
  decided_by = by;
  note = note;
  response = response;
  decided_at = some now;
  csr_pem = if state == enrollment_issued then "" else e.csr_pem;
}

-- `DecideEnrollment`
unfoldable pub decide_enrollment :
    String → String → String → String → String → ℕ → Bool → Db → Result DbError (Unit {0}) × Db
unfolding refuse_none
decide_enrollment id state by note response now fails d =
    refuse_none
      (run_statement
        (λ e. (
          count_where (decidable id now) e.enrollments,
          record e {
            enrollments =
                update_where (decidable id now) (decided state by note response now) e.enrollments;
          },
        ))
        fails d)
      conflict

unfoldable pub pending_id : String → Enrollment → Bool
pending_id id e = e.id == id && e.state == enrollment_pending

-- `ReplacePollSecret`
unfoldable pub replace_poll_secret : String → String → Bool → Db → Result DbError (Unit {0}) × Db
replace_poll_secret id hash = run_statement (λ d. (
  tt,
  record d {
    enrollments = update_where (pending_id id) (λ e. record e { poll_hash = hash }) d.enrollments;
  },
))

unfoldable pub lapsed : ℕ → Enrollment → Bool
lapsed now e = e.state == enrollment_pending && not (later_text e.expires_at now)

-- `ExpireEnrollments`
unfoldable pub expire_enrollments : ℕ → Bool → Db → Result DbError ℕ × Db
expire_enrollments now = run_statement (λ d. (
  count_where (lapsed now) d.enrollments,
  record d {
    enrollments =
        update_where (lapsed now)
          (λ e. record e {
            state = enrollment_expired;
            csr_pem = "";
            operational_encrypted = "";
            decided_at = some now;
          })
          d.enrollments;
  },
))

unfoldable pub shown : ℕ → Enrollment → Enrollment
shown now e =
    if e.state == enrollment_pending && leb e.expires_at now
    then record e { state = enrollment_expired }
    else e

-- `GetEnrollment`
unfoldable pub get_enrollment : String → ℕ → Bool → Db → Result DbError Enrollment
unfolding shown
get_enrollment id now true d = err database
get_enrollment id now false d = elim (select_where (enrollment_id_is id) d.enrollments) [
  | none ↦ err not_found
  | some e ↦ ok (shown now e)
]
