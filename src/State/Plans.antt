-- ===== src/State/Plans.antt =====
-- destructive_plans.go: the confirmations of destructive operations
pub mod Accept
pub mod Purge
use jolt.Prelude.{
  ℕ, ◌+◌, ◌*◌, String, ◌<>◌, Bool, true, false, ◌&&◌, ◌||◌, not, Option, none, some, List, [], ◌∷◌,
  ◌==◌, ltb, leb, eqb, if◌then◌else◌, any_char, all, is_some, to_lower, trim_space, has_prefix,
  path_clean, len, Result, ok, err,
}
use jolt.SignedAuth.Binding.{valid_key_id}
use jolt.SignedAuth.Verify.{Time, nanoseconds, separator}
use jolt.State.Entities.{Job, DestructivePlan, IdempotencyRecord}
use jolt.State.Tables.{
  Tables, Write, put_job, put_plan, remove_plan, put_destructive_idempotency, get_job, get_plan,
  get_destructive_idempotency,
}
use jolt.State.Transaction.{
  StoreError, not_found, in_use, idempotency_conflict, invalid_plan, invalid_delete_plan,
  invalid_move_plan, invalid_operation, invalid_transfer_move_plan, canceled, Store, Disk, Tx, M,
  ◌>>=◌, ◌>>◌, pure, fail, reject, reads, found, write, ensure_security_version, update, view,
}

bool_eq : Bool → Bool → Bool
bool_eq true b = b
bool_eq false b = not b

-- `hex.DecodeString` takes the digits of both cases
is_hex : ℕ → Bool
is_hex c = leb b'0' c && leb c b'9' || leb b'a' c && leb c b'f' || leb b'A' c && leb c b'F'

-- `planDigest`
unfoldable pub plan_digest : String → Bool
unfolding is_hex
plan_digest value =
    eqb (len value) 64 && to_lower value == value && not (any_char (λ c. not (is_hex c)) value)

-- `planPath`
unfoldable pub plan_path : String → Bool
plan_path value =
    not (value == "")
    && leb (len value) 2048
    && trim_space value == value
    && not (any_char (λ c. eqb c b'\\' || eqb c 0) value)
    && not (has_prefix value "/")
    && not (value == ".")
    && not (value == "..")
    && not (has_prefix value "../")
    && path_clean value == value

abbrev plan_lifetime : ℕ
plan_lifetime = 300 * nanoseconds

unused : DestructivePlan → Bool
unused p = p.consumed_job_id == "" && p.idempotency_key == "" && p.request_hash == ""

-- the identity of a plan, which both kinds of plan need
named : DestructivePlan → Bool
named p =
    valid_key_id p.id
    && valid_key_id p.subject_id
    && valid_key_id p.mount_id
    && (p.subject_type == "user" || p.subject_type == "service_account")
    && plan_digest p.token_hash
    && plan_digest p.tree_digest

-- the `switch` of `CreateDestructivePlan`
operation_error : DestructivePlan → Option StoreError
operation_error p =
    if p.operation == "delete"
    then (if not (p.destination == "")
          || p.overwrite
          || p.destination_exists
          || not (p.destination_digest == "")
        then some invalid_delete_plan
        else none)
    else if p.operation == "move"
    then (if not (plan_path p.destination)
          || p.destination == p.source
          || has_prefix p.destination (p.source <> "/")
          || p.destination_exists && (not p.overwrite || not (plan_digest p.destination_digest))
          || not p.destination_exists && not (p.destination_digest == "")
        then some invalid_move_plan
        else none)
    else some invalid_operation

-- what is wrong with a plan for `CreateDestructivePlan`
unfoldable pub plan_error : DestructivePlan → Time → Option StoreError
unfolding named unused operation_error
plan_error p now =
    if not (named p) || not (plan_path p.source) || eqb now 0 || not (unused p)
    then some invalid_plan
    else operation_error p

-- the transaction of both kinds of plan
store_plan : DestructivePlan → M (Unit {0})
store_plan plan = do
  previous ← reads (λ t. get_plan t plan.id)
  reject (is_some previous) in_use
  ensure_security_version 4
  write (put_plan plan)

unfoldable pub dated : DestructivePlan → Time → DestructivePlan
dated p now = record p { created_at = now; expires_at = now + plan_lifetime }

-- `CreateDestructivePlan`
unfoldable pub create_destructive_plan :
    Disk → DestructivePlan → Time → Store → Result StoreError (Unit {0}) × Store
unfolding store_plan
create_destructive_plan d plan now s = elim (plan_error plan now) [
  | some e ↦ (err e, s)
  | none ↦ update d (store_plan (dated plan now)) s
]

-- `CreateTransferMovePlan`
unfoldable pub create_transfer_move_plan :
    Disk → DestructivePlan → Time → Store → Result StoreError (Unit {0}) × Store
unfolding named unused store_plan
create_transfer_move_plan d p now s =
    if not (named p)
      || eqb now 0
      || not (p.operation == "transfer_move")
      || not (p.source == "")
      || not (p.destination == "")
      || p.overwrite
      || p.destination_exists
      || not (p.destination_digest == "")
      || not (unused p)
    then (err invalid_transfer_move_plan, s)
    else update d (store_plan (dated p now)) s

-- a plan that is live at a time: its five minutes have begun and not ended
unfoldable pub plan_live : DestructivePlan → Time → Bool
plan_live p now = ltb now p.expires_at && leb p.created_at now

loaded :
    String → String → String → Time → Option DestructivePlan → Result StoreError DestructivePlan
loaded subject_type subject_id token_hash now none = err not_found
loaded subject_type subject_id token_hash now (some p) =
    if not (p.subject_type == subject_type)
      || not (p.subject_id == subject_id)
      || not (p.token_hash == token_hash)
      || p.consumed_job_id == "" && not (plan_live p now)
    then err in_use
    else ok p

-- `GetDestructivePlan`
unfoldable pub get_destructive_plan :
    Disk → String → String → String → String → Time → Store → Result StoreError DestructivePlan
unfolding loaded
get_destructive_plan d id subject_type subject_id token_hash now s =
    if not (valid_key_id id)
      || not (valid_key_id subject_id)
      || not (plan_digest token_hash)
      || eqb now 0
    then err in_use
    else view d (λ t. loaded subject_type subject_id token_hash now (get_plan t id)) s

unfoldable pub purgeable : Time → DestructivePlan → Bool
purgeable now p = p.consumed_job_id == "" && not (ltb now p.expires_at)

-- the loop of `PurgeExpiredDestructivePlans`, with the number removed so far; the context, which
-- ends a loop early, is `Disk.canceled` at the start alone
unfoldable pub purge : Time → ℕ → List DestructivePlan → M ℕ
purge now removed [] = pure removed
purge now removed (p ∷ ps) =
    let kept = purge now removed ps in
    let dropped = purge now (removed + 1) ps in
    if eqb removed 1000
    then pure removed
    else if purgeable now p
    then write (remove_plan p.id) >> dropped
    else kept

-- `PurgeExpiredDestructivePlans`
unfoldable pub purge_expired_destructive_plans : Disk → Time → Store → Result StoreError ℕ × Store
purge_expired_destructive_plans d now s =
    if eqb now 0
    then (err in_use, s)
    else update d (do plans ← reads (λ t. t.plans); purge now 0 plans) s
