-- ===== src/State/Transaction.antt =====
-- storage.go: `view`, `update` and the transaction; uploads.go: `ensureSecurityVersion`. A
-- transaction reads the tables as they were, and its records are applied when it commits. The files
-- are the record `Disk` of what the writes return; compaction changes no table.
pub mod Laws
pub mod Rows
pub mod Keys
pub mod Confirmed
pub mod Leased
use jolt.Prelude.{
  ℕ, ◌+◌, String, ◌<>◌, Bool, true, false, ◌&&◌, ◌||◌, not, Option, none, some, List, [], ◌∷◌, ◌++◌,
  ◌==◌, leb, eqb, any, length, is_some, if◌then◌else◌, Result, ok, err, decimal, contains,
  insert_key,
}
use jolt.SignedAuth.Verify.{separator}
use jolt.State.Entities.{
  Job, JobItem, JobEvent, DestructivePlan, JobAuthorization, IdempotencyRecord, item_key,
}
use jolt.State.Tables.{
  Tables, Write, put_job, put_item, remove_item, put_event, put_plan, remove_plan,
  put_authorization, put_idempotency, put_destructive_idempotency, apply_writes,
}

pub data StoreError : Type 0 where
  not_found in_use idempotency_conflict unavailable read_only canceled : StoreError
  job_exists duplicate_item foreign_event empty_identity append_only : StoreError
  invalid_plan invalid_delete_plan invalid_move_plan invalid_operation : StoreError
  invalid_transfer_move_plan : StoreError

pub record Store : Type 0 where
  pub tables : Tables
  pub version : ℕ
  pub closed : Bool
  pub poisoned : Bool
  pub read_only : Bool

-- Whether the caller's context has ended, whether the writes of the header and of the transaction
-- succeed, and whether the compaction does, which holds where the journal is short enough for none.
pub record Disk : Type 0 where
  pub canceled : Bool
  pub header_ok : Bool
  pub commit_ok : Bool
  pub compaction_ok : Bool

pub record Tx : Type 0 where
  pub tables : Tables
  pub writes : List Write
  pub version : ℕ
  pub poisoned : Bool
  pub header_ok : Bool

-- What a callback wrote before an error stays in the transaction, which is then dropped; the
-- version of the header is written at once.
abbrev pub M : Type 0 → Type 0
M A = Tx → Result StoreError A × Tx

abbrev continue : {A B : Type 0} → Result StoreError A → (A → M B) → M B
continue (ok a) f tx = f a tx
continue (err e) f tx = (err e, tx)

infixl 5 ◌>>=◌ ◌>>◌
abbrev pub ◌>>=◌ : {A B : Type 0} → M A → (A → M B) → M B
◌>>=◌ m f tx = let (r, tx') = m tx in continue r f tx'

abbrev pub ◌>>◌ : {B : Type 0} → M (Unit {0}) → M B → M B
m >> n = m >>= λ _. n

abbrev pub pure : {A : Type 0} → A → M A
pure a tx = (ok a, tx)

abbrev pub fail : {A : Type 0} → StoreError → M A
fail e tx = (err e, tx)

abbrev pub reject : Bool → StoreError → M (Unit {0})
reject true e tx = (err e, tx)
reject false e tx = (ok tt, tx)

abbrev pub reads : {A : Type 0} → (Tables → A) → M A
reads f tx = (ok (f tx.tables), tx)

-- a missing row is `ErrNotFound`
abbrev pub found : {A : Type 0} → Option A → M A
found none tx = (err not_found, tx)
found (some a) tx = (ok a, tx)

abbrev pub write : Write → M (Unit {0})
write w tx = (ok tt, record tx { writes = tx.writes ++ (w ∷ []) })

-- `ensureSecurityVersion`
unfoldable pub ensure_security_version : ℕ → M (Unit {0})
ensure_security_version required tx =
    if leb required tx.version
    then (ok tt, tx)
    else if tx.header_ok
    then (ok tt, record tx { version = required })
    else (err unavailable, record tx { version = required; poisoned = true })

write_key : Write → String
write_key (put_job j) = j.id
write_key (put_item i) = item_key i
write_key (remove_item k) = k
write_key (put_event e) = decimal e.id
write_key (put_plan p) = p.id
write_key (remove_plan k) = k
write_key (put_authorization a) = a.job_id
write_key (put_idempotency k r) = k
write_key (put_destructive_idempotency k r) = k

is_event : ℕ → JobEvent → Bool
is_event id e = eqb e.id id

-- a record of the history that is there already, or comes twice
appended_before : List JobEvent → Write → Bool
unfolding is_event
appended_before events (put_event e) = any (is_event e.id) events
appended_before events _ = false

noted : List JobEvent → Write → List JobEvent
noted events (put_event e) = e ∷ events
noted events _ = events

-- the loop over the records, with the history before them
record_error : List JobEvent → List Write → Option StoreError
unfolding write_key appended_before noted
record_error events [] = none
record_error events (w ∷ ws) =
    let rest = record_error (noted events w) ws in
    if write_key w == ""
    then some empty_identity
    else if appended_before events w
    then some append_only
    else rest

-- what a commit makes of the tables
abbrev committed : List Write → Tables → Tables
committed ws t = let t' = apply_writes ws t in record t' { sequence = t'.sequence + 1 }

-- the part of `update` behind the callback: what it refuses, the commit, and the compaction, whose
-- failure comes when the records have taken effect
unfoldable pub commit : {A : Type 0} → Disk → A → Tx → Store → Result StoreError A × Store
unfolding record_error
commit d a tx s =
    let s' = record s { version = tx.version; poisoned = s.poisoned || tx.poisoned } in
    if eqb (length tx.writes) 0 then (ok a, s') else elim (record_error s.tables.events tx.writes) [
      | some e ↦ (err e, s')
      | none ↦
          if not d.commit_ok
          then (err unavailable, record s' { poisoned = true })
          else if d.compaction_ok
          then (ok a, record s' { tables = committed tx.writes s.tables })
          else (
            err unavailable,
            record s' { tables = committed tx.writes s.tables; poisoned = true },
          )
    ]

abbrev pub begin : Disk → Store → Tx
begin d s = record {
  tables = s.tables;
  writes = [];
  version = s.version;
  poisoned = false;
  header_ok = d.header_ok;
}

conclude : {A : Type 0} → Disk → Store → Result StoreError A → Tx → Result StoreError A × Store
unfolding commit
conclude d s (ok a) tx = commit d a tx s
conclude d s (err e) tx =
    (err e, record s { version = tx.version; poisoned = s.poisoned || tx.poisoned })

-- `available`
abbrev pub available : Disk → Store → Option StoreError
available d s =
    if d.canceled then some canceled else if s.closed || s.poisoned then some unavailable else none

-- `update`
unfoldable pub update : {A : Type 0} → Disk → M A → Store → Result StoreError A × Store
unfolding conclude
update d m s = elim (available d s) [
  | some e ↦ (err e, s)
  | none ↦
      if s.read_only then (err read_only, s) else (let (r, tx) = m (begin d s) in conclude d s r tx)
]

-- `view`
unfoldable pub view :
    {A : Type 0} → Disk → (Tables → Result StoreError A) → Store → Result StoreError A
view d f s = elim (available d s) [ some e ↦ err e | none ↦ f s.tables ]
