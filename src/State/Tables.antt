-- ===== src/State/Tables.antt =====
-- storage.go: the buckets of the store, their ordered indexes, and the effect of committed records
pub mod Laws
use jolt.Prelude.{
  ℕ, ◌+◌, String, Bool, true, false, ◌&&◌, ◌||◌, not, Option, none, some, List, [], ◌∷◌, ◌++◌, ◌==◌,
  ltb, leb, eqb, if◌then◌else◌,
}
use jolt.Rbac.Evaluate.Order.{text_le}
use jolt.State.Entities.{
  Job, JobItem, JobEvent, DestructivePlan, JobAuthorization, IdempotencyRecord, item_key,
}

-- Each list is in the order of the index `all` of its bucket: by `order`, then by key.
pub record Tables : Type 0 where
  pub jobs : List Job
  pub items : List JobItem
  pub events : List JobEvent
  pub plans : List DestructivePlan
  pub authorizations : List JobAuthorization
  pub idempotency : List (String × IdempotencyRecord)
  pub destructive_idempotency : List (String × IdempotencyRecord)
  pub sequence : ℕ

-- A record of a transaction: `tx.put` and `tx.remove` on the buckets of this model.
pub data Write : Type 0 where
  put_job : Job → Write
  put_item : JobItem → Write
  remove_item : String → Write
  put_event : JobEvent → Write
  put_plan : DestructivePlan → Write
  remove_plan : String → Write
  put_authorization : JobAuthorization → Write
  put_idempotency : String → IdempotencyRecord → Write
  put_destructive_idempotency : String → IdempotencyRecord → Write

-- Rows with a key and an order, which is the number that `order` and `%012d` write out.
module _ {R : Type 0} (key : R → String) (order : R → ℕ) where
  -- `get` of a bucket
  unfoldable pub find : String → List R → Option R
  find k [] = none
  find k (r ∷ rs) = if key r == k then some r else find k rs

  unfoldable pub without : String → List R → List R
  without k [] = []
  without k (r ∷ rs) = let rest = without k rs in if key r == k then rest else r ∷ rest

  -- `indexPosition`: a row comes before those of a later order, or of its order and no lesser key
  precedes : R → R → Bool
  precedes r s = ltb (order r) (order s) || eqb (order r) (order s) && text_le (key r) (key s)

  unfoldable pub insert : R → List R → List R
  unfolding precedes
  insert r [] = r ∷ []
  insert r (s ∷ rs) = if precedes r s then r ∷ s ∷ rs else s ∷ insert r rs

  -- `tx.put` in the end: the row replaces that of its key
  unfoldable pub put : R → List R → List R
  put r rs = insert r (without (key r) rs)

abbrev pub job_key : Job → String
job_key j = j.id

abbrev pub job_order : Job → ℕ
job_order j = j.created_at

abbrev pub plan_key : DestructivePlan → String
plan_key p = p.id

abbrev pub plan_order : DestructivePlan → ℕ
plan_order p = p.created_at

abbrev pub item_order : JobItem → ℕ
item_order i = i.ordinal

abbrev pub authorization_key : JobAuthorization → String
authorization_key a = a.job_id

abbrev pub no_order {ℓ} : {R : Type ℓ} → R → ℕ
no_order _ = 0

abbrev pub pair_key : String × IdempotencyRecord → String
pair_key p = p.0

-- `get` of a bucket, on a store whose pages load: a page that does not, a record that is not in it
-- or does not decode, to which Go answers by an error, is none of the tables.
abbrev pub get_job : Tables → String → Option Job
get_job t id = find job_key job_order id t.jobs

abbrev pub get_item : Tables → String → Option JobItem
get_item t k = find item_key item_order k t.items

abbrev pub get_plan : Tables → String → Option DestructivePlan
get_plan t id = find plan_key plan_order id t.plans

abbrev pub get_authorization : Tables → String → Option JobAuthorization
get_authorization t id = find authorization_key no_order id t.authorizations

abbrev pub get_idempotency : Tables → String → Option (String × IdempotencyRecord)
get_idempotency t k = find pair_key no_order k t.idempotency

abbrev pub get_destructive_idempotency : Tables → String → Option (String × IdempotencyRecord)
get_destructive_idempotency t k = find pair_key no_order k t.destructive_idempotency

-- `apply`, for one record
unfoldable pub apply_write : Write → Tables → Tables
apply_write (put_job j) t = record t { jobs = put job_key job_order j t.jobs }
apply_write (put_item i) t = record t { items = put item_key item_order i t.items }
apply_write (remove_item k) t = record t { items = without item_key item_order k t.items }
apply_write (put_event e) t = record t { events = t.events ++ (e ∷ []) }
apply_write (put_plan p) t = record t { plans = put plan_key plan_order p t.plans }
apply_write (remove_plan k) t = record t { plans = without plan_key plan_order k t.plans }
apply_write (put_authorization a) t = record t {
  authorizations = put authorization_key no_order a t.authorizations;
}
apply_write (put_idempotency k r) t = record t {
  idempotency = put pair_key no_order (k, r) t.idempotency;
}
apply_write (put_destructive_idempotency k r) t = record t {
  destructive_idempotency = put pair_key no_order (k, r) t.destructive_idempotency;
}

unfoldable pub apply_writes : List Write → Tables → Tables
apply_writes [] t = t
apply_writes (w ∷ ws) t = apply_writes ws (apply_write w t)
