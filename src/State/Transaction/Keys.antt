-- ===== src/State/Transaction/Keys.antt =====
-- The keys of requests that a transaction leaves, from its records.
use jolt.Prelude.{
  ◌≡◌, refl, ◌∙◌, ap, String, true, Option, some, List, [], ◌∷◌, ◌++◌, arith, ◌==◌, eqb, length,
  if◌then◌else◌, ok,
}
use jolt.State.Entities.{IdempotencyRecord}
use jolt.State.Tables.{
  Tables, Write, put_job, put_item, remove_item, put_event, put_plan, remove_plan,
  put_authorization, put_idempotency, put_destructive_idempotency, get_idempotency, pair_key,
  no_order, apply_write, apply_writes,
}
use jolt.State.Tables.Laws.{find-put}
use jolt.State.Transaction.{Store, Disk, M, begin, commit, update}

-- what is stored under the key `k` behind the records
unfoldable pub key_after :
    String → List Write → Option (String × IdempotencyRecord) → Option (String × IdempotencyRecord)
key_after k [] o = o
key_after k (put_job j ∷ ws) o = key_after k ws o
key_after k (put_item i ∷ ws) o = key_after k ws o
key_after k (remove_item i ∷ ws) o = key_after k ws o
key_after k (put_event e ∷ ws) o = key_after k ws o
key_after k (put_plan p ∷ ws) o = key_after k ws o
key_after k (remove_plan p ∷ ws) o = key_after k ws o
key_after k (put_authorization a ∷ ws) o = key_after k ws o
key_after k (put_idempotency i r ∷ ws) o = key_after k ws (if i == k then some (i, r) else o)
key_after k (put_destructive_idempotency i r ∷ ws) o = key_after k ws o

pub key_after-append :
    (k : String) (ws vs : List Write) (o : Option (String × IdempotencyRecord))
    → key_after k (ws ++ vs) o ≡ key_after k vs (key_after k ws o)
unfolding key_after
key_after-append k [] vs o = refl
key_after-append k (put_job j ∷ ws) vs o = key_after-append k ws vs o
key_after-append k (put_item i ∷ ws) vs o = key_after-append k ws vs o
key_after-append k (remove_item i ∷ ws) vs o = key_after-append k ws vs o
key_after-append k (put_event e ∷ ws) vs o = key_after-append k ws vs o
key_after-append k (put_plan p ∷ ws) vs o = key_after-append k ws vs o
key_after-append k (remove_plan p ∷ ws) vs o = key_after-append k ws vs o
key_after-append k (put_authorization a ∷ ws) vs o = key_after-append k ws vs o
key_after-append k (put_idempotency i r ∷ ws) vs o =
    key_after-append k ws vs (if i == k then some (i, r) else o)
key_after-append k (put_destructive_idempotency i r ∷ ws) vs o = key_after-append k ws vs o

get_idempotency-apply_writes :
    (k : String) (ws : List Write) (t : Tables)
    → get_idempotency (apply_writes ws t) k ≡ key_after k ws (get_idempotency t k)
unfolding key_after apply_writes apply_write
get_idempotency-apply_writes k [] t = refl
get_idempotency-apply_writes k (put_job j ∷ ws) t =
    get_idempotency-apply_writes k ws (apply_write (put_job j) t)
get_idempotency-apply_writes k (put_item i ∷ ws) t =
    get_idempotency-apply_writes k ws (apply_write (put_item i) t)
get_idempotency-apply_writes k (remove_item i ∷ ws) t =
    get_idempotency-apply_writes k ws (apply_write (remove_item i) t)
get_idempotency-apply_writes k (put_event e ∷ ws) t =
    get_idempotency-apply_writes k ws (apply_write (put_event e) t)
get_idempotency-apply_writes k (put_plan p ∷ ws) t =
    get_idempotency-apply_writes k ws (apply_write (put_plan p) t)
get_idempotency-apply_writes k (remove_plan p ∷ ws) t =
    get_idempotency-apply_writes k ws (apply_write (remove_plan p) t)
get_idempotency-apply_writes k (put_authorization a ∷ ws) t =
    get_idempotency-apply_writes k ws (apply_write (put_authorization a) t)
get_idempotency-apply_writes k (put_idempotency i r ∷ ws) t =
    get_idempotency-apply_writes k ws (apply_write (put_idempotency i r) t)
    ∙ ap (key_after k ws) (find-put pair_key no_order k (i, r) t.idempotency)
get_idempotency-apply_writes k (put_destructive_idempotency i r ∷ ws) t =
    get_idempotency-apply_writes k ws (apply_write (put_destructive_idempotency i r) t)

no_records :
    (k : String) (ws : List Write) (o : Option (String × IdempotencyRecord))
    → eqb (length ws) 0 ≡ true
    → key_after k ws o ≡ o
unfolding key_after
no_records k [] o h = refl
no_records k (w ∷ ws) o h = ground arith

-- A transaction that succeeds leaves the keys that its records say.
pub update-key :
    {A : Type 0} (d : Disk) (m : M A) (s : Store) (a : A) (k : String)
    → (update d m s).0 ≡ ok a
    → get_idempotency (update d m s).1.tables k
      ≡ key_after k (m (begin d s)).1.writes (get_idempotency s.tables k)
unfolding update commit
update-key d m s a k h = ground (
  arith,
  get_idempotency-apply_writes k (m (begin d s)).1.writes s.tables,
  no_records k (m (begin d s)).1.writes (get_idempotency s.tables k),
)
