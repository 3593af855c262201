-- ===== src/State/Transaction/Leased.antt =====
-- The leases that a transaction leaves, from its records.
use jolt.Prelude.{
  ◌≡◌, refl, ◌∙◌, ap, String, true, Option, some, List, [], ◌∷◌, ◌++◌, arith, ◌==◌, eqb, length,
  if◌then◌else◌, ok,
}
use jolt.State.Entities.{JobAuthorization}
use jolt.State.Tables.{
  Tables, Write, put_job, put_item, remove_item, put_event, put_plan, remove_plan,
  put_authorization, put_idempotency, put_destructive_idempotency, get_authorization,
  authorization_key, no_order, apply_write, apply_writes,
}
use jolt.State.Tables.Laws.{find-put}
use jolt.State.Transaction.{Store, Disk, M, begin, commit, update}

-- what is stored of the lease of the job `k` behind the records
unfoldable pub lease_after : String → List Write → Option JobAuthorization → Option JobAuthorization
lease_after k [] o = o
lease_after k (put_job j ∷ ws) o = lease_after k ws o
lease_after k (put_item i ∷ ws) o = lease_after k ws o
lease_after k (remove_item i ∷ ws) o = lease_after k ws o
lease_after k (put_event e ∷ ws) o = lease_after k ws o
lease_after k (put_plan p ∷ ws) o = lease_after k ws o
lease_after k (remove_plan i ∷ ws) o = lease_after k ws o
lease_after k (put_authorization a ∷ ws) o = lease_after k ws (if a.job_id == k then some a else o)
lease_after k (put_idempotency i r ∷ ws) o = lease_after k ws o
lease_after k (put_destructive_idempotency i r ∷ ws) o = lease_after k ws o

pub lease_after-append :
    (k : String) (ws vs : List Write) (o : Option JobAuthorization)
    → lease_after k (ws ++ vs) o ≡ lease_after k vs (lease_after k ws o)
unfolding lease_after
lease_after-append k [] vs o = refl
lease_after-append k (put_job j ∷ ws) vs o = lease_after-append k ws vs o
lease_after-append k (put_item i ∷ ws) vs o = lease_after-append k ws vs o
lease_after-append k (remove_item i ∷ ws) vs o = lease_after-append k ws vs o
lease_after-append k (put_event e ∷ ws) vs o = lease_after-append k ws vs o
lease_after-append k (put_plan p ∷ ws) vs o = lease_after-append k ws vs o
lease_after-append k (remove_plan i ∷ ws) vs o = lease_after-append k ws vs o
lease_after-append k (put_authorization a ∷ ws) vs o =
    lease_after-append k ws vs (if a.job_id == k then some a else o)
lease_after-append k (put_idempotency i r ∷ ws) vs o = lease_after-append k ws vs o
lease_after-append k (put_destructive_idempotency i r ∷ ws) vs o = lease_after-append k ws vs o

get_authorization-apply_writes :
    (k : String) (ws : List Write) (t : Tables)
    → get_authorization (apply_writes ws t) k ≡ lease_after k ws (get_authorization t k)
unfolding lease_after apply_writes apply_write
get_authorization-apply_writes k [] t = refl
get_authorization-apply_writes k (put_job j ∷ ws) t =
    get_authorization-apply_writes k ws (apply_write (put_job j) t)
get_authorization-apply_writes k (put_item i ∷ ws) t =
    get_authorization-apply_writes k ws (apply_write (put_item i) t)
get_authorization-apply_writes k (remove_item i ∷ ws) t =
    get_authorization-apply_writes k ws (apply_write (remove_item i) t)
get_authorization-apply_writes k (put_event e ∷ ws) t =
    get_authorization-apply_writes k ws (apply_write (put_event e) t)
get_authorization-apply_writes k (put_plan p ∷ ws) t =
    get_authorization-apply_writes k ws (apply_write (put_plan p) t)
get_authorization-apply_writes k (remove_plan i ∷ ws) t =
    get_authorization-apply_writes k ws (apply_write (remove_plan i) t)
get_authorization-apply_writes k (put_authorization a ∷ ws) t =
    get_authorization-apply_writes k ws (apply_write (put_authorization a) t)
    ∙ ap (lease_after k ws) (find-put authorization_key no_order k a t.authorizations)
get_authorization-apply_writes k (put_idempotency i r ∷ ws) t =
    get_authorization-apply_writes k ws (apply_write (put_idempotency i r) t)
get_authorization-apply_writes k (put_destructive_idempotency i r ∷ ws) t =
    get_authorization-apply_writes k ws (apply_write (put_destructive_idempotency i r) t)

no_records :
    (k : String) (ws : List Write) (o : Option JobAuthorization)
    → eqb (length ws) 0 ≡ true
    → lease_after k ws o ≡ o
unfolding lease_after
no_records k [] o h = refl
no_records k (w ∷ ws) o h = ground arith

-- A transaction that succeeds leaves the leases that its records say.
pub update-lease :
    {A : Type 0} (d : Disk) (m : M A) (s : Store) (a : A) (k : String)
    → (update d m s).0 ≡ ok a
    → get_authorization (update d m s).1.tables k
      ≡ lease_after k (m (begin d s)).1.writes (get_authorization s.tables k)
unfolding update commit
update-lease d m s a k h = ground (
  arith,
  get_authorization-apply_writes k (m (begin d s)).1.writes s.tables,
  no_records k (m (begin d s)).1.writes (get_authorization s.tables k),
)
