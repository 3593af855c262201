-- ===== src/State/Transaction/Laws.antt =====
-- What a transaction that fails leaves behind.
use jolt.Prelude.{◌≡◌, false, arith, err, is_ok, ◌⊎◌}
use jolt.State.Transaction.{StoreError, Store, Disk, M, update}

-- An operation that returns an error has left every table as it was, whatever it had written and
-- whichever write failed, or it has poisoned the store, which then refuses every operation.
pub update-error :
    {A : Type 0} (d e : Disk) (m n : M A) (s : Store) (x : StoreError)
    → (update d m s).0 ≡ err x
    → ((update d m s).1.tables ≡ s.tables) ⊎ (is_ok (update e n (update d m s).1).0 ≡ false)
unfolding update
update-error d e m n s x h = ground arith
