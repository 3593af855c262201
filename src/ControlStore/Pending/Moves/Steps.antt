-- ===== src/ControlStore/Pending/Moves/Steps.antt =====
-- What a call makes of the rows of the requests.
use jolt.Prelude.{
  ℕ, String, Bool, true, false, ◌&&◌, ◌≡◌, refl, Option, none, some, List, [], ◌∷◌, ◌++◌, ◌==◌, ◌⊎◌,
  leb, any, arith, eq_iff, Bool-cases, inl, inr, ap, sym, ◌∙◌,
}
use jolt.ControlStore.Entities.{PendingOperation}
use jolt.ControlStore.Sql.{update_where}
use jolt.ControlStore.Pending.{has_id, in_state, pending_executing}
use jolt.ControlStore.Pending.Rows.{
  row_of, distinct, row_of-append, distinct-append, distinct-update, row_of_absent,
}
use jolt.ControlStore.Pending.Create.Outcome.{expired}
use jolt.ControlStore.Pending.Decide.{waiting, finished}
use jolt.ControlStore.Pending.Moves.{state_of, Change, Changes, same, after}
use jolt.ControlStore.Pending.Moves.Statements.{update-Changes, expired-Changes, expired-distinct}

-- What a call makes of the rows: they stay distinct, and a request changes, or the call made it.
pub record Steps (id : String) (drawn : Bool) (ps qs : List PendingOperation) : Type 0 where
  pub stay : distinct qs ≡ true
  pub moved :
      Changes (state_of id ps) (state_of id qs)
      ⊎ ((drawn ≡ true) × Changes (state_of id ps) none × (state_of id qs ≡ some "pending"))

pub Steps-same :
    (id : String) (b : Bool) (ps qs : List PendingOperation)
    → distinct ps ≡ true
    → qs ≡ ps
    → Steps id b ps qs
Steps-same id b ps qs h e = rw e (record { stay = h; moved = inl same })

pub Changes-trans : {p q r : Option String} → Changes p q → Changes q r → Changes p r
Changes-trans c same = c
Changes-trans c (after d x) = after (Changes-trans c d) x

pub Steps-expired :
    (now : ℕ) (id : String) (b : Bool) (ps qs : List PendingOperation)
    → distinct ps ≡ true
    → qs ≡ expired now ps
    → Steps id b ps qs
Steps-expired now id b ps qs h e =
    rw e (record { stay = expired-distinct now ps h; moved = inl (expired-Changes now id ps h) })

-- An update, perhaps behind `expirePending`.
pub Steps-update :
    (p : PendingOperation → Bool) (f : PendingOperation → PendingOperation) (id : String) (b : Bool)
    (ps rs qs : List PendingOperation)
    → ((r : PendingOperation) → (f r).id ≡ r.id)
    → ((r : PendingOperation) → p r ≡ true → Change (some r.state) (some (f r).state))
    → distinct rs ≡ true
    → Changes (state_of id ps) (state_of id rs)
    → qs ≡ update_where p f rs
    → Steps id b ps qs
Steps-update p f id b ps rs qs keeps moves h c e = rw e (record {
  stay = distinct-update p f keeps rs ∙ h;
  moved = inl (Changes-trans c (update-Changes p f id rs keeps moves));
})

pub from_waiting :
    (id : String) (r : PendingOperation)
    → waiting id r ≡ true
    → ◌≡◌ {A = Option String} (some r.state) (some "pending")
unfolding in_state
from_waiting id r h = rw ((eq_iff r.state "pending").0 (ground arith)) refl

pub from_executing :
    (r : PendingOperation)
    → in_state pending_executing r ≡ true
    → ◌≡◌ {A = Option String} (some r.state) (some "executing")
unfolding in_state
from_executing r h = rw ((eq_iff r.state "executing").0 h) refl

pub and_right : (a b : Bool) → (a && b) ≡ true → b ≡ true
and_right a b h = ground arith

-- A request that is made behind other changes.
pub Steps-append :
    (id : String) (q : PendingOperation) (b : Bool) (ps rs : List PendingOperation)
    → any (has_id q.id) rs ≡ false
    → ((q.id == id) ≡ true → b ≡ true)
    → ◌≡◌ {A = Option String} (some q.state) (some "pending")
    → distinct rs ≡ true
    → Changes (state_of id ps) (state_of id rs)
    → Steps id b ps (rs ++ (q ∷ []))
Steps-append id q b ps rs a draw waits h c = record {
  stay = distinct-append q rs a h;
  moved = elim (Bool-cases (q.id == id)) [
    | inr i ↦ inl (rw (row_of-append id q rs a, i) c)
    | inl i ↦
        let gone : row_of id rs ≡ none =
          row_of_absent id rs (ap (λ k. any (has_id k) rs) (sym ((eq_iff q.id id).0 i)) ∙ a) in
        inr (draw i, rw gone at c, rw (row_of-append id q rs a, i) waits)
  ];
}

pub finished_ends :
    (status : ℕ) (body : String) (r : PendingOperation)
    → (◌≡◌ {A = Option String} (some (finished status body r).state) (some "executed"))
      ⊎ (◌≡◌ {A = Option String} (some (finished status body r).state) (some "failed"))
finished_ends status body r = elim (Bool-cases (leb 400 status)) [
  | inl e ↦ inr (rw e refl)
  | inr e ↦ inl (rw e refl)
]
