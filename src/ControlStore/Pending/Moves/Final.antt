-- ===== src/ControlStore/Pending/Moves/Final.antt =====
-- A request that is closed stays closed.
use jolt.Prelude.{
  String, Bool, true, false, ◌||◌, ◌≡◌, refl, Option, none, some, List, [], ◌∷◌, ◌==◌, ◌⊎◌, any,
  arith, inl, inr, ap,
}
use jolt.ControlStore.Entities.{Db}
use jolt.ControlStore.Pending.Rows.{distinct}
use jolt.ControlStore.Pending.Moves.{
  state_of, Change, expire, approve, decline, finish, interrupt, forget, Changes, same, after, Call,
  draws, step, run,
}
use jolt.ControlStore.Pending.Moves.Refines.{step-Steps}

-- closed as `s`, or forgotten
abbrev pub Ends : String → Option String → Type 0
Ends s q = (q ≡ some s) ⊎ (q ≡ none)

-- neither pending nor executing
abbrev pub is_closed : String → Bool
is_closed s =
    s == "executed" || s == "failed" || s == "rejected" || s == "expired" || s == "indeterminate"

some_eq : {s t : String} {p : Option String} → p ≡ some s → p ≡ some t → s ≡ t
some_eq e a = ground arith

open_state : (s t : String) → s ≡ t → is_closed s ≡ true → is_closed t ≡ false → ⊥
open_state s t e h k = cc (ap is_closed e)

Change-Ends :
    (s : String) (p q : Option String) → is_closed s ≡ true → Ends s p → Change p q → Ends s q
Change-Ends s p q h e (forget t a x b) = inr b
Change-Ends s p q h (inr e) (expire a b) = absurd (cc)
Change-Ends s p q h (inr e) (approve a b) = absurd (cc)
Change-Ends s p q h (inr e) (decline a b) = absurd (cc)
Change-Ends s p q h (inr e) (finish a b) = absurd (cc)
Change-Ends s p q h (inr e) (interrupt a b) = absurd (cc)
Change-Ends s p q h (inl e) (expire a b) = absurd (open_state s "pending" (some_eq e a) h refl)
Change-Ends s p q h (inl e) (approve a b) = absurd (open_state s "pending" (some_eq e a) h refl)
Change-Ends s p q h (inl e) (decline a b) = absurd (open_state s "pending" (some_eq e a) h refl)
Change-Ends s p q h (inl e) (finish a b) = absurd (open_state s "executing" (some_eq e a) h refl)
Change-Ends s p q h (inl e) (interrupt a b) = absurd (open_state s "executing" (some_eq e a) h refl)

Changes-Ends :
    (s : String) {p q : Option String} → is_closed s ≡ true → Ends s p → Changes p q → Ends s q
Changes-Ends s h e same = e
Changes-Ends s h e (after c x) = Change-Ends s _ _ h (Changes-Ends s h e c) x

run-Ends :
    (digest : String → String) (id s : String) (cs : List Call) (d : Db)
    → distinct d.pending ≡ true
    → is_closed s ≡ true
    → Ends s (state_of id d.pending)
    → any (draws id) cs ≡ false
    → Ends s (state_of id (run digest cs d).pending)
unfolding run
run-Ends digest id s [] d h k e n = e
run-Ends digest id s (c ∷ cs) d h k e n =
    run-Ends digest id s cs (step digest c d) (step-Steps digest id d h c).stay k
      (elim (step-Steps digest id d h c).moved [
        | inl m ↦ Changes-Ends s k e m
        | inr (b, m, w) ↦ absurd (ground arith)
      ])
      (ground arith)

-- Where no two rows have one id: a request that was executed, has failed, was rejected, has expired or
-- is indeterminate keeps that state, or is forgotten, whatever calls follow, of which none draws its
-- id for a new request.
pub run-closed :
    (digest : String → String) (id s : String) (cs : List Call) (d : Db)
    → distinct d.pending ≡ true
    → state_of id d.pending ≡ some s
    → is_closed s ≡ true
    → any (draws id) cs ≡ false
    → (state_of id (run digest cs d).pending ≡ some s)
      ⊎ (state_of id (run digest cs d).pending ≡ none)
run-closed digest id s cs d h e k n = run-Ends digest id s cs d h k (inl e) n
