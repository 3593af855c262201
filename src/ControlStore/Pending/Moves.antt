-- ===== src/ControlStore/Pending/Moves.antt =====
-- The life of one request, as an abstract machine on its state, and the calls of the store.
pub mod Statements
pub mod Steps
pub mod Tidy
pub mod StepOf
pub mod Refines
pub mod Once
pub mod Final
use jolt.Prelude.{
  ℕ, String, ◌<>◌, Bool, true, false, ◌||◌, ◌≡◌, refl, Option, none, some, List, [], ◌∷◌, ◌==◌, ◌⊎◌,
  any,
}
use jolt.ControlStore.Entities.{PendingOperation, Db}
use jolt.ControlStore.Sql.{Faults}
use jolt.ControlStore.Pending.Rows.{row_of}
use jolt.ControlStore.Pending.Create.{create_pending_operation}
use jolt.ControlStore.Pending.Listing.{get_pending_operation, list_pending_operations}
use jolt.ControlStore.Pending.Decide.{
  claim_pending_operation, finish_pending_operation, reject_pending_operation,
  recover_pending_operations,
}

abbrev pub state_if : Option PendingOperation → Option String
state_if none = none
state_if (some p) = some p.state

-- the state of the request with an id, if it is stored
abbrev pub state_of : String → List PendingOperation → Option String
state_of id ps = state_if (row_of id ps)

-- One change of a request that is stored.
pub data Change (p q : Option String) : Type 0 where
  expire : p ≡ some "pending" → q ≡ some "expired" → Change p q
  approve : p ≡ some "pending" → q ≡ some "executing" → Change p q
  decline : p ≡ some "pending" → q ≡ some "rejected" → Change p q
  finish : p ≡ some "executing" → (q ≡ some "executed") ⊎ (q ≡ some "failed") → Change p q
  interrupt : p ≡ some "executing" → q ≡ some "indeterminate" → Change p q
  forget :
      (s : String)
      → p ≡ some s
      → (s == "pending" || s == "executing") ≡ false
      → q ≡ none
      → Change p q

pub data Changes (p : Option String) : Option String → Type 0 where
  same : Changes p p
  after : {q r : Option String} → Changes p q → Change q r → Changes p r

-- A call of the store, with its arguments.
pub data Call : Type 0 where
  create : Option String → PendingOperation → ℕ → ℕ → Faults → Call
  get : String → ℕ → Faults → Call
  list : String → String → String → ℕ → ℕ → Faults → Call
  claim : String → String → String → ℕ → Faults → Call
  finish : String → ℕ → String → Faults → Call
  reject : String → String → String → String → ℕ → Faults → Call
  recover : Bool → Call

-- whether a call may make a request with this id
abbrev pub draws : String → Call → Bool
draws id (create (some text) op max now fails) = ("pop_" <> text) == id
draws id _ = false

-- What the call itself may do to the request with the id: it makes it, claims it, closes it late,
-- finishes it or rejects it, if the call names it, or interrupts it.
abbrev pub Acts : String → Call → Option String → Option String → Type 0
Acts id (create drawn op max now fails) p q =
    (draws id (create drawn op max now fails) ≡ true) × (p ≡ none) × (q ≡ some "pending")
Acts id (get i now fails) p q = ⊥
Acts id (list state requester_type requester_id limit now fails) p q = ⊥
Acts id (claim i by_type by_id now fails) p q =
    (i ≡ id) × (p ≡ some "pending") × ((q ≡ some "executing") ⊎ (q ≡ some "expired"))
Acts id (finish i status body fails) p q =
    (i ≡ id) × (p ≡ some "executing") × ((q ≡ some "executed") ⊎ (q ≡ some "failed"))
Acts id (reject i by_type by_id note now fails) p q =
    (i ≡ id) × (p ≡ some "pending") × (q ≡ some "rejected")
Acts id (recover fails) p q = (p ≡ some "executing") × (q ≡ some "indeterminate")

-- the calls that close what is late and forget what is old, before they do anything else
abbrev pub tidies : Call → Bool
tidies (create drawn op max now fails) = true
tidies (get i now fails) = true
tidies (list state requester_type requester_id limit now fails) = true
tidies (reject i by_type by_id note now fails) = true
tidies (claim i by_type by_id now fails) = false
tidies (finish i status body fails) = false
tidies (recover fails) = false

pub data Tidied (p q : Option String) : Type 0 where
  kept : q ≡ p → Tidied p q
  lapsed : p ≡ some "pending" → q ≡ some "expired" → Tidied p q
  dropped : (s : String) → p ≡ some s → (s == "executing") ≡ false → q ≡ none → Tidied p q

-- One call, seen from one request: nothing happens to it, or it is tidied, or the call acts on it,
-- perhaps behind the tidying.
pub data Stepped (id : String) (c : Call) (p q : Option String) : Type 0 where
  quiet : q ≡ p → Stepped id c p q
  tidied : tidies c ≡ true → Tidied p q → Stepped id c p q
  acted : Acts id c p q → Stepped id c p q
  tidied_and_acted :
      (r : Option String) → tidies c ≡ true → Tidied p r → Acts id c r q → Stepped id c p q

-- The machine: the steps of a history of calls, one for each call.
pub data Moves (id : String) : List Call → Option String → Option String → Type 0 where
  stop : {p : Option String} → Moves id [] p p
  move :
      {c : Call} {cs : List Call} {p q r : Option String}
      → Stepped id c p q
      → Moves id cs q r
      → Moves id (c ∷ cs) p r

module _ (digest : String → String) where
  unfoldable pub step : Call → Db → Db
  step (create drawn op max now fails) d =
      (create_pending_operation digest drawn op max now fails d).1
  step (get id now fails) d = (get_pending_operation id now fails d).1
  step (list state requester_type requester_id limit now fails) d =
      (list_pending_operations state requester_type requester_id limit now fails d).1
  step (claim id by_type by_id now fails) d =
      (claim_pending_operation digest id by_type by_id now fails d).1
  step (finish id status body fails) d = (finish_pending_operation digest id status body fails d).1
  step (reject id by_type by_id note now fails) d =
      (reject_pending_operation digest id by_type by_id note now fails d).1
  step (recover fails) d = (recover_pending_operations fails d).1

  unfoldable pub run : List Call → Db → Db
  run [] d = d
  run (c ∷ cs) d = run cs (step c d)
