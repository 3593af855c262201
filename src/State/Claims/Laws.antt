-- ===== src/State/Claims/Laws.antt =====
-- Which jobs the claims start, and what they leave of the others.
use jolt.Prelude.{
  String, Bool, true, ◌&&◌, not, leb, Option, none, some, List, [], ◌∷◌, ◌==◌, if◌then◌else◌,
  Result, ok, err,
}
use jolt.SignedAuth.Verify.{Time}
use jolt.State.Entities.{Job}
use jolt.State.Transaction.{StoreError, not_found}
use jolt.State.Claims.{start}

-- the first job that a test takes
unfoldable pub first : (Job → Bool) → List Job → Option Job
first p [] = none
first p (j ∷ js) = if p j then some j else first p js

-- the claim of a job of the queue
abbrev pub started_as : Time → Option Job → Result StoreError Job
started_as now none = err not_found
started_as now (some j) = ok (start j now)

abbrev pub stored_as : Time → Option Job → String → Option Job → Option Job
stored_as now none k o = o
stored_as now (some j) k o = if j.id == k then some (start j now) else o

-- A queued job under no plan and no authorization, asked for or given, whose next attempt is not
-- in the future.
abbrev pub is_free : Time → Job → Bool
is_free now j =
    j.state == "queued"
    && j.destructive_plan_id == ""
    && not j.signed_auth_bound
    && not j.requires_signed_auth
    && elim j.next_attempt_at [ none ↦ true | some t ↦ leb t now ]
