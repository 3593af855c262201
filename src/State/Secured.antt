-- ===== src/State/Secured.antt =====
-- jobs.go: what a generic update may do to a job that runs under a signed authorization
pub mod Laws
pub mod Kept
use jolt.Prelude.{
  String, Bool, true, false, ◌&&◌, ◌||◌, not, List, [], ◌∷◌, ◌==◌, eqb, if◌then◌else◌, contains,
}
use jolt.State.Entities.{Job}

abbrev pub unplanned : Job → Bool
unplanned j = j.destructive_plan_id == ""

-- `securedJobKind`
unfoldable pub secured_job_kind : Job → Bool
secured_job_kind job =
    if job.kind == "copy_local" || job.kind == "transfer_pull_batch"
    then unplanned job
    else if job.kind == "delete" || job.kind == "move_local" || job.kind == "transfer_move_batch"
    then not (unplanned job)
    else false

-- `executableSecuredJob`
unfoldable pub executable_secured_job : Job → Bool
executable_secured_job job = job.signed_auth_bound && secured_job_kind job

-- a job that is under a plan or an authorization
abbrev pub is_secured : Job → Bool
is_secured j = not (unplanned j) || j.signed_auth_bound || j.requires_signed_auth

bool_eq : Bool → Bool → Bool
bool_eq true b = b
bool_eq false b = not b

-- the fields of the authorization, which no update changes
unfoldable pub same_authorization : Job → Job → Bool
unfolding bool_eq
same_authorization old next =
    old.destructive_plan_id == next.destructive_plan_id
    && bool_eq old.signed_auth_bound next.signed_auth_bound
    && bool_eq old.requires_signed_auth next.requires_signed_auth
    && old.signed_auth_actor_id == next.signed_auth_actor_id
    && old.signed_auth_credential_id == next.signed_auth_credential_id

-- the fields of the request, which no update of a secured job changes
unfoldable pub same_request : Job → Job → Bool
unfolding bool_eq
same_request old next =
    old.kind == next.kind
    && old.mount_id == next.mount_id
    && old.source_path == next.source_path
    && old.destination == next.destination
    && bool_eq old.overwrite next.overwrite
    && bool_eq old.recursive next.recursive
    && old.conflict_policy == next.conflict_policy
    && old.source_change_policy == next.source_change_policy
    && bool_eq old.verify_checksum next.verify_checksum
    && eqb old.bandwidth_limit next.bandwidth_limit
    && eqb old.max_parallel_files next.max_parallel_files
    && eqb old.max_parallel_chunks next.max_parallel_chunks
    && eqb old.max_attempts next.max_attempts
    && old.peer_node_id == next.peer_node_id
    && old.source_grant_id == next.source_grant_id
    && old.destination_grant_id == next.destination_grant_id

-- the states of a job that an executor has claimed
unfoldable pub is_executing : String → Bool
is_executing state = state == "running" || state == "pause_requested" || state == "cancel_requested"

unfoldable pub is_completed : String → Bool
is_completed state = state == "completed" || state == "completed_with_warnings"

abbrev is_waiting : String → Bool
is_waiting state = state == "waiting_validation" || state == "paused" || state == "canceled"

-- the tests on the states
valid_states : Bool → String → String → Bool
unfolding is_executing is_completed
valid_states executable old next =
    if old == "canceled" && not (next == "canceled")
    then false
    else if executable
    then (if is_executing old
        then true
        else if is_completed old
        then next == old
        else is_waiting next || next == "queued")
    else is_waiting next

-- `validSecuredJobUpdate`
unfoldable pub valid_secured_job_update : Job → Job → Bool
unfolding valid_states
valid_secured_job_update old next =
    if not (same_authorization old next)
    then false
    else if not (is_secured old)
    then true
    else if not (same_request old next)
    then false
    else valid_states (executable_secured_job old) old.state next.state

-- `jobItemsWritable`
unfoldable pub job_items_writable : Job → Bool
unfolding is_executing
job_items_writable job =
    if not (is_secured job)
    then true
    else if not (executable_secured_job job)
    then false
    else is_executing job.state
