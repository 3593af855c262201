-- ===== src/State/Jobs/Laws.antt =====
-- Generic updates and repeated requests.
use jolt.Prelude.{
  ◌≡◌, refl, sym, ◌∙◌, ap, String, Bool, true, ◌&&◌, ◌||◌, not, implies, eq_refl, some, [], ◌∷◌,
  ◌++◌, arith, ◌==◌, if◌then◌else◌, is_some, ok, Option-cases, inl, inr,
}
use jolt.State.Entities.{Job}
use jolt.State.Tables.{put_job, get_job}
use jolt.State.Transaction.{Store, Disk, Tx, begin}
use jolt.State.Transaction.Rows.{job_after, job_after-put, update-result, update-job}
use jolt.State.Secured.{
  valid_secured_job_update, executable_secured_job, is_executing, is_completed, same_authorization,
  same_request,
}
use jolt.State.Secured.Laws.{valid_secured_job_update-keeps}
use jolt.State.Secured.Kept.{IsSameRequest, same_request-IsSameRequest}
use jolt.State.Jobs.{replace, update_job}

replace-runs :
    (j old : Job) (tx : Tx)
    → get_job tx.tables j.id ≡ some old
    → (replace j tx).0 ≡ ok tt
    → (valid_secured_job_update old j ≡ true)
      × ((replace j tx).1.writes
          ≡ tx.writes ++ (put_job (record j { created_at = old.created_at }) ∷ []))
unfolding replace
replace-runs j old tx g h = ground arith

replace-stored :
    (j : Job) (tx : Tx) → (replace j tx).0 ≡ ok tt → is_some (get_job tx.tables j.id) ≡ true
unfolding replace
replace-stored j tx h = ground arith

-- A generic update that succeeds is one that the stored job admits; it stores the new job under the
-- old creation time, and leaves every other job.
pub update_job-replaces :
    (d : Disk) (j : Job) (s : Store) (k : String)
    → (update_job d j s).0 ≡ ok tt
    → (old : Job) × (get_job s.tables j.id ≡ some old)
      × (valid_secured_job_update old j ≡ true)
      × (get_job (update_job d j s).1.tables k ≡ (
          if j.id == k
          then some (record j { created_at = old.created_at })
          else get_job s.tables k))
unfolding update_job job_after
update_job-replaces d j s k h =
    let tx = begin d s in
    let returned = update-result d (replace j) s tt h in
    elim (Option-cases (get_job s.tables j.id)) [
      | inl e ↦ absurd (ground (arith, replace-stored j tx))
      | inr (old, e) ↦
          let (valid, records) = replace-runs j old tx e returned in
          (
            old,
            e,
            valid,
            update-job d (replace j) s tt k h
                ∙ ap (λ ws. job_after k ws (get_job s.tables k)) records
                ∙ job_after-put k [] (record j { created_at = old.created_at })
                    (get_job s.tables k),
          )
    ]

-- A state in which an executor holds a job.
abbrev pub is_held : String → Bool
is_held state = state == "running" || state == "pause_requested" || state == "cancel_requested"

-- A generic update that succeeds on a job under a plan or an authorization stores a job of the same
-- request, plan and authorization. It makes no job execute that an executor has not claimed, and
-- makes nothing else of a job that is canceled or, if the node can run it, completed.
pub update_job-keeps :
    (d : Disk) (j old : Job) (s : Store)
    → get_job s.tables j.id ≡ some old
    → (not (old.destructive_plan_id == "") || old.signed_auth_bound || old.requires_signed_auth)
      ≡ true
    → (update_job d j s).0 ≡ ok tt
    → (next : Job) × (get_job (update_job d j s).1.tables j.id ≡ some next)
      × IsSameRequest old next
      × (implies (is_held next.state) (executable_secured_job old && is_held old.state) ≡ true)
      × (implies (old.state == "canceled") (next.state == "canceled") ≡ true)
      × (implies
            (executable_secured_job old
              && (old.state == "completed" || old.state == "completed_with_warnings"))
            (next.state == old.state)
          ≡ true)
unfolding is_executing is_completed same_authorization same_request
update_job-keeps d j old s stored secured h =
    let (o, found, valid, after) = update_job-replaces d j s j.id h in
    let same : o ≡ old = ground (arith, found, stored) in
    let admitted : valid_secured_job_update old j ≡ true =
      ap (λ x. valid_secured_job_update x j) (sym same) ∙ valid in
    let (authorization, request, claimed, canceled, completed) =
      valid_secured_job_update-keeps old j secured admitted in
    let next : Job = record j { created_at = o.created_at } in
    (
      next,
      after ∙ rw (eq_refl j.id) refl,
      same_request-IsSameRequest old next authorization request,
      claimed,
      canceled,
      completed,
    )
