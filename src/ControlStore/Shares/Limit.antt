-- ===== src/ControlStore/Shares/Limit.antt =====
-- No share serves more downloads than its limit, and none that is not active.
use jolt.Prelude.{
  ℕ, ◌+◌, ◌≤◌, String, Bool, true, false, ◌&&◌, ◌||◌, ◌≡◌, refl, List, [], ◌∷◌, ◌==◌, eqb,
  if◌then◌else◌, ok, arith, eq_iff, Bool-cases, Option-cases, inl, inr, any, any_mono,
}
use jolt.ControlStore.Entities.{Share, TimeColumn, null, time, unreadable, Db}
use jolt.ControlStore.Sql.{
  ◌>>◌, Faults, statement, checked_statement, commit, transaction, run_statement, delete_where,
  select_where, count_where,
}
use jolt.ControlStore.Shares.{
  same_column, passed, active, share_id, with_creator, wrong_creator, insert_share,
  for_service_account, store_share, create_share, refuse_none, not_revoked, revoke_share,
  delete_share, late_deadline, read_deadline, downloadable, count_download, touch_share,
  expired_shares, of_candidate, remove_expired, purge_expired_shares,
}
use jolt.ControlStore.Shares.Downloads.{
  ShareCall, create, revoke, delete, download, touch, purge, share_step, makes, one_if_ok, serves,
  served, limited, remaining, Within, update-Within, delete-Within, append-Within, download-Within,
  download_other-Within, same-Within,
}

module _ (id : String) where
  -- the insertion, behind what may come before it
  stored-Within :
      (s : Share) (e d : Db) (fails : Faults) (calls : ℕ)
      → (s.id == id) ≡ false
      → limited id d.shares ≡ true
      → e.shares ≡ d.shares
      → Within id 0 d.shares
          (((checked_statement (insert_share s)) >> commit)
            (record { db = e; saved = d; fails = fails; calls = calls })).1.saved.shares
  unfolding checked_statement insert_share commit
  stored-Within s e d fails calls n h same = elim (Bool-cases (fails calls)) [
    | inl f ↦ rw f (same-Within id d.shares h)
    | inr f0 ↦
        elim (Bool-cases (any (λ t. t.id == s.id || t.token_hash == s.token_hash) e.shares)) [
          | inl a ↦ rw (f0, a) (same-Within id d.shares h)
          | inr a ↦ elim (Bool-cases (fails (calls + 1))) [
            | inl f ↦ rw (f0, a, f) (same-Within id d.shares h)
            | inr f1 ↦ rw (f0, a, f1, same) (append-Within id s d.shares n h)
          ]
        ]
  ]

  store_share-Within :
      (s : Share) (fails : Faults) (d : Db)
      → (s.id == id) ≡ false
      → limited id d.shares ≡ true
      → Within id 0 d.shares (transaction (store_share s) fails d).1.shares
  unfolding transaction store_share for_service_account statement
  store_share-Within s fails d n h = elim (Bool-cases (fails 0)) [
    | inl f ↦ rw f (same-Within id d.shares h)
    | inr f0 ↦ elim (Bool-cases (s.created_by_type == "service_account")) [
      | inr k ↦ rw (f0, k) (stored-Within s d d fails 1 n h refl)
      | inl k ↦ elim (Bool-cases (fails 1)) [
        | inl f ↦ rw (f0, k, f) (same-Within id d.shares h)
        | inr f1 ↦ rw (f0, k, f1) (stored-Within s _ d fails 2 n h refl)
      ]
    ]
  ]

  create-Within :
      (s : Share) (fails : Faults) (d : Db)
      → (s.id == id) ≡ false
      → limited id d.shares ≡ true
      → Within id 0 d.shares (create_share s fails d).1.shares
  unfolding create_share with_creator
  create-Within s fails d n h = elim (Bool-cases (wrong_creator (with_creator s))) [
    | inl w ↦ rw w (same-Within id d.shares h)
    | inr w ↦ rw w (store_share-Within (with_creator s) fails d n h)
  ]

  revoke-Within :
      (i : String) (now : ℕ) (fails : Bool) (d : Db)
      → limited id d.shares ≡ true
      → Within id 0 d.shares (revoke_share i now fails d).1.shares
  unfolding revoke_share run_statement refuse_none
  revoke-Within i now true d h = same-Within id d.shares h
  revoke-Within i now false d h =
      update-Within id (not_revoked i) (λ s. record s { revoked_at = time now }) d.shares
        (λ s. (refl, refl, refl)) h

  delete-call-Within :
      (i : String) (fails : Bool) (d : Db)
      → limited id d.shares ≡ true
      → Within id 0 d.shares (delete_share i fails d).1.shares
  unfolding delete_share run_statement
  delete-call-Within i true d h = same-Within id d.shares h
  delete-call-Within i false d h = delete-Within id (share_id i) d.shares h

  touch-Within :
      (i : String) (now : ℕ) (fails : Bool) (d : Db)
      → limited id d.shares ≡ true
      → Within id 0 d.shares (touch_share i now fails d).1.shares
  unfolding touch_share run_statement
  touch-Within i now true d h = same-Within id d.shares h
  touch-Within i now false d h =
      update-Within id (share_id i) (λ s. record s { last_access_at = time now }) d.shares
        (λ s. (refl, refl, refl)) h

  count-Within :
      (i : String) (now : ℕ) (deadline : TimeColumn) (fails : Bool) (d : Db)
      → limited id d.shares ≡ true
      → Within id
          (if i == id then one_if_ok (count_download i now deadline fails d).0 else 0)
          d.shares
          (count_download i now deadline fails d).1.shares
  unfolding count_download run_statement refuse_none
  count-Within i now deadline true d h = (h, ground arith)
  count-Within i now deadline false d h = elim (Bool-cases (i == id)) [
    | inl e ↦
        let same : i ≡ id = (eq_iff i id).0 e in
        let w = download-Within id now deadline d.shares h in rw same (w.0, ground (arith, w.1))
    | inr e ↦ rw e (download_other-Within id i now deadline d.shares e h)
  ]

  remove_expired-Within :
      (cs : List (String × TimeColumn)) (removed calls : ℕ) (fails : Faults) (d : Db)
      → limited id d.shares ≡ true
      → Within id 0 d.shares (remove_expired cs removed calls fails d).1.shares
  unfolding remove_expired
  remove_expired-Within [] removed calls fails d h = same-Within id d.shares h
  remove_expired-Within (c ∷ cs) removed calls fails d h = elim (Bool-cases (fails calls)) [
    | inl f ↦ rw f (same-Within id d.shares h)
    | inr f ↦
        let w = delete-Within id (of_candidate c) d.shares h in
        let r =
          remove_expired-Within cs (removed + count_where (of_candidate c) d.shares) (calls + 1)
            fails (record d { shares = delete_where (of_candidate c) d.shares }) w.0 in
        rw f (r.0, omega (arith, w.1, r.1))
  ]

  purge-Within :
      (before : ℕ) (fails : Faults) (d : Db)
      → limited id d.shares ≡ true
      → Within id 0 d.shares (purge_expired_shares before fails d).1.shares
  unfolding purge_expired_shares
  purge-Within before fails d h = elim (Bool-cases (fails 0)) [
    | inl f ↦ rw f (same-Within id d.shares h)
    | inr f ↦ rw f (remove_expired-Within (expired_shares before d.shares) 0 1 fails d h)
  ]

  step-Within :
      (c : ShareCall) (d : Db)
      → makes id c ≡ false
      → limited id d.shares ≡ true
      → Within id (serves id c d) d.shares (share_step c d).shares
  step-Within (create s fails) d n h = create-Within s fails d n h
  step-Within (revoke i now fails) d n h = revoke-Within i now fails d h
  step-Within (delete i fails) d n h = delete-call-Within i fails d h
  step-Within (download i now deadline fails) d n h = count-Within i now deadline fails d h
  step-Within (touch i now fails) d n h = touch-Within i now fails d h
  step-Within (purge before fails) d n h = purge-Within before fails d h

  -- Where a share has a limit of downloads, any sequence of calls, none of which makes a share of its
  -- id, counts at most the downloads that its limit leaves, also where the statements of several
  -- downloads come between one another and where any statement fails.
  pub served-le-remaining :
      (cs : List ShareCall) (d : Db)
      → any (makes id) cs ≡ false
      → limited id d.shares ≡ true
      → served id cs d ≤ remaining id d.shares
  unfolding served
  served-le-remaining [] d n h = omega arith
  served-le-remaining (c ∷ cs) d n h =
      let w = step-Within c d (ground arith) h in
      omega (arith, w.1, served-le-remaining cs (share_step c d) (ground arith) w.0)

any_of_count :
    (p : Share → Bool) (ss : List Share) → eqb (count_where p ss) 0 ≡ false → any p ss ≡ true
unfolding count_where
any_of_count p [] h = absurd (ground arith)
any_of_count p (s ∷ ss) h = ground (arith, any_of_count p ss)

not_passed :
    (now : ℕ) (x y : TimeColumn)
    → same_column x y ≡ true
    → late_deadline now y ≡ false
    → passed now x ≡ false
unfolding same_column late_deadline passed
not_passed now null y h l = refl
not_passed now (time s) (time t) h l = ground arith
not_passed now (time s) null h l = absurd (ground arith)
not_passed now (time s) (unreadable t) h l = absurd (ground arith)
not_passed now (unreadable s) (unreadable t) h l = absurd (ground arith)
not_passed now (unreadable s) null h l = absurd (ground arith)
not_passed now (unreadable s) (time t) h l = absurd (ground arith)

downloadable-active :
    (id : String) (now : ℕ) (deadline : TimeColumn) (s : Share)
    → late_deadline now deadline ≡ false
    → downloadable id deadline s ≡ true
    → (share_id id s && active now s) ≡ true
unfolding downloadable active share_id
downloadable-active id now deadline s l h = ground (arith, not_passed now s.expires_at deadline)

deadline_in_time :
    (id : String) (now : ℕ) (deadline : TimeColumn) (d : Db)
    → read_deadline id now false d ≡ ok deadline
    → late_deadline now deadline ≡ false
unfolding read_deadline
deadline_in_time id now deadline d r = elim (Option-cases (select_where (share_id id) d.shares)) [
  | inl n ↦ absurd (ground arith)
  | inr (s, n) ↦ elim (Bool-cases (late_deadline now s.expires_at)) [
    | inl l ↦ absurd (ground arith)
    | inr l ↦ let same : s.expires_at ≡ deadline = ground arith in rw (← same) l
  ]
]

-- A download that is counted is of a share that is active then, for a time of the call, if its
-- deadline was read before, whatever other calls came between the two statements.
pub count_download-active :
    (id : String) (now : ℕ) (deadline : TimeColumn) (d e : Db)
    → read_deadline id now false d ≡ ok deadline
    → (count_download id now deadline false e).0 ≡ ok tt
    → any (λ s. share_id id s && active now s) e.shares ≡ true
unfolding count_download run_statement refuse_none
count_download-active id now deadline d e r c =
    any_mono (downloadable id deadline) (λ s. share_id id s && active now s) e.shares
      (λ s h. downloadable-active id now deadline s (deadline_in_time id now deadline d r) h)
      (any_of_count (downloadable id deadline) e.shares (ground arith))
