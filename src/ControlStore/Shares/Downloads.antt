-- ===== src/ControlStore/Shares/Downloads.antt =====
-- The limit of downloads, over any history of calls whose statements come in any order.
use jolt.Prelude.{
  ℕ, ◌+◌, ◌-◌, ◌≤◌, String, Bool, true, false, ◌||◌, not, ◌≡◌, refl, List, [], ◌∷◌, ◌++◌, ◌==◌, ltb,
  if◌then◌else◌, Result, ok, err, arith, eq_iff, all,
}
use jolt.ControlStore.Entities.{Share, TimeColumn, Db}
use jolt.ControlStore.Sql.{DbError, Faults, update_where, delete_where, count_where}
use jolt.ControlStore.Shares.{
  create_share, revoke_share, delete_share, downloadable, downloaded, count_download, touch_share,
  purge_expired_shares,
}

-- A call that writes the shares, with its arguments. A download is the second statement of
-- `RegisterShareDownload`, with the deadline that the first one read.
pub data ShareCall : Type 0 where
  create : Share → Faults → ShareCall
  revoke : String → ℕ → Bool → ShareCall
  delete : String → Bool → ShareCall
  download : String → ℕ → TimeColumn → Bool → ShareCall
  touch : String → ℕ → Bool → ShareCall
  purge : ℕ → Faults → ShareCall

abbrev pub share_step : ShareCall → Db → Db
share_step (create s fails) d = (create_share s fails d).1
share_step (revoke id now fails) d = (revoke_share id now fails d).1
share_step (delete id fails) d = (delete_share id fails d).1
share_step (download id now deadline fails) d = (count_download id now deadline fails d).1
share_step (touch id now fails) d = (touch_share id now fails d).1
share_step (purge before fails) d = (purge_expired_shares before fails d).1

abbrev pub makes : String → ShareCall → Bool
makes id (create s fails) = s.id == id
makes id _ = false

abbrev pub one_if_ok : Result DbError (Unit {0}) → ℕ
one_if_ok (ok u) = 1
one_if_ok (err e) = 0

-- whether a call counts a download of a share
abbrev pub serves : String → ShareCall → Db → ℕ
serves id (download i now deadline fails) d =
    if i == id then one_if_ok (count_download i now deadline fails d).0 else 0
serves id _ d = 0

-- the downloads of a share that a sequence of calls counts
unfoldable pub served : String → List ShareCall → Db → ℕ
served id [] d = 0
served id (c ∷ cs) d = serves id c d + served id cs (share_step c d)

-- the rows of a share have a limit
abbrev pub limited : String → List Share → Bool
limited id ss = all (λ s. not (s.id == id) || ltb 0 s.max_downloads) ss

-- the downloads that the limit still leaves
unfoldable pub remaining : String → List Share → ℕ
remaining id [] = 0
remaining id (s ∷ ss) =
    (if s.id == id then s.max_downloads - s.download_count else 0) + remaining id ss

-- What a call leaves of the limit.
abbrev pub Within : String → ℕ → List Share → List Share → Type 0
Within id n ss ts = (limited id ts ≡ true) × (n + remaining id ts ≤ remaining id ss)

module _ (id : String) where
  pub update-Within :
      (p : Share → Bool) (f : Share → Share) (ss : List Share)
      → ((s : Share)
          → ((f s).id ≡ s.id)
            × ((f s).max_downloads ≡ s.max_downloads)
            × ((f s).download_count ≡ s.download_count))
      → limited id ss ≡ true
      → Within id 0 ss (update_where p f ss)
  unfolding update_where remaining
  update-Within p f [] same h = (refl, omega arith)
  update-Within p f (s ∷ ss) same h =
      let r = update-Within p f ss same (ground arith) in
      let e = same s in (ground arith, ground arith)

  pub delete-Within :
      (p : Share → Bool) (ss : List Share)
      → limited id ss ≡ true
      → Within id 0 ss (delete_where p ss)
  unfolding delete_where remaining
  delete-Within p [] h = (refl, omega arith)
  delete-Within p (s ∷ ss) h =
      let r = delete-Within p ss (ground arith) in (ground arith, ground arith)

  pub append-Within :
      (s : Share) (ss : List Share)
      → (s.id == id) ≡ false
      → limited id ss ≡ true
      → Within id 0 ss (ss ++ (s ∷ []))
  unfolding remaining
  append-Within s [] n h = (ground arith, ground arith)
  append-Within s (x ∷ ss) n h =
      let r = append-Within s ss n (ground arith) in (ground arith, ground arith)

  pub download-Within :
      (now : ℕ) (deadline : TimeColumn) (ss : List Share)
      → limited id ss ≡ true
      → Within id
          (count_where (downloadable id deadline) ss)
          ss
          (update_where (downloadable id deadline) (downloaded now) ss)
  unfolding update_where remaining count_where downloadable downloaded
  download-Within now deadline [] h = (refl, omega arith)
  download-Within now deadline (s ∷ ss) h =
      let r = download-Within now deadline ss (ground arith) in (ground arith, ground arith)

  pub download_other-Within :
      (i : String) (now : ℕ) (deadline : TimeColumn) (ss : List Share)
      → (i == id) ≡ false
      → limited id ss ≡ true
      → Within id 0 ss (update_where (downloadable i deadline) (downloaded now) ss)
  unfolding update_where remaining downloadable downloaded
  download_other-Within i now deadline [] n h = (refl, omega arith)
  download_other-Within i now deadline (s ∷ ss) n h =
      let r = download_other-Within i now deadline ss n (ground arith) in
      (
        ground (arith, eq_iff s.id i, eq_iff s.id id, eq_iff i id),
        ground (arith, eq_iff s.id i, eq_iff s.id id, eq_iff i id),
      )

  pub same-Within : (ss : List Share) → limited id ss ≡ true → Within id 0 ss ss
  same-Within ss h = (h, omega arith)
