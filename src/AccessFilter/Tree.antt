-- ===== src/AccessFilter/Tree.antt =====
-- The checks of whole trees. The walk of the file system is the list of the entries it visits, the
-- root first, each with what the system calls of the callback return there.
use jolt.Prelude.{
  String, ◌<>◌, Bool, true, false, ◌&&◌, ◌||◌, not, Option, none, some, List, [], ◌∷◌, ◌==◌,
  if◌then◌else◌, has_prefix, Result, ok, err, ◌>>=◌, ◌>>◌, reject,
}
use jolt.FileTypes.Evaluate.{evaluate}
use jolt.AccessFilter.Decide.{
  FsError, hidden, blocked, invalid, protected_tree, conflict, not_exist, canceled, AccessFilter,
  FileKind, directory, regular, other, check_root, check_ancestors, kind_name,
}

-- `walk_error` is the error that the walk hands to the callback, `expired` the context's error,
-- `relative` the path below the mount (`filepath.Rel`), `info` the result of `safeLstat`.
pub record Visit : Type 0 where
  pub is_root : Bool
  pub walk_error : Option FsError
  pub expired : Bool
  pub relative : Option String
  pub info : Result FsError FileKind

abbrev pub fail_if : Option FsError → Result FsError (Unit {0})
fail_if none = ok tt
fail_if (some e) = err e

-- `relative == ".." || HasPrefix(relative, "../")`
abbrev pub leaves_mount : String → Bool
leaves_mount relative = relative == ".." || has_prefix relative "../"

unfoldable pub relative_path : Option String → Result FsError String
relative_path none = err protected_tree
relative_path (some r) = if leaves_mount r then err protected_tree else ok r

-- an error at an entry below the root becomes `ErrProtectedTree`
unfoldable pub below_root : Bool → Result FsError (Unit {0}) → Result FsError (Unit {0})
below_root is_root (ok u) = ok u
below_root is_root (err e) = if is_root then err e else err protected_tree

abbrev pub granted : AccessFilter → String → String → FileKind → Bool
granted f relative capability kind =
    (evaluate f.context (f.base <> ("/" <> relative)) capability (kind_name kind)).allowed

-- the callback of `validateFilteredDeleteTree`
unfoldable pub delete_visit : AccessFilter → Visit → Result FsError (Unit {0})
unfolding relative_path below_root
delete_visit f v = do
  fail_if v.walk_error
  reject v.expired canceled
  relative ← relative_path v.relative
  kind ← v.info
  below_root v.is_root (check_root (some f) relative kind)
  below_root v.is_root (reject (not (granted f relative "delete" kind)) blocked)

unfoldable pub delete_visits : AccessFilter → List Visit → Result FsError (Unit {0})
delete_visits f [] = ok tt
delete_visits f (v ∷ vs) = do delete_visit f v; delete_visits f vs

-- `validateFilteredDeleteTree`
unfoldable pub validate_filtered_delete_tree :
    Option AccessFilter → List Visit → Result FsError (Unit {0})
unfolding delete_visits
validate_filtered_delete_tree none visits = ok tt
validate_filtered_delete_tree (some f) visits = delete_visits f visits

-- `checkExisting` of `validateFilteredMove`
unfoldable pub check_existing : AccessFilter → Visit → FileKind → Result FsError (Unit {0})
unfolding relative_path
check_existing f v kind = do
  r ← relative_path v.relative
  check_root (some f) r kind
  reject (not (granted f r "read" kind) || not (granted f r "update" kind)) blocked

-- the `walk` of `validateFilteredMove`, for one entry
unfoldable pub walk_visit :
    Visit → (FileKind → Result FsError (Unit {0})) → Result FsError (Unit {0})
unfolding below_root
walk_visit v visit = do
  fail_if v.walk_error
  reject v.expired canceled
  kind ← v.info
  below_root v.is_root (visit kind)

-- A visit of the source of a move: `suffix_error` is that of `filepath.Rel(source, current)`, and
-- `target` the path of the mapped destination below the mount.
pub record MoveVisit : Type 0 where
  pub visit : Visit
  pub suffix_error : Option FsError
  pub target : Option String

unfoldable pub move_visit : AccessFilter → MoveVisit → FileKind → Result FsError (Unit {0})
unfolding check_existing
move_visit f m kind = do
  check_existing f m.visit kind
  fail_if m.suffix_error
  r ← relative_path m.target
  check_ancestors (some f) r
  reject (not (granted f r "create" kind)) blocked

unfoldable pub move_visits : AccessFilter → List MoveVisit → Result FsError (Unit {0})
unfolding walk_visit
move_visits f [] = ok tt
move_visits f (m ∷ ms) = do walk_visit m.visit (move_visit f m); move_visits f ms

unfoldable pub existing_visits : AccessFilter → List Visit → Result FsError (Unit {0})
unfolding walk_visit
existing_visits f [] = ok tt
existing_visits f (v ∷ vs) = do walk_visit v (check_existing f v); existing_visits f vs

-- the check of an existing destination; `destination` is the result of its `safeLstat`
overwrite_check : AccessFilter → Result FsError FileKind → List Visit → Result FsError (Unit {0})
unfolding existing_visits
overwrite_check f (err not_exist) visits = ok tt
overwrite_check f (err e) visits = err e
overwrite_check f (ok kind) visits = existing_visits f visits

-- `validateFilteredMove`
unfoldable pub validate_filtered_move :
    Option AccessFilter
    → List MoveVisit
    → Bool
    → Result FsError FileKind
    → List Visit
    → Result FsError (Unit {0})
unfolding move_visits overwrite_check
validate_filtered_move none source overwrite destination visits = ok tt
validate_filtered_move (some f) source overwrite destination visits = do
  move_visits f source
  if not overwrite then ok tt else overwrite_check f destination visits

-- the loop over `read` and `list` of `validateFilteredFileDestination`
restriction_check : AccessFilter → String → List String → Result FsError (Unit {0})
restriction_check f resource [] = ok tt
restriction_check f resource (capability ∷ more) =
    let rest = restriction_check f resource more in
    let d = evaluate f.context resource capability "file" in
    if not d.allowed && d.restricted
    then (if d.visibility == "visible" then err blocked else err hidden)
    else rest

abbrev is_regular : FileKind → Bool
is_regular directory = false
is_regular regular = true
is_regular other = false

replace_check : AccessFilter → String → Bool → Result FsError FileKind → Result FsError (Unit {0})
unfolding restriction_check
replace_check f resource overwrite (err not_exist) = ok tt
replace_check f resource overwrite (err e) = err e
replace_check f resource overwrite (ok kind) = do
  reject (not overwrite) conflict
  reject (not (is_regular kind)) protected_tree
  restriction_check f resource ("read" ∷ "list" ∷ [])
  reject (not (evaluate f.context resource "update" "file").allowed) blocked

destination_check :
    AccessFilter → Option String → Bool → Result FsError FileKind → Result FsError (Unit {0})
unfolding replace_check
destination_check f none overwrite info = err invalid
destination_check f (some relative) overwrite info = do
  reject (relative == "." || leaves_mount relative) invalid
  check_ancestors (some f) relative
  let resource = f.base <> ("/" <> relative)
  reject (not (evaluate f.context resource "create" "file").allowed) blocked
  replace_check f resource overwrite info

-- `validateFilteredFileDestination`
unfoldable pub validate_filtered_file_destination :
    Bool
    → Option AccessFilter
    → Option String
    → Bool
    → Result FsError FileKind
    → Result FsError (Unit {0})
unfolding destination_check
validate_filtered_file_destination expired none relative overwrite info = do
  reject expired canceled
  err invalid
validate_filtered_file_destination expired (some f) relative overwrite info = do
  reject expired canceled
  elim f.context [ none ↦ err invalid | some _ ↦ destination_check f relative overwrite info ]
