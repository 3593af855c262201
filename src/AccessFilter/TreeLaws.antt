-- ===== src/AccessFilter/TreeLaws.antt =====
-- What the checks of whole trees let through.
use jolt.Prelude.{
  ◌≡◌, inl, inr, String, ◌<>◌, Bool, true, false, ◌||◌, not, some, List, [], ◌∷◌, arith, Result, ok,
  Option-cases, Result-cases,
}
use jolt.FileTypes.Evaluate.{evaluate}
use jolt.AccessFilter.Decide.{FsError, AccessFilter, FileKind, regular, check_root, check_ancestors}
use jolt.AccessFilter.Tree.{
  Visit, leaves_mount, granted, delete_visit, validate_filtered_delete_tree, MoveVisit, walk_visit,
  move_visit, move_visits, validate_filtered_move, validate_filtered_file_destination,
}

abbrev pub All {ℓ} : {A : Type ℓ} → (A → Type 0) → List A → Type 0
All P [] = Unit
All P (x ∷ xs) = P x × All P xs

-- An entry that may be deleted: it was read, it lies below the mount, a direct request for it would
-- pass, and its deletion is granted.
pub record IsDeletable (f : AccessFilter) (v : Visit) : Type 0 where
  pub relative : String
  pub kind : FileKind
  pub found : v.relative ≡ some relative
  pub inside : leaves_mount relative ≡ false
  pub read : v.info ≡ ok kind
  pub requested : check_root (some f) relative kind ≡ ok tt
  pub deletable : granted f relative "delete" kind ≡ true

delete_visit-IsDeletable :
    (f : AccessFilter) (v : Visit) (r : String) (k : FileKind)
    → v.relative ≡ some r
    → v.info ≡ ok k
    → delete_visit f v ≡ ok tt
    → IsDeletable f v
unfolding delete_visit
delete_visit-IsDeletable f v r k e i h = record {
  relative = r;
  kind = k;
  found = e;
  inside = ground arith;
  read = i;
  requested = ground arith;
  deletable = ground arith;
}

IsDeletable-visit : (f : AccessFilter) (v : Visit) → delete_visit f v ≡ ok tt → IsDeletable f v
IsDeletable-visit f v h = elim (Option-cases v.relative) [
  | inl e ↦ absurd (unfold delete_visit in ground arith)
  | inr (r, e) ↦ elim (Result-cases v.info) [
    | inl (k, i) ↦ delete_visit-IsDeletable f v r k e i h
    | inr (x, i) ↦ absurd (unfold delete_visit in ground arith)
  ]
]

-- The preflight of a delete passes only if every entry of the tree may be deleted: a denial or a
-- missing grant anywhere below the root stops the operation before anything is removed.
pub validate_filtered_delete_tree-All :
    (f : AccessFilter) (visits : List Visit)
    → validate_filtered_delete_tree (some f) visits ≡ ok tt
    → All (IsDeletable f) visits
unfolding validate_filtered_delete_tree
validate_filtered_delete_tree-All f [] h = tt
validate_filtered_delete_tree-All f (v ∷ vs) h =
    (IsDeletable-visit f v (ground arith), validate_filtered_delete_tree-All f vs (ground arith))

-- An entry that may be moved: it may be read and changed where it is, and it may be created where
-- it goes, inside the mount and below directories whose listing is not denied.
pub record IsMovable (f : AccessFilter) (m : MoveVisit) : Type 0 where
  pub relative : String
  pub target : String
  pub kind : FileKind
  pub found : m.visit.relative ≡ some relative
  pub mapped : m.target ≡ some target
  pub read : m.visit.info ≡ ok kind
  pub inside : (leaves_mount relative ≡ false) × (leaves_mount target ≡ false)
  pub requested : check_root (some f) relative kind ≡ ok tt
  pub changeable :
      (granted f relative "read" kind ≡ true) × (granted f relative "update" kind ≡ true)
  pub reached : check_ancestors (some f) target ≡ ok tt
  pub creatable : granted f target "create" kind ≡ true

walked-IsMovable :
    (f : AccessFilter) (m : MoveVisit) (r t : String) (k : FileKind)
    → m.visit.relative ≡ some r
    → m.target ≡ some t
    → m.visit.info ≡ ok k
    → walk_visit m.visit (move_visit f m) ≡ ok tt
    → IsMovable f m
unfolding walk_visit move_visit
walked-IsMovable f m r t k e g i h = record {
  relative = r;
  target = t;
  kind = k;
  found = e;
  mapped = g;
  read = i;
  inside = ground arith;
  requested = ground arith;
  changeable = ground arith;
  reached = ground arith;
  creatable = ground arith;
}

IsMovable-visit :
    (f : AccessFilter) (m : MoveVisit) → walk_visit m.visit (move_visit f m) ≡ ok tt → IsMovable f m
IsMovable-visit f m h = elim (Result-cases m.visit.info) [
  | inr (x, i) ↦ absurd (unfold walk_visit move_visit in ground arith)
  | inl (k, i) ↦ elim (Option-cases m.visit.relative) [
    | inl e ↦ absurd (unfold walk_visit move_visit in ground arith)
    | inr (r, e) ↦ elim (Option-cases m.target) [
      | inl g ↦ absurd (unfold walk_visit move_visit in ground arith)
      | inr (t, g) ↦ walked-IsMovable f m r t k e g i h
    ]
  ]
]

IsMovable-visits :
    (f : AccessFilter) (ms : List MoveVisit) → move_visits f ms ≡ ok tt → All (IsMovable f) ms
unfolding move_visits
IsMovable-visits f [] h = tt
IsMovable-visits f (m ∷ ms) h =
    (IsMovable-visit f m (ground arith), IsMovable-visits f ms (ground arith))

-- The preflight of a move passes only if every entry of the source tree may be moved to its
-- mapped destination, whether the destination is overwritten or not.
pub validate_filtered_move-All :
    (f : AccessFilter) (source : List MoveVisit) (overwrite : Bool)
    (destination : Result FsError FileKind) (visits : List Visit)
    → validate_filtered_move (some f) source overwrite destination visits ≡ ok tt
    → All (IsMovable f) source
unfolding validate_filtered_move
validate_filtered_move-All f source overwrite destination visits h =
    IsMovable-visits f source (ground arith)

-- The lookup is allowed, or no rule restricts it.
abbrev pub unrestricted : AccessFilter → String → String → Bool
unrestricted f relative capability =
    let d = evaluate f.context (f.base <> ("/" <> relative)) capability "file" in
    d.allowed || not d.restricted

-- A file that is there is replaced only with overwriting asked for, only if it is a regular file
-- inside the mount that no restriction hides or blocks, and only where both its creation and its
-- update are granted.
pub validate_filtered_file_destination-replaces :
    (expired : Bool) (f : AccessFilter) (r : String) (overwrite : Bool) (kind : FileKind)
    → validate_filtered_file_destination expired (some f) (some r) overwrite (ok kind) ≡ ok tt
    → (expired ≡ false)
      × (overwrite ≡ true)
      × (kind ≡ regular)
      × (leaves_mount r ≡ false)
      × (granted f r "create" regular ≡ true)
      × (granted f r "update" regular ≡ true)
      × (unrestricted f r "read" ≡ true)
      × (unrestricted f r "list" ≡ true)
unfolding validate_filtered_file_destination
validate_filtered_file_destination-replaces expired f r overwrite kind h = (
  ground arith,
  ground arith,
  ground arith,
  ground arith,
  ground arith,
  ground arith,
  ground arith,
  ground arith,
)
