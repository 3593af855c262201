-- ===== src/AccessFilter/Laws.antt =====
-- What a node's access filter lets through.
use jolt.Prelude.{
  ◌≡◌, refl, ◌≢◌, String, ◌<>◌, Bool, true, false, ◌&&◌, not, some, List, [], ◌∷◌, arith, eq_iff,
  any, split, ok, implies,
}
use jolt.FileTypes.Evaluate.{Decision, evaluate}
use jolt.AccessFilter.Decide.{
  AccessFilter, AccessDecision, FileKind, directory, regular, other, decide, resource_of,
  ancestors_loop, check_ancestors, check_root, admits,
}

abbrev pub is_regular : FileKind → Bool
is_regular regular = true
is_regular directory = false
is_regular other = false

abbrev pub is_directory : FileKind → Bool
is_directory directory = true
is_directory regular = false
is_directory other = false

module _ (f : AccessFilter) (relative : String) where
  abbrev pub answer : String → String → Decision
  answer capability kind = evaluate f.context (resource_of f relative) capability kind

  abbrev decision : FileKind → AccessDecision
  decision kind = decide (some f) relative (some kind)

  -- The filter reads only files whose read is granted and traverses only directories whose listing
  -- is granted; an entry that it calls blocked is shown, and neither read nor traversed.
  pub decide_sound :
      (kind : FileKind)
      → (implies (decision kind).readable (is_regular kind && (answer "read" "file").allowed)
          ≡ true)
        × (implies
              (decision kind).traversable
              (is_directory kind && (answer "list" "directory").allowed)
            ≡ true)
        × (implies (decision kind).blocked (
              (decision kind).visible
              && not (decision kind).readable
              && not (decision kind).traversable)
            ≡ true)
  unfolding decide
  decide_sound directory = (ground arith, ground arith, ground arith)
  decide_sound regular = (ground arith, ground arith, ground arith)
  decide_sound other = (ground arith, ground arith, ground arith)

-- The resources of the directories above a path: the base, and the base with each proper prefix.
abbrev pub ancestors : String → List String → List String
ancestors resource [] = []
ancestors resource (part ∷ parts) = resource ∷ ancestors (resource <> ("/" <> part)) parts

abbrev pub list_denied : AccessFilter → String → Bool
list_denied f resource = (evaluate f.context resource "list" "directory").denied

ancestors_loop-none_denied :
    (f : AccessFilter) (resource : String) (parts : List String)
    → ancestors_loop f.context resource parts ≡ ok tt
    → any (list_denied f) (ancestors resource parts) ≡ false
unfolding ancestors_loop
ancestors_loop-none_denied f resource [] h = refl
ancestors_loop-none_denied f resource (part ∷ parts) h =
    ground (arith, ancestors_loop-none_denied f (resource <> ("/" <> part)) parts)

-- A direct request for a path below the base passes only if no directory above it, the base
-- included, is denied for listing, and the entry itself is readable or traversable by its kind.
pub check_root-passes :
    (f : AccessFilter) (relative : String) (kind : FileKind)
    → relative ≢ ""
    → relative ≢ "."
    → check_root (some f) relative kind ≡ ok tt
    → (any (list_denied f) (ancestors f.base (split relative)) ≡ false)
      × (admits kind (decide (some f) relative (some kind)) ≡ true)
unfolding check_root check_ancestors
check_root-passes f relative kind a b h = (
  ground (
    arith,
    eq_iff relative "",
    eq_iff relative ".",
    ancestors_loop-none_denied f f.base (split relative),
  ),
  ground (arith, eq_iff relative "", eq_iff relative "."),
)
