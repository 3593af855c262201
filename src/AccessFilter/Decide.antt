-- ===== src/AccessFilter/Decide.antt =====
-- The decision on one entry, and the checks of a direct request.
use jolt.Prelude.{
  String, ◌<>◌, Bool, true, false, ◌&&◌, ◌||◌, not, Option, none, some, List, [], ◌∷◌, ◌==◌, eqb,
  any, if◌then◌else◌, any_char, split, has_prefix, has_suffix_slash, Result, ok, err, ◌>>◌, reject,
}
use jolt.FileTypes.Context.{Filter}
use jolt.FileTypes.Evaluate.{Decision, evaluate}

pub data FsError : Type 0 where
  hidden blocked invalid protected_tree conflict not_exist canceled io_error : FsError

-- a nil context is `none`
pub record AccessFilter : Type 0 where
  pub context : Option Filter
  pub base : String

-- what `os.FileInfo` tells of an entry
pub data FileKind : Type 0 where
  directory regular other : FileKind

-- `strings.ContainsAny(s, "\\\x00")`
unfoldable pub has_backslash_or_nul : String → Bool
unfolding any_char
has_backslash_or_nul = any_char (λ c. eqb c b'\\' || eqb c 0)

-- `NewAccessFilter`
unfoldable pub new_access_filter : Option Filter → String → Result FsError AccessFilter
new_access_filter none base = err invalid
new_access_filter (some context) base = do
  reject (base == "" || has_prefix base "/" || has_suffix_slash base || has_backslash_or_nul base)
      invalid
  reject
      (any (λ part. part == "" || part == "." || part == ".." || part == "*" || part == "**")
        (split base))
      invalid
  ok (record { context = some context; base = base })

pub record AccessDecision : Type 0 where
  pub visible : Bool
  pub blocked : Bool
  pub readable : Bool
  pub traversable : Bool

abbrev pub no_access : AccessDecision
no_access = record { visible = false; blocked = false; readable = false; traversable = false }

abbrev pub full_access : AccessDecision
full_access = record { visible = true; blocked = false; readable = true; traversable = true }

-- the resource of a path below the filter's base
unfoldable pub resource_of : AccessFilter → String → String
resource_of f relative =
    if not (relative == "") && not (relative == ".") then f.base <> ("/" <> relative) else f.base

-- the answer for a directory, from its `list` decision
unfoldable pub decide_directory : Decision → AccessDecision
decide_directory list =
    if list.allowed
    then record no_access { visible = true; traversable = true }
    else record no_access {
      visible = list.visibility == "visible";
      blocked = list.visibility == "visible";
    }

-- the answer for a file, from its `list` and `read` decisions
unfoldable pub decide_file : Decision → Decision → AccessDecision
decide_file list read =
    if list.allowed && read.allowed
    then record no_access { visible = true; readable = true }
    else if list.allowed && not read.allowed && not read.restricted
    then record no_access { visible = true; blocked = true }
    else if read.allowed && not list.allowed && not list.restricted
    then record no_access { readable = true }
    else if not list.allowed && not (list.visibility == "visible")
        || not read.allowed && not (read.visibility == "visible")
    then no_access
    else record no_access { visible = true; blocked = true }

-- a path that `decide` refuses
unfoldable pub bad_relative : String → Bool
bad_relative relative =
    has_prefix relative "/"
    || has_backslash_or_nul relative
    || any (λ component. component == "..") (split relative)

decide_kind : AccessFilter → String → FileKind → AccessDecision
unfolding decide_directory decide_file
decide_kind f resource directory = decide_directory (evaluate f.context resource "list" "directory")
decide_kind f resource regular =
    decide_file (evaluate f.context resource "list" "file")
      (evaluate f.context resource "read" "file")
decide_kind f resource other = no_access

abbrev is_nil : Option Filter → Bool
is_nil none = true
is_nil (some _) = false

-- `decide`; a nil filter is `none`, and so is a nil `info`
unfoldable pub decide : Option AccessFilter → String → Option FileKind → AccessDecision
unfolding decide_kind resource_of
decide none relative info = full_access
decide (some f) relative none = no_access
decide (some f) relative (some kind) =
    if is_nil f.context || bad_relative relative
    then no_access
    else decide_kind f (resource_of f relative) kind

-- the loop of `checkAncestors`, with the resource so far
unfoldable pub ancestors_loop : Option Filter → String → List String → Result FsError (Unit {0})
ancestors_loop context resource [] = ok tt
ancestors_loop context resource (part ∷ parts) =
    let rest = ancestors_loop context (resource <> ("/" <> part)) parts in
    do
      reject (part == "" || part == "." || part == "..") hidden
      reject (evaluate context resource "list" "directory").denied hidden
      rest

-- `checkAncestors`
unfoldable pub check_ancestors : Option AccessFilter → String → Result FsError (Unit {0})
unfolding ancestors_loop
check_ancestors none relative = ok tt
check_ancestors (some f) relative =
    if is_nil f.context || has_prefix relative "/" || has_backslash_or_nul relative
    then err hidden
    else if relative == "" || relative == "."
    then ok tt
    else ancestors_loop f.context f.base (split relative)

-- `info.IsDir() && decision.traversable || info.Mode().IsRegular() && decision.readable`
abbrev pub admits : FileKind → AccessDecision → Bool
admits directory d = d.traversable
admits regular d = d.readable
admits other d = false

-- `checkRoot`
unfoldable pub check_root : Option AccessFilter → String → FileKind → Result FsError (Unit {0})
check_root none relative kind = ok tt
check_root (some f) relative kind = do
  check_ancestors (some f) relative
  let d = decide (some f) relative (some kind)
  if admits kind d then ok tt else if d.visible then err blocked else err hidden

-- the entry kind as the filter's callers name it
abbrev pub kind_name : FileKind → String
kind_name directory = "directory"
kind_name regular = "file"
kind_name other = "file"

abbrev entry_kind : String → FileKind
entry_kind kind = if kind == "directory" then directory else regular

abbrev known_kind : String → Bool
known_kind kind = kind == "file" || kind == "directory"

-- `AllowsListedEntry`
unfoldable pub allows_listed_entry : Option AccessFilter → String → String → Bool
allows_listed_entry none relative kind = false
allows_listed_entry (some f) relative kind =
    let d = decide (some f) relative (some (entry_kind kind)) in
    if not (known_kind kind)
    then false
    else if kind == "directory"
    then d.visible && d.traversable
    else d.visible && d.readable

-- `AllowsEntryCapability`
unfoldable pub allows_entry_capability : Option AccessFilter → String → String → String → Bool
unfolding resource_of
allows_entry_capability none relative kind capability = false
allows_entry_capability (some f) relative kind capability =
    if is_nil f.context
      || not (known_kind kind)
      || has_prefix relative "/"
      || has_backslash_or_nul relative
    then false
    else (evaluate f.context (resource_of f relative) capability kind).allowed
