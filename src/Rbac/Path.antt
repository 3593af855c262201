-- ===== src/Rbac/Path.antt =====
-- rbac.go: the paths of policies and of resources
use jolt.Prelude.{
  String, ◌<>◌, Bool, true, false, ◌||◌, not, none, some, List, [], ◌∷◌, ◌==◌, eqb, if◌then◌else◌,
  length, any_char, trim_space, trim_slashes, split, strip_prefix, has_double_slash,
}
use jolt.FileTypes.Context.{is_control, is_path_meta}

-- `NormalizePath`
unfoldable pub normalize_path : String → String
normalize_path raw =
    let value = trim_slashes (trim_space raw) in
    if value == "workers"
    then "nodes"
    else elim (strip_prefix value "workers/") [ some rest ↦ "nodes/" <> rest | none ↦ value ]

-- the constant `Recursive`
abbrev pub recursive : String
recursive = "**"

-- the loop of `ValidPath`
unfoldable pub valid_segments : List String → Bool
unfolding is_control is_path_meta
valid_segments [] = true
valid_segments (segment ∷ more) =
    let rest = valid_segments more in
    if segment == "" || segment == "." || segment == ".."
    then false
    else if segment == recursive
    then (if not (eqb (length more) 0) then false else rest)
    else if segment == "*"
    then rest
    else if any_char (λ c. is_control c || is_path_meta c) segment
    then false
    else rest

unfoldable pub valid_path : String → Bool
valid_path raw =
    let value = normalize_path raw in
    if value == "" || has_double_slash value then false else valid_segments (split value)

-- the loop of `ValidResourcePath`
unfoldable pub valid_resource_segments : List String → Bool
unfolding is_control
valid_resource_segments [] = true
valid_resource_segments (segment ∷ more) =
    let rest = valid_resource_segments more in
    if segment == "" || segment == "." || segment == ".." || segment == "*" || segment == recursive
    then false
    else if any_char (λ c. is_control c || eqb c b'\\') segment
    then false
    else rest

unfoldable pub valid_resource_path : String → Bool
valid_resource_path raw =
    let value = normalize_path raw in
    if value == "" || has_double_slash value then false else valid_resource_segments (split value)
