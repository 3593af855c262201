-- ===== src/Rbac/Compat.antt =====
-- rbac.go: `ExpandCompatibilityRules`
use jolt.Prelude.{String, ◌<>◌, Bool, false, ◌&&◌, List, [], ◌∷◌, ◌==◌, if◌then◌else◌, split}
use jolt.Rbac.Path.{normalize_path, recursive}
use jolt.Rbac.Policy.{Rule, Policy}

is_mount_segments : List String → Bool
is_mount_segments (nodes ∷ node ∷ files ∷ mounts ∷ mount ∷ []) =
    nodes == "nodes" && files == "files" && mounts == "mounts"
is_mount_segments _ = false

-- `isMountScopedFileRule`
unfoldable pub is_mount_scoped_file_rule : String → Bool
unfolding is_mount_segments
is_mount_scoped_file_rule path = is_mount_segments (split (normalize_path path))

abbrev pub compatibility : Rule → Rule
compatibility rule = record rule { path = normalize_path rule.path <> ("/" <> recursive) }

unfoldable pub expand_rules : List Rule → List Rule
expand_rules [] = []
expand_rules (rule ∷ rules) =
    let rest = expand_rules rules in
    if is_mount_scoped_file_rule rule.path then rule ∷ compatibility rule ∷ rest else rule ∷ rest

unfoldable pub expand_compatibility_rules : List Policy → List Policy
unfolding expand_rules
expand_compatibility_rules [] = []
expand_compatibility_rules (policy ∷ policies) =
    record policy { rules = expand_rules policy.rules } ∷ expand_compatibility_rules policies
