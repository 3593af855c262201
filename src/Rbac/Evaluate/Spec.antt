-- ===== src/Rbac/Evaluate/Spec.antt =====
-- What a policy rule says, with no loop: which rules deny, which grant and at what level.
use jolt.Prelude.{ℕ, String, Bool, ◌&&◌, ◌||◌, not, Option, none, if◌then◌else◌}
use jolt.FileTypes.Evaluate.{grants}
use jolt.Rbac.Policy.{Entry, capability_set, match, rule_matches, has_deny, is_typed}

-- The rule covers the path and is a denial, typed or not.
unfoldable pub is_denial : String → Entry → Bool
is_denial path e = rule_matches e.1 path && has_deny e.1

-- The specificity of a rule that grants the capability on the path by its path alone.
unfoldable pub grant_level : String → String → Entry → Option ℕ
grant_level path capability e =
    if is_typed e.1 || has_deny e.1 || not (grants (capability_set e.1.capabilities) capability)
    then none
    else match e.1.path path
