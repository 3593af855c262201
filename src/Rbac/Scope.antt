-- ===== src/Rbac/Scope.antt =====
-- rbac.go: whether a denial reaches into a subtree
pub mod Reach
pub mod Denied
use jolt.Prelude.{
  String, Bool, true, false, ◌&&◌, ◌||◌, not, List, [], ◌∷◌, ◌==◌, leb, if◌then◌else◌, length, any,
  split,
}
use jolt.FileTypes.Evaluate.{split_recursive}
use jolt.Rbac.Path.{normalize_path, valid_path, valid_resource_path}
use jolt.Rbac.Policy.{Policy, has_deny, is_typed}

-- the loop of `denyReachesScope` over the segments that both have
unfoldable pub shared_agree : List String → List String → Bool
shared_agree [] scope = true
shared_agree (part ∷ parts) [] = true
shared_agree (part ∷ parts) (name ∷ scope) =
    let rest = shared_agree parts scope in
    if part == "*" || name == "*" then rest else if not (part == name) then false else rest

unfoldable pub deny_reaches_scope : List String → List String → Bool
unfolding split_recursive shared_agree
deny_reaches_scope rule_parts scope_parts =
    let (parts, recursive) = split_recursive rule_parts in
    if not (shared_agree parts scope_parts)
    then false
    else if leb (length scope_parts) (length parts)
    then true
    else recursive

abbrev pub segments : String → List String
segments path = split (normalize_path path)

-- `DeniesWithin`
unfoldable pub denies_within : List Policy → String → Bool
denies_within policies scope =
    any
      (λ policy.
        any (λ rule. has_deny rule && deny_reaches_scope (segments rule.path) (segments scope))
          policy.rules)
      policies

-- `UntypedDeniesWithin`
unfoldable pub untyped_denies_within : List Policy → String → Bool
untyped_denies_within policies scope =
    if not (valid_resource_path scope)
    then true
    else any
        (λ policy.
          any
            (λ rule.
              not (is_typed rule || not (has_deny rule))
              && (not (valid_path rule.path)
                  || deny_reaches_scope (segments rule.path) (segments scope)))
            policy.rules)
        policies

-- `RuleTouchesScope`
unfoldable pub rule_touches_scope : String → String → Bool
rule_touches_scope rule_path scope =
    if not (valid_path rule_path) || not (valid_resource_path scope)
    then true
    else deny_reaches_scope (segments rule_path) (segments scope)
