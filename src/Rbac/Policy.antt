-- ===== src/Rbac/Policy.antt =====
-- rbac.go: rules, policies, and what a single rule says of a path and a capability
use Prim.Native.Nat.{ℕ}
use jolt.Prelude.{
  String, Bool, true, false, ◌||◌, not, Option, List, [], ◌∷◌, ◌++◌, ◌==◌, eqb, ltb, if◌then◌else◌,
  length, any, trim_space, to_lower, split, contains, insert_key, is_some,
}
use jolt.FileTypes.Selector.{Selector}
use jolt.FileTypes.Evaluate.{match_parts, grants}
use jolt.Rbac.Path.{normalize_path}

pub record Rule : Type 0 where
  pub path : String
  pub capabilities : List String
  pub file_types : Option Selector
  pub visibility : String
  pub needs_approval : List String

pub record Policy : Type 0 where
  pub id : String
  pub name : String
  pub rules : List Rule

pub record Decision : Type 0 where
  pub needs_approval : Bool
  pub allowed : Bool
  pub denied : Bool
  pub policy_ids : List String
  pub path : String
  pub capability : String

-- `ValidCapability`
unfoldable pub valid_capability : String → Bool
valid_capability value =
    contains value (
      "read" ∷ "list" ∷ "create" ∷ "update" ∷ "delete" ∷ "write" ∷ "execute" ∷ "sudo" ∷ "deny" ∷ [])

abbrev pub clean : String → String
clean value = to_lower (trim_space value)

-- the loop of `capabilitySet`
add_capabilities : List String → List String → List String
add_capabilities result [] = result
add_capabilities result (value ∷ more) = add_capabilities (insert_key (clean value) result) more

unfoldable pub capability_set : List String → List String
unfolding add_capabilities
capability_set values = add_capabilities [] values

-- `match`; `none` is `false, 0`
unfoldable pub match : String → String → Option ℕ
match pattern path = match_parts (split (normalize_path pattern)) (split (normalize_path path))

-- `ruleMatches`
unfoldable pub rule_matches : Rule → String → Bool
rule_matches rule path = is_some (match rule.path path)

-- `requiresApproval`
unfoldable pub requires_approval : Rule → String → Bool
requires_approval rule capability = any (λ value. clean value == capability) rule.needs_approval

abbrev pub has_deny : Rule → Bool
has_deny rule = contains "deny" (capability_set rule.capabilities)

abbrev pub is_typed : Rule → Bool
is_typed rule = is_some rule.file_types

-- The rules of all policies, each with its policy's id, in the order of the nested loops.
abbrev pub Entry : Type 0
Entry = String × Rule

unfoldable pub rule_entries : String → List Rule → List Entry
rule_entries id [] = []
rule_entries id (rule ∷ rules) = (id, rule) ∷ rule_entries id rules

unfoldable pub entries : List Policy → List Entry
unfolding rule_entries
entries [] = []
entries (policy ∷ policies) = rule_entries policy.id policy.rules ++ entries policies

-- the loop of `ValidNeedsApproval`
needs_approval_loop : List String → List String → List String → Bool
needs_approval_loop capabilities seen [] = true
needs_approval_loop capabilities seen (value ∷ more) =
    let rest = needs_approval_loop capabilities (insert_key value seen) more in
    if not (value == clean value) || contains value seen || not (grants capabilities value)
    then false
    else if not (value == "delete" || value == "update")
    then false
    else rest

-- `ValidNeedsApproval`
unfoldable pub valid_needs_approval : Rule → Bool
unfolding needs_approval_loop
valid_needs_approval rule =
    let capabilities = capability_set rule.capabilities in
    if eqb (length rule.needs_approval) 0
    then true
    else if contains "deny" capabilities
        || is_typed rule
        || not (rule.visibility == "")
        || ltb 2 (length rule.needs_approval)
    then false
    else needs_approval_loop capabilities [] rule.needs_approval
