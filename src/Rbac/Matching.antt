-- ===== src/Rbac/Matching.antt =====
-- rbac.go: `MatchingRules`
use jolt.Prelude.{String, ◌&&◌, ◌||◌, not, Option, List, [], ◌∷◌, ◌==◌, eqb, length, if◌then◌else◌}
use jolt.FileTypes.Selector.{Selector}
use jolt.FileTypes.Evaluate.{grants}
use jolt.Rbac.Path.{normalize_path}
use jolt.Rbac.Policy.{
  Rule, Policy, Entry, entries, capability_set, clean, rule_matches, has_deny, is_typed,
}

pub record RuleMatch : Type 0 where
  pub policy_id : String
  pub path : String
  pub capabilities : List String
  pub effect : String
  pub file_types : Option Selector
  pub visibility : String
  pub needs_approval : List String

-- the `switch` of the loop
unfoldable pub rule_effect : Rule → String → String
rule_effect rule capability =
    let capabilities = capability_set rule.capabilities in
    let granted = grants capabilities capability in
    if has_deny rule && not (is_typed rule)
    then "deny"
    else if has_deny rule && (eqb (length capabilities) 1 || granted)
    then "typed_deny"
    else if not (has_deny rule) && granted && is_typed rule
    then "typed_allow"
    else if not (has_deny rule) && granted
    then "allow"
    else ""

abbrev rule_match : String → Rule → String → RuleMatch
rule_match id rule effect = record {
  policy_id = id;
  path = normalize_path rule.path;
  capabilities = rule.capabilities;
  effect = effect;
  file_types = rule.file_types;
  visibility = rule.visibility;
  needs_approval = rule.needs_approval;
}

matching_entries : String → String → List Entry → List RuleMatch
unfolding rule_effect
matching_entries path capability [] = []
matching_entries path capability ((id, rule) ∷ more) =
    let rest = matching_entries path capability more in
    let effect = rule_effect rule capability in
    if not (rule_matches rule path)
    then rest
    else if effect == ""
    then rest
    else rule_match id rule effect ∷ rest

unfoldable pub matching_rules : List Policy → String → String → List RuleMatch
unfolding matching_entries
matching_rules policies path capability =
    matching_entries (normalize_path path) (clean capability) (entries policies)
