-- ===== src/Rbac/Scope/Denied.antt =====
-- The operations on whole subtrees refuse where a denial could hide below their root.
use jolt.Prelude.{
  ◌≡◌, refl, sym, ap, ◌∙◌, String, Bool, true, ◌||◌, List, [], ◌∷◌, ◌++◌, arith, any, any-append,
  any_mono, is_some,
}
use jolt.FileTypes.Evaluate.{match_parts}
use jolt.Rbac.Path.{normalize_path}
use jolt.Rbac.Policy.{Rule, Policy, Entry, entries, rule_entries, match, rule_matches}
use jolt.Rbac.Evaluate.{evaluate}
use jolt.Rbac.Evaluate.Spec.{is_denial}
use jolt.Rbac.Evaluate.Laws.{evaluate-denied}
use jolt.Rbac.Scope.{deny_reaches_scope, segments, denies_within, rule_touches_scope}
use jolt.Rbac.Scope.Reach.{deny_reaches_scope-of_match}

any-rule_entries :
    (p : Entry → Bool) (id : String) (rules : List Rule)
    → any p (rule_entries id rules) ≡ any (λ rule. p (id, rule)) rules
unfolding rule_entries
any-rule_entries p id [] = refl
any-rule_entries p id (rule ∷ rules) = ap (λ b. p (id, rule) || b) (any-rule_entries p id rules)

pub any-entries :
    (p : Entry → Bool) (policies : List Policy)
    → any p (entries policies)
      ≡ any (λ policy. any (λ rule. p (policy.id, rule)) policy.rules) policies
unfolding entries
any-entries p [] = refl
any-entries p (policy ∷ policies) =
    any-append p (rule_entries policy.id policy.rules) (entries policies)
    ∙ rw (any-rule_entries p policy.id policy.rules, any-entries p policies)

-- A rule that covers a path at or below the scope reaches the scope.
rule_matches-reaches :
    (rule : Rule) (path scope : String) (rest : List String)
    → segments path ≡ segments scope ++ rest
    → rule_matches rule path ≡ true
    → deny_reaches_scope (segments rule.path) (segments scope) ≡ true
unfolding rule_matches match
rule_matches-reaches rule path scope rest below h =
    deny_reaches_scope-of_match (segments rule.path) (segments scope) rest
      (ap (λ t. is_some (match_parts (segments rule.path) t)) (sym below) ∙ h)

module _ (path scope : String) (rest : List String)
    (below : segments (normalize_path path) ≡ segments scope ++ rest) where
  -- If a request for a path at or below a scope is denied, an operation on the whole subtree of the
  -- scope is refused.
  pub denies_within-of_denied :
      (policies : List Policy) (capability : String)
      → (evaluate policies path capability).denied ≡ true
      → denies_within policies scope ≡ true
  unfolding denies_within is_denial
  denies_within-of_denied policies capability h =
      any_mono _ _ policies
        (λ policy. any_mono _ _ policy.rules (λ rule k.
          ground (arith, rule_matches-reaches rule (normalize_path path) scope rest below)))
        ((sym (any-entries (is_denial (normalize_path path)) policies)
            ∙ sym (evaluate-denied policies path capability))
          ∙ h)

-- A rule that covers a path at or below a scope is never left out of the scope's context.
pub rule_touches_scope-of_match :
    (rule : Rule) (path scope : String) (rest : List String)
    → segments path ≡ segments scope ++ rest
    → rule_matches rule path ≡ true
    → rule_touches_scope rule.path scope ≡ true
unfolding rule_touches_scope
rule_touches_scope-of_match rule path scope rest below h =
    ground (arith, rule_matches-reaches rule path scope rest below h)
