-- ===== src/Rbac/Evaluate.antt =====
-- rbac.go: `Evaluate`
pub mod Order
pub mod Levels
pub mod Spec
pub mod Invariant
pub mod Laws
pub mod Ordered
pub mod Permuted
use Prim.Native.Nat.{ℕ}
use jolt.Prelude.{
  String, Bool, true, false, ◌&&◌, ◌||◌, not, Option, none, some, List, [], ◌∷◌, ◌==◌, eqb, ltb,
  if◌then◌else◌, length, insert_key,
}
use jolt.FileTypes.Evaluate.{grants}
use jolt.Rbac.Path.{normalize_path}
use jolt.Rbac.Policy.{
  Rule, Policy, Decision, capability_set, clean, match, requires_approval, has_deny, is_typed,
}
use Order.{sorted_keys}

-- The variables of the loop. `bestSpecificity` is `none` for -1; the maps of ids are sets.
pub record Tally : Type 0 where
  pub best : Option ℕ
  pub needs_approval : Bool
  pub allowed : List String
  pub denied : List String

abbrev pub empty_tally : Tally
empty_tally = record { best = none; needs_approval = false; allowed = []; denied = [] }

-- `specificity > bestSpecificity`
unfoldable pub exceeds : ℕ → Option ℕ → Bool
exceeds s none = true
exceeds s (some b) = ltb b s

-- `specificity == bestSpecificity`
unfoldable pub equals : ℕ → Option ℕ → Bool
equals s none = false
equals s (some b) = eqb s b

-- a rule that grants the capability at a specificity
unfoldable pub count_grant : String → Bool → ℕ → Tally → Tally
unfolding exceeds equals
count_grant id marked specificity t =
    if exceeds specificity t.best
    then record t { best = some specificity; needs_approval = marked; allowed = id ∷ [] }
    else if equals specificity t.best
    then record t { needs_approval = t.needs_approval || marked; allowed = insert_key id t.allowed }
    else t

-- one round of the inner loop
unfoldable pub count_rule : String → String → String → Rule → Tally → Tally
count_rule path capability id rule t = elim (match rule.path path) [
  | none ↦ t
  | some specificity ↦
      if is_typed rule && not (has_deny rule)
      then t
      else if has_deny rule
      then record t { denied = insert_key id t.denied }
      else if not (grants (capability_set rule.capabilities) capability)
      then t
      else count_grant id (requires_approval rule capability) specificity t
]

unfoldable pub count_rules : String → String → String → List Rule → Tally → Tally
count_rules path capability id [] t = t
count_rules path capability id (rule ∷ rules) t =
    count_rules path capability id rules (count_rule path capability id rule t)

unfoldable pub count_policies : String → String → List Policy → Tally → Tally
unfolding count_rules
count_policies path capability [] t = t
count_policies path capability (policy ∷ policies) t =
    count_policies path capability policies (count_rules path capability policy.id policy.rules t)

abbrev pub undecided : String → String → Decision
undecided path capability = record {
  needs_approval = false;
  allowed = false;
  denied = false;
  policy_ids = [];
  path = path;
  capability = capability;
}

-- what `Evaluate` does behind the loops
unfoldable pub decide : Tally → String → String → Decision
decide t path capability =
    if ltb 0 (length t.denied)
    then record (undecided path capability) { denied = true; policy_ids = sorted_keys t.denied }
    else if ltb 0 (length t.allowed)
    then record (undecided path capability) {
      allowed = true;
      needs_approval = t.needs_approval;
      policy_ids = sorted_keys t.allowed;
    }
    else undecided path capability

-- `Evaluate`
unfoldable pub evaluate : List Policy → String → String → Decision
unfolding decide
evaluate policies raw_path raw_capability =
    let path = normalize_path raw_path in
    let capability = clean raw_capability in
    decide (count_policies path capability policies empty_tally) path capability
