-- ===== src/FileTypes/Evaluate.antt =====
-- context.go: `Filter.Evaluate`
pub mod Laws
use Prim.Native.Nat.{ℕ, ◌+◌}
use jolt.Prelude.{
  String, Bool, true, false, ◌&&◌, ◌||◌, not, Option, none, some, List, [], ◌∷◌, ◌==◌, ltb, leb,
  eqb, if◌then◌else◌, length, len, any_char, trim_space, trim_slashes, split, to_lower, is_some,
  has_double_slash, contains, base_name,
}
use jolt.FileTypes.Selector.{matches}
use jolt.FileTypes.Context.{Filter, CompiledRule, valid_caps, is_control}

pub record Decision : Type 0 where
  pub allowed : Bool
  pub denied : Bool
  pub visibility : String
  pub restricted : Bool

-- The parts before a last part `**`, or all, and whether it was there.
unfoldable pub split_recursive : List String → List String × Bool
split_recursive [] = ([], false)
split_recursive (part ∷ []) = if part == "**" then ([], true) else (part ∷ [], false)
split_recursive (part ∷ next ∷ more) =
    let (parts, recursive) = split_recursive (next ∷ more) in (part ∷ parts, recursive)

-- The loop over the parts, with the score so far. A pattern longer than its target has been
-- refused before.
unfoldable pub score_parts : ℕ → List String → List String → Option ℕ
score_parts score [] target = some score
score_parts score (part ∷ parts) [] = none
score_parts score (part ∷ parts) (name ∷ target) =
    let literal = score_parts (score + (100 + len part)) parts target in
    if part == "*"
    then score_parts score parts target
    else if not (part == name)
    then none
    else literal

-- The matching of a split pattern against a split path: `none` for no match, or the specificity.
unfoldable pub match_parts : List String → List String → Option ℕ
unfolding split_recursive score_parts
match_parts pattern target =
    let (parts, recursive) = split_recursive pattern in
    if recursive
    then (if ltb (length target) (length parts) then none else score_parts 0 parts target)
    else if not (eqb (length parts) (length target))
    then none
    else elim (score_parts 0 parts target) [ none ↦ none | some s ↦ some (s + length parts) ]

-- `matchPath`
unfoldable pub match_path : String → String → Option ℕ
match_path pattern value = match_parts (split (trim_slashes pattern)) (split (trim_slashes value))

unfoldable pub grants : List String → String → Bool
grants caps capability =
    contains capability caps
    || contains "write" caps && (capability == "create" || capability == "update")

-- the loop of `validResource`, and of the control tower's `ValidResourcePath`
unfoldable pub valid_resource_parts : List String → Bool
unfolding is_control
valid_resource_parts [] = true
valid_resource_parts (part ∷ more) =
    let rest = valid_resource_parts more in
    if part == "" || part == "." || part == ".." || part == "*" || part == "**"
    then false
    else not (any_char (λ c. is_control c || eqb c b'\\') part) && rest

unfoldable pub valid_resource : String → Bool
unfolding valid_resource_parts
valid_resource raw =
    let value = trim_slashes raw in
    if value == "" || has_double_slash value then false else valid_resource_parts (split value)

-- What the loop of `Evaluate` has found so far; a `best` of `none` is the -1 that it starts with.
pub record Findings : Type 0 where
  pub best : Option ℕ
  pub denied : Bool
  pub found : Bool
  pub restricted : Bool
  pub any_hidden : Bool

abbrev pub no_findings : Findings
no_findings = record {
  best = none;
  denied = false;
  found = false;
  restricted = false;
  any_hidden = false;
}

-- `specificity >= best`
unfoldable pub reaches_best : ℕ → Option ℕ → Bool
reaches_best specificity none = true
reaches_best specificity (some best) = leb best specificity

abbrev is_lookup : String → Bool
is_lookup capability = capability == "read" || capability == "list"

-- One rule whose path matches, by what the loop computes of it: `typed` and `directory` of the
-- entry, `specificity`, `matches_type`, `deny`, `allow`, a lookup, and the rule's visibility.
classify :
    (typed directory has_deny matches_type deny allow lookup hidden : Bool)
    → ℕ
    → Findings
    → Findings
unfolding reaches_best
classify typed directory has_deny matches_type deny allow lookup hidden specificity f =
    if typed && directory && has_deny
    then f
    else (let omitted = typed && not matches_type && allow && lookup in
        let f' =
          if omitted
          then record f { restricted = true; any_hidden = f.any_hidden || hidden }
          else f in
        if not matches_type
        then f'
        else if deny
        then (if lookup
            then record f' {
              denied = true;
              restricted = true;
              any_hidden = f'.any_hidden || hidden;
            }
            else record f' { denied = true })
        else if allow && reaches_best specificity f'.best
        then record f' { best = some specificity; found = true }
        else f')

abbrev pub rule_typed : CompiledRule → Bool
rule_typed r = is_some r.matcher

-- `matchesType`
unfoldable pub matches_entry : CompiledRule → String → Bool → Bool
matches_entry r resource directory =
    not (rule_typed r) || directory || matches r.matcher (base_name resource) true

unfoldable pub denies : CompiledRule → String → Bool
denies r capability =
    contains "deny" r.caps
    && (not (rule_typed r) || eqb (length r.caps) 1 || grants r.caps capability)

unfoldable pub allows : CompiledRule → String → Bool
allows r capability = not (contains "deny" r.caps) && grants r.caps capability

-- one round of the loop of `Evaluate`
unfoldable pub find_rule : String → String → Bool → CompiledRule → Findings → Findings
unfolding classify
find_rule resource capability directory r f = elim (match_path r.rule.path resource) [
  | none ↦ f
  | some specificity ↦
      classify (rule_typed r) directory (contains "deny" r.caps)
        (matches_entry r resource directory) (denies r capability) (allows r capability)
        (is_lookup capability) (r.rule.visibility == "hidden") specificity f
]

unfoldable pub find_rules : String → String → Bool → Filter → Findings → Findings
find_rules resource capability directory [] f = f
find_rules resource capability directory (r ∷ rs) f =
    find_rules resource capability directory rs (find_rule resource capability directory r f)

unfoldable pub conclude : Findings → Decision
conclude f = record {
  allowed = f.found && not f.denied;
  denied = f.denied;
  visibility = if f.restricted && not f.any_hidden then "visible" else "hidden";
  restricted = f.restricted;
}

abbrev pub refused : Decision
refused = record { allowed = false; denied = false; visibility = "hidden"; restricted = false }

-- What `Evaluate` refuses to evaluate.
unfoldable pub answerable : String → String → String → Bool
answerable resource capability entry_type =
    valid_resource resource
    && contains capability valid_caps
    && not (capability == "deny")
    && (entry_type == "file" || entry_type == "directory")

-- `Filter.Evaluate`; a nil filter is `none`
unfoldable pub evaluate : Option Filter → String → String → String → Decision
unfolding find_rules conclude answerable
evaluate none resource raw entry_type = refused
evaluate (some rules) resource raw entry_type =
    let capability = to_lower (trim_space raw) in
    if answerable resource capability entry_type
    then conclude (find_rules resource capability (entry_type == "directory") rules no_findings)
    else refused
