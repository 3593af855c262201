-- ===== src/Rbac/Typed.antt =====
-- typed.go, and `approvalMarked` of rbac.go
pub mod Bounds
use Prim.Native.Nat.{ℕ}
use jolt.Prelude.{
  String, Bool, true, false, ◌&&◌, ◌||◌, not, Option, none, some, List, [], ◌∷◌, ◌++◌, ◌==◌, any,
  if◌then◌else◌, insert_key, ok, err,
}
use jolt.FileTypes.Context as Context
use jolt.FileTypes.Context.{Filter, compile_context}
use jolt.FileTypes.Evaluate as Node
use jolt.FileTypes.Evaluate.{grants}
use jolt.Rbac.Path.{normalize_path, valid_path, valid_resource_path}
use jolt.Rbac.Policy.{
  Rule, Policy, Decision, Entry, entries, capability_set, match, rule_matches, requires_approval,
  has_deny, is_typed,
}
use jolt.Rbac.Evaluate.{exceeds, equals, evaluate}
use jolt.Rbac.Evaluate.Order.{sorted_keys}

pub data EntryMode : Type 0 where
  every_entry node_filtered : EntryMode

-- `HasTypedRules`
unfoldable pub has_typed_rules : List Policy → String → Bool
has_typed_rules policies raw =
    let path = normalize_path raw in
    any
      (λ policy.
        any (λ rule. (is_typed rule || not (rule.visibility == "")) && rule_matches rule path)
          policy.rules)
      policies

-- The loop of `approvalMarked` over the rules of all policies, with `best` and `marked`.
unfoldable pub approval_loop : String → String → List Entry → Option ℕ → Bool → Bool
unfolding exceeds equals
approval_loop path capability [] best marked = marked
approval_loop path capability ((id, rule) ∷ more) best marked =
    let skip = approval_loop path capability more best marked in
    elim (match rule.path path) [
      | none ↦ skip
      | some specificity ↦
          let mark = requires_approval rule capability in
          let raise = approval_loop path capability more (some specificity) mark in
          let join = approval_loop path capability more best (marked || mark) in
          if is_typed rule
            || has_deny rule
            || not (grants (capability_set rule.capabilities) capability)
          then skip
          else if exceeds specificity best
          then raise
          else if equals specificity best
          then join
          else skip
    ]

unfoldable pub approval_marked : List Policy → String → String → Bool
unfolding approval_loop
approval_marked policies path capability =
    approval_loop path capability (entries policies) none false

-- the rule of the node's context
abbrev pub node_rule : String → Rule → Context.Rule
node_rule id rule = record {
  policy_id = id;
  path = normalize_path rule.path;
  capabilities = rule.capabilities;
  file_types = rule.file_types;
  visibility = rule.visibility;
}

-- the loops of `compileTyped`, with the rules gathered so far
unfoldable pub gather_rules : String → List Entry → List Context.Rule → Option (List Context.Rule)
gather_rules path [] rules = some rules
gather_rules path ((id, rule) ∷ more) rules =
    let skip = gather_rules path more rules in
    let take = gather_rules path more (rules ++ (node_rule id rule ∷ [])) in
    if not (rule_matches rule path) then skip else if not (valid_path rule.path) then none else take

-- `compileTyped`; `none` is `nil, false`
unfoldable pub compile_typed : List Policy → String → Option Filter
unfolding gather_rules
compile_typed policies path = elim (gather_rules path (entries policies) []) [
  | none ↦ none
  | some rules ↦ elim (compile_context (record { version = 1; rules = rules })) [
    | err _ ↦ none
    | ok filter ↦ if not (valid_resource_path path) then none else some filter
  ]
]

matching_loop : String → List Entry → List String → List String
matching_loop path [] ids = ids
matching_loop path ((id, rule) ∷ more) ids =
    matching_loop path more (if rule_matches rule path then insert_key id ids else ids)

-- `matchingPolicyIDs`
unfoldable pub matching_policy_ids : List Policy → String → List String
unfolding matching_loop
matching_policy_ids policies path = sorted_keys (matching_loop path (entries policies) [])

-- how the two answers are joined
join_answers : EntryMode → Node.Decision → Node.Decision → Bool × Bool
join_answers node_filtered file directory =
    (file.allowed || directory.allowed, file.denied && directory.denied)
join_answers every_entry file directory =
    (file.allowed && directory.allowed, file.denied || directory.denied)

-- `EvaluateTyped`
unfoldable pub evaluate_typed : List Policy → String → String → EntryMode → Decision
unfolding join_answers
evaluate_typed policies raw capability mode =
    let path = normalize_path raw in
    if not (has_typed_rules policies path)
    then evaluate policies path capability
    else elim (compile_typed policies path) [
      | none ↦ evaluate policies path capability
      | some filter ↦
          let (may, denied) =
            join_answers mode (Node.evaluate (some filter) path capability "file")
              (Node.evaluate (some filter) path capability "directory") in
          let allowed = may && not denied in
          record {
            needs_approval = allowed && approval_marked policies path capability;
            allowed = allowed;
            denied = denied;
            policy_ids = matching_policy_ids policies path;
            path = path;
            capability = capability;
          }
    ]

pub record EntryDecision : Type 0 where
  pub decision : Decision
  pub visibility : String
  pub typed : Bool

-- `EvaluateEntry`
unfoldable pub evaluate_entry : List Policy → String → String → String → EntryDecision
evaluate_entry policies raw capability entry_type =
    let path = normalize_path raw in
    if not (has_typed_rules policies path)
    then record { decision = evaluate policies path capability; visibility = ""; typed = false }
    else elim (compile_typed policies path) [
      | none ↦ record {
        decision = evaluate policies path capability;
        visibility = "";
        typed = true;
      }
      | some filter ↦
          let result = Node.evaluate (some filter) path capability entry_type in
          let allowed = result.allowed && not result.denied in
          record {
            decision = record {
              needs_approval = allowed && approval_marked policies path capability;
              allowed = allowed;
              denied = result.denied;
              policy_ids = matching_policy_ids policies path;
              path = path;
              capability = capability;
            };
            visibility = if result.restricted && not allowed then result.visibility else "";
            typed = true;
          }
    ]
