-- ===== src/Rbac/Evaluate/Ordered.antt =====
-- The ids of a decision are a list in order, without repetitions.
use jolt.Prelude.{
  ◌≡◌, refl, String, Bool, true, ◌&&◌, List, [], ◌∷◌, arith, contains, insert_key, Bool-cases, inl,
  inr, ltb, length,
}
use jolt.Rbac.Path.{normalize_path}
use jolt.Rbac.Policy.{Rule, Policy, clean}
use jolt.Rbac.Evaluate.{
  Tally, empty_tally, count_grant, count_rule, count_rules, count_policies, decide, evaluate,
}
use jolt.Rbac.Evaluate.Order.Unique.{in_order, no_repetition, sorted_keys-in_order}

insert_key-no_repetition :
    (k : String) (xs : List String)
    → no_repetition xs ≡ true
    → no_repetition (insert_key k xs) ≡ true
unfolding insert_key
insert_key-no_repetition k xs h = ground arith

-- the sets of ids are sets
abbrev is_proper : Tally → Bool
is_proper t = no_repetition t.allowed && no_repetition t.denied

module _ (path capability : String) where
  count_rule-is_proper :
      (id : String) (rule : Rule) (t : Tally)
      → is_proper t ≡ true
      → is_proper (count_rule path capability id rule t) ≡ true
  unfolding count_rule count_grant contains
  count_rule-is_proper id rule t h =
      ground (arith, insert_key-no_repetition id t.allowed, insert_key-no_repetition id t.denied)

  count_rules-is_proper :
      (id : String) (rules : List Rule) (t : Tally)
      → is_proper t ≡ true
      → is_proper (count_rules path capability id rules t) ≡ true
  unfolding count_rules
  count_rules-is_proper id [] t h = h
  count_rules-is_proper id (rule ∷ rules) t h =
      count_rules-is_proper id rules (count_rule path capability id rule t)
        (count_rule-is_proper id rule t h)

  count_policies-is_proper :
      (policies : List Policy) (t : Tally)
      → is_proper t ≡ true
      → is_proper (count_policies path capability policies t) ≡ true
  unfolding count_policies
  count_policies-is_proper [] t h = h
  count_policies-is_proper (policy ∷ policies) t h =
      count_policies-is_proper policies (count_rules path capability policy.id policy.rules t)
        (count_rules-is_proper policy.id policy.rules t h)

decide-in_order :
    (t : Tally) (path capability : String)
    → is_proper t ≡ true
    → in_order (decide t path capability).policy_ids ≡ true
unfolding decide
decide-in_order t path capability h = elim (Bool-cases (ltb 0 (length t.denied))) [
  | inl e ↦ rw e (sorted_keys-in_order t.denied (ground arith))
  | inr e ↦ elim (Bool-cases (ltb 0 (length t.allowed))) [
    | inl f ↦ rw (e, f) (sorted_keys-in_order t.allowed (ground arith))
    | inr f ↦ rw (e, f) refl
  ]
]

pub evaluate-in_order :
    (policies : List Policy) (path capability : String)
    → in_order (evaluate policies path capability).policy_ids ≡ true
unfolding evaluate
evaluate-in_order policies path capability =
    let p = normalize_path path in
    let c = clean capability in
    decide-in_order (count_policies p c policies empty_tally) p c
      (count_policies-is_proper p c policies empty_tally refl)

decide-of :
    (t : Tally) (path capability : String)
    → ((decide t path capability).path ≡ path)
      × ((decide t path capability).capability ≡ capability)
unfolding decide
decide-of t path capability = (ground arith, ground arith)

-- a decision names the request as the evaluator reads it
pub evaluate-request :
    (policies : List Policy) (path capability : String)
    → ((evaluate policies path capability).path ≡ normalize_path path)
      × ((evaluate policies path capability).capability ≡ clean capability)
unfolding evaluate
evaluate-request policies path capability =
    let p = normalize_path path in
    let c = clean capability in decide-of (count_policies p c policies empty_tally) p c
