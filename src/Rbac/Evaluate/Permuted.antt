-- ===== src/Rbac/Evaluate/Permuted.antt =====
-- The order of the policies and of their rules does not matter.
use mathlib.Core.Bool.{Bool-set}
use mathlib.Core.Logic.{∥∥₁_elim}
use mathlib.Core.List.{Perm, Permᴰ}
use jolt.Prelude.{
  ℕ, ◌≡◌, refl, sym, ◌∙◌, String, Bool, ◌&&◌, Option, List, arith, ap, any, ◌==◌, contains, is_some,
}
use jolt.Rbac.Policy.{Policy, Decision, entries, clean, requires_approval}
use jolt.Rbac.Evaluate.{evaluate}
use jolt.Rbac.Evaluate.Order.Unique.{unique}
use jolt.Rbac.Evaluate.Ordered.{evaluate-in_order, evaluate-request}
use jolt.Rbac.Evaluate.Levels.{higher, at_level, best_level, best_any}
use jolt.Rbac.Evaluate.Laws.{
  denial, level, evaluate-denied, evaluate-allowed, evaluate-needs_approval, evaluate-policy_ids,
}

higher_swap : (a b c : Option ℕ) → higher a (higher b c) ≡ higher b (higher a c)
higher_swap a b c = ground arith

module _ {A : Type 0} where
  any-Permᴰ : (p : A → Bool) {xs ys : List A} → Permᴰ xs ys → any p xs ≡ any p ys
  any-Permᴰ p Permᴰ.nil = refl
  any-Permᴰ p (Permᴰ.cons e h) = cc (ap p e, any-Permᴰ p h)
  any-Permᴰ p (Permᴰ.swap e f) = ground (arith, ap p e, ap p f)
  any-Permᴰ p (Permᴰ.trans h k) = any-Permᴰ p h ∙ any-Permᴰ p k

  best_level-Permᴰ :
      (level : A → Option ℕ) {xs ys : List A}
      → Permᴰ xs ys
      → best_level level xs ≡ best_level level ys
  unfolding best_level
  best_level-Permᴰ level Permᴰ.nil = refl
  best_level-Permᴰ level (Permᴰ.cons e h) = cc (ap level e, best_level-Permᴰ level h)
  best_level-Permᴰ level (Permᴰ.swap {a'} {b'} {l} e f) =
      rw (ap level e, ap level f) (higher_swap (level b') (level a') (best_level level l))
  best_level-Permᴰ level (Permᴰ.trans h k) = best_level-Permᴰ level h ∙ best_level-Permᴰ level k

  best_any-Permᴰ :
      (level : A → Option ℕ) (q : A → Bool) {xs ys : List A}
      → Permᴰ xs ys
      → best_any level q xs ≡ best_any level q ys
  unfolding best_any
  best_any-Permᴰ level q {xs} {ys} h =
      any-Permᴰ (λ x. at_level (best_level level xs) (level x) && q x) h
      ∙ ap (λ b. any (λ x. at_level b (level x) && q x) ys) (best_level-Permᴰ level h)

-- Two decisions allow, deny and ask for approval alike, and name the same set of policies.
record SameDecision (a b : Decision) : Type 0 where
  pub denied : a.denied ≡ b.denied
  pub allowed : a.allowed ≡ b.allowed
  pub needs_approval : a.needs_approval ≡ b.needs_approval
  pub policy_ids : (k : String) → contains k a.policy_ids ≡ contains k b.policy_ids

module _ (path capability : String) (ps qs : List Policy)
    (h : Permᴰ (entries ps) (entries qs)) where
  same_denied : (evaluate ps path capability).denied ≡ (evaluate qs path capability).denied
  same_denied =
      evaluate-denied ps path capability
      ∙ any-Permᴰ (denial ps path capability) h
      ∙ sym (evaluate-denied qs path capability)

  same_allowed : (evaluate ps path capability).allowed ≡ (evaluate qs path capability).allowed
  same_allowed =
      evaluate-allowed ps path capability
      ∙ cc (
        any-Permᴰ (denial ps path capability) h,
        any-Permᴰ (λ e. is_some (level ps path capability e)) h,
      )
      ∙ sym (evaluate-allowed qs path capability)

  same_needs_approval :
      (evaluate ps path capability).needs_approval ≡ (evaluate qs path capability).needs_approval
  same_needs_approval =
      evaluate-needs_approval ps path capability
      ∙ cc (
        same_allowed,
        best_any-Permᴰ (level ps path capability) (λ e. requires_approval e.1 (clean capability)) h,
      )
      ∙ sym (evaluate-needs_approval qs path capability)

  same_policy_ids :
      (k : String)
      → contains k (evaluate ps path capability).policy_ids
        ≡ contains k (evaluate qs path capability).policy_ids
  same_policy_ids k =
      evaluate-policy_ids ps path capability k
      ∙ cc (
        same_denied,
        any-Permᴰ (λ e. denial ps path capability e && e.0 == k) h,
        best_any-Permᴰ (level ps path capability) (λ e. e.0 == k) h,
      )
      ∙ sym (evaluate-policy_ids qs path capability k)

  permuted : SameDecision (evaluate ps path capability) (evaluate qs path capability)
  permuted = record {
    denied = same_denied;
    allowed = same_allowed;
    needs_approval = same_needs_approval;
    policy_ids = same_policy_ids;
  }

SameDecision-prop : (a b : Decision) → IsProp (SameDecision a b)
SameDecision-prop a b = hlevel (Bool-set)

decision_eq :
    (a b : Decision)
    → SameDecision a b
    → a.policy_ids ≡ b.policy_ids
    → a.path ≡ b.path
    → a.capability ≡ b.capability
    → a ≡ b
decision_eq a b d ids path capability = λ i. record {
  needs_approval = d.needs_approval i;
  allowed = d.allowed i;
  denied = d.denied i;
  policy_ids = ids i;
  path = path i;
  capability = capability i;
}

-- Policies and rules in another order decide every request alike: the decision is the same in every
-- field, the list of the policy ids included.
pub evaluate-permuted :
    (ps qs : List Policy) (path capability : String)
    → Perm (entries ps) (entries qs)
    → evaluate ps path capability ≡ evaluate qs path capability
evaluate-permuted ps qs path capability h =
    let alike = ∥∥₁_elim h (SameDecision-prop _ _) (permuted path capability ps qs) in
    let (path_p, capability_p) = evaluate-request ps path capability in
    let (path_q, capability_q) = evaluate-request qs path capability in
    decision_eq (evaluate ps path capability) (evaluate qs path capability) alike
      (unique (evaluate ps path capability).policy_ids (evaluate qs path capability).policy_ids
        (evaluate-in_order ps path capability) (evaluate-in_order qs path capability)
        alike.policy_ids)
      (path_p ∙ sym path_q) (capability_p ∙ sym capability_q)
