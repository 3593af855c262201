-- ===== src/Rbac/Evaluate/Invariant.antt =====
-- The loops of `Evaluate` keep: the tally says of the rules seen what `Spec` says of them.
use jolt.Prelude.{
  ℕ, ◌≡◌, refl, ap, ◌∙◌, String, Bool, ◌&&◌, ◌||◌, Option, List, [], ◌∷◌, ◌++◌, arith, ◌==◌, any,
  any-append, contains, contains-insert_key,
}
use mathlib.Core.List.{append-nil, append_assoc}
use jolt.Rbac.Policy.{Rule, Policy, Entry, entries, rule_entries, rule_matches, requires_approval}
use jolt.Rbac.Evaluate.{Tally, empty_tally, count_grant, count_rule, count_rules, count_policies}
use jolt.Rbac.Evaluate.Levels.{
  best_level, best_any, best_level-append, best_any-append, raised, joined,
}
use jolt.Rbac.Evaluate.Spec.{is_denial, grant_level}

module _ (path capability : String) where
  abbrev pub level : Entry → Option ℕ
  level = grant_level path capability

  abbrev pub is_marked : Entry → Bool
  is_marked e = requires_approval e.1 capability

  abbrev pub is_of : String → Entry → Bool
  is_of k e = e.0 == k

  pub record Counts (seen : List Entry) (t : Tally) : Type 0 where
    pub best : t.best ≡ best_level level seen
    pub needs_approval : t.needs_approval ≡ best_any level is_marked seen
    pub allowed : (k : String) → contains k t.allowed ≡ best_any level (is_of k) seen
    pub denied : (k : String) → contains k t.denied ≡ any (λ e. is_denial path e && is_of k e) seen

  module _ (t : Tally) (id : String) (rule : Rule) where
    abbrev after : Tally
    after = count_rule path capability id rule t

    count_rule-best : after.best ≡ raised (level (id, rule)) t.best
    unfolding count_rule count_grant grant_level raised
    count_rule-best = ground arith

    count_rule-needs_approval :
        after.needs_approval
        ≡ joined (level (id, rule)) t.best t.needs_approval (is_marked (id, rule))
    unfolding count_rule count_grant grant_level
    count_rule-needs_approval = ground arith

    count_rule-allowed :
        (k : String)
        → contains k after.allowed
          ≡ joined (level (id, rule)) t.best (contains k t.allowed) (is_of k (id, rule))
    unfolding count_rule count_grant grant_level contains
    count_rule-allowed k = ground (arith, contains-insert_key k id t.allowed)

    count_rule-denied :
        (k : String)
        → contains k after.denied
          ≡ (contains k t.denied || is_denial path (id, rule) && is_of k (id, rule))
    unfolding count_rule count_grant is_denial rule_matches
    count_rule-denied k = ground (arith, contains-insert_key k id t.denied)

  count_rule-Counts :
      (seen : List Entry) (t : Tally) (id : String) (rule : Rule)
      → Counts seen t
      → Counts (seen ++ ((id, rule) ∷ [])) (count_rule path capability id rule t)
  count_rule-Counts seen t id rule c = record {
    best =
        count_rule-best t id rule
        ∙ (rw (best_level-append level seen (id, rule)) (ap (raised (level (id, rule))) c.best));
    needs_approval =
        count_rule-needs_approval t id rule
        ∙ (rw (best_any-append level is_marked seen (id, rule)) (cc (c.best, c.needs_approval)));
    allowed = λ k.
        count_rule-allowed t id rule k
        ∙ (rw (best_any-append level (is_of k) seen (id, rule)) (cc (c.best, c.allowed k)));
    denied = λ k. rw (count_rule-denied t id rule k, c.denied k, any-append) (ground arith);
  }

  count_rules-Counts :
      (seen : List Entry) (t : Tally) (id : String) (rules : List Rule)
      → Counts seen t
      → Counts (seen ++ rule_entries id rules) (count_rules path capability id rules t)
  unfolding count_rules rule_entries
  count_rules-Counts seen t id [] c = rw append-nil c
  count_rules-Counts seen t id (rule ∷ rules) c = rw append_assoc at (
      count_rules-Counts (seen ++ ((id, rule) ∷ [])) (count_rule path capability id rule t) id rules
        (count_rule-Counts seen t id rule c))

  count_policies-Counts :
      (seen : List Entry) (t : Tally) (policies : List Policy)
      → Counts seen t
      → Counts (seen ++ entries policies) (count_policies path capability policies t)
  unfolding count_policies entries
  count_policies-Counts seen t [] c = rw append-nil c
  count_policies-Counts seen t (policy ∷ policies) c = rw append_assoc at (
      count_policies-Counts (seen ++ rule_entries policy.id policy.rules)
        (count_rules path capability policy.id policy.rules t) policies
        (count_rules-Counts seen t policy.id policy.rules c))

  Counts-empty : Counts [] empty_tally
  unfolding best_level best_any contains
  Counts-empty = record {
    best = refl;
    needs_approval = refl;
    allowed = λ k. refl;
    denied = λ k. refl;
  }

  pub tally-Counts :
      (policies : List Policy)
      → Counts (entries policies) (count_policies path capability policies empty_tally)
  tally-Counts policies = count_policies-Counts [] empty_tally policies Counts-empty
