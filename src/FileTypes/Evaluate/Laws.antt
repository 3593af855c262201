-- ===== src/FileTypes/Evaluate/Laws.antt =====
-- What `Filter.Evaluate` decides, from the rules alone.
use jolt.Prelude.{
  ◌≡◌, refl, String, Bool, true, false, ◌&&◌, ◌||◌, not, Option, none, some, [], ◌∷◌, arith, ◌==◌,
  implies, any, is_some, trim_space, to_lower, if◌then◌else◌,
}
use jolt.FileTypes.Context.{Filter, CompiledRule}
use jolt.FileTypes.Evaluate.{
  Findings, no_findings, reaches_best, Decision, match_path, rule_typed, matches_entry, denies,
  allows, find_rule, find_rules, conclude, answerable, refused, evaluate,
}

module _ (resource capability : String) (directory : Bool) where
  abbrev covers : CompiledRule → Bool
  covers r = is_some (match_path r.rule.path resource)

  -- The rule denies the entry: a typed denial says nothing of directories.
  unfoldable pub is_denial : CompiledRule → Bool
  is_denial r =
      covers r
      && not (rule_typed r && directory)
      && matches_entry r resource directory
      && denies r capability

  unfoldable pub is_grant : CompiledRule → Bool
  is_grant r = covers r && matches_entry r resource directory && allows r capability

  -- The rule restricts a lookup of the entry: it denies it, or its types leave the entry out.
  unfoldable pub is_restriction : CompiledRule → Bool
  is_restriction r =
      (capability == "read" || capability == "list")
      && (is_denial r
          || covers r
            && rule_typed r
            && not (matches_entry r resource directory)
            && allows r capability)

  abbrev pub is_hidden : CompiledRule → Bool
  is_hidden r = r.rule.visibility == "hidden"

  -- A specificity is kept only of a rule that was found to grant.
  abbrev is_backed : Findings → Bool
  is_backed f = implies (is_some f.best) f.found

  -- what the findings say when more rules have been seen
  record Added (rs : Filter) (f g : Findings) : Type 0 where
    backed : is_backed g ≡ true
    denied : g.denied ≡ (f.denied || any is_denial rs)
    found : g.found ≡ (f.found || any is_grant rs)
    restricted : g.restricted ≡ (f.restricted || any is_restriction rs)
    any_hidden : g.any_hidden ≡ (f.any_hidden || any (λ r. is_restriction r && is_hidden r) rs)

  find_rule-Added :
      (r : CompiledRule) (f : Findings)
      → is_backed f ≡ true
      → Added (r ∷ []) f (find_rule resource capability directory r f)
  unfolding find_rule is_denial is_grant is_restriction denies allows matches_entry reaches_best
  find_rule-Added r f b = ground arith

  find_rules-Added :
      (rs : Filter) (f : Findings)
      → is_backed f ≡ true
      → Added rs f (find_rules resource capability directory rs f)
  unfolding find_rules
  find_rules-Added [] f b = ground arith
  find_rules-Added (r ∷ rs) f b = ground (
    arith,
    find_rule-Added r f b,
    find_rules-Added rs (find_rule resource capability directory r f),
  )

-- The answer that the rules call for, with no loop.
unfoldable pub verdict : Filter → String → String → Bool → Decision
verdict rules resource capability directory =
    let denied = any (is_denial resource capability directory) rules in
    let restriction = is_restriction resource capability directory in
    record {
      allowed = any (is_grant resource capability directory) rules && not denied;
      denied = denied;
      visibility =
          if any restriction rules
            && not (any (λ r. restriction r && r.rule.visibility == "hidden") rules)
          then "visible"
          else "hidden";
      restricted = any restriction rules;
    }

conclude-verdict :
    (rules : Filter) (resource capability : String) (directory : Bool)
    → conclude (find_rules resource capability directory rules no_findings)
      ≡ verdict rules resource capability directory
unfolding conclude verdict
conclude-verdict rules resource capability directory =
    ground (arith, find_rules-Added resource capability directory rules no_findings refl)

-- A request that can be answered is denied just when a rule covers it with a denial that bears on
-- the entry and the capability, allowed just when some rule grants it and none denies it,
-- restricted just when it is a read or a list that a rule denies or whose types leave the entry
-- out, and visible just when it is restricted by visible rules alone. The order of the rules and
-- the specificity of their paths, which the loop compares, have no part in it. Any other request is
-- refused.
pub evaluate-verdict :
    (rules : Filter) (resource capability entry_type : String)
    → evaluate (some rules) resource capability entry_type ≡ (
        let c = to_lower (trim_space capability) in
        if answerable resource c entry_type
        then verdict rules resource c (entry_type == "directory")
        else refused)
unfolding evaluate
evaluate-verdict rules resource capability entry_type =
    rw (
      conclude-verdict rules resource (to_lower (trim_space capability))
        (entry_type == "directory"))

visible_word :
    (b r : Bool)
    → implies b r ≡ true
    → implies ((if b then "visible" else "hidden") == "visible") r ≡ true
visible_word true r h = h
visible_word false r h = refl

conclude_visibility :
    (f : Findings) → implies ((conclude f).visibility == "visible") (conclude f).restricted ≡ true
unfolding conclude
conclude_visibility f = visible_word (f.restricted && not f.any_hidden) f.restricted (ground arith)

coherent : Decision → Bool
coherent d = not (d.allowed && d.denied) && implies (d.visibility == "visible") d.restricted

coherent_choice : (b : Bool) (f : Findings) → coherent (if b then conclude f else refused) ≡ true
unfolding coherent conclude
coherent_choice true f = ground (arith, conclude_visibility f)
coherent_choice false f = refl

-- An answer never both allows and denies, and only a restricted answer shows a blocked entry.
pub evaluate_coherent :
    (filter : Option Filter) (resource capability entry_type : String)
    → let d = evaluate filter resource capability entry_type in
      (not (d.allowed && d.denied) && implies (d.visibility == "visible") d.restricted) ≡ true
unfolding evaluate coherent
evaluate_coherent none resource capability entry_type = refl
evaluate_coherent (some rules) resource capability entry_type =
    let c = to_lower (trim_space capability) in
    let directory = entry_type == "directory" in
    coherent_choice (answerable resource c entry_type)
      (find_rules resource c directory rules no_findings)
