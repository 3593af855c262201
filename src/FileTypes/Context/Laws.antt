-- ===== src/FileTypes/Context/Laws.antt =====
-- What a context that compiles has shown.
use jolt.Prelude.{
  ◌≤◌, ◌≡◌, refl, String, Bool, true, ◌&&◌, ◌||◌, Option, none, some, List, [], ◌∷◌, arith, ◌==◌,
  length, all, contains, insert_key, is_some, implies, trim_space, to_lower, ok, Result-cases, inl,
  inr,
}
use jolt.FileTypes.Selector.{Selector, Matcher, compile}
use jolt.FileTypes.Context.{
  Rule, Context, CompiledRule, Filter, valid_caps, valid_pattern, compile_caps, compile_selector,
  bad_rule_shape, compile_rule, compile_rules, compile_context, max_context_rules,
}

all-insert_key :
    (p : String → Bool) (k : String) (xs : List String)
    → p k ≡ true
    → all p xs ≡ true
    → all p (insert_key k xs) ≡ true
unfolding insert_key
all-insert_key p k xs h a = ground arith

abbrev pub is_capability : String → Bool
is_capability cap = contains cap valid_caps

compile_caps-valid :
    (caps more out : List String)
    → all is_capability caps ≡ true
    → compile_caps caps more ≡ ok out
    → all is_capability out ≡ true
unfolding compile_caps
compile_caps-valid caps [] out a h = ground arith
compile_caps-valid caps (raw ∷ more) out a h =
    let cap = to_lower (trim_space raw) in
    ground (
      arith,
      all-insert_key is_capability cap caps,
      compile_caps-valid (insert_key cap caps) more out,
    )

-- A compiled rule has a valid pattern, a visibility, and valid capabilities, and a matcher if it is
-- typed.
unfoldable pub well_compiled : CompiledRule → Bool
well_compiled r =
    valid_pattern r.rule.path
    && (r.rule.visibility == "hidden" || r.rule.visibility == "visible")
    && all is_capability r.caps
    && implies (is_some r.rule.file_types) (is_some r.matcher)

compile_selector-typed :
    (s : Option Selector) (m : Option Matcher)
    → compile_selector s ≡ ok m
    → implies (is_some s) (is_some m) ≡ true
unfolding compile_selector
compile_selector-typed none m h = refl
compile_selector-typed (some s) m h = elim (Result-cases (compile s)) [
  | inl (a, e) ↦ ground arith
  | inr (x, e) ↦ absurd (ground arith)
]

compiled_by :
    (raw : Rule) (c : CompiledRule) (caps : List String) (m : Option Matcher)
    → compile_caps [] raw.capabilities ≡ ok caps
    → compile_selector raw.file_types ≡ ok m
    → compile_rule raw ≡ ok c
    → well_compiled c ≡ true
unfolding compile_rule well_compiled bad_rule_shape
compiled_by raw c caps m e g h =
    ground
      (arith, compile_caps-valid [] raw.capabilities caps, compile_selector-typed raw.file_types m)

compile_rule-well_compiled :
    (raw : Rule) (c : CompiledRule) → compile_rule raw ≡ ok c → well_compiled c ≡ true
compile_rule-well_compiled raw c h = elim (Result-cases (compile_caps [] raw.capabilities)) [
  | inr (x, e) ↦ absurd (unfold compile_rule in ground arith)
  | inl (caps, e) ↦ elim (Result-cases (compile_selector raw.file_types)) [
    | inr (x, g) ↦ absurd (unfold compile_rule in ground arith)
    | inl (m, g) ↦ compiled_by raw c caps m e g h
  ]
]

compile_rules-well_compiled :
    (raws : List Rule) (f : Filter)
    → compile_rules raws ≡ ok f
    → (all well_compiled f ≡ true) × (length f ≡ length raws)
unfolding compile_rules
compile_rules-well_compiled [] f h = (ground arith, ground arith)
compile_rules-well_compiled (r ∷ raws) f h = elim (Result-cases (compile_rule r)) [
  | inr (x, e) ↦ absurd (ground arith)
  | inl (c, e) ↦ elim (Result-cases (compile_rules raws)) [
    | inr (x, g) ↦ absurd (ground arith)
    | inl (cs, g) ↦
        let (well, same) = compile_rules-well_compiled raws cs g in
        (ground (arith, compile_rule-well_compiled r c e), ground arith)
  ]
]

-- A context that compiles has at most as many rules as are allowed, and is compiled rule by rule:
-- each compiled rule has a valid pattern, a visibility, valid capabilities and, if it is typed, a
-- matcher.
pub compile_context-well_compiled :
    (c : Context) (f : Filter)
    → compile_context c ≡ ok f
    → (all well_compiled f ≡ true) × (length f ≡ length c.rules) × (length f ≤ max_context_rules)
unfolding compile_context
compile_context-well_compiled c f h =
    let rules = compile_rules-well_compiled c.rules f in
    (ground (arith, rules), ground (arith, rules), ground (arith, rules))
