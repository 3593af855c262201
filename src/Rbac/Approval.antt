-- ===== src/Rbac/Approval.antt =====
-- `approvalMarked` of rbac.go gives the mark of the path rules that `Evaluate` gives.
use mathlib.Core.List.{append-nil, append_assoc}
use jolt.Prelude.{ℕ, ◌≡◌, refl, sym, ◌∙◌, String, Bool, true, Option, List, [], ◌∷◌, ◌++◌, arith}
use jolt.Rbac.Path.{normalize_path}
use jolt.Rbac.Policy.{Rule, Policy, Entry, entries, clean, requires_approval}
use jolt.Rbac.Evaluate.{evaluate}
use jolt.Rbac.Evaluate.Levels.{
  best_level, best_any, best_level-append, best_any-append, raised, joined,
}
use jolt.Rbac.Evaluate.Spec.{grant_level}
use jolt.Rbac.Evaluate.Laws.{evaluate-needs_approval}
use jolt.Rbac.Typed.{approval_loop, approval_marked}

module _ (path capability : String) where
  abbrev level : Entry → Option ℕ
  level = grant_level path capability

  abbrev is_marked : Entry → Bool
  is_marked e = requires_approval e.1 capability

  approval_loop-step :
      (id : String) (rule : Rule) (es : List Entry) (best : Option ℕ) (marked : Bool)
      → approval_loop path capability ((id, rule) ∷ es) best marked
        ≡ approval_loop path capability es
            (raised (level (id, rule)) best)
            (joined (level (id, rule)) best marked (is_marked (id, rule)))
  unfolding approval_loop grant_level raised
  approval_loop-step id rule es best marked = ground arith

  approval_loop-best_any :
      (seen es : List Entry)
      → approval_loop path capability es (best_level level seen) (best_any level is_marked seen)
        ≡ best_any level is_marked (seen ++ es)
  approval_loop-best_any seen [] = rw append-nil (unfold approval_loop in refl)
  approval_loop-best_any seen ((id, rule) ∷ es) =
      approval_loop-step id rule es (best_level level seen) (best_any level is_marked seen)
      ∙ rw
          (
            ← best_level-append level seen (id, rule),
            ← best_any-append level is_marked seen (id, rule),
          )
          (rw append_assoc at (approval_loop-best_any (seen ++ ((id, rule) ∷ [])) es))

  pub approval_marked-best_any :
      (policies : List Policy)
      → approval_marked policies path capability ≡ best_any level is_marked (entries policies)
  unfolding approval_marked
  approval_marked-best_any policies =
      unfold best_level best_any in approval_loop-best_any [] (entries policies)

-- For an allowed request, the mark of the path and the capability as the path evaluator reads them,
-- the path normalized and the capability trimmed and in lower case, is the one that it gives.
pub approval_marked-eq-evaluate :
    (policies : List Policy) (path capability : String)
    → (evaluate policies path capability).allowed ≡ true
    → approval_marked policies (normalize_path path) (clean capability)
      ≡ (evaluate policies path capability).needs_approval
approval_marked-eq-evaluate policies path capability h =
    approval_marked-best_any (normalize_path path) (clean capability) policies
    ∙ sym (evaluate-needs_approval policies path capability ∙ rw h)
