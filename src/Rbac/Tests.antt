-- ===== src/Rbac/Tests.antt =====
-- Runs of the path evaluator and of the scope tests on small policies.

use mathlib.Core.List.{Permᴰ}
use jolt.Prelude.{
  implies, ◌||◌, ◌≡◌, ◌⊎◌, refl, String, Bool, true, false, ◌&&◌, not, Option, none, some, List, [],
  ◌∷◌, ◌++◌, ◌==◌, any, contains, is_some, if◌then◌else◌,
}
use jolt.FileTypes.Evaluate.{match_parts, split_recursive}
use jolt.Rbac.Path.{normalize_path}
use jolt.Rbac.Policy.{Rule, Policy, entries, clean, requires_approval, rule_matches}
use jolt.Rbac.Evaluate.{evaluate}
use jolt.Rbac.Evaluate.Levels.{best_any}
use jolt.Rbac.Evaluate.Laws.{
  denial, level, evaluate-denied, evaluate-allowed, evaluate-needs_approval,
}
use jolt.Rbac.Evaluate.Permuted.{evaluate-permuted}
use jolt.Rbac.Typed.{approval_marked}
use jolt.Rbac.Approval.{approval_marked-eq-evaluate}
use jolt.Rbac.Scope.{deny_reaches_scope, denies_within}
use jolt.Rbac.Scope.Reach.{deny_reaches_scope_exact}
use jolt.Rbac.Scope.Denied.{denies_within-of_denied}

abbrev photos : Rule
photos = record {
  path = "media/photos/**";
  capabilities = "read" ∷ "list" ∷ "delete" ∷ [];
  file_types = none;
  visibility = "";
  needs_approval = "delete" ∷ [];
}

abbrev private : Rule
private = record photos {
  path = "media/photos/private";
  capabilities = "deny" ∷ [];
  needs_approval = [];
}

abbrev reader : Policy
reader = record { id = "reader"; name = "Reader"; rules = photos ∷ [] }

abbrev guard : Policy
guard = record { id = "guard"; name = "Guard"; rules = private ∷ [] }

abbrev both : List Policy
both = reader ∷ guard ∷ []

evaluate-denied_example :
    (evaluate both "media/photos/private" "read").denied
    ≡ any (denial both "media/photos/private" "read") (entries both)
evaluate-denied_example = evaluate-denied both "media/photos/private" "read"

evaluate-allowed_example : (evaluate both "media/photos/cat.jpg" "read").allowed ≡ (
    not (any (denial both "media/photos/cat.jpg" "read") (entries both))
    && any (λ e. is_some (level both "media/photos/cat.jpg" "read" e)) (entries both))
evaluate-allowed_example = evaluate-allowed both "media/photos/cat.jpg" "read"

evaluate-needs_approval_example : (evaluate both "media/photos/cat.jpg" "delete").needs_approval ≡ (
    (evaluate both "media/photos/cat.jpg" "delete").allowed
    && best_any
        (level both "media/photos/cat.jpg" "delete")
        (λ e. requires_approval e.1 (clean "delete"))
        (entries both))
evaluate-needs_approval_example = evaluate-needs_approval both "media/photos/cat.jpg" "delete"

evaluate-permuted_example :
    evaluate both "media/photos/cat.jpg" "read"
    ≡ evaluate (guard ∷ reader ∷ []) "media/photos/cat.jpg" "read"
unfolding entries
evaluate-permuted_example =
    evaluate-permuted both (guard ∷ reader ∷ []) "media/photos/cat.jpg" "read"
      ∣ Permᴰ.swap refl refl ∣₁

approval_marked-eq-evaluate_example :
    approval_marked both (normalize_path "media/photos/cat.jpg") (clean "delete")
    ≡ (evaluate both "media/photos/cat.jpg" "delete").needs_approval
unfolding evaluate jolt.Rbac.Evaluate.count_policies jolt.Rbac.Evaluate.count_rule
    jolt.Rbac.Policy.match match_parts jolt.Prelude.split normalize_path jolt.Prelude.trim_slashes
    jolt.Prelude.trim_space jolt.Prelude.strip_prefix contains jolt.Rbac.Policy.capability_set
    jolt.Prelude.insert_key jolt.Prelude.to_lower jolt.FileTypes.Evaluate.grants
    jolt.Rbac.Evaluate.count_grant
approval_marked-eq-evaluate_example =
    approval_marked-eq-evaluate both "media/photos/cat.jpg" "delete" refl

deny_reaches_scope_exact_example :
    ((deny_reaches_scope ("media" ∷ "**" ∷ []) ("media" ∷ "photos" ∷ []) ≡ true)
      × ((more : List String) × (is_some
              (match_parts ("media" ∷ "**" ∷ []) (("media" ∷ "photos" ∷ []) ++ more))
            ≡ true)))
    ⊎ ((deny_reaches_scope ("media" ∷ "**" ∷ []) ("media" ∷ "photos" ∷ []) ≡ false)
        × (is_some (match_parts ("media" ∷ "**" ∷ []) (("media" ∷ "photos" ∷ []) ++ ("a" ∷ [])))
            ≡ false))
deny_reaches_scope_exact_example =
    deny_reaches_scope_exact ("media" ∷ "**" ∷ []) ("media" ∷ "photos" ∷ []) ("a" ∷ []) refl

denies_within-of_denied_example : denies_within both "media/photos" ≡ true
unfolding jolt.Prelude.split normalize_path jolt.Prelude.trim_slashes jolt.Prelude.trim_space
    jolt.Prelude.strip_prefix evaluate jolt.Rbac.Evaluate.count_policies
    jolt.Rbac.Evaluate.count_rule jolt.Rbac.Policy.match match_parts contains
    jolt.Rbac.Policy.capability_set jolt.Prelude.insert_key jolt.Prelude.to_lower
    jolt.FileTypes.Evaluate.grants jolt.Rbac.Evaluate.count_grant
denies_within-of_denied_example =
    denies_within-of_denied "media/photos/private" "media/photos" ("private" ∷ []) refl both "read"
      refl

-- images alone may be read
abbrev images : Policy
images = record {
  id = "images";
  name = "Images";
  rules =
      record photos {
        file_types = some (record { classes = "image" ∷ []; extensions = []; names = [] });
        needs_approval = [];
      }
      ∷ [];
}
