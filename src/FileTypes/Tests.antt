-- ===== src/FileTypes/Tests.antt =====
-- Runs of the filter on a small context.
use jolt.Prelude.{
  all, length, ◌≤◌, ok, ◌≡◌, refl, String, Bool, true, false, ◌&&◌, ◌||◌, not, Option, none, some,
  List, [], ◌∷◌, ◌==◌, implies, trim_space, to_lower, if◌then◌else◌,
}
use jolt.FileTypes.Context.{Context, Filter, CompiledRule}
use jolt.FileTypes.Evaluate.{answerable, refused, evaluate}
use jolt.FileTypes.Evaluate.Laws.{verdict, evaluate-verdict}

abbrev pub photos : CompiledRule
photos = record {
  rule = record {
    policy_id = "reader";
    path = "media/photos/**";
    capabilities = "read" ∷ "list" ∷ "create" ∷ "update" ∷ "delete" ∷ [];
    file_types = none;
    visibility = "hidden";
  };
  matcher = none;
  caps = "read" ∷ "list" ∷ "create" ∷ "update" ∷ "delete" ∷ [];
}

abbrev pub filter : Filter
filter = photos ∷ []

evaluate-verdict_example : evaluate (some filter) "media/photos/cat.jpg" "read" "file" ≡ (
    let c = to_lower (trim_space "read") in
    if answerable "media/photos/cat.jpg" c "file"
    then verdict filter "media/photos/cat.jpg" c ("file" == "directory")
    else refused)
evaluate-verdict_example = evaluate-verdict filter "media/photos/cat.jpg" "read" "file"

evaluate_test : (evaluate (some filter) "media/photos/cat.jpg" "read" "file").allowed ≡ true
unfolding evaluate jolt.FileTypes.Evaluate.valid_resource jolt.Prelude.trim_slashes
    jolt.Prelude.has_double_slash jolt.Prelude.split jolt.Prelude.any_char jolt.Prelude.contains
    to_lower trim_space jolt.FileTypes.Evaluate.find_rule jolt.FileTypes.Evaluate.match_path
    jolt.FileTypes.Evaluate.match_parts jolt.FileTypes.Evaluate.matches_entry
    jolt.FileTypes.Evaluate.denies jolt.FileTypes.Evaluate.allows jolt.FileTypes.Evaluate.grants
evaluate_test = refl

abbrev context : Context
context = record { version = 1; rules = photos.rule ∷ [] }

-- the capabilities of a compiled rule are a set, in whatever order
abbrev compiled : Filter
compiled = record photos { caps = "delete" ∷ "update" ∷ "create" ∷ "list" ∷ "read" ∷ [] } ∷ []
