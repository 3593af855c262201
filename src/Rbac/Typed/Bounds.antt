-- ===== src/Rbac/Typed/Bounds.antt =====
-- The modes of `EvaluateTyped` bound what `EvaluateEntry` answers for the real kind of the entry.
use jolt.Prelude.{◌≡◌, String, Bool, true, ◌&&◌, ◌||◌, List, arith, implies}
use jolt.Rbac.Policy.{Policy}
use jolt.Rbac.Typed.{
  EntryMode, every_entry, node_filtered, join_answers, evaluate_typed, evaluate_entry,
}

module _ (policies : List Policy) (path capability : String) where
  abbrev pub entry_allowed : String → Bool
  entry_allowed entry_type = (evaluate_entry policies path capability entry_type).decision.allowed

  abbrev pub mode_allowed : EntryMode → Bool
  mode_allowed mode = (evaluate_typed policies path capability mode).allowed

  -- A request that is allowed for every entry is allowed for a file and for a directory, and one that
  -- is allowed for either is not refused where the node filters: the first mode never grants too
  -- much, and the second never stops what the node would allow.
  pub evaluate_typed_bounds :
      (implies (mode_allowed every_entry) (entry_allowed "file" && entry_allowed "directory")
        ≡ true)
      × (implies (entry_allowed "file" || entry_allowed "directory") (mode_allowed node_filtered)
          ≡ true)
  unfolding evaluate_typed evaluate_entry join_answers
  evaluate_typed_bounds = (ground arith, ground arith)
