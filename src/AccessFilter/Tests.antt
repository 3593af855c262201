-- ===== src/AccessFilter/Tests.antt =====
-- Runs of the access filter of a mount of photographs.
use jolt.Prelude.{
  arith, ◌≡◌, refl, ◌≢◌, String, Bool, true, false, ◌&&◌, ◌||◌, not, Option, none, some, List, [],
  ◌∷◌, ◌==◌, eq_iff, any, implies, split, Result, ok, err,
}
use jolt.FileTypes.Tests.{filter}
use jolt.AccessFilter.Decide.{
  AccessFilter, FileKind, directory, regular, not_exist, decide, admits, check_root, kind_name,
}
use jolt.AccessFilter.Tree.{
  Visit, MoveVisit, leaves_mount, granted, validate_filtered_delete_tree, validate_filtered_move,
  validate_filtered_file_destination,
}
use jolt.AccessFilter.Laws.{is_regular, is_directory, answer, decide_sound}
use jolt.AccessFilter.TreeLaws.{
  All, IsDeletable, IsMovable, validate_filtered_delete_tree-All, validate_filtered_move-All,
}

abbrev photos : AccessFilter
photos = record { context = some filter; base = "media/photos" }

decide_sound_example :
    let d = decide (some photos) "cat.jpg" (some regular) in
    (implies d.readable (is_regular regular && (answer photos "cat.jpg" "read" "file").allowed)
      ≡ true)
    × (implies d.traversable
          (is_directory regular && (answer photos "cat.jpg" "list" "directory").allowed)
        ≡ true)
    × (implies d.blocked (d.visible && not d.readable && not d.traversable) ≡ true)
decide_sound_example = decide_sound photos "cat.jpg" regular

abbrev pets : Visit
pets = record {
  is_root = true;
  walk_error = none;
  expired = false;
  relative = some "pets";
  info = ok directory;
}

abbrev cat : Visit
cat = record pets { is_root = false; relative = some "pets/cat.jpg"; info = ok regular }

validate_filtered_delete_tree-All_example : All (IsDeletable photos) (pets ∷ cat ∷ [])
unfolding validate_filtered_delete_tree jolt.AccessFilter.Tree.delete_visit jolt.Prelude.has_prefix
    check_root jolt.AccessFilter.Decide.check_ancestors
    jolt.AccessFilter.Decide.has_backslash_or_nul split jolt.FileTypes.Evaluate.evaluate
    jolt.FileTypes.Evaluate.valid_resource jolt.Prelude.trim_slashes jolt.Prelude.has_double_slash
    jolt.Prelude.contains jolt.Prelude.to_lower jolt.Prelude.trim_space
    jolt.FileTypes.Evaluate.find_rule jolt.FileTypes.Evaluate.match_path
    jolt.FileTypes.Evaluate.match_parts jolt.FileTypes.Evaluate.matches_entry
    jolt.FileTypes.Evaluate.denies jolt.FileTypes.Evaluate.allows jolt.FileTypes.Evaluate.grants
    decide jolt.AccessFilter.Decide.bad_relative
validate_filtered_delete_tree-All_example =
    validate_filtered_delete_tree-All photos (pets ∷ cat ∷ []) refl

abbrev moved_pets : MoveVisit
moved_pets = record { visit = pets; suffix_error = none; target = some "animals" }

abbrev moved_cat : MoveVisit
moved_cat = record { visit = cat; suffix_error = none; target = some "animals/cat.jpg" }

validate_filtered_move-All_example : All (IsMovable photos) (moved_pets ∷ moved_cat ∷ [])
unfolding validate_filtered_move jolt.AccessFilter.Tree.move_visit jolt.Prelude.has_prefix
    check_root jolt.AccessFilter.Decide.check_ancestors
    jolt.AccessFilter.Decide.has_backslash_or_nul split jolt.FileTypes.Evaluate.evaluate
    jolt.FileTypes.Evaluate.valid_resource jolt.Prelude.trim_slashes jolt.Prelude.has_double_slash
    jolt.Prelude.contains jolt.Prelude.to_lower jolt.Prelude.trim_space
    jolt.FileTypes.Evaluate.find_rule jolt.FileTypes.Evaluate.match_path
    jolt.FileTypes.Evaluate.match_parts jolt.FileTypes.Evaluate.matches_entry
    jolt.FileTypes.Evaluate.denies jolt.FileTypes.Evaluate.allows jolt.FileTypes.Evaluate.grants
    decide jolt.AccessFilter.Decide.bad_relative
validate_filtered_move-All_example =
    validate_filtered_move-All photos (moved_pets ∷ moved_cat ∷ []) true (err not_exist) [] refl
