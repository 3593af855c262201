-- ===== src/Prelude/Text/Clean.antt =====
-- `path.Clean`
use Prim.Native.String.{String, ◌++◌ as ◌<>◌}
use mathlib.Core.Path.{◌≡◌, refl}
use mathlib.Core.Bool.{Bool, true, false, ◌||◌}
use mathlib.Core.List.{List, [], ◌∷◌, reverse}
use text.Mathlib.Text.{◌==◌}
use jolt.Prelude.Tests.{if◌then◌else◌}
use jolt.Prelude.Text.Split.{split, has_slash_prefix}

-- `..` behind the parts so far, the last part first
step_up : Bool → List String → List String
step_up rooted [] = if rooted then [] else ".." ∷ []
step_up rooted (part ∷ parts) = if part == ".." then ".." ∷ part ∷ parts else parts

clean_loop : Bool → List String → List String → List String
unfolding step_up
clean_loop rooted stack [] = reverse stack
clean_loop rooted stack (part ∷ parts) =
    clean_loop rooted
      (if part == "" || part == "."
        then stack
        else if part == ".."
        then step_up rooted stack
        else part ∷ stack)
      parts

join : List String → String
join [] = ""
join (part ∷ []) = part
join (part ∷ next ∷ parts) = part <> ("/" <> join (next ∷ parts))

cleaned : Bool → String → String
cleaned true s = "/" <> s
cleaned false s = if s == "" then "." else s

unfoldable pub path_clean : String → String
unfolding clean_loop join cleaned
path_clean s =
    let rooted = has_slash_prefix s in cleaned rooted (join (clean_loop rooted [] (split s)))

path_clean_test : path_clean "a/./b//../c/" ≡ "a/c"
unfolding path_clean split has_slash_prefix
path_clean_test = refl
