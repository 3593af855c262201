-- ===== src/Prelude/Text/Json.antt =====
-- `json.Marshal` of a slice of strings
use Prim.Native.Nat.{ℕ, ◌+◌, ◌/◌, ◌%◌}
use Prim.Native.Char.{Char, char, code}
use Prim.Native.String.{String, [], ◌∷◌, ◌++◌ as ◌<>◌}
use mathlib.Core.Bool.{◌||◌}
use mathlib.Core.Path.{◌≡◌, refl}
use mathlib.Core.List.{List}
use jolt.Prelude.Tests.{ltb, eqb, if◌then◌else◌}
use jolt.Prelude.Text.Case.{char_or}

hex_digit : ℕ → String
unfolding char_or
hex_digit n = char_or (if ltb n 10 then 48 + n else 87 + n) (char 48 tt) ∷ ""

json_char : Char → String
unfolding hex_digit
json_char c =
    let n = code c in
    if eqb n 34
    then "\\\""
    else if eqb n 92
    then "\\\\"
    else if eqb n 8
    then "\\b"
    else if eqb n 12
    then "\\f"
    else if eqb n 10
    then "\\n"
    else if eqb n 13
    then "\\r"
    else if eqb n 9
    then "\\t"
    else if ltb n 0x20 || eqb n b'<' || eqb n b'>' || eqb n b'&'
    then "\\u00" <> hex_digit (n / 16) <> hex_digit (n % 16)
    else if eqb n 0x2028
    then "\\u2028"
    else if eqb n 0x2029
    then "\\u2029"
    else c ∷ ""

json_chars : String → String
unfolding json_char
json_chars [] = "\""
json_chars (c ∷ s) = json_char c <> json_chars s

-- `json.Marshal` of a string
unfoldable pub json_string : String → String
unfolding json_chars
json_string s = "\"" <> json_chars s

json_items : List String → String
unfolding json_chars
json_items List.[] = "]"
json_items (List.◌∷◌ x xs) = ",\"" <> json_chars x <> json_items xs

-- `json.Marshal` of a slice of strings
unfoldable pub json_strings : List String → String
unfolding json_chars json_items
json_strings List.[] = "[]"
json_strings (List.◌∷◌ x xs) = "[\"" <> json_chars x <> json_items xs

json_strings_test :
    json_strings (List.◌∷◌ "a<b" (List.◌∷◌ "\"c\"" List.[])) ≡ "[\"a\\u003cb\",\"\\\"c\\\"\"]"
unfolding json_strings
json_strings_test = refl
