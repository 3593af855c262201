-- ===== src/FileTypes/Selector.antt =====
-- selector.go
use Prim.Native.Nat.{ℕ, ◌+◌}
use Prim.Native.String.{count}
use jolt.Prelude.{
  String, Bool, false, ◌&&◌, ◌||◌, not, Option, none, some, List, [], ◌∷◌, ◌==◌, ltb, leb, eqb,
  if◌then◌else◌, length, any_char, trim_space, to_lower, contains, insert_key, extension, Result,
  ok, err, ◌>>◌, reject,
}

pub record Selector : Type 0 where
  pub classes : List String
  pub extensions : List String
  pub names : List String

-- `extensions` and `names` are sets
pub record Matcher : Type 0 where
  pub extensions : List String
  pub names : List String

pub data SelectorError : Type 0 where
  bad_count bad_class bad_extension bad_extension_character bad_name : SelectorError

abbrev ext_class : List String → Option Matcher
ext_class e = some (record { extensions = e; names = [] })

-- the table `classes`
unfoldable pub class_of : String → Option Matcher
class_of value =
    if value == "video"
    then ext_class ("mp4" ∷ "mkv" ∷ "avi" ∷ "mov" ∷ "webm" ∷ "m4v" ∷ "mpeg" ∷ "mpg" ∷ "ts" ∷ [])
    else if value == "audio"
    then ext_class ("mp3" ∷ "flac" ∷ "wav" ∷ "ogg" ∷ "m4a" ∷ "aac" ∷ "opus" ∷ [])
    else if value == "image"
    then ext_class
        ("jpg" ∷ "jpeg" ∷ "png" ∷ "gif" ∷ "webp" ∷ "svg" ∷ "avif" ∷ "bmp" ∷ "tif" ∷ "tiff" ∷ [])
    else if value == "document"
    then ext_class (
        "txt" ∷ "md" ∷ "pdf" ∷ "doc" ∷ "docx" ∷ "xls" ∷ "xlsx" ∷ "ppt" ∷ "pptx" ∷ "odt" ∷ "ods"
        ∷ "csv" ∷ "json" ∷ "xml" ∷ "yaml" ∷ "yml" ∷ [])
    else if value == "archive"
    then ext_class ("zip" ∷ "gz" ∷ "tar" ∷ "tgz" ∷ "7z" ∷ "rar" ∷ "bz2" ∷ "xz" ∷ "zst" ∷ [])
    else if value == "executable"
    then ext_class (
        "exe" ∷ "dll" ∷ "msi" ∷ "com" ∷ "bat" ∷ "cmd" ∷ "ps1" ∷ "sh" ∷ "bash" ∷ "zsh" ∷ "elf"
        ∷ "bin" ∷ "so" ∷ "dylib" ∷ "appimage" ∷ "wasm" ∷ [])
    else if value == "secret"
    then some (record {
      extensions = "env" ∷ "pem" ∷ "key" ∷ "p12" ∷ "pfx" ∷ "p8" ∷ "jks" ∷ "kdbx" ∷ [];
      names = ".env" ∷ "acme.json" ∷ "id_rsa" ∷ "id_ed25519" ∷ [];
    })
    else none

-- `unicode.IsLetter` below U+0530, where the digits are those of ASCII
is_letter : ℕ → Bool
is_letter c =
    leb b'A' c && leb c b'Z'
    || leb b'a' c && leb c b'z'
    || eqb c 0xaa
    || eqb c 0xb5
    || eqb c 0xba
    || leb 0xc0 c && leb c 0xd6
    || leb 0xd8 c && leb c 0xf6
    || leb 0xf8 c && leb c 0x2c1
    || leb 0x2c6 c && leb c 0x2d1
    || leb 0x2e0 c && leb c 0x2e4
    || eqb c 0x2ec
    || eqb c 0x2ee
    || leb 0x370 c && leb c 0x374
    || leb 0x376 c && leb c 0x377
    || leb 0x37a c && leb c 0x37d
    || eqb c 0x37f
    || eqb c 0x386
    || leb 0x388 c && leb c 0x38a
    || eqb c 0x38c
    || leb 0x38e c && leb c 0x3a1
    || leb 0x3a3 c && leb c 0x3f5
    || leb 0x3f7 c && leb c 0x481
    || leb 0x48a c && leb c 0x52f

is_digit : ℕ → Bool
is_digit c = leb b'0' c && leb c b'9'

abbrev is_extension_character : ℕ → Bool
is_extension_character c = is_letter c || is_digit c || eqb c b'-' || eqb c b'_' || eqb c b'+'

-- `strings.ContainsAny(value, "/\\\x00")`
unfoldable pub has_forbidden : String → Bool
unfolding any_char
has_forbidden = any_char (λ c. eqb c b'/' || eqb c b'\\' || eqb c 0)

-- the loop over the classes, with the classes seen
validate_classes : List String → List String → Result SelectorError (Unit {0})
unfolding class_of
validate_classes seen [] = ok tt
validate_classes seen (raw ∷ more) =
    let value = to_lower (trim_space raw) in
    let rest = validate_classes (insert_key value seen) more in
    elim (class_of value) [
      | none ↦ err bad_class
      | some _ ↦ if contains value seen then err bad_class else rest
    ]

validate_extensions : List String → List String → Result SelectorError (Unit {0})
unfolding is_letter is_digit
validate_extensions seen [] = ok tt
validate_extensions seen (raw ∷ more) =
    let value = to_lower (trim_space raw) in
    let rest = validate_extensions (insert_key value seen) more in
    do
      reject (value == "" || ltb 128 (count value) || contains value seen) bad_extension
      reject (any_char (λ c. not (is_extension_character c)) value) bad_extension_character
      rest

validate_names : List String → List String → Result SelectorError (Unit {0})
unfolding has_forbidden
validate_names seen [] = ok tt
validate_names seen (raw ∷ more) =
    let value = to_lower raw in
    let rest = validate_names (insert_key value seen) more in
    do
      reject
          (value == ""
            || value == "."
            || value == ".."
            || has_forbidden value
            || ltb 255 (count value)
            || contains value seen)
          bad_name
      rest

abbrev pub selector_count : Selector → ℕ
selector_count s = length s.classes + length s.extensions + length s.names

-- `Selector.Validate`
unfoldable pub validate : Selector → Result SelectorError (Unit {0})
unfolding validate_classes validate_extensions validate_names
validate s = do
  reject (eqb (selector_count s) 0 || ltb 64 (selector_count s)) bad_count
  validate_classes [] s.classes
  validate_extensions [] s.extensions
  validate_names [] s.names

insert_all : List String → List String → List String
insert_all [] keys = keys
insert_all (x ∷ xs) keys = insert_all xs (insert_key x keys)

add_names : List String → Matcher → Matcher
add_names [] m = m
add_names (name ∷ more) m = add_names more (record m { names = insert_key (to_lower name) m.names })

add_extensions : List String → Matcher → Matcher
add_extensions [] m = m
add_extensions (e ∷ more) m =
    add_extensions more
      (record m { extensions = insert_key (to_lower (trim_space e)) m.extensions })

-- a class that is missing has empty sets
add_class : Option Matcher → Matcher → Matcher
unfolding insert_all
add_class none m = m
add_class (some entry) m = record {
  extensions = insert_all entry.extensions m.extensions;
  names = insert_all entry.names m.names;
}

add_classes : List String → Matcher → Matcher
unfolding add_class
add_classes [] m = m
add_classes (value ∷ more) m =
    add_classes more (add_class (class_of (to_lower (trim_space value))) m)

-- `Selector.Compile`
unfoldable pub compile : Selector → Result SelectorError Matcher
unfolding add_names add_extensions add_classes
compile s = do
  validate s
  ok (
      add_classes s.classes
        (add_extensions s.extensions (add_names s.names (record { extensions = []; names = [] }))))

-- `Matcher.Matches`; a nil matcher is `none`
unfoldable pub matches : Option Matcher → String → Bool → Bool
matches none name is_file = false
matches (some m) name is_file =
    let lower = to_lower name in
    if not is_file || name == "" || name == "." || name == ".." || has_forbidden name
    then false
    else contains lower m.names || contains (extension lower) m.extensions

-- `Selector.Matches`
unfoldable pub selector_matches : Selector → String → Bool → Bool
selector_matches s name is_file = elim (compile s) [
  | err _ ↦ false
  | ok m ↦ matches (some m) name is_file
]
