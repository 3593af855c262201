-- ===== src/FileTypes/Context.antt =====
-- context.go: `Context.Compile`
pub mod Laws
use Prim.Native.Nat.{ℕ, ◌+◌}
use Prim.Native.Char.{code, len_utf8}
use jolt.Prelude.{
  String, Bool, true, false, ◌&&◌, ◌||◌, not, Option, none, some, List, [], ◌∷◌, ◌==◌, ltb, eqb,
  if◌then◌else◌, length, len, any_char, trim_space, trim_slashes, split, to_lower, has_double_slash,
  contains, insert_key, Result, ok, err, ◌>>=◌, ◌>>◌, reject,
}
use jolt.FileTypes.Selector.{Selector, SelectorError, Matcher, has_forbidden, compile}

abbrev pub max_context_bytes : ℕ
max_context_bytes = 32768

abbrev pub max_context_rules : ℕ
max_context_rules = 256

pub record Rule : Type 0 where
  pub policy_id : String
  pub path : String
  pub capabilities : List String
  pub file_types : Option Selector
  pub visibility : String

pub record Context : Type 0 where
  pub version : ℕ
  pub rules : List Rule

-- `caps` is a set
pub record CompiledRule : Type 0 where
  pub rule : Rule
  pub matcher : Option Matcher
  pub caps : List String

abbrev pub Filter : Type 0
Filter = List CompiledRule

pub data ContextError : Type 0 where
  unsupported bad_size bad_rule bad_visibility bad_capability : ContextError
  bad_selector : SelectorError → ContextError

abbrev pub valid_caps : List String
valid_caps =
    "read" ∷ "list" ∷ "create" ∷ "update" ∷ "delete" ∷ "write" ∷ "execute" ∷ "sudo" ∷ "deny" ∷ []

-- The bytes of a character in a JSON text, as `json.Marshal` writes it.
encoded_char : ℕ → ℕ → ℕ
encoded_char width c =
    if eqb c b'"' || eqb c b'\\' || eqb c 8 || eqb c 9 || eqb c 10 || eqb c 12 || eqb c 13
    then 2
    else if ltb c 0x20 || eqb c b'<' || eqb c b'>' || eqb c b'&' || eqb c 0x2028 || eqb c 0x2029
    then 6
    else width

encoded_chars : String → ℕ
unfolding encoded_char
encoded_chars String.[] = 0
encoded_chars (String.◌∷◌ c s) = encoded_char (len_utf8 c) (code c) + encoded_chars s

encoded_text : String → ℕ
unfolding encoded_chars
encoded_text s = 2 + encoded_chars s

-- the elements of a list, each with a comma in front or behind
encoded_items : List String → ℕ
unfolding encoded_text
encoded_items [] = 0
encoded_items (x ∷ xs) = encoded_text x + 1 + encoded_items xs

-- `,"name":[…]` of a field that is left out when empty; the first field of an object has no comma
encoded_list_field : String → List String → ℕ
unfolding encoded_items
encoded_list_field name [] = 0
encoded_list_field name xs = len name + 5 + encoded_items xs

encoded_selector : Option Selector → ℕ
unfolding encoded_list_field
encoded_selector none = 0
encoded_selector (some s) =
    let fields =
      encoded_list_field "classes" s.classes
      + encoded_list_field "extensions" s.extensions
      + encoded_list_field "names" s.names in
    len ",\"file_types\":" + (if eqb fields 0 then 2 else fields + 1)

encoded_rule : Rule → ℕ
unfolding encoded_selector
encoded_rule r =
    len "{\"policy_id\":"
    + encoded_text r.policy_id
    + len ",\"path\":"
    + encoded_text r.path
    + len ",\"capabilities\":"
    + (if eqb (length r.capabilities) 0 then 4 else encoded_items r.capabilities + 1)
    + encoded_selector r.file_types
    + (if r.visibility == "" then 0 else len ",\"visibility\":" + encoded_text r.visibility)
    + 1

encoded_rules : List Rule → ℕ
unfolding encoded_rule
encoded_rules [] = 0
encoded_rules (r ∷ rs) = encoded_rule r + 1 + encoded_rules rs

-- The length of `json.Marshal(c)`, for a version of one digit.
unfoldable pub encoded_size : Context → ℕ
unfolding encoded_rules
encoded_size c =
    len "{\"version\":1,\"rules\":"
    + (if eqb (length c.rules) 0 then 2 else encoded_rules c.rules + 1)
    + 1

-- `strings.ContainsRune` on the characters that a policy path refuses
unfoldable pub is_path_meta : ℕ → Bool
is_path_meta c =
    eqb c b'\\'
    || eqb c b'/'
    || eqb c b'?'
    || eqb c b'#'
    || eqb c b'&'
    || eqb c b'='
    || eqb c b'%'
    || eqb c b'*'

unfoldable pub is_control : ℕ → Bool
is_control c = ltb c 0x20 || eqb c 0x7f

-- the loop of `validPattern`
valid_parts : List String → Bool
unfolding is_path_meta is_control
valid_parts [] = true
valid_parts (part ∷ more) =
    let rest = valid_parts more in
    if part == "" || part == "." || part == ".." || part == "**" && not (eqb (length more) 0)
    then false
    else if part == "*" || part == "**"
    then rest
    else not (any_char (λ c. is_control c || is_path_meta c) part) && rest

unfoldable pub valid_pattern : String → Bool
unfolding valid_parts
valid_pattern raw =
    let value = trim_slashes raw in
    if value == "" || has_double_slash value then false else valid_parts (split value)

-- the loop over the capabilities, with the set so far
compile_caps : List String → List String → Result ContextError (List String)
compile_caps caps [] = ok caps
compile_caps caps (raw ∷ more) =
    let cap = to_lower (trim_space raw) in
    let rest = compile_caps (insert_key cap caps) more in
    do reject (not (contains cap valid_caps) || contains cap caps) bad_capability; rest

compile_selector : Option Selector → Result ContextError (Option Matcher)
compile_selector none = ok none
compile_selector (some s) = elim (compile s) [ ok m ↦ ok (some m) | err e ↦ err (bad_selector e) ]

bad_rule_shape : Rule → Bool
bad_rule_shape r =
    r.policy_id == ""
    || ltb 128 (len r.policy_id)
    || has_forbidden r.policy_id
    || not (valid_pattern r.path)
    || eqb (length r.capabilities) 0
    || ltb (length valid_caps) (length r.capabilities)

-- one round of the loop of `Compile`
unfoldable pub compile_rule : Rule → Result ContextError CompiledRule
unfolding compile_caps compile_selector bad_rule_shape
compile_rule raw = do
  reject (bad_rule_shape raw) bad_rule
  let rule = record raw { visibility = if raw.visibility == "" then "hidden" else raw.visibility }
  reject (not (rule.visibility == "hidden") && not (rule.visibility == "visible")) bad_visibility
  caps ← compile_caps [] rule.capabilities
  matcher ← compile_selector rule.file_types
  ok (record { rule = rule; matcher = matcher; caps = caps })

unfoldable pub compile_rules : List Rule → Result ContextError Filter
compile_rules [] = ok []
compile_rules (r ∷ rs) = do c ← compile_rule r; cs ← compile_rules rs; ok (c ∷ cs)

-- `Context.Compile`
unfoldable pub compile_context : Context → Result ContextError Filter
compile_context c = do
  reject (not (eqb c.version 1) || ltb max_context_rules (length c.rules)) unsupported
  reject (ltb max_context_bytes (encoded_size c)) bad_size
  compile_rules c.rules
