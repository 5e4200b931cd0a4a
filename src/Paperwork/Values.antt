-- ===== src/Paperwork/Values.antt =====
-- Python's dicts and `==` on JSON values, as the paperwork compares them: two dicts are equal in any
-- order of their keys. Numbers are whole here and compared by their literals.
use prison_policy_ai.Prelude.{
  ℕ, suc, ◌+◌, [], ◌∷◌, Bool, true, false, ◌&&◌, ◌||◌, Option, none, some, Text, text_eq, leb, ◌==◌,
  length, if◌then◌else◌,
}
use prison_policy_ai.Identity.Json.{
  Json, null, boolean, number, string, arr, obj, Items, end, item, Fields, done, field,
}

unfoldable pub lookup_field : Text → Fields → Option Json
lookup_field k done = none
lookup_field k (field j x fs) = if text_eq j k then some x else lookup_field k fs

-- dict.get: None for a key that is not there
unfoldable pub get_field : Text → Fields → Json
unfolding lookup_field
get_field k fs = elim (lookup_field k fs) [ none ↦ null | some x ↦ x ]

unfoldable pub fields_size : Fields → ℕ
fields_size done = 0
fields_size (field k x fs) = suc (fields_size fs)

abbrev pub bool_eq : Bool → Bool → Bool
bool_eq true b = b
bool_eq false true = false
bool_eq false false = true

unfoldable mutual
  unfolding lookup_field fields_size

  pub json_eq : Json → Json → Bool
  json_eq null null = true
  json_eq (boolean a) (boolean b) = bool_eq a b
  json_eq (number a) (number b) = text_eq a b
  json_eq (string a) (string b) = text_eq a b
  json_eq (arr xs) (arr ys) = items_eq xs ys
  json_eq (obj fs) (obj gs) = fields_size fs == fields_size gs && fields_in fs gs
  json_eq _ _ = false

  pub items_eq : Items → Items → Bool
  items_eq end end = true
  items_eq (item x xs) (item y ys) = json_eq x y && items_eq xs ys
  items_eq _ _ = false

  -- every item of the first dict is in the second
  pub fields_in : Fields → Fields → Bool
  fields_in done gs = true
  fields_in (field k x fs) gs =
      elim (lookup_field k gs) [ none ↦ false | some y ↦ json_eq x y ] && fields_in fs gs

-- one character in the UTF-8 that json.dumps writes with `ensure_ascii=False`
unfoldable pub utf8_char : ℕ → ℕ
utf8_char c =
    if c == b'"' || c == 0x5C || c == 8 || c == 9 || c == 10 || c == 12 || c == 13
    then 2
    else if leb c 0x1F
    then 6
    else if leb c 0x7F
    then 1
    else if leb c 0x7FF
    then 2
    else if leb c 0xFFFF
    then 3
    else 4

unfoldable pub utf8_string : Text → ℕ
unfolding utf8_char
utf8_string [] = 0
utf8_string (c ∷ s) = utf8_char c + utf8_string s

unfoldable mutual
  unfolding utf8_string

  -- len(json.dumps(value, ensure_ascii=False, separators=(",", ":")).encode("utf-8"))
  pub utf8_length : Json → ℕ
  utf8_length null = 4
  utf8_length (boolean true) = 4
  utf8_length (boolean false) = 5
  utf8_length (number literal) = length literal
  utf8_length (string s) = utf8_string s + 2
  utf8_length (arr xs) = utf8_items xs + 2
  utf8_length (obj fs) = utf8_fields fs + 2

  pub utf8_items : Items → ℕ
  utf8_items end = 0
  utf8_items (item x end) = utf8_length x
  utf8_items (item x (item y xs)) = utf8_length x + 1 + utf8_items (item y xs)

  pub utf8_fields : Fields → ℕ
  utf8_fields done = 0
  utf8_fields (field k x done) = utf8_string k + 3 + utf8_length x
  utf8_fields (field k x (field j y fs)) =
      utf8_string k + 3 + utf8_length x + 1 + utf8_fields (field j y fs)
