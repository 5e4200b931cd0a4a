-- ===== src/Identity/Json.antt =====
-- Python values that json.dumps writes, and the length of what it writes with `ensure_ascii` and the
-- separators "," and ":". A number is the text of its literal.
use prison_policy_ai.Prelude.{
  ℕ, ◌+◌, [], ◌∷◌, Bool, true, false, Text, leb, ◌==◌, ◌||◌, if◌then◌else◌, length,
}

mutual
  pub data Json : Type 0 where
    null : Json
    boolean : Bool → Json
    number : Text → Json
    string : Text → Json
    arr : Items → Json
    obj : Fields → Json

  pub data Items : Type 0 where
    end : Items
    item : Json → Items → Items

  pub data Fields : Type 0 where
    done : Fields
    field : Text → Json → Fields → Fields

-- one character inside a JSON string
unfoldable pub escaped_length : ℕ → ℕ
escaped_length c =
    if c == b'"' || c == 0x5C || c == 8 || c == 9 || c == 10 || c == 12 || c == 13
    then 2
    else if leb c 0x1F
    then 6
    else if leb c 0x7E
    then 1
    else if leb c 0xFFFF
    then 6
    else 12

unfoldable pub string_length : Text → ℕ
unfolding escaped_length
string_length [] = 0
string_length (c ∷ s) = escaped_length c + string_length s

unfoldable mutual
  unfolding string_length

  -- len(json.dumps(value))
  pub encoded_length : Json → ℕ
  encoded_length null = 4
  encoded_length (boolean true) = 4
  encoded_length (boolean false) = 5
  encoded_length (number literal) = length literal
  encoded_length (string s) = string_length s + 2
  encoded_length (arr xs) = items_length xs + 2
  encoded_length (obj fs) = fields_length fs + 2

  pub items_length : Items → ℕ
  items_length end = 0
  items_length (item x end) = encoded_length x
  items_length (item x (item y xs)) = encoded_length x + 1 + items_length (item y xs)

  pub fields_length : Fields → ℕ
  fields_length done = 0
  fields_length (field k x done) = string_length k + 3 + encoded_length x
  fields_length (field k x (field j y fs)) =
      string_length k + 3 + encoded_length x + 1 + fields_length (field j y fs)
