-- ===== src/Identity/Pins.antt =====
-- identity/pins.py: the PIN policy, and the argon2 hashes of PINs.
pub mod Policy
use prison_policy_ai.Prelude.{
  ℕ, ◌≤◌, ◌≡◌, Bool, true, false, ◌&&◌, ◌||◌, not, List, [], ◌∷◌, Option, none, some, Text, codes,
  text_eq, leb, ◌==◌, if◌then◌else◌, length, all,
}
use prison_policy_ai.Fault.{Fault, Result, ok, raised, pin_policy}
use prison_policy_ai.Identity.Crypto.{Crypto}
use prison_policy_ai.Identity.Normalization.{upper, normalize_employee_number}

-- the class [A-Za-z0-9]
unfoldable pub is_alphanumeric : ℕ → Bool
is_alphanumeric c =
    (leb b'A' c && leb c b'Z') || (leb b'a' c && leb c b'z') || (leb b'0' c && leb c b'9')

unfoldable pub normalize_pin : Text → Result Text
unfolding is_alphanumeric
normalize_pin value =
    if leb 4 (length value) && leb (length value) 8 && all is_alphanumeric value
    then ok (upper value)
    else raised pin_policy

abbrev pub digits : Text
digits = codes "0123456789"

abbrev pub ascii_uppercase : Text
ascii_uppercase = codes "ABCDEFGHIJKLMNOPQRSTUVWXYZ"

abbrev pub digits_down : Text
digits_down = codes "9876543210"

abbrev pub ascii_uppercase_down : Text
ascii_uppercase_down = codes "ZYXWVUTSRQPONMLKJIHGFEDCBA"

unfoldable pub is_prefix : Text → Text → Bool
is_prefix [] t = true
is_prefix (_ ∷ _) [] = false
is_prefix (a ∷ s) (b ∷ t) = a == b && is_prefix s t

-- `s in t` for texts
unfoldable pub is_substring : Text → Text → Bool
unfolding is_prefix
is_substring s [] = is_prefix s []
is_substring s (c ∷ t) = is_prefix s (c ∷ t) || is_substring s t

-- len(set(pin)) == 1
unfoldable pub one_character : Text → Bool
one_character [] = false
one_character (c ∷ s) = all (λ d. d == c) s

unfoldable pub is_obvious : Text → Bool
unfolding one_character is_substring
is_obvious pin =
    one_character pin
    || is_substring pin digits
    || is_substring pin digits_down
    || is_substring pin ascii_uppercase
    || is_substring pin ascii_uppercase_down

abbrev pub check_new_pin : Text → Result Text → Result Text
check_new_pin normalized (raised f) = raised f
check_new_pin normalized (ok employee) =
    if text_eq normalized employee
    then raised pin_policy
    else if is_obvious normalized
    then raised pin_policy
    else ok normalized

unfoldable pub validate_new_pin : Text → Text → Result Text
validate_new_pin pin employee_number = elim (normalize_pin pin) [
  | ok normalized ↦ check_new_pin normalized (normalize_employee_number employee_number)
  | raised f ↦ raised f
]

module _ (crypto : Crypto) where
  -- the first argument is the salt that the hasher draws
  unfoldable pub hash_pin : Text → Text → Result Text
  hash_pin salt pin = elim (normalize_pin pin) [
    | ok normalized ↦ ok (crypto.argon_hash salt normalized)
    | raised f ↦ raised f
  ]

  unfoldable pub verify_pin : Text → Text → Bool
  verify_pin encoded pin = elim (normalize_pin pin) [
    | ok normalized ↦ crypto.argon_verify encoded normalized
    | raised _ ↦ false
  ]

-- the `except PinPolicyError: continue` of the loop below
abbrev pub is_pin_policy : Fault → Bool
is_pin_policy pin_policy = true
is_pin_policy _ = false

-- `while True`, over the candidates that `secrets.choice` draws; `none` is a loop that has used up
-- the list and still runs.
unfoldable pub generate_temporary_pin : Text → List Text → Option (Result Text)
generate_temporary_pin employee_number [] = none
generate_temporary_pin employee_number (candidate ∷ draws) =
    elim (validate_new_pin candidate employee_number) [
      | ok pin ↦ some (ok pin)
      | raised f ↦
          if is_pin_policy f then generate_temporary_pin employee_number draws else some (raised f)
    ]
