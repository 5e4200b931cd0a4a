-- ===== src/Identity/Pins/Policy.antt =====
-- What the PIN policy accepts, and that hashing and verifying agree on it.
use prison_policy_ai.Prelude.{
  ℕ, ◌≤◌, ◌≡◌, ◌≢◌, refl, Bool, true, false, ◌&&◌, ◌||◌, not, List, [], ◌∷◌, none, some, Text,
  text_eq_iff, leb, length, all, any, arith, inl, inr,
}
use prison_policy_ai.Fault.{ok, raised, Result-cases}
use prison_policy_ai.Identity.Crypto.{Crypto, Verifies}
use prison_policy_ai.Identity.Normalization.{upper, normalize_employee_number}
use prison_policy_ai.Identity.Pins.{
  is_alphanumeric, normalize_pin, is_obvious, validate_new_pin, hash_pin, verify_pin,
  generate_temporary_pin, is_pin_policy,
}

-- the class [A-Z0-9]
abbrev pub is_pin_char : ℕ → Bool
is_pin_char c = (leb b'A' c && leb c b'Z') || (leb b'0' c && leb c b'9')

upper_alphanumeric :
    (s : Text)
    → all is_alphanumeric s ≡ true
    → (length (upper s) ≡ length s) × (all is_pin_char (upper s) ≡ true)
unfolding upper is_alphanumeric all
upper_alphanumeric [] h = (refl, refl)
upper_alphanumeric (c ∷ s) h =
    let ih = upper_alphanumeric s in (ground (arith, ih), ground (arith, ih))

upper_pin_chars :
    (s : Text) → all is_pin_char s ≡ true → (upper s ≡ s) × (all is_alphanumeric s ≡ true)
unfolding upper is_alphanumeric all
upper_pin_chars [] h = (refl, refl)
upper_pin_chars (c ∷ s) h = let ih = upper_pin_chars s in (ground (arith, ih), ground (arith, ih))

-- the shape of every normalized PIN
pub normalize_pin-shape :
    (pin n : Text)
    → normalize_pin pin ≡ ok n
    → (n ≡ upper pin) × (4 ≤ length n) × (length n ≤ 8) × (all is_pin_char n ≡ true)
unfolding normalize_pin
normalize_pin-shape pin n h =
    let valid : all is_alphanumeric pin ≡ true = ground arith in
    let same : n ≡ upper pin = ground arith in
    let (len, chars) = upper_alphanumeric pin valid in
    (same, rw same (ground arith), rw same (ground arith), rw same chars)

-- A normalized PIN is its own normal form.
pub normalize_pin_idem : (pin n : Text) → normalize_pin pin ≡ ok n → normalize_pin n ≡ ok n
unfolding normalize_pin
normalize_pin_idem pin n h =
    let (same, low, high, chars) = normalize_pin-shape pin n h in
    let (fixed, valid) = upper_pin_chars n chars in ground (arith, fixed, valid)

-- An accepted new PIN is 4 to 8 ASCII capitals and digits, is not the employee number in its normal
-- form, and is no run of one character or of neighbouring letters or digits. What is stored is the
-- upper case of what was typed, and the policy accepts it once more as it is.
validate_new_pin_sound :
    (pin employee_number n : Text)
    → validate_new_pin pin employee_number ≡ ok n
    → (n ≡ upper pin)
      × (4 ≤ length n)
      × (length n ≤ 8)
      × (all is_pin_char n ≡ true)
      × (is_obvious n ≡ false)
      × (normalize_employee_number employee_number ≢ ok n)
      × (validate_new_pin n employee_number ≡ ok n)
unfolding validate_new_pin
validate_new_pin_sound pin employee_number n h = elim (Result-cases (normalize_pin pin)) [
  | inr (f, e) ↦ ground arith
  | inl (m, e) ↦ elim (Result-cases (normalize_employee_number employee_number)) [
    | inr (f, k) ↦ ground arith
    | inl (employee, k) ↦
        let same : n ≡ m = ground arith in
        let normal : normalize_pin pin ≡ ok n = rw same e in
        let (up, low, high, chars) = normalize_pin-shape pin n normal in
        (
          up,
          low,
          high,
          chars,
          ground arith,
          λ is_employee. ground (arith, text_eq_iff m employee),
          ground (arith, normalize_pin_idem pin n normal),
        )
  ]
]

-- The temporary PIN that the loop makes is one that the policy accepts as it is.
pub generate_temporary_pin-valid :
    (employee_number : Text) (draws : List Text) (pin : Text)
    → generate_temporary_pin employee_number draws ≡ some (ok pin)
    → validate_new_pin pin employee_number ≡ ok pin
unfolding generate_temporary_pin
generate_temporary_pin-valid employee_number [] pin h = ground arith
generate_temporary_pin-valid employee_number (d ∷ draws) pin h =
    elim (Result-cases (validate_new_pin d employee_number)) [
      | inl (n, e) ↦
          let same : n ≡ pin = ground arith in
          rw (← same) (validate_new_pin_sound d employee_number n e).6
      | inr (f, e) ↦ ground (arith, generate_temporary_pin-valid employee_number draws pin)
    ]

-- A stored hash verifies the PIN that was set, however its letters are typed.
pub verify_pin-hash_pin :
    (crypto : Crypto) (salt pin typed stored : Text)
    → Verifies crypto
    → hash_pin crypto salt pin ≡ ok stored
    → normalize_pin typed ≡ normalize_pin pin
    → verify_pin crypto stored typed ≡ true
unfolding hash_pin verify_pin
verify_pin-hash_pin crypto salt pin typed stored law h same =
    elim (Result-cases (normalize_pin pin)) [
      | inl (n, e) ↦ ground (arith, law salt n)
      | inr (f, e) ↦ ground arith
    ]

-- A candidate on which the loop of `generate_temporary_pin` does not go round again.
abbrev pub stops : Text → Text → Bool
stops employee_number candidate = elim (validate_new_pin candidate employee_number) [
  | ok _ ↦ true
  | raised f ↦ not (is_pin_policy f)
]

-- The loop that draws temporary PINs ends as soon as the policy does not refuse a candidate: of draws
-- among which there is such a one, the loop makes a result.
generate_temporary_pin-ends :
    (employee_number : Text) (draws : List Text)
    → any (stops employee_number) draws ≡ true
    → generate_temporary_pin employee_number draws ≢ none
unfolding generate_temporary_pin any
generate_temporary_pin-ends employee_number [] h = ground arith
generate_temporary_pin-ends employee_number (d ∷ draws) h =
    ground (arith, generate_temporary_pin-ends employee_number draws)

pub validate_new_pin-normal :
    (pin employee_number n : Text)
    → validate_new_pin pin employee_number ≡ ok n
    → (normalize_pin pin ≡ ok n) × (normalize_pin n ≡ ok n)
unfolding validate_new_pin
validate_new_pin-normal pin employee_number n h = elim (Result-cases (normalize_pin pin)) [
  | inr (f, e) ↦ ground arith
  | inl (m, e) ↦ elim (Result-cases (normalize_employee_number employee_number)) [
    | inr (f, k) ↦ ground arith
    | inl (employee, k) ↦
        let same : n ≡ m = ground arith in
        let normal : normalize_pin pin ≡ ok n = rw same e in
        (normal, normalize_pin_idem pin n normal)
  ]
]
