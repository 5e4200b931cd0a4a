-- ===== src/Prelude/Digits.antt =====
-- str and int of a number, and str and UUID of a UUID.
use Prim.Native.Nat.{ℕ, zero, suc, ◌+◌, ◌-◌, ◌*◌, ◌/◌, ◌%◌, ◌<◌}
use mathlib.Core.Path.{◌≡◌, refl, ◌∙◌, ap}
use mathlib.Core.Logic.{inl, inr}
use mathlib.Core.Bool.{Bool, true, false, ◌&&◌, ◌||◌}
use mathlib.Core.List.{[], ◌∷◌}
use mathlib.Core.Option.{Option, none, some}
use native.Mathlib.Omega.{arith}
use prison_policy_ai.Prelude.Tests.{ltb, leb, ◌==◌, if◌then◌else◌, Bool-cases}
use prison_policy_ai.Prelude.Texts.{Text}

-- str(n), in front of `rest`; the fuel is the number itself
unfoldable pub decimal_from : ℕ → ℕ → Text → Text
decimal_from zero n rest = (n + b'0') ∷ rest
decimal_from (suc fuel) n rest =
    let more = decimal_from fuel (n / 10) ((n % 10 + b'0') ∷ rest) in
    if ltb n 10 then (n + b'0') ∷ rest else more

unfoldable pub decimal : ℕ → Text
decimal n = decimal_from n n []

unfoldable pub is_digit : ℕ → Bool
is_digit c = leb b'0' c && leb c b'9'

-- int(text) of decimal digits, from the value of the digits before
unfoldable pub read_from : ℕ → Text → Option ℕ
unfolding is_digit
read_from value [] = some value
read_from value (c ∷ s) =
    let rest = read_from (value * 10 + (c - b'0')) s in if is_digit c then rest else none

unfoldable pub read_decimal : Text → Option ℕ
read_decimal [] = none
read_decimal (c ∷ s) = read_from 0 (c ∷ s)

read-decimal_from :
    (fuel n : ℕ) (rest : Text)
    → n < suc fuel
    → read_from 0 (decimal_from fuel n rest) ≡ read_from n rest
unfolding decimal_from read_from is_digit
read-decimal_from zero n rest h = ground arith
read-decimal_from (suc fuel) n rest h = elim (Bool-cases (ltb n 10)) [
  | inl small ↦ rw small (ground arith)
  | inr big ↦
      rw big
        (read-decimal_from fuel (n / 10) ((n % 10 + b'0') ∷ rest) (ground arith) ∙ ground arith)
]

is_cons : Text → Bool
is_cons [] = false
is_cons (_ ∷ _) = true

read_decimal_cons : (s : Text) → is_cons s ≡ true → read_decimal s ≡ read_from 0 s
unfolding is_cons read_decimal
read_decimal_cons [] h = cc
read_decimal_cons (c ∷ s) h = refl

decimal_from-is_cons : (fuel n : ℕ) (rest : Text) → is_cons (decimal_from fuel n rest) ≡ true
unfolding decimal_from is_cons
decimal_from-is_cons zero n rest = refl
decimal_from-is_cons (suc fuel) n rest = elim (Bool-cases (ltb n 10)) [
  | inl small ↦ rw small
  | inr big ↦ rw big (decimal_from-is_cons fuel (n / 10) ((n % 10 + b'0') ∷ rest))
]

pub read-decimal : (n : ℕ) → read_decimal (decimal n) ≡ some n
unfolding decimal
read-decimal n =
    read_decimal_cons (decimal_from n n []) (decimal_from-is_cons n n [])
    ∙ read-decimal_from n n [] (omega arith)
    ∙ (unfold read_from in refl)

unfoldable pub hex_char : ℕ → ℕ
hex_char d = if ltb d 10 then d + b'0' else d + 87

-- the digits left at which str(uuid) has a hyphen
unfoldable pub hyphened : ℕ → Text → Text
hyphened left rest =
    if left == 20 || left == 16 || left == 12 || left == 8 then b'-' ∷ rest else rest

unfoldable pub uuid_from : ℕ → ℕ → Text → Text
unfolding hex_char hyphened
uuid_from zero id rest = rest
uuid_from (suc left) id rest = uuid_from left (id / 16) (hyphened left (hex_char (id % 16) ∷ rest))

-- str(uuid): 32 lower-case hexadecimal digits, in groups of 8, 4, 4, 4 and 12
unfoldable pub uuid_text : ℕ → Text
unfolding uuid_from
uuid_text id = uuid_from 32 id []

-- the value of one hexadecimal digit
unfoldable pub hex_value : ℕ → Option ℕ
hex_value c =
    if leb b'0' c && leb c b'9'
    then some (c - b'0')
    else if leb b'a' c && leb c b'f'
    then some (c - 87)
    else if leb b'A' c && leb c b'F'
    then some (c - 55)
    else none

-- UUID(text): hyphens are skipped, and `left` digits have to follow
unfoldable pub read_uuid_from : ℕ → ℕ → Text → Option ℕ
read_uuid_from left value [] = if left == 0 then some value else none
read_uuid_from left value (c ∷ s) =
    let rest = read_uuid_from left value s in
    if c == b'-' then rest else elim left [
      | zero ↦ none
      | suc fewer ↦ elim (hex_value c) [
        | none ↦ none
        | some d ↦ read_uuid_from fewer (value * 16 + d) s
      ]
    ]

unfoldable pub read_uuid : Text → Option ℕ
read_uuid s = read_uuid_from 32 0 s

-- 16 ^ k
abbrev pub hex_bound : ℕ → ℕ
hex_bound zero = 1
hex_bound (suc k) = 16 * hex_bound k

hex_value-hex_char : (d : ℕ) → d < 16 → hex_value (hex_char d) ≡ some d
unfolding hex_value hex_char
hex_value-hex_char d h = ground arith

hex_char-ne : (d : ℕ) → (hex_char d == b'-') ≡ false
unfolding hex_char
hex_char-ne d = ground arith

read_uuid_from-hyphened :
    (k left value : ℕ) (s : Text)
    → read_uuid_from left value (hyphened k s) ≡ read_uuid_from left value s
unfolding read_uuid_from hyphened
read_uuid_from-hyphened k left value s =
    elim (Bool-cases (k == 20 || k == 16 || k == 12 || k == 8)) [ inl e ↦ rw e | inr e ↦ rw e ]

read_uuid_from-uuid_from :
    (k m id : ℕ) (rest : Text)
    → id < hex_bound k
    → read_uuid_from (k + m) 0 (uuid_from k id rest) ≡ read_uuid_from m id rest
unfolding uuid_from
read_uuid_from-uuid_from zero m id rest h =
    let e : id ≡ 0 = omega arith in let e' : 0 + m ≡ m = omega arith in rw (e, e')
read_uuid_from-uuid_from (suc k) m id rest h =
    let e : suc k + m ≡ k + suc m = omega arith in
    rw e (
      read_uuid_from-uuid_from k (suc m) (id / 16) (hyphened k (hex_char (id % 16) ∷ rest))
        (omega arith)
      ∙ read_uuid_from-hyphened k (suc m) (id / 16) (hex_char (id % 16) ∷ rest)
      ∙ (unfold read_uuid_from in
          rw (hex_char-ne (id % 16), hex_value-hex_char (id % 16) (omega arith))
            (ap (λ v. read_uuid_from m v rest) (omega arith))))

pub read_uuid-uuid_text : (id : ℕ) → id < hex_bound 32 → read_uuid (uuid_text id) ≡ some id
unfolding read_uuid uuid_text
read_uuid-uuid_text id h = read_uuid_from-uuid_from 32 0 id [] h ∙ (unfold read_uuid_from in refl)
