-- ===== src/Tests/Accounts.antt =====
-- Runs of identity/accounts.py and identity/pins.py.

use prison_policy_ai.Identity.Pins.{is_obvious}
use prison_policy_ai.Prelude.{text_eq}
use prison_policy_ai.Identity.Normalization.{is_employee_char}
use prison_policy_ai.Identity.Normalization.{is_space}
use prison_policy_ai.Prelude.{all}
use prison_policy_ai.Identity.Accounts.Login.{check_attempt}
use prison_policy_ai.Prelude.{◌+◌, ◌≤◌, ◌≡◌, refl, [], ◌∷◌, codes, arith}
use prison_policy_ai.Fault.{ok}
use prison_policy_ai.Identity.Normalization.{normalize_employee_number}
use prison_policy_ai.Identity.Pins.{normalize_pin, validate_new_pin}
use prison_policy_ai.Identity.Accounts.Lockout.{lock_minutes}
use prison_policy_ai.Identity.Accounts.Login.Bounds.{wrong_guesses, wrong_guesses_bound}
use prison_policy_ai.Tests.Samples.{account, member}

wrong_guesses_bound_example : wrong_guesses account member (0 ∷ 1 ∷ 2 ∷ 3 ∷ 4 ∷ 5 ∷ 6 ∷ []) + 0 ≤ 5
wrong_guesses_bound_example =
    wrong_guesses_bound account member 0 (0 ∷ 1 ∷ 2 ∷ 3 ∷ 4 ∷ 5 ∷ 6 ∷ []) refl (omega arith)
      (omega arith)

five_are_counted : wrong_guesses account member (0 ∷ 1 ∷ 2 ∷ 3 ∷ 4 ∷ 5 ∷ 6 ∷ []) ≡ 5
unfolding wrong_guesses lock_minutes check_attempt
five_are_counted = refl

valid_pin : validate_new_pin (codes "k7q2") (codes "e100") ≡ ok (codes "K7Q2")
unfolding validate_new_pin normalize_pin normalize_employee_number all is_space is_employee_char
    text_eq is_obvious
valid_pin = refl
