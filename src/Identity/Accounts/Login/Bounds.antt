-- ===== src/Identity/Accounts/Login/Bounds.antt =====
-- What the lock of an account promises against guessing.
use prison_policy_ai.Prelude.{
  ℕ, ◌+◌, ◌≤◌, ◌<◌, ◌≡◌, refl, List, [], ◌∷◌, none, some, Bool, false, arith, All, minutes,
  Bool-cases, inl, inr, ◌⊎◌, ◌&&◌, not, ltb, if◌then◌else◌,
}
use text.Mathlib.Text.{◌==◌}
use prison_policy_ai.Identity.Models.{StaffMember, Account, active, locked}
use prison_policy_ai.Identity.Accounts.Lockout.{lock_minutes}
use prison_policy_ai.Identity.Accounts.Lockout.Minutes.{lock_minutes_bounds}
use prison_policy_ai.Identity.Accounts.Login.{
  Outcome, accepted, refused, check_attempt, temporary_pin_expired,
}

-- 1 for an attempt that counts: it is accepted, or refused because of its PIN
abbrev pub counted : Outcome → ℕ
counted accepted = 1
counted (refused reason _) = if reason == "invalid_pin" then 1 else 0

-- the attempts with a wrong PIN, at the given times, that are refused because of the PIN
unfoldable pub wrong_guesses : Account → StaffMember → List ℕ → ℕ
wrong_guesses account member [] = 0
wrong_guesses account member (t ∷ ts) =
    let (account', outcome) = check_attempt account member false t in
    counted outcome + wrong_guesses account' member ts

-- While a lock runs, every attempt is refused with the same reason, be the PIN right or wrong, and
-- changes nothing.
pub check_attempt-locked :
    (account : Account) (member : StaffMember) (pin_valid : Bool) (now t : ℕ)
    → account.status ≡ locked
    → account.locked_until ≡ some t
    → now < t
    → check_attempt account member pin_valid now
      ≡ (account, refused "account_locked_or_deactivated" none)
unfolding check_attempt
check_attempt-locked account member pin_valid now t s u h = ground arith

locked_guesses :
    (account : Account) (member : StaffMember) (t : ℕ) (ts : List ℕ)
    → account.status ≡ locked
    → account.locked_until ≡ some t
    → All (λ now. now < t) ts
    → wrong_guesses account member ts ≡ 0
unfolding wrong_guesses
locked_guesses account member t [] s u h = refl
locked_guesses account member t (now ∷ ts) s u h =
    rw (check_attempt-locked account member false now t s u h.0)
      (omega (arith, locked_guesses account member t ts s u h.1))

-- one attempt on an active account: it is refused without a change, or refused for its PIN and
-- counted, or it is the fifth and sets a lock
abbrev AttemptCase : Account → ℕ → Account × Outcome → Type 0
AttemptCase before now (after, outcome) =
    ((after ≡ before) × (counted outcome ≡ 0))
    ⊎ (after ≡ record before { failed_attempts = before.failed_attempts + 1 })
      × (counted outcome ≡ 1)
      × (before.failed_attempts + 1 < 5)
    ⊎ (after.status ≡ locked)
      × (after.locked_until ≡ some (now + minutes (lock_minutes (before.lock_cycle + 1))))
      × (counted outcome ≡ 1)

check_attempt-active :
    (account : Account) (member : StaffMember) (now : ℕ)
    → account.status ≡ active
    → AttemptCase account now (check_attempt account member false now)
unfolding check_attempt
check_attempt-active account member now s =
    elim (Bool-cases (member.is_active && not (temporary_pin_expired account now))) [
      | inr skipped ↦ inl (ground arith, ground arith)
      | inl looked ↦ elim (Bool-cases (ltb (account.failed_attempts + 1) 5)) [
        | inl few ↦ inr (inl (ground arith, ground arith, ground arith))
        | inr fifth ↦ inr (inr (ground arith, ground arith, ground arith))
      ]
    ]

before_lock_end :
    (start u : ℕ) (times : List ℕ)
    → start + minutes 15 ≤ u
    → All (λ now. (start ≤ now) × (now < start + minutes 15)) times
    → All (λ now. now < u) times
before_lock_end start u [] le h = tt
before_lock_end start u (t ∷ ts) le h = (omega arith, before_lock_end start u ts le h.1)

-- In a run of attempts on an active account that all have a wrong PIN, with nothing else done to the
-- account between them, and all within a quarter of an hour: at most five are refused because of the
-- PIN, or what `failed_attempts` leaves of the five.
pub wrong_guesses_bound :
    (account : Account) (member : StaffMember) (start : ℕ) (times : List ℕ)
    → account.status ≡ active
    → account.failed_attempts < 5
    → All (λ now. (start ≤ now) × (now < start + minutes 15)) times
    → wrong_guesses account member times + account.failed_attempts ≤ 5
unfolding wrong_guesses
wrong_guesses_bound account member start [] s f h = omega arith
wrong_guesses_bound account member start (now ∷ ts) s f h =
    elim (check_attempt-active account member now s) [
      | inl (same, zero_count) ↦
          rw (same, zero_count) (omega (arith, wrong_guesses_bound account member start ts s f h.1))
      | inr (inl (changed, one_count, few)) ↦
          rw (changed, one_count)
            (omega (
              arith,
              wrong_guesses_bound (record account { failed_attempts = account.failed_attempts + 1 })
                  member start ts s few h.1,
            ))
      | inr (inr (is_lock, until, one_count)) ↦ rw one_count (
          omega (
            arith,
            locked_guesses (check_attempt account member false now).0 member
                (now + minutes (lock_minutes (account.lock_cycle + 1))) ts is_lock until
                (before_lock_end start (now + minutes (lock_minutes (account.lock_cycle + 1))) ts
                  (omega (arith, lock_minutes_bounds (account.lock_cycle + 1))) h.1),
          ))
    ]
