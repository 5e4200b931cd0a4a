-- ===== src/Identity/Accounts/Lockout.antt =====
-- identity/accounts.py: the counter of failed attempts and the locks that it sets.
pub mod Minutes
use Prim.Native.Nat.{min}
use prison_policy_ai.Prelude.{
  ℕ, ◌+◌, ◌*◌, ◌-◌, ◌^◌, Option, none, some, Bool, true, false, ltb, leb, ◌&&◌, if◌then◌else◌,
  minutes,
}
use prison_policy_ai.Identity.Models.{
  Account, Status, active, locked, deactivated, is_locked, is_active,
}

-- `max(lock_cycle - 1, 0)` is the subtraction of the natural numbers
unfoldable pub lock_minutes : ℕ → ℕ
lock_minutes lock_cycle = min (15 * 2 ^ (lock_cycle - 1)) (24 * 60)

abbrev pub unlocked : Status → Status
unlocked locked = active
unlocked active = active
unlocked deactivated = deactivated

unfoldable pub reset_failed_attempts : Account → Account
reset_failed_attempts account = record account {
  failed_attempts = 0;
  lock_cycle = 0;
  locked_until = none;
  status = unlocked account.status;
}

unfoldable pub unlock_admin_account : Account → Account
unlock_admin_account account = record account {
  status = active;
  failed_attempts = 0;
  lock_cycle = 0;
  locked_until = none;
}

-- The account afterwards, and the minutes of the lock if this attempt sets one.
unfoldable pub record_failed_attempt : Account → ℕ → Account × Option ℕ
record_failed_attempt account now =
    if ltb (account.failed_attempts + 1) 5
    then (record account { failed_attempts = account.failed_attempts + 1 }, none)
    else (
      record account {
        failed_attempts = account.failed_attempts + 1;
        lock_cycle = account.lock_cycle + 1;
        status = locked;
        locked_until = some (now + minutes (lock_minutes (account.lock_cycle + 1)));
      },
      some (lock_minutes (account.lock_cycle + 1)),
    )

abbrev pub reached : Option ℕ → ℕ → Bool
reached none now = false
reached (some t) now = leb t now

-- the lapse of a lock at the next sign-in: the cycle count stays
unfoldable pub expire_lock : Account → ℕ → Account
expire_lock account now =
    if is_locked account.status && reached account.locked_until now
    then record account { status = active; failed_attempts = 0; locked_until = none }
    else account
