-- ===== src/Identity/Accounts/Lockout/Minutes.antt =====
-- The lengths of the locks that `lock_minutes` sets.
use Prim.Native.Nat.{min}
use native.Mathlib.Nat.{pow-suc}
use prison_policy_ai.Prelude.{ℕ, zero, suc, ◌*◌, ◌-◌, ◌^◌, ◌≤◌, ◌≡◌, arith}
use prison_policy_ai.Identity.Accounts.Lockout.{lock_minutes}

pow_two_pos : (n : ℕ) → 1 ≤ 2 ^ n
pow_two_pos zero = omega arith
pow_two_pos (suc n) = rw pow-suc (omega (arith, pow_two_pos n))

-- A lock lasts at least 15 minutes and at most a day, whatever the number of earlier locks.
pub lock_minutes_bounds : (c : ℕ) → (15 ≤ lock_minutes c) × (lock_minutes c ≤ 1440)
unfolding lock_minutes
lock_minutes_bounds zero = (omega arith, omega arith)
lock_minutes_bounds (suc c) =
    let e : suc c - 1 ≡ c = omega arith in
    rw e (omega (arith, pow_two_pos c), omega (arith, pow_two_pos c))

-- From the first lock on, each lock is twice as long as the one before, up to a day.
pub lock_minutes_doubles :
    (c : ℕ) → lock_minutes (suc (suc c)) ≡ min (2 * lock_minutes (suc c)) 1440
unfolding lock_minutes
lock_minutes_doubles c =
    let e : suc c - 1 ≡ c = omega arith in
    let d : suc (suc c) - 1 ≡ suc c = omega arith in rw (e, d, pow-suc) (omega arith)
