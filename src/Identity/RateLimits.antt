-- ===== src/Identity/RateLimits.antt =====
-- identity/rate_limits.py: the fixed windows of sign-in attempts.
pub mod Window
use text.Mathlib.Text.{◌==◌ as str_eq}
use prison_policy_ai.Prelude.{
  ℕ, ◌+◌, ◌-◌, ◌*◌, ◌/◌, List, [], ◌∷◌, ◌++◌, Option, none, some, Bool, true, false, not, ◌&&◌,
  ◌||◌, String, Text, codes, leb, ◌==◌, find, update_where, if◌then◌else◌, is_none, seconds, max,
}
use prison_policy_ai.Fault.{
  Result, ok, raised, Exec, pure, lift, modify, gets, value_error, key_error, ◌>>=◌, ◌>>◌,
}
use prison_policy_ai.Identity.Crypto.{Crypto}
use prison_policy_ai.Identity.Normalization.{is_empty}
use prison_policy_ai.Identity.Models.{AuthRateLimit, Db}

-- LIMITS
unfoldable pub limit_of : String → Option ℕ
limit_of dimension =
    if str_eq dimension "employee"
    then some 10
    else if str_eq dimension "device"
    then some 30
    else if str_eq dimension "network"
    then some 200
    else none

abbrev pub window_seconds : ℕ
window_seconds = 15 * 60

pub record RateLimitDecision : Type 0 where
  pub allowed : Bool
  pub retry_after_seconds : ℕ

unfoldable pub subject_hash : Crypto → String → Text → Text → Result ℕ
subject_hash crypto dimension value pepper =
    if is_none (limit_of dimension) || is_empty value || is_empty pepper
    then raised value_error
    else ok (crypto.hmac_sha256 pepper (codes dimension ++ b':' ∷ value))

-- `LIMITS[dimension] if limit is None else limit`
unfoldable pub maximum_of : String → Option ℕ → Result ℕ
maximum_of dimension (some limit) = ok limit
maximum_of dimension none = elim (limit_of dimension) [ none ↦ raised key_error | some n ↦ ok n ]

-- the row that the upsert leaves: `window_started_at <= now - window` is written without a
-- subtraction
unfoldable pub hit : ℕ → AuthRateLimit → AuthRateLimit
hit now row =
    if leb (row.window_started_at + seconds window_seconds) now
    then record row { window_started_at = now; hit_count = 1; updated_at = now }
    else record row { hit_count = row.hit_count + 1; updated_at = now }

abbrev pub of_subject : String → ℕ → AuthRateLimit → Bool
of_subject dimension digest row = str_eq row.dimension dimension && row.subject_hash == digest

abbrev pub first_hit : String → ℕ → ℕ → AuthRateLimit
first_hit dimension digest now = record {
  dimension = dimension;
  subject_hash = digest;
  window_started_at = now;
  hit_count = 1;
  updated_at = now;
}

-- INSERT … ON CONFLICT DO UPDATE … RETURNING: the row of the subject afterwards
unfoldable pub upsert : String → ℕ → ℕ → Exec Db AuthRateLimit
upsert dimension digest now db = elim (find (of_subject dimension digest) db.rate_limits) [
  | none ↦ (
    ok (first_hit dimension digest now),
    record db { rate_limits = db.rate_limits ++ first_hit dimension digest now ∷ [] },
  )
  | some row ↦ (
    ok (hit now row),
    record db { rate_limits = update_where (of_subject dimension digest) (hit now) db.rate_limits },
  )
]

-- math.ceil of the microseconds left, in seconds
abbrev pub seconds_left : AuthRateLimit → ℕ → ℕ
seconds_left row now = (row.window_started_at + seconds window_seconds - now + 999999) / 1000000

unfoldable pub decide : ℕ → ℕ → AuthRateLimit → RateLimitDecision
decide maximum now row = record {
  allowed = leb row.hit_count maximum;
  retry_after_seconds = if leb row.hit_count maximum then 0 else max 1 (seconds_left row now);
}

unfoldable pub consume_limit :
    Crypto → String → Text → ℕ → Text → Option ℕ → Exec Db RateLimitDecision
consume_limit crypto dimension value now pepper limit = do
  maximum ← lift (maximum_of dimension limit)
  digest ← lift (subject_hash crypto dimension value pepper)
  row ← upsert dimension digest now
  pure (decide maximum now row)
