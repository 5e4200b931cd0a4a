-- ===== src/Tests/RateLimits.antt =====
-- Runs of identity/rate_limits.py.
use prison_policy_ai.Identity.RateLimits.{hit}
use prison_policy_ai.Identity.RateLimits.{decide}
use prison_policy_ai.Identity.RateLimits.{upsert}
use prison_policy_ai.Identity.RateLimits.{limit_of}
use prison_policy_ai.Prelude.{
  ℕ, ◌+◌, ◌≡◌, ◌≤◌, suc, List, refl, [], ◌∷◌, ◌++◌, some, Text, codes, arith, true, false, find,
  seconds, length, min,
}
use prison_policy_ai.Fault.{ok}
use prison_policy_ai.Identity.Models.{Db, AuthRateLimit}
use prison_policy_ai.Identity.RateLimits.{
  RateLimitDecision, consume_limit, limit_of, subject_hash, maximum_of, of_subject,
}
use prison_policy_ai.Identity.RateLimits.Window.{
  allowed_calls, allowed_calls-window, retry_after_opens,
}
use prison_policy_ai.Tests.Samples.{crypto, db}

abbrev network : Text
network = codes "10.1.2.3"

abbrev digest : ℕ
digest = crypto.hmac_sha256 (codes "pepper") (codes "network" ++ b':' ∷ network)

abbrev times : List ℕ
times = 6 ∷ 7 ∷ 8 ∷ []

-- of four calls with a limit of two, two are allowed
allowed_calls-window_example :
    allowed_calls crypto "network" network (codes "pepper") (some 2) (5 ∷ times) db
    ≡ min (suc (length times)) 2
unfolding maximum_of subject_hash find limit_of
allowed_calls-window_example =
    allowed_calls-window crypto "network" network (codes "pepper") (some 2) 2 digest refl refl 5
      times db refl (omega arith, (omega arith, (omega arith, tt)))

abbrev once_db : Db
once_db = (consume_limit crypto "network" network 5 (codes "pepper") (some 1) db).1

abbrev twice_db : Db
twice_db = (consume_limit crypto "network" network 6 (codes "pepper") (some 1) once_db).1

abbrev refusal : RateLimitDecision
refusal = record { allowed = false; retry_after_seconds = 900 }

retry_after_opens_example :
    (row : AuthRateLimit) × (find (of_subject "network" digest) twice_db.rate_limits ≡ some row)
    × (1 ≤ 900)
    × ((later : ℕ)
        → 6 + seconds 900 ≤ later
        → let (answer, db') =
            consume_limit crypto "network" network later (codes "pepper") (some 1) twice_db in
          (answer ≡ ok (record { allowed = true; retry_after_seconds = 0 }))
          × (find (of_subject "network" digest) db'.rate_limits
              ≡ some (record row { window_started_at = later; hit_count = 1; updated_at = later })))
unfolding maximum_of subject_hash consume_limit limit_of upsert find decide hit
retry_after_opens_example =
    retry_after_opens crypto "network" network (codes "pepper") (some 1) 1 digest refl refl 6
      once_db twice_db refusal refl refl (omega arith)
