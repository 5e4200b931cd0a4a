-- ===== src/Identity/RateLimits/Window.antt =====
-- How many attempts a window of rate_limits.py allows, and when the next one opens.
use text.Mathlib.TextPositions.{eq_refl}
use prison_policy_ai.Prelude.{
  ℕ, suc, ◌+◌, ◌-◌, ◌≤◌, ◌<◌, ◌≡◌, List, [], ◌∷◌, ◌++◌, true, false, Option, none, some, String,
  Text, arith, All, find, find-append, find-update_where, find_sound, update_where, ==_iff,
  if◌then◌else◌, seconds, min, Option-cases, inl, inr, length, subst, leb, ◌∙◌,
}
use prison_policy_ai.Fault.{Result, ok, raised}
use prison_policy_ai.Identity.Crypto.{Crypto}
use prison_policy_ai.Identity.Models.{AuthRateLimit, Db}
use prison_policy_ai.Identity.RateLimits.{
  RateLimitDecision, hit, upsert, decide, of_subject, first_hit, window_seconds, subject_hash,
  maximum_of, consume_limit,
}

abbrev pub allowed_of : Result RateLimitDecision → ℕ
allowed_of (ok d) = if d.allowed then 1 else 0
allowed_of (raised _) = 0

module _ (crypto : Crypto) (dimension : String) (value pepper : Text) (limit : Option ℕ) where
  -- how many of the calls at these times, in this order, are allowed
  unfoldable pub allowed_calls : List ℕ → Db → ℕ
  allowed_calls [] db = 0
  allowed_calls (now ∷ times) db =
      let (r, db') = consume_limit crypto dimension value now pepper limit db in
      allowed_of r + allowed_calls times db'

  module _ (maximum digest : ℕ) (is_maximum : maximum_of dimension limit ≡ ok maximum)
      (is_digest : subject_hash crypto dimension value pepper ≡ ok digest) where
    -- one call on a subject that has a row
    consume_limit-row :
        (now : ℕ) (db : Db) (row : AuthRateLimit)
        → find (of_subject dimension digest) db.rate_limits ≡ some row
        → (consume_limit crypto dimension value now pepper limit db ≡ (
          ok (decide maximum now (hit now row)),
          record db {
            rate_limits = update_where (of_subject dimension digest) (hit now) db.rate_limits;
          },
        ))
          × (find
                (of_subject dimension digest)
                (update_where (of_subject dimension digest) (hit now) db.rate_limits)
              ≡ some (hit now row))
    unfolding consume_limit upsert
    consume_limit-row now db row found = (
      ground (arith, is_maximum, is_digest),
      rw
          (
            find-update_where (of_subject dimension digest) (of_subject dimension digest) (hit now)
                db.rate_limits (λ x. unfold hit in ground arith),
            found,
          )
          (ground (arith, find_sound (of_subject dimension digest) db.rate_limits row found)),
    )

    -- within the window of a row
    allowed_calls-row :
        (times : List ℕ) (db : Db) (row : AuthRateLimit)
        → find (of_subject dimension digest) db.rate_limits ≡ some row
        → All (λ t. t < row.window_started_at + seconds window_seconds) times
        → allowed_calls times db ≡ min (length times) (maximum - row.hit_count)
    unfolding allowed_calls decide
    allowed_calls-row [] db row found h = omega arith
    allowed_calls-row (now ∷ times) db row found h =
        let (call, kept) = consume_limit-row now db row found in
        let next : hit now row ≡ record row { hit_count = row.hit_count + 1; updated_at = now } =
          unfold hit in ground (arith, h.0) in
        let row' : AuthRateLimit = record row { hit_count = row.hit_count + 1; updated_at = now } in
        let after : Db = record db {
          rate_limits = update_where (of_subject dimension digest) (hit now) db.rate_limits;
        } in
        let rest : allowed_calls times after ≡ min (length times) (maximum - row'.hit_count) =
          allowed_calls-row times after row'
            (subst (λ r. find (of_subject dimension digest) after.rate_limits ≡ some r) next kept)
            h.1 in
        rw (call, next) (ground (arith, rest))

    -- A window allows exactly `maximum` calls. Take a subject with no row, and calls at `start` and
    -- then at any times before `start` + 15 minutes: of all of them the first `maximum` are allowed,
    -- or all if they are fewer.
    pub allowed_calls-window :
        (start : ℕ) (times : List ℕ) (db : Db)
        → find (of_subject dimension digest) db.rate_limits ≡ none
        → All (λ t. t < start + seconds window_seconds) times
        → allowed_calls (start ∷ times) db ≡ min (suc (length times)) maximum
    unfolding allowed_calls consume_limit upsert decide
    allowed_calls-window start times db new h =
        let row = first_hit dimension digest start in
        let after : Db = record db { rate_limits = db.rate_limits ++ row ∷ [] } in
        let found : find (of_subject dimension digest) after.rate_limits ≡ some row =
          rw (find-append (of_subject dimension digest) db.rate_limits (row ∷ []), new)
            (unfold find in ground (arith, eq_refl dimension, ==_iff digest digest)) in
        ground (arith, is_maximum, is_digest, new, allowed_calls-row times after row found h)

    -- The answer to a refused call is honest: it names at least one second, and a next call on the same
    -- subject after so many seconds or more is allowed and starts a new window, whose row has the time
    -- of that call and a count of one.
    pub retry_after_opens :
        (now : ℕ) (db after : Db) (decision : RateLimitDecision)
        → consume_limit crypto dimension value now pepper limit db ≡ (ok decision, after)
        → decision.allowed ≡ false
        → 1 ≤ maximum
        → (row : AuthRateLimit) × (find (of_subject dimension digest) after.rate_limits ≡ some row)
          × (1 ≤ decision.retry_after_seconds)
          × ((later : ℕ)
              → now + seconds decision.retry_after_seconds ≤ later
              → let (answer, db') = consume_limit crypto dimension value later pepper limit after in
                (answer ≡ ok (record { allowed = true; retry_after_seconds = 0 }))
                × (find (of_subject dimension digest) db'.rate_limits
                    ≡ some (record row {
                      window_started_at = later;
                      hit_count = 1;
                      updated_at = later;
                    })))
    retry_after_opens now db after decision h refused some_allowed =
        elim (Option-cases (find (of_subject dimension digest) db.rate_limits)) [
          | inl new ↦
              absurd (unfold consume_limit upsert decide in ground (arith, is_maximum, is_digest))
          | inr (row, found) ↦
              let (call, kept) = consume_limit-row now db row found in
              let e : after.rate_limits
                  ≡ update_where (of_subject dimension digest) (hit now) db.rate_limits =
                ground (arith, call) in
              let at : find (of_subject dimension digest) after.rate_limits ≡ some (hit now row) =
                rw e kept in
              let d : decision ≡ decide maximum now (hit now row) = ground (arith, call) in
              (
                hit now row,
                at,
                unfold decide in ground (arith, d),
                λ later enough.
                    let (again, stored) = consume_limit-row later after (hit now row) at in
                    let over : leb ((hit now row).window_started_at + seconds window_seconds) later
                        ≡ true =
                      unfold decide in ground (arith, d) in
                    rw again (
                      unfold decide hit in ground (arith, d),
                      stored ∙ (unfold hit in ground (arith, over)),
                    ),
              )
        ]
