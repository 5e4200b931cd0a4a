-- ===== src/Tests/Idempotency.antt =====
-- Runs of identity/idempotency.py.
use prison_policy_ai.Prelude.{update_where}
use prison_policy_ai.Identity.Json.{encoded_length}
use prison_policy_ai.Prelude.{text_eq}
use prison_policy_ai.Prelude.{any}
use prison_policy_ai.Identity.Idempotency.{is_forbidden}
use prison_policy_ai.Identity.Idempotency.{safe_reference}
use prison_policy_ai.Prelude.{find}
use prison_policy_ai.Identity.Idempotency.{is_key_char}
use prison_policy_ai.Prelude.{all}
use prison_policy_ai.Identity.Idempotency.{is_key}
use prison_policy_ai.Prelude.{ℕ, ◌+◌, ◌≡◌, ◌≢◌, refl, [], some, Text, codes, arith, true, hours}
use prison_policy_ai.Fault.{ok, raised, request_in_progress, idempotency_conflict}
use prison_policy_ai.Identity.Json.{Fields, field, done, string}
use prison_policy_ai.Identity.Idempotency.{
  Records, IdempotencyClaim, claim_idempotency, complete_idempotency, claimed,
}
use prison_policy_ai.Identity.Idempotency.Replay.{claim_idempotency-replays}
use prison_policy_ai.Identity.Idempotency.Safety.{
  Calls, none_yet, one_more, claims, completes, IsSound, Calls-one_effect,
}

abbrev key : Text
key = codes "key-0001"

abbrev reference : Fields
reference = field (codes "account_id") (string (codes "10")) done

abbrev claimed_rows : Records
claimed_rows = (claim_idempotency 10 key "admin.unlock" 77 5 1 []).1

abbrev completed_rows : Records
completed_rows = (complete_idempotency (claimed 1) 200 reference 6 claimed_rows).1

claim_idempotency-replays_example :
    (claim_idempotency 10 key "admin.unlock" 77 9 2 claimed_rows
      ≡ (raised request_in_progress, claimed_rows))
    × (claim_idempotency 10 key "admin.unlock" 77 9 2 completed_rows ≡ (
      ok (record {
        record_id = 1;
        replayed = true;
        response_status = some 200;
        response_reference = some reference;
      }),
      completed_rows,
    ))
    × ((other : ℕ)
        → other ≢ 77
        → claim_idempotency 10 key "admin.unlock" other 9 2 completed_rows
          ≡ (raised idempotency_conflict, completed_rows))
unfolding claim_idempotency complete_idempotency is_key all is_key_char find safe_reference
    is_forbidden any text_eq encoded_length
claim_idempotency-replays_example =
    claim_idempotency-replays 10 key "admin.unlock" 77 5 1 [] claimed_rows completed_rows
      (claimed 1) 200 6 reference (tt, tt) refl refl refl 9 2 (omega arith)

-- Another account claims and completes in between.
abbrev other_rows : Records
other_rows = (claim_idempotency 11 key "admin.unlock" 78 8 2 completed_rows).1

between : Calls (5 + hours 24) claimed_rows other_rows
unfolding claim_idempotency complete_idempotency safe_reference is_forbidden any text_eq
    encoded_length find is_key all is_key_char update_where
between =
    one_more 8 (one_more 6 none_yet (omega arith) (completes (claimed 1) 200 reference))
      (omega arith) (claims 11 key "admin.unlock" 78 2 (λ e. cc, tt))

claimed_rows-IsSound : IsSound claimed_rows
unfolding claim_idempotency is_key all is_key_char find safe_reference encoded_length
claimed_rows-IsSound = ((tt, tt), ((refl, omega arith), tt))

Calls-one_effect_example :
    ((claim_idempotency 10 key "admin.unlock" 99 100 3 other_rows).1 ≡ other_rows)
    × ((claim : IdempotencyClaim)
        → (claim_idempotency 10 key "admin.unlock" 99 100 3 other_rows).0 ≡ ok claim
        → claim.replayed ≡ true)
unfolding claim_idempotency find is_key all is_key_char text_eq
Calls-one_effect_example =
    Calls-one_effect 10 key "admin.unlock" (5 + hours 24) between claimed_rows-IsSound
      (_, refl, refl) 99 100 3 (omega arith)
