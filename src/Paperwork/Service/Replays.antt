-- ===== src/Paperwork/Service/Replays.antt =====
-- paperwork/service.py: when a request is a repeated one, by the idempotency record of its key.
use prison_policy_ai.Prelude.{
  ℕ, ◌≡◌, ◌≤◌, ◌<◌, refl, Option, some, true, false, String, arith, find, Option-cases, inl, inr,
  or_else,
}
use prison_policy_ai.Fault.{ok}
use prison_policy_ai.Identity.Json.{done}
use prison_policy_ai.Identity.Idempotency.{
  RecordStatus, in_progress, completed, IdempotencyRecord, IdempotencyClaim, is_completed,
  of_request, claim_existing, claim_idempotency,
}
use prison_policy_ai.Identity.Elevation.{Actor}
use prison_policy_ai.Paperwork.Models.{PaperworkKind, PaperworkView, PaperworkDb}
use prison_policy_ai.Paperwork.Service.{Call, on_requests, view_from_reference}
use prison_policy_ai.Paperwork.Service.Writes.{view_from_reference-keeps}

-- The key of the call has a record of the same action and account that has not expired, has the digest of
-- this request and is completed; the answer is read from its reference, and nothing at all is written.
pub record IsReplay (actor : Actor) (call : Call) (action : String) (digest : ℕ)
    (expected : Option PaperworkKind) (db after : PaperworkDb) (view : PaperworkView) : Type 0 where
  pub request : IdempotencyRecord
  pub is_known :
      find (of_request actor.account_id action call.idempotency_key) db.requests ≡ some request
  pub is_live : call.now < request.expires_at
  pub is_same : request.request_sha256 ≡ digest
  pub is_done : request.status ≡ completed
  pub is_unchanged : after ≡ db
  pub is_answer : view_from_reference actor request.response_reference expected db ≡ (ok view, db)

-- the key of the call has no record of this action and account, or an expired one
abbrev pub IsFresh : Actor → Call → String → PaperworkDb → Type 0
IsFresh actor call action db =
    (row : IdempotencyRecord)
    → find (of_request actor.account_id action call.idempotency_key) db.requests ≡ some row
    → row.expires_at ≤ call.now

is_completed_sound : (s : RecordStatus) → is_completed s ≡ true → s ≡ completed
is_completed_sound completed h = refl
is_completed_sound in_progress h = absurd (ground arith)

module _ (actor : Actor) (call : Call) (action : String) (digest : ℕ) where
  -- a claim of the key, as save and restore make it
  abbrev pub Claims : PaperworkDb → IdempotencyClaim → PaperworkDb → Type 0
  Claims db claim mid =
      on_requests
        (claim_idempotency actor.account_id call.idempotency_key action digest call.now
          call.draws.claim_id)
        db
      ≡ (ok claim, mid)

  -- A claim that is replayed answers a request that is a repetition.
  pub claim-IsReplay :
      (expected : Option PaperworkKind) (db mid after : PaperworkDb) (claim : IdempotencyClaim)
      (view : PaperworkView)
      → Claims db claim mid
      → claim.replayed ≡ true
      → view_from_reference actor (or_else claim.response_reference done) expected mid
        ≡ (ok view, after)
      → IsReplay actor call action digest expected db after view
  unfolding claim_idempotency claim_existing
  claim-IsReplay expected db mid after claim view h again answered =
      elim (Option-cases
        (find (of_request actor.account_id action call.idempotency_key) db.requests)) [
          | inl new ↦ absurd (ground (arith, new, h, again))
          | inr (row, known) ↦
              let kept : after ≡ mid =
                view_from_reference-keeps actor (or_else claim.response_reference done) expected mid
                  after view answered in
              let same : mid ≡ db = ground (arith, known, h, again) in
              record {
                request = row;
                is_known = known;
                is_live = ground (arith, known, h, again);
                is_same = ground (arith, known, h, again);
                is_done = is_completed_sound row.status (ground (arith, known, h, again));
                is_unchanged = ground (arith, kept, same);
                is_answer = ground (arith, known, h, again, kept, same, answered);
              }
        ]

  pub claim-IsFresh :
      (db mid : PaperworkDb) (claim : IdempotencyClaim)
      → Claims db claim mid
      → claim.replayed ≡ false
      → IsFresh actor call action db
  unfolding claim_idempotency claim_existing
  claim-IsFresh db mid claim h first row known = ground (arith, known, h, first)
