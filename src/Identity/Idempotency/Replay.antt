-- ===== src/Identity/Idempotency/Replay.antt =====
-- A request with a key is answered by replay until its record expires.
use text.Mathlib.TextPositions.{eq_refl}
use prison_policy_ai.Prelude.{
  ℕ, ◌+◌, ◌<◌, ◌≡◌, ◌≢◌, refl, [], ◌∷◌, ◌++◌, true, false, some, String, Text, arith, find,
  find-append, find-update_where, Option-cases, Bool-cases, inl, inr, ◌==◌, ==_iff, hours, Unique,
  find_by_key, text_eq_refl, leb,
}
use prison_policy_ai.Fault.{ok, raised, idempotency_conflict, request_in_progress}
use prison_policy_ai.Identity.Json.{Fields}
use prison_policy_ai.Identity.Idempotency.{
  IdempotencyRecord, IdempotencyClaim, in_progress, Records, claim_idempotency,
  complete_idempotency, claim_existing, of_request, fresh_record, restarted, finished,
  update_record, record_by_id, is_key,
}

-- No two records have one id.
abbrev pub UniqueIds : Records → Type 0
UniqueIds rows = Unique (λ (r : IdempotencyRecord). r.id) rows

-- The request has a record that is still being worked on.
pub record Claimed (actor : ℕ) (key : Text) (action : String) (digest until id : ℕ) (rows : Records)
    : Type 0 where
  pub row : IdempotencyRecord
  pub found : find (of_request actor action key) rows ≡ some row
  pub is_id : row.id ≡ id
  pub is_digest : row.request_sha256 ≡ digest
  pub is_running : row.status ≡ in_progress
  pub is_until : row.expires_at ≡ until

module _ (actor : ℕ) (key : Text) (action : String) where
  -- an update by id of the record of the request
  find-own :
      (f : IdempotencyRecord → IdempotencyRecord) (rows : Records) (row : IdempotencyRecord)
      → ((x : IdempotencyRecord)
          → of_request actor action key (f x) ≡ of_request actor action key x)
      → find (of_request actor action key) rows ≡ some row
      → find (of_request actor action key) (update_record row.id f rows) ≡ some (f row)
  find-own f rows row keeps found =
      rw
        (
          find-update_where (of_request actor action key)
              (λ (r : IdempotencyRecord). r.id == row.id) f rows keeps,
          found,
        )
        (ground (arith, ==_iff row.id row.id))

  pub claim-Claimed :
      (digest now new_id : ℕ) (rows after : Records) (claim : IdempotencyClaim)
      → claim_idempotency actor key action digest now new_id rows ≡ (ok claim, after)
      → claim.replayed ≡ false
      → Claimed actor key action digest (now + hours 24) claim.record_id after
  unfolding claim_idempotency claim_existing
  claim-Claimed digest now new_id rows after claim h new =
      elim (Option-cases (find (of_request actor action key) rows)) [
        | inl gone ↦
            let row = fresh_record new_id actor action key digest now in
            let e : after ≡ rows ++ row ∷ [] = ground arith in
            record {
              row = row;
              found =
                  rw (e, find-append (of_request actor action key) rows (row ∷ []), gone)
                    (unfold find in
                      ground (arith, eq_refl action, text_eq_refl key, ==_iff actor actor));
              is_id = ground arith;
              is_digest = refl;
              is_running = refl;
              is_until = refl;
            }
        | inr (row, found) ↦ elim (Bool-cases (leb row.expires_at now)) [
          | inl over ↦
              let e : after ≡ update_record row.id (restarted digest now) rows = ground arith in
              record {
                row = restarted digest now row;
                found = rw e (find-own (restarted digest now) rows row (λ x. refl) found);
                is_id = ground arith;
                is_digest = refl;
                is_running = refl;
                is_until = refl;
              }
          | inr valid ↦ absurd (ground arith)
        ]
      ]

  -- A completion of the claim, and what the record holds then.
  complete-own :
      (digest until now status : ℕ) (reference : Fields) (rows after : Records)
      (claim : IdempotencyClaim)
      → UniqueIds rows
      → Claimed actor key action digest until claim.record_id rows
      → claim.replayed ≡ false
      → complete_idempotency claim status reference now rows ≡ (ok tt, after)
      → (row : IdempotencyRecord) × (find (of_request actor action key) after
          ≡ some (finished status reference now row))
        × (row.id ≡ claim.record_id)
        × (row.request_sha256 ≡ digest)
        × (row.expires_at ≡ until)
  unfolding complete_idempotency
  complete-own digest until now status reference rows after claim u c new h =
      let by_id : record_by_id c.row.id rows ≡ some c.row =
        find_by_key (λ (r : IdempotencyRecord). r.id) (of_request actor action key) rows c.row u
          c.found in
      let at : record_by_id claim.record_id rows ≡ some c.row = rw (← c.is_id) by_id in
      let e : after ≡ update_record c.row.id (finished status reference now) rows =
        ground (arith, at, new) in
      (
        c.row,
        rw e (find-own (finished status reference now) rows c.row (λ x. refl) c.found),
        c.is_id,
        c.is_digest,
        c.is_until,
      )

  -- A request with an acceptable key is claimed, which takes effect; its completion stores the status
  -- and the reference of the answer. From then on, until 24 hours after the claim, the same request is
  -- answered by exactly these, and the key with another digest is refused; neither writes anything.
  -- Between claim and completion the same request is told that it is in progress. The ids of the
  -- records are distinct, as their primary key demands.
  pub claim_idempotency-replays :
      (digest now new_id : ℕ) (rows claimed_rows after : Records) (claim : IdempotencyClaim)
      (status done_at : ℕ) (reference : Fields)
      → UniqueIds claimed_rows
      → claim_idempotency actor key action digest now new_id rows ≡ (ok claim, claimed_rows)
      → claim.replayed ≡ false
      → complete_idempotency claim status reference done_at claimed_rows ≡ (ok tt, after)
      → (t new_id' : ℕ) → t < now + hours 24
      → (claim_idempotency actor key action digest t new_id' claimed_rows
          ≡ (raised request_in_progress, claimed_rows))
        × (claim_idempotency actor key action digest t new_id' after ≡ (
          ok (record {
            record_id = claim.record_id;
            replayed = true;
            response_status = some status;
            response_reference = some reference;
          }),
          after,
        ))
        × ((other : ℕ)
            → other ≢ digest
            → claim_idempotency actor key action other t new_id' after
              ≡ (raised idempotency_conflict, after))
  unfolding claim_idempotency claim_existing
  claim_idempotency-replays digest now new_id rows claimed_rows after claim status done_at reference
        u h new done t new_id' soon =
      let c = claim-Claimed digest now new_id rows claimed_rows claim h new in
      let (row, found, is_id, is_digest, is_until) =
        complete-own digest (now + hours 24) done_at status reference claimed_rows after claim u c
          new done in
      let good : is_key key ≡ true = ground (arith, h) in
      (
        ground (arith, good, c.found, c.is_digest, c.is_until, c.is_running, ==_iff digest digest),
        ground (arith, good, found, is_id, is_digest, is_until, ==_iff digest digest),
        λ other apart. ground (arith, good, found, is_digest, is_until, ==_iff digest other),
      )
