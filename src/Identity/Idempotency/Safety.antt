-- ===== src/Identity/Idempotency/Safety.antt =====
-- What every record of the table keeps through any sequence of claims and completions.
use prison_policy_ai.Prelude.{
  ℕ, ◌≤◌, ◌<◌, ◌≡◌, refl, [], ◌∷◌, ◌++◌, true, none, some, String, Text, arith, All, find,
  find-append, find-update_where, Option-cases, Bool-cases, ◌⊎◌, inl, inr, ◌==◌, ==_iff, Lacks,
  find_by_key, Unique-append, Unique-update_where, All-append, All-update_where, leb,
}
use prison_policy_ai.Fault.{ok, Exec-cases}
use prison_policy_ai.Identity.Json.{Fields, done, obj, encoded_length}
use prison_policy_ai.Identity.Idempotency.{
  IdempotencyRecord, IdempotencyClaim, Records, claim_idempotency, complete_idempotency,
  claim_existing, of_request, fresh_record, restarted, finished, update_record, record_by_id,
  safe_reference,
}
use prison_policy_ai.Identity.Idempotency.Replay.{UniqueIds}

-- a new record's id is not one of the table's
abbrev pub IsNew : ℕ → Records → Type 0
IsNew id rows = Lacks (λ (r : IdempotencyRecord). r.id) id rows

-- One call of the module at the time `now`, whatever it answers.
pub data Call (now : ℕ) (rows : Records) : Records → Type 0 where
  claims :
      (actor : ℕ) (key : Text) (action : String) (digest new_id : ℕ)
      → IsNew new_id rows
      → Call now rows (claim_idempotency actor key action digest now new_id rows).1
  completes :
      (claim : IdempotencyClaim) (status : ℕ) (reference : Fields)
      → Call now rows (complete_idempotency claim status reference now rows).1

-- Calls one after the other, each before the time `until`.
pub data Calls (until : ℕ) (rows : Records) : Records → Type 0 where
  none_yet : Calls until rows rows
  one_more :
      {before after : Records} (now : ℕ)
      → Calls until rows before
      → now < until
      → Call now before after
      → Calls until rows after

-- A stored reference holds none of the forbidden keys, at any depth, and at most 4096 bytes.
abbrev pub IsSafe : IdempotencyRecord → Type 0
IsSafe row =
    (safe_reference (obj row.response_reference) ≡ true)
    × (encoded_length (obj row.response_reference) ≤ 4096)

abbrev pub IsSound : Records → Type 0
IsSound rows = UniqueIds rows × All IsSafe rows

done-IsSafe : (safe_reference (obj done) ≡ true) × (encoded_length (obj done) ≤ 4096)
unfolding safe_reference encoded_length
done-IsSafe = (refl, omega arith)

-- what a claim writes: nothing, a new record, or an expired record started anew
claim-writes :
    (actor : ℕ) (key : Text) (action : String) (digest now new_id : ℕ) (rows : Records)
    → let after = (claim_idempotency actor key action digest now new_id rows).1 in
      (after ≡ rows)
      ⊎ ((find (of_request actor action key) rows ≡ none)
          × (after ≡ rows ++ fresh_record new_id actor action key digest now ∷ []))
      ⊎ ((row : IdempotencyRecord) × (find (of_request actor action key) rows ≡ some row)
          × (row.expires_at ≤ now)
          × (after ≡ update_record row.id (restarted digest now) rows))
unfolding claim_idempotency claim_existing
claim-writes actor key action digest now new_id rows =
    elim (Option-cases (find (of_request actor action key) rows)) [
      | inl gone ↦ ground arith
      | inr (row, found) ↦ elim (Bool-cases (leb row.expires_at now)) [
        | inl over ↦ ground arith
        | inr valid ↦ ground arith
      ]
    ]

-- what a completion writes: nothing, or a safe answer into the record
complete-writes :
    (claim : IdempotencyClaim) (status : ℕ) (reference : Fields) (now : ℕ) (rows : Records)
    → let after = (complete_idempotency claim status reference now rows).1 in
      (after ≡ rows)
      ⊎ ((id : ℕ) × (safe_reference (obj reference) ≡ true)
          × (encoded_length (obj reference) ≤ 4096)
          × (after ≡ update_record id (finished status reference now) rows))
unfolding complete_idempotency
complete-writes claim status reference now rows =
    elim (Option-cases (record_by_id claim.record_id rows)) [
      | inl gone ↦ inl (ground arith)
      | inr (row, found) ↦
          elim (Exec-cases (complete_idempotency claim status reference now rows)) [
            | inr (fault, after, refused) ↦ inl (ground arith)
            | inl (_, after, went) ↦ elim (Bool-cases claim.replayed) [
              | inl replayed ↦ inl (ground arith)
              | inr new ↦ inr (row.id, ground arith, ground arith, ground arith)
            ]
          ]
    ]

update-IsSound :
    (id : ℕ) (f : IdempotencyRecord → IdempotencyRecord) (rows : Records)
    → ((x : IdempotencyRecord) → (f x).id ≡ x.id)
    → ((x : IdempotencyRecord) → IsSafe (f x))
    → IsSound rows
    → IsSound (update_record id f rows)
update-IsSound id f rows keeps safe (u, s) = (
  Unique-update_where (λ (r : IdempotencyRecord). r.id) (λ (r : IdempotencyRecord). r.id == id) f
      rows keeps u,
  All-update_where IsSafe (λ (r : IdempotencyRecord). r.id == id) f rows (λ x _ _. safe x) s,
)

Call-IsSound : {now : ℕ} {rows after : Records} → Call now rows after → IsSound rows → IsSound after
Call-IsSound {now} {rows} (claims actor key action digest new_id fresh) (u, s) =
    elim (claim-writes actor key action digest now new_id rows) [
      | inl same ↦ rw same (u, s)
      | inr (inl (gone, e)) ↦
          let row = fresh_record new_id actor action key digest now in
          rw e (
            Unique-append (λ (r : IdempotencyRecord). r.id) rows row u fresh,
            All-append IsSafe rows (row ∷ []) s (done-IsSafe, tt),
          )
      | inr (inr (row, found, over, e)) ↦
          rw e (
            update-IsSound row.id (restarted digest now) rows (λ x. refl) (λ x. done-IsSafe) (u, s))
    ]
Call-IsSound {now} {rows} (completes claim status reference) (u, s) =
    elim (complete-writes claim status reference now rows) [
      | inl same ↦ rw same (u, s)
      | inr (id, safe, short, e) ↦ rw e (
          update-IsSound id (finished status reference now) rows (λ x. refl) (λ x. (safe, short))
            (u, s))
    ]

-- Through any sequence of claims and completions, each successful or refused, the ids stay distinct,
-- and no record ever stores an answer that holds a token, a PIN, a report text or field notes under
-- their keys, at any depth, or that is longer than 4096 bytes as JSON.
Calls-IsSound :
    {until : ℕ} {rows after : Records} → Calls until rows after → IsSound rows → IsSound after
Calls-IsSound none_yet s = s
Calls-IsSound (one_more now before soon call) s = Call-IsSound call (Calls-IsSound before s)

-- The request has a record that expires at `until`.
abbrev pub Holds : ℕ → Text → String → ℕ → Records → Type 0
Holds actor key action until rows =
    (row : IdempotencyRecord) × (find (of_request actor action key) rows ≡ some row)
    × (row.expires_at ≡ until)

module _ (actor : ℕ) (key : Text) (action : String) (until : ℕ) where
  Call-Holds :
      {now : ℕ} {rows after : Records}
      → Call now rows after
      → now < until
      → UniqueIds rows
      → Holds actor key action until rows
      → Holds actor key action until after
  Call-Holds {now} {rows} (claims actor' key' action' digest new_id fresh) soon u
        (row, found, is_until) =
      elim (claim-writes actor' key' action' digest now new_id rows) [
        | inl same ↦ rw same (row, found, is_until)
        | inr (inl (gone, e)) ↦ (
          row,
          rw
              (
                e,
                find-append (of_request actor action key) rows
                    (fresh_record new_id actor' action' key' digest now ∷ []),
                found,
              )
              refl,
          is_until,
        )
        | inr (inr (other, found', over, e)) ↦ elim (Bool-cases (row.id == other.id)) [
          | inl same ↦
              let by_id =
                find_by_key (λ (r : IdempotencyRecord). r.id) (of_request actor' action' key') rows
                  other u found' in
              let by_id' =
                find_by_key (λ (r : IdempotencyRecord). r.id) (of_request actor action key) rows row
                  u found in
              let ids : row.id ≡ other.id = (==_iff row.id other.id).0 same in
              absurd (ground (arith, by_id, rw ids at by_id'))
          | inr apart ↦ (
            row,
            rw
                (
                  e,
                  find-update_where (of_request actor action key)
                      (λ (r : IdempotencyRecord). r.id == other.id) (restarted digest now) rows
                      (λ x. refl),
                  found,
                )
                (ground (arith, apart)),
            is_until,
          )
        ]
      ]
  Call-Holds {now} {rows} (completes claim status reference) soon u (row, found, is_until) =
      elim (complete-writes claim status reference now rows) [
        | inl same ↦ rw same (row, found, is_until)
        | inr (id, safe, short, e) ↦
            let at =
              find-update_where (of_request actor action key)
                (λ (r : IdempotencyRecord). r.id == id) (finished status reference now) rows
                (λ x. refl) in
            elim (Bool-cases (row.id == id)) [
              | inl same ↦ (
                finished status reference now row,
                rw (e, at, found) (ground (arith, same)),
                is_until,
              )
              | inr apart ↦ (row, rw (e, at, found) (ground (arith, apart)), is_until)
            ]
      ]

  Calls-Holds :
      {rows after : Records}
      → Calls until rows after
      → IsSound rows
      → Holds actor key action until rows
      → Holds actor key action until after
  Calls-Holds none_yet s h = h
  Calls-Holds (one_more now before soon call) s h =
      Call-Holds call soon (Calls-IsSound before s).0 (Calls-Holds before s h)

  -- A key takes effect at most once in 24 hours: from the time that its record is there, through any
  -- sequence of calls for this and other requests, no claim of the key before the record's expiry is
  -- granted anew, whatever digest it names; it writes nothing either.
  pub Calls-one_effect :
      {rows after : Records}
      → Calls until rows after
      → IsSound rows
      → Holds actor key action until rows
      → (digest now new_id : ℕ) → now < until
      → ((claim_idempotency actor key action digest now new_id after).1 ≡ after)
        × ((claim : IdempotencyClaim)
            → (claim_idempotency actor key action digest now new_id after).0 ≡ ok claim
            → claim.replayed ≡ true)
  unfolding claim_idempotency claim_existing
  Calls-one_effect calls s h digest now new_id soon =
      let (row, found, is_until) = Calls-Holds calls s h in
      (ground (arith, found, is_until), λ claim went. ground (arith, found, is_until))
