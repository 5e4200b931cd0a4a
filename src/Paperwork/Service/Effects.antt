-- ===== src/Paperwork/Service/Effects.antt =====
-- paperwork/service.py: how a save that succeeds ends.
use prison_policy_ai.Prelude.{
  ℕ, ◌≡◌, refl, List, Option, none, some, true, arith, Bool-cases, inl, inr, subst, Text,
}
use prison_policy_ai.Fault.{ok, bind-ok, Result-cases}
use prison_policy_ai.Identity.Json.{Fields}
use prison_policy_ai.Identity.Idempotency.{IdempotencyClaim}
use prison_policy_ai.Identity.Elevation.{Actor}
use prison_policy_ai.Paperwork.Models.{
  PaperworkKind, PaperworkRecord, PaperworkSnapshot, PaperworkView, PaperworkDb, RevisionReason,
}
use prison_policy_ai.Paperwork.Schemas.{
  SavePaperworkRequest, paperwork_snapshot, changed_field_paths, snapshot_for_request,
}
use prison_policy_ai.Paperwork.Service.{save_of, Rules, Call, by_id_kind, can_read_paperwork}
use prison_policy_ai.Paperwork.Service.Rows.{new_record, edited_record}
use prison_policy_ai.Paperwork.Service.Saves.{
  save_action, save_base, Base, write_save, save_paperwork_record, save_validated, save_on_base,
  save_claimed, claim_save, with_payload,
}
use prison_policy_ai.Paperwork.Service.Writes.{
  SameRows, Created, Replaced, create_record-Created, append_record-Replaced, base_record-found,
}
use prison_policy_ai.Paperwork.Service.Replays.{IsReplay, IsFresh, claim-IsReplay, claim-IsFresh}

-- the snapshot of the validated request
abbrev pub requested : PaperworkKind → SavePaperworkRequest → Fields → PaperworkSnapshot
requested kind request payload = record {
  kind = kind;
  work_date = request.work_date;
  shift = request.shift;
  payload = payload;
}

abbrev pub snapshot_of : PaperworkRecord → PaperworkSnapshot
snapshot_of row = record {
  kind = row.kind;
  work_date = row.work_date;
  shift = row.shift;
  payload = row.current_payload;
}

pub paperwork_snapshot_lem :
    (kind : PaperworkKind) (work_date : ℕ) (shift : Option _) (payload : Fields)
    (snapshot : PaperworkSnapshot)
    → paperwork_snapshot kind work_date shift payload ≡ ok snapshot
    → snapshot ≡ record { kind = kind; work_date = work_date; shift = shift; payload = payload }
unfolding paperwork_snapshot
paperwork_snapshot_lem kind work_date shift payload snapshot h = ground arith

-- a save that repeats one, answered with its reference and without a write
abbrev pub IsRepeatedSave :
    Rules
    → Actor
    → Call
    → PaperworkKind
    → SavePaperworkRequest
    → Option ℕ
    → Fields
    → PaperworkDb
    → PaperworkDb
    → PaperworkView
    → Type 0
IsRepeatedSave rules actor call kind request record_id payload =
    IsReplay actor call (save_action record_id)
      (rules.request_digest (save_of record_id kind (with_payload request payload))) none

-- A save replays its answer, or creates a record, or appends to one at the revision asked for.
pub data Saved (rules : Rules) (actor : Actor) (call : Call) (kind : PaperworkKind)
    (request : SavePaperworkRequest) (record_id : Option ℕ) (payload : Fields)
    (db after : PaperworkDb) (view : PaperworkView) : Type 0 where
  replays :
      IsRepeatedSave rules actor call kind request record_id payload db after view
      → Saved rules actor call kind request record_id payload db after view
  creates :
      IsFresh actor call (save_action record_id) db
      → record_id ≡ none
      → Created actor call
          (new_record actor kind (with_payload request payload) call.draws.record_id call.now)
          (requested kind request payload)
          request.reason
          db
          after
          view
      → Saved rules actor call kind request record_id payload db after view
  appends :
      (id base : ℕ) (current : PaperworkRecord)
      → IsFresh actor call (save_action record_id) db
      → record_id ≡ some id
      → request.base_revision_number ≡ some base
      → by_id_kind id (some kind) db ≡ some current
      → current.current_revision_number ≡ base
      → can_read_paperwork actor current ≡ true
      → Replaced actor call current
          (edited_record actor (requested kind request payload) call.now current)
          (requested kind request payload)
          (changed_field_paths (some (snapshot_of current)) (requested kind request payload))
          request.reason
          db
          after
          view
      → Saved rules actor call kind request record_id payload db after view

-- a call of the idempotency service leaves the records and the revisions alone
claim_save-SameRows :
    (rules : Rules) (actor : Actor) (call : Call) (kind : PaperworkKind)
    (request : SavePaperworkRequest) (record_id : Option ℕ) (db after : PaperworkDb)
    (claim : IdempotencyClaim)
    → claim_save rules actor call kind request record_id db ≡ (ok claim, after)
    → SameRows db after
unfolding claim_save
claim_save-SameRows rules actor call kind request record_id db after claim h =
    (ground arith, ground arith)

-- what is written depends on the records and the revisions only
Created-SameRows :
    {actor : Actor} {call : Call} {row : PaperworkRecord} {snapshot : PaperworkSnapshot}
    {reason : RevisionReason} {db mid after : PaperworkDb} {view : PaperworkView}
    → SameRows db mid
    → Created actor call row snapshot reason mid after view
    → Created actor call row snapshot reason db after view
Created-SameRows s c = record {
  is_records = rw (← s.0) c.is_records;
  is_revisions = rw (← s.1) c.is_revisions;
  is_view = c.is_view;
  is_free = rw (← s.0) c.is_free;
}

pub Replaced-SameRows :
    {actor : Actor} {call : Call} {current row : PaperworkRecord} {snapshot : PaperworkSnapshot}
    {paths : List Text} {reason : RevisionReason} {db mid after : PaperworkDb}
    {view : PaperworkView}
    → SameRows db mid
    → Replaced actor call current row snapshot paths reason mid after view
    → Replaced actor call current row snapshot paths reason db after view
Replaced-SameRows s c = record {
  is_records = rw (← s.0) c.is_records;
  is_revisions = rw (← s.1) c.is_revisions;
  is_view = c.is_view;
  is_free = rw (← s.0) c.is_free;
}

-- what a save goes by: nothing, or the record that it changes
data Based (actor : Actor) (kind : PaperworkKind) (record_id number : Option ℕ) (db : PaperworkDb)
    (base : Base) : Type 0 where
  unbased : record_id ≡ none → base ≡ none → Based actor kind record_id number db base
  based :
      (id n : ℕ) (current : PaperworkRecord) (previous : PaperworkSnapshot)
      → record_id ≡ some id
      → number ≡ some n
      → base ≡ some (current, previous)
      → by_id_kind id (some kind) db ≡ some current
      → current.current_revision_number ≡ n
      → can_read_paperwork actor current ≡ true
      → previous ≡ snapshot_of current
      → Based actor kind record_id number db base

save_base-Based :
    (actor : Actor) (kind : PaperworkKind) (record_id number : Option ℕ) (db mid : PaperworkDb)
    (base : Base)
    → save_base actor kind record_id number db ≡ (ok base, mid)
    → (mid ≡ db) × Based actor kind record_id number db base
unfolding save_base
save_base-Based actor kind none none db mid base h = (ground arith, unbased refl (ground arith))
save_base-Based actor kind none (some n) db mid base h = absurd (ground arith)
save_base-Based actor kind (some id) none db mid base h = absurd (ground arith)
save_base-Based actor kind (some id) (some n) db mid base h =
    let (same, (current, previous, is_base, found, at, may, fits)) =
      base_record-found actor kind id n db mid base h in
    (
      same,
      based id n current previous refl refl is_base found at may (
          paperwork_snapshot_lem current.kind current.work_date current.shift
            current.current_payload previous fits),
    )

module _ (rules : Rules) (actor : Actor) (call : Call) (kind : PaperworkKind)
    (request : SavePaperworkRequest) (record_id : Option ℕ) (payload : Fields) where
  write_save-Saved :
      (claim : IdempotencyClaim) (base : Base) (db mid after : PaperworkDb) (view : PaperworkView)
      → SameRows db mid
      → IsFresh actor call (save_action record_id) db
      → Based actor kind record_id request.base_revision_number db base
      → write_save actor call kind
          (with_payload request payload)
          (requested kind request payload)
          claim
          base
          mid
        ≡ (ok view, after)
      → Saved rules actor call kind request record_id payload db after view
  write_save-Saved claim base db mid after view same new_key (unbased new is_base) h =
      creates new_key new (
        Created-SameRows same (
          create_record-Created actor call kind (with_payload request payload)
            (requested kind request payload) claim mid after view (rw is_base at h)))
  write_save-Saved claim base db mid after view same new_key
        (based id n current previous is_id is_n is_base found at may is_previous) h =
      appends id n current new_key is_id is_n found at may (
        Replaced-SameRows {mid = mid} same (
          rw (← is_previous) (
            append_record-Replaced actor call kind (with_payload request payload)
              (requested kind request payload) claim current previous mid after view
              (rw is_base at h))))

  save_claimed-Saved :
      (claim : IdempotencyClaim) (base : Base) (db mid after : PaperworkDb) (view : PaperworkView)
      → claim_save rules actor call kind (with_payload request payload) record_id db
        ≡ (ok claim, mid)
      → Based actor kind record_id request.base_revision_number db base
      → save_claimed actor call kind
          (with_payload request payload)
          (requested kind request payload)
          base
          claim
          mid
        ≡ (ok view, after)
      → Saved rules actor call kind request record_id payload db after view
  unfolding save_claimed claim_save
  save_claimed-Saved claim base db mid after view claimed on h =
      let digest = rules.request_digest (save_of record_id kind (with_payload request payload)) in
      elim (Bool-cases claim.replayed) [
        | inl again ↦ replays (
            claim-IsReplay actor call (save_action record_id) digest none db mid after claim view
              claimed again (rw again at h))
        | inr first ↦
            write_save-Saved claim base db mid after view
              (claim_save-SameRows rules actor call kind (with_payload request payload) record_id db
                mid claim claimed)
              (claim-IsFresh actor call (save_action record_id) digest db mid claim claimed first)
              on (ground (arith, first, h))
      ]

  save_validated-Saved :
      (db after : PaperworkDb) (view : PaperworkView)
      → save_validated rules actor call kind
          (with_payload request payload)
          record_id
          (requested kind request payload)
          db
        ≡ (ok view, after)
      → Saved rules actor call kind request record_id payload db after view
  unfolding save_validated save_on_base
  save_validated-Saved db after view h =
      let (base, mid, from_base, rest) =
        bind-ok (save_base actor kind record_id request.base_revision_number)
          (save_on_base rules actor call kind (with_payload request payload)
            (requested kind request payload) record_id)
          db after view h in
      let (unchanged, on) =
        save_base-Based actor kind record_id request.base_revision_number db mid base from_base in
      let (claim, mid', claimed, rest') =
        bind-ok (claim_save rules actor call kind (with_payload request payload) record_id)
          (save_claimed actor call kind (with_payload request payload)
            (requested kind request payload) base)
          mid after view rest in
      save_claimed-Saved claim base db mid' after view
        (subst
          (λ d.
            claim_save rules actor call kind (with_payload request payload) record_id d
            ≡ (ok claim, mid'))
          unchanged claimed)
        on rest'

-- A save that succeeds: the payload is what the validation made of it, and one of three effects.
pub save-Saved :
    (rules : Rules) (actor : Actor) (call : Call) (kind : PaperworkKind)
    (request : SavePaperworkRequest) (record_id : Option ℕ) (db after : PaperworkDb)
    (view : PaperworkView)
    → save_paperwork_record rules actor call kind request record_id db ≡ (ok view, after)
    → (payload : Fields) × (rules.validate_payload_for_kind kind request.payload ≡ ok payload)
      × Saved rules actor call kind request record_id payload db after view
unfolding save_paperwork_record
save-Saved rules actor call kind request record_id db after view h =
    elim (Result-cases (rules.validate_payload_for_kind kind request.payload)) [
      | inr (f, bad) ↦ absurd (ground (arith, bad, h))
      | inl (payload, good) ↦
          elim (Result-cases (snapshot_for_request kind (with_payload request payload))) [
            | inr (f, bad) ↦ absurd (ground (arith, good, bad, h))
            | inl (snapshot, fits) ↦
                let is_requested : snapshot ≡ requested kind request payload =
                  paperwork_snapshot_lem kind request.work_date request.shift payload snapshot
                    fits in
                (
                  payload,
                  good,
                  save_validated-Saved rules actor call kind request record_id payload db after view
                      (subst
                        (λ s.
                          save_validated rules actor call kind (with_payload request payload)
                            record_id s db
                          ≡ (ok view, after))
                        is_requested (ground (arith, good, fits, h))),
                )
          ]
    ]
