-- ===== src/Paperwork/Service/Saves.antt =====
-- paperwork/service.py: save_paperwork_record.
use prison_policy_ai.Prelude.{
  ℕ, [], ◌∷◌, Option, none, some, not, String, ◌==◌, if◌then◌else◌, or_else,
}
use prison_policy_ai.Fault.{
  ok, raised, Exec, pure, raise_if, lift, value_error, paperwork_revision_conflict, ◌>>=◌, ◌>>◌,
}
use prison_policy_ai.Identity.Json.{Fields, done}
use prison_policy_ai.Identity.Idempotency.{
  IdempotencyClaim, claim_idempotency, complete_idempotency,
}
use prison_policy_ai.Identity.Models.{AuditEvent, ident, word, number, texts}
use prison_policy_ai.Identity.Elevation.{Actor}
use prison_policy_ai.Paperwork.Models.{
  PaperworkKind, kind_eq, kind_value, PaperworkRecord, PaperworkSnapshot, PaperworkRevision,
  PaperworkView, PaperworkDb, on_requests, paperwork_audit,
}
use prison_policy_ai.Paperwork.Schemas.{
  SavePaperworkRequest, snapshot_for_request, changed_field_paths,
}
use prison_policy_ai.Paperwork.Service.{
  save_of, Rules, Call, locked_record, view_of, record_snapshot, reference_to, view_from_reference,
}
use prison_policy_ai.Paperwork.Service.Rows.{
  add_record, put_record, add_revision, reason_word, paperwork_event, new_record, edited_record,
  new_revision,
}

-- what a save and a restore do after the record is written
unfoldable pub record_revision :
    Call
    → IdempotencyClaim
    → ℕ
    → PaperworkRecord
    → PaperworkRevision
    → AuditEvent
    → Exec PaperworkDb PaperworkView
record_revision call claim status row revision event = do
  add_revision revision
  paperwork_audit event
  on_requests
      (complete_idempotency claim status (reference_to row.id row.current_revision_number) call.now)
  pure (view_of row)

-- the record that a save changes, and what its snapshot was
abbrev pub Base : Type 0
Base = Option (PaperworkRecord × PaperworkSnapshot)

unfoldable pub base_record : Actor → PaperworkKind → ℕ → ℕ → Exec PaperworkDb Base
base_record actor kind id base = do
  row ← locked_record actor id (some kind)
  raise_if (not (kind_eq row.kind kind)) value_error
  raise_if (not (row.current_revision_number == base))
      (paperwork_revision_conflict row.current_revision_number)
  previous ← lift (record_snapshot row)
  pure (some (row, previous))

unfoldable pub save_base : Actor → PaperworkKind → Option ℕ → Option ℕ → Exec PaperworkDb Base
save_base actor kind none none db = (ok none, db)
save_base actor kind none (some base) db = (raised value_error, db)
save_base actor kind (some id) none db = (raised value_error, db)
save_base actor kind (some id) (some base) db = base_record actor kind id base db

unfoldable pub create_record :
    Actor
    → Call
    → PaperworkKind
    → SavePaperworkRequest
    → PaperworkSnapshot
    → IdempotencyClaim
    → Exec PaperworkDb PaperworkView
create_record actor call kind request snapshot claim = do
  let row = new_record actor kind request call.draws.record_id call.now
  let paths = changed_field_paths none snapshot
  add_record row
  record_revision call claim 201 row (new_revision actor call row snapshot paths request.reason) (
      paperwork_event actor "paperwork.created" row.id call.request_id (
        ("record_id", ident row.id)
        ∷ ("kind", word (kind_value kind))
        ∷ ("revision_number", number 1)
        ∷ []))

unfoldable pub append_record :
    Actor
    → Call
    → PaperworkKind
    → SavePaperworkRequest
    → PaperworkSnapshot
    → IdempotencyClaim
    → PaperworkRecord
    → PaperworkSnapshot
    → Exec PaperworkDb PaperworkView
append_record actor call kind request snapshot claim current previous = do
  let row = edited_record actor snapshot call.now current
  let paths = changed_field_paths (some previous) snapshot
  put_record row
  record_revision call claim 200 row (new_revision actor call row snapshot paths request.reason) (
      paperwork_event actor "paperwork.saved" row.id call.request_id (
        ("record_id", ident row.id)
        ∷ ("kind", word (kind_value kind))
        ∷ ("revision_number", number row.current_revision_number)
        ∷ ("changed_fields", texts paths)
        ∷ ("reason", word (reason_word request.reason))
        ∷ []))

abbrev pub write_save :
    Actor
    → Call
    → PaperworkKind
    → SavePaperworkRequest
    → PaperworkSnapshot
    → IdempotencyClaim
    → Base
    → Exec PaperworkDb PaperworkView
write_save actor call kind request snapshot claim none =
    create_record actor call kind request snapshot claim
write_save actor call kind request snapshot claim (some (current, previous)) =
    append_record actor call kind request snapshot claim current previous

abbrev pub with_payload : SavePaperworkRequest → Fields → SavePaperworkRequest
with_payload request payload = record request { payload = payload }

abbrev pub save_action : Option ℕ → String
save_action none = "paperwork.create"
save_action (some id) = "paperwork.save"

-- a claim that was answered before is replayed
unfoldable pub save_claimed :
    Actor
    → Call
    → PaperworkKind
    → SavePaperworkRequest
    → PaperworkSnapshot
    → Base
    → IdempotencyClaim
    → Exec PaperworkDb PaperworkView
save_claimed actor call kind request snapshot base claim =
    if claim.replayed
    then view_from_reference actor (or_else claim.response_reference done) none
    else write_save actor call kind request snapshot claim base

unfoldable pub claim_save :
    Rules
    → Actor
    → Call
    → PaperworkKind
    → SavePaperworkRequest
    → Option ℕ
    → Exec PaperworkDb IdempotencyClaim
claim_save rules actor call kind request record_id = on_requests (
    claim_idempotency actor.account_id call.idempotency_key (save_action record_id)
      (rules.request_digest (save_of record_id kind request)) call.now call.draws.claim_id)

unfoldable pub save_on_base :
    Rules
    → Actor
    → Call
    → PaperworkKind
    → SavePaperworkRequest
    → PaperworkSnapshot
    → Option ℕ
    → Base
    → Exec PaperworkDb PaperworkView
save_on_base rules actor call kind request snapshot record_id base = do
  claim ← claim_save rules actor call kind request record_id
  save_claimed actor call kind request snapshot base claim

-- what follows the validation of the request
unfoldable pub save_validated :
    Rules
    → Actor
    → Call
    → PaperworkKind
    → SavePaperworkRequest
    → Option ℕ
    → PaperworkSnapshot
    → Exec PaperworkDb PaperworkView
save_validated rules actor call kind request record_id snapshot = do
  base ← save_base actor kind record_id request.base_revision_number
  save_on_base rules actor call kind request snapshot record_id base

unfoldable pub save_paperwork_record :
    Rules
    → Actor
    → Call
    → PaperworkKind
    → SavePaperworkRequest
    → Option ℕ
    → Exec PaperworkDb PaperworkView
save_paperwork_record rules actor call kind request record_id = do
  payload ← lift (rules.validate_payload_for_kind kind request.payload)
  snapshot ← lift (snapshot_for_request kind (with_payload request payload))
  save_validated rules actor call kind (with_payload request payload) record_id snapshot
