-- ===== src/Paperwork/Service/Restoring.antt =====
-- paperwork/service.py: restore_paperwork_record.
use prison_policy_ai.Prelude.{
  ℕ, [], ◌∷◌, Option, none, some, Bool, true, not, ltb, find, if◌then◌else◌, or_else,
}
use prison_policy_ai.Fault.{
  Result, Exec, raise_if, lift, require, value_error, paperwork_not_found,
  paperwork_revision_not_found, ◌>>=◌, ◌>>◌,
}
use prison_policy_ai.Identity.Json.{done}
use prison_policy_ai.Identity.Idempotency.{IdempotencyClaim, claim_idempotency}
use prison_policy_ai.Identity.Models.{ident, word, number}
use prison_policy_ai.Identity.Elevation.{Actor}
use prison_policy_ai.Paperwork.Models.{
  PaperworkKind, kind_eq, kind_value, restored, PaperworkRecord, PaperworkSnapshot,
  PaperworkRevision, PaperworkView, PaperworkDb, on_requests,
}
use prison_policy_ai.Paperwork.Schemas.{paperwork_snapshot, changed_field_paths}
use prison_policy_ai.Paperwork.Service.{
  restore_of, Rules, Call, locked_record, record_snapshot, view_from_reference,
}
use prison_policy_ai.Paperwork.Service.Rows.{
  is_revision_of, put_record, paperwork_event, edited_record, new_revision,
}
use prison_policy_ai.Paperwork.Service.Saves.{record_revision}

unfoldable pub revision_of : ℕ → ℕ → PaperworkDb → Option PaperworkRevision
revision_of record_id n db = find (is_revision_of record_id n) db.revisions

unfoldable pub restore_revision :
    Actor
    → Call
    → ℕ
    → IdempotencyClaim
    → PaperworkRecord
    → PaperworkSnapshot
    → PaperworkSnapshot
    → Exec PaperworkDb PaperworkView
restore_revision actor call source_revision_number claim current source previous = do
  let paths = changed_field_paths (some previous) source
  let row = record (edited_record actor source call.now current) { kind = source.kind }
  put_record row
  record_revision call claim 200 row (new_revision actor call row source paths restored) (
      paperwork_event actor "paperwork.restored" row.id call.request_id (
        ("record_id", ident row.id)
        ∷ ("kind", word (kind_value row.kind))
        ∷ ("revision_number", number row.current_revision_number)
        ∷ ("source_revision_number", number source_revision_number)
        ∷ []))

-- the snapshot of a stored revision, validated again
abbrev pub checked_snapshot : PaperworkSnapshot → Result PaperworkSnapshot
checked_snapshot s = paperwork_snapshot s.kind s.work_date s.shift s.payload

abbrev pub is_expected : Option PaperworkKind → PaperworkKind → Bool
is_expected none kind = true
is_expected (some expected) kind = kind_eq kind expected

unfoldable pub restore_fresh :
    Actor
    → Call
    → ℕ
    → Option PaperworkKind
    → IdempotencyClaim
    → PaperworkRecord
    → PaperworkRevision
    → Exec PaperworkDb PaperworkView
restore_fresh actor call source_revision_number expected claim current source = do
  snapshot ← lift (checked_snapshot source.snapshot)
  raise_if (not (is_expected expected snapshot.kind)) paperwork_not_found
  previous ← lift (record_snapshot current)
  restore_revision actor call source_revision_number claim current snapshot previous

unfoldable pub restore_claimed :
    Actor
    → Call
    → ℕ
    → Option PaperworkKind
    → PaperworkRecord
    → PaperworkRevision
    → IdempotencyClaim
    → Exec PaperworkDb PaperworkView
restore_claimed actor call source_revision_number expected current source claim =
    if claim.replayed
    then view_from_reference actor (or_else claim.response_reference done) expected
    else restore_fresh actor call source_revision_number expected claim current source

unfoldable pub claim_restore : Rules → Actor → Call → ℕ → ℕ → Exec PaperworkDb IdempotencyClaim
claim_restore rules actor call record_id source_revision_number = on_requests (
    claim_idempotency actor.account_id call.idempotency_key "paperwork.restore"
      (rules.request_digest (restore_of record_id source_revision_number)) call.now
      call.draws.claim_id)

unfoldable pub restore_source :
    Rules
    → Actor
    → Call
    → ℕ
    → ℕ
    → Option PaperworkKind
    → PaperworkRecord
    → PaperworkRevision
    → Exec PaperworkDb PaperworkView
restore_source rules actor call record_id source_revision_number expected current source = do
  claim ← claim_restore rules actor call record_id source_revision_number
  restore_claimed actor call source_revision_number expected current source claim

unfoldable pub restore_paperwork_record :
    Rules → Actor → Call → ℕ → ℕ → Option PaperworkKind → Exec PaperworkDb PaperworkView
restore_paperwork_record rules actor call record_id source_revision_number expected = do
  raise_if (ltb source_revision_number 1) value_error
  current ← locked_record actor record_id expected
  source ← require (revision_of record_id source_revision_number) paperwork_revision_not_found
  restore_source rules actor call record_id source_revision_number expected current source
