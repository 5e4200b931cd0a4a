-- ===== src/Paperwork/Service/Rows.antt =====
-- paperwork/service.py: the rows that a save or a restore writes, with the unique indexes of
-- persistence/models/paperwork.py, and the audit event.
use prison_policy_ai.Prelude.{
  ℕ, ◌+◌, List, [], ◌∷◌, ◌++◌, Option, none, some, Bool, false, not, ◌&&◌, String, Text, text_eq,
  ◌==◌, any, update_where, if◌then◌else◌,
}
use prison_policy_ai.Fault.{ok, raised, Exec, integrity_error}
use prison_policy_ai.Identity.Models.{AuditEvent, Detail}
use prison_policy_ai.Identity.Elevation.{Actor}
use prison_policy_ai.Paperwork.Models.{
  PaperworkKind, count_sheet, kind_eq, RevisionReason, autosave, manual_save, recovery, restored,
  PaperworkRecord, PaperworkSnapshot, PaperworkRevision, PaperworkDb,
}
use prison_policy_ai.Paperwork.Schemas.{SavePaperworkRequest}
use prison_policy_ai.Paperwork.Service.{Call}

-- uq_paperwork_records_daily_date_shift: NULL shifts are distinct
abbrev pub same_shift : Option Text → Option Text → Bool
same_shift (some s) (some t) = text_eq s t
same_shift none t = false
same_shift (some s) none = false

unfoldable pub is_taken : PaperworkRecord → List PaperworkRecord → Bool
is_taken row = any λ r.
    not (r.id == row.id)
    && kind_eq r.kind row.kind
    && not (kind_eq row.kind count_sheet)
    && r.work_date == row.work_date
    && same_shift r.shift row.shift

abbrev pub is_revision_of : ℕ → ℕ → PaperworkRevision → Bool
is_revision_of record_id n v = v.record_id == record_id && v.revision_number == n

-- session.add of a new record, and the flush of a changed one
unfoldable pub add_record : PaperworkRecord → Exec PaperworkDb (Unit {0})
add_record row db =
    if is_taken row db.records
    then (raised integrity_error, db)
    else (ok tt, record db { records = db.records ++ row ∷ [] })

unfoldable pub put_record : PaperworkRecord → Exec PaperworkDb (Unit {0})
put_record row db =
    if is_taken row db.records
    then (raised integrity_error, db)
    else (ok tt, record db { records = update_where (λ r. r.id == row.id) (λ _. row) db.records })

-- uq_paperwork_revisions_record_number
unfoldable pub add_revision : PaperworkRevision → Exec PaperworkDb (Unit {0})
add_revision v db =
    if any (is_revision_of v.record_id v.revision_number) db.revisions
    then (raised integrity_error, db)
    else (ok tt, record db { revisions = db.revisions ++ v ∷ [] })

abbrev pub reason_word : RevisionReason → String
reason_word autosave = "autosave"
reason_word manual_save = "manual_save"
reason_word recovery = "recovery"
reason_word restored = "restored"

-- `_audit`
unfoldable pub paperwork_event : Actor → String → ℕ → String → List (String × Detail) → AuditEvent
paperwork_event actor action record_id request_id details = record {
  actor_account_id = some actor.account_id;
  actor_staff_member_id = some actor.staff_member_id;
  action = action;
  result = "success";
  request_id = request_id;
  target_type = "paperwork_record";
  target_id = some record_id;
  details = details;
}

abbrev pub new_record : Actor → PaperworkKind → SavePaperworkRequest → ℕ → ℕ → PaperworkRecord
new_record actor kind request id now = record {
  id = id;
  kind = kind;
  work_date = request.work_date;
  shift = request.shift;
  current_revision_number = 1;
  current_payload = request.payload;
  created_by_account_id = actor.account_id;
  created_by_staff_member_id = actor.staff_member_id;
  last_editor_account_id = actor.account_id;
  last_editor_staff_member_id = actor.staff_member_id;
  created_at = now;
  updated_at = now;
}

-- the assignments to the attributes of a loaded record; the snapshot has the date, the shift and the
-- payload of the request
abbrev pub edited_record : Actor → PaperworkSnapshot → ℕ → PaperworkRecord → PaperworkRecord
edited_record actor snapshot now row = record row {
  work_date = snapshot.work_date;
  shift = snapshot.shift;
  current_revision_number = row.current_revision_number + 1;
  current_payload = snapshot.payload;
  last_editor_account_id = actor.account_id;
  last_editor_staff_member_id = actor.staff_member_id;
  updated_at = now;
}

abbrev pub new_revision :
    Actor
    → Call
    → PaperworkRecord
    → PaperworkSnapshot
    → List Text
    → RevisionReason
    → PaperworkRevision
new_revision actor call row snapshot paths reason = record {
  id = call.draws.revision_id;
  record_id = row.id;
  revision_number = row.current_revision_number;
  editor_account_id = actor.account_id;
  editor_staff_member_id = actor.staff_member_id;
  snapshot = snapshot;
  changed_fields = paths;
  reason = reason;
  client_version = call.client_version;
  request_id = call.request_id;
  created_at = call.now;
}
