-- ===== src/Paperwork/Service.antt =====
-- paperwork/service.py: reading, saving and restoring a record. Payload validation by kind (pydantic
-- models) and the digest of a canonical request are parameters.
pub mod Saves
pub mod Restoring
pub mod Rows
pub mod Writes
pub mod Effects
pub mod Replays
pub mod Restores
pub mod Log
pub mod Logged
pub mod Refinement
pub mod Conflicts
pub mod Access
pub mod Runs
pub mod Copies
pub mod Lists
pub mod Pages
pub mod Recopies
pub mod References
use prison_policy_ai.Prelude.{
  ℕ, ◌+◌, List, [], ◌∷◌, ◌++◌, Option, none, some, Bool, true, false, not, ◌&&◌, ◌||◌, String, Text,
  codes, text_eq, leb, ltb, ◌==◌, any, find, update_where, if◌then◌else◌, is_some, or_else, decimal,
  read_decimal, uuid_text, read_uuid,
}
use prison_policy_ai.Fault.{
  Result, ok, raised, Exec, pure, raise, raise_if, lift, gets, require, modify, value_error,
  runtime_error, integrity_error, paperwork_not_found, paperwork_revision_not_found,
  paperwork_revision_conflict, ◌>>=◌, ◌>>◌,
}
use prison_policy_ai.Identity.Json.{
  Json, null, boolean, number, string, arr, obj, Fields, done, field,
}
use prison_policy_ai.Identity.Idempotency.{
  IdempotencyClaim, claim_idempotency, complete_idempotency,
}
use prison_policy_ai.Identity.Models.{
  AuditEvent, Detail, ident, word, texts, is_admin, number as counted,
}
use prison_policy_ai.Identity.Elevation.{Actor}
use prison_policy_ai.Paperwork.Values.{lookup_field}
use prison_policy_ai.Paperwork.Models.{
  PaperworkKind, count_sheet, kind_eq, kind_value, RevisionReason, autosave, manual_save, recovery,
  restored, PaperworkRecord, PaperworkSnapshot, PaperworkRevision, PaperworkView, PaperworkDb,
  on_requests, paperwork_audit,
}
use prison_policy_ai.Paperwork.Schemas.{
  SavePaperworkRequest, paperwork_snapshot, snapshot_for_request, changed_field_paths,
}

-- what request_digest is taken of
pub data Canonical : Type 0 where
  save_of : Option ℕ → PaperworkKind → SavePaperworkRequest → Canonical
  restore_of : ℕ → ℕ → Canonical
  action_of : ℕ → PaperworkKind → ℕ → String → Canonical

pub record Rules : Type 0 where
  pub validate_payload_for_kind : PaperworkKind → Fields → Result Fields
  pub request_digest : Canonical → ℕ

-- the UUIDs that a call draws
pub record Draws : Type 0 where
  pub record_id : ℕ
  pub revision_id : ℕ
  pub claim_id : ℕ

-- what the route passes on beside the request
pub record Call : Type 0 where
  pub idempotency_key : Text
  pub request_id : String
  pub client_version : String
  pub now : ℕ
  pub draws : Draws

-- paperwork/policy.py
unfoldable pub can_read_paperwork : Actor → PaperworkRecord → Bool
can_read_paperwork actor row =
    is_admin actor.role || row.created_by_staff_member_id == actor.staff_member_id

abbrev pub can_edit_paperwork : Actor → PaperworkRecord → Bool
can_edit_paperwork actor row = can_read_paperwork actor row

abbrev pub is_of_kind : Option PaperworkKind → PaperworkRecord → Bool
is_of_kind none row = true
is_of_kind (some kind) row = kind_eq row.kind kind

abbrev pub by_id_kind : ℕ → Option PaperworkKind → PaperworkDb → Option PaperworkRecord
by_id_kind id expected db = find (λ r. r.id == id && is_of_kind expected r) db.records

-- a record that is absent or concealed
abbrev pub visible : Actor → Option PaperworkRecord → Option PaperworkRecord
visible actor none = none
visible actor (some row) = if can_read_paperwork actor row then some row else none

-- `_locked_record`
unfoldable pub locked_record : Actor → ℕ → Option PaperworkKind → Exec PaperworkDb PaperworkRecord
locked_record actor id expected =
    require (λ db. visible actor (by_id_kind id expected db)) paperwork_not_found

abbrev pub view_of : PaperworkRecord → PaperworkView
view_of row = record {
  record_id = row.id;
  kind = row.kind;
  work_date = row.work_date;
  shift = row.shift;
  current_revision_number = row.current_revision_number;
  payload = row.current_payload;
  created_by_staff_member_id = row.created_by_staff_member_id;
  last_editor_staff_member_id = row.last_editor_staff_member_id;
  created_at = row.created_at;
  updated_at = row.updated_at;
}

-- `_record_snapshot`
abbrev pub record_snapshot : PaperworkRecord → Result PaperworkSnapshot
record_snapshot row = paperwork_snapshot row.kind row.work_date row.shift row.current_payload

unfoldable pub get_paperwork_record :
    Actor → ℕ → Option PaperworkKind → Exec PaperworkDb PaperworkView
unfolding locked_record
get_paperwork_record actor id expected = do
  row ← locked_record actor id expected
  pure (view_of row)

-- UUID(str(value)) and int(value)
unfoldable pub uuid_of : Json → Option ℕ
uuid_of (string s) = read_uuid s
uuid_of (number literal) = read_uuid literal
uuid_of _ = none

unfoldable pub int_of : Json → Option ℕ
int_of (number literal) = read_decimal literal
int_of (string s) = read_decimal s
int_of (boolean true) = some 1
int_of (boolean false) = some 0
int_of _ = none

abbrev pub bind_option : {A B : Type 0} → Option A → (A → Option B) → Option B
bind_option none f = none
bind_option (some a) f = f a

-- the reference that a save or a restore leaves with its request
abbrev pub reference_to : ℕ → ℕ → Fields
reference_to record_id revision_number =
    field (codes "record_id") (string (uuid_text record_id))
      (field (codes "revision_number") (number (decimal revision_number)) done)

unfoldable pub read_reference : Fields → Result (ℕ × ℕ)
unfolding uuid_of int_of lookup_field
read_reference reference = elim (bind_option (lookup_field (codes "record_id") reference) uuid_of) [
  | none ↦ raised runtime_error
  | some id ↦ elim (bind_option (lookup_field (codes "revision_number") reference) int_of) [
    | none ↦ raised runtime_error
    | some n ↦ ok (id, n)
  ]
]

-- `_view_from_reference`
unfoldable pub view_from_reference :
    Actor → Fields → Option PaperworkKind → Exec PaperworkDb PaperworkView
view_from_reference actor reference expected = do
  target ← lift (read_reference reference)
  view ← get_paperwork_record actor target.0 expected
  raise_if (ltb target.1 1 || ltb view.current_revision_number target.1) runtime_error
  pure view
