-- ===== src/Tests/Paperwork.antt =====
-- Runs of paperwork/service.py.
use prison_policy_ai.Prelude.{
  String, ℕ, ◌+◌, ◌≡◌, ◌≢◌, refl, [], Option, some, none, Text, codes, arith, find, any, all,
  text_eq, update_where, Lacks, decimal, uuid_text, length, ap,
}
use prison_policy_ai.Fault.{ok, raised, paperwork_revision_conflict, paperwork_not_found}
use prison_policy_ai.Identity.Json.{Fields, field, done, string, encoded_length}
use prison_policy_ai.Identity.Models.{user, admin}
use prison_policy_ai.Identity.Elevation.{Actor}
use prison_policy_ai.Identity.Idempotency.{
  claim_idempotency, complete_idempotency, is_key, is_key_char, safe_reference, is_forbidden,
}
use prison_policy_ai.Paperwork.Models.{PaperworkDb, count_sheet, manual_save, PaperworkView}
use prison_policy_ai.Paperwork.Values.{fields_size, json_eq, lookup_field, get_field}
use prison_policy_ai.Paperwork.Schemas.{
  SavePaperworkRequest, paperwork_snapshot, changed_field_paths,
}
use prison_policy_ai.Paperwork.Service.{Rules, Call, locked_record, can_read_paperwork}
use prison_policy_ai.Paperwork.Service.Rows.{
  add_record, put_record, add_revision, is_taken, paperwork_event,
}
use prison_policy_ai.Paperwork.Service.Saves.{
  save_paperwork_record, save_validated, save_base, base_record, save_on_base, claim_save,
  save_claimed, create_record, append_record, record_revision,
}
use prison_policy_ai.Paperwork.Service.Restoring.{
  restore_paperwork_record, claim_restore, restore_source, restore_claimed, restore_fresh,
  restore_revision, revision_of,
}
use prison_policy_ai.Paperwork.Service.{get_paperwork_record}
use prison_policy_ai.Paperwork.Service.Effects.{requested, IsRepeatedSave}
use prison_policy_ai.Paperwork.Service.Restores.{IsRepeatedRestore}
use prison_policy_ai.Paperwork.Service.Replays.{IsFresh}
use prison_policy_ai.Paperwork.Service.Log.{IsLogged}
use prison_policy_ai.Paperwork.Service.Logged.{history}
use prison_policy_ai.Paperwork.Service.Refinement.{
  Commits, Restores, save_paperwork_record_refines, restore_paperwork_record_refines,
}
use prison_policy_ai.Paperwork.Service.Conflicts.{stale_save_conflicts}
use prison_policy_ai.Paperwork.Service.Access.{hidden_paperwork}
use prison_policy_ai.Paperwork.Service.Runs.{
  Reach, here, next, saves, restores, Continues, Reach-keeps_history,
}
use prison_policy_ai.Identity.Idempotency.{claim_existing}
use prison_policy_ai.Identity.Json.{escaped_length, string_length}
use prison_policy_ai.Identity.Pins.{is_alphanumeric}
use prison_policy_ai.Paperwork.Schemas.{
  add_path, is_section_name, payload_paths, section_path, section_paths, text_leb,
  without_underscores,
}
use prison_policy_ai.Prelude.{decimal_from, hex_char, hyphened, uuid_from}
use prison_policy_ai.Paperwork.Models.{PaperworkRecord}
use prison_policy_ai.Paperwork.Service.Access.{IsHidden}
use prison_policy_ai.Paperwork.Service.Conflicts.{IsValid}
use prison_policy_ai.Prelude.{true}
use prison_policy_ai.Paperwork.Service.{by_id_kind, reference_to, view_from_reference}
use prison_policy_ai.Paperwork.Service.References.{view_from_reference-reference_to}

abbrev rules : Rules
rules = record { validate_payload_for_kind = λ kind payload. ok payload; request_digest = λ _. 7 }

abbrev officer : Actor
officer = record {
  account_id = 10;
  staff_member_id = 1;
  session_id = 5;
  role = user;
  auth_version = 1;
}

abbrev other_officer : Actor
other_officer = record {
  account_id = 11;
  staff_member_id = 2;
  session_id = 6;
  role = user;
  auth_version = 1;
}

abbrev chief : Actor
chief = record {
  account_id = 12;
  staff_member_id = 3;
  session_id = 7;
  role = admin;
  auth_version = 1;
}

abbrev call_at : ℕ → Text → Call
call_at n key = record {
  idempotency_key = key;
  request_id = "request";
  client_version = "1";
  now = n;
  draws = record { record_id = 100 + n; revision_id = 200 + n; claim_id = 300 + n };
}

abbrev asks : String → Option ℕ → SavePaperworkRequest
asks notes base = record {
  work_date = 20300;
  shift = some (codes "Days");
  payload = field (codes "notes") (string (codes notes)) done;
  base_revision_number = base;
  reason = manual_save;
}

abbrev empty : PaperworkDb
empty = record { records = []; revisions = []; requests = []; audit = [] }

abbrev created : PaperworkDb
created =
    (save_paperwork_record rules officer (call_at 1 (codes "key-0001")) count_sheet
      (asks "one" none) none empty).1

abbrev saved : PaperworkDb
saved =
    (save_paperwork_record rules officer (call_at 2 (codes "key-0002")) count_sheet
      (asks "two" (some 1)) (some 101) created).1

abbrev restored_db : PaperworkDb
restored_db =
    (restore_paperwork_record rules chief (call_at 3 (codes "key-0003")) 101 1 none saved).1

empty-IsLogged : IsLogged empty
empty-IsLogged = record { ids = tt; owned = tt; current = tt }

abbrev view : String → ℕ → ℕ → ℕ → PaperworkView
view notes number staff at = record {
  record_id = 101;
  kind = count_sheet;
  work_date = 20300;
  shift = some (codes "Days");
  current_revision_number = number;
  payload = field (codes "notes") (string (codes notes)) done;
  created_by_staff_member_id = 1;
  last_editor_staff_member_id = staff;
  created_at = 1;
  updated_at = at;
}

created_lem :
    save_paperwork_record rules officer
      (call_at 1 (codes "key-0001"))
      count_sheet
      (asks "one" none)
      none
      empty
    ≡ (ok (view "one" 1 1 1), created)
unfolding save_paperwork_record paperwork_snapshot fields_size save_validated save_base save_on_base
    claim_save claim_idempotency is_key all is_key_char find save_claimed create_record add_record
    is_taken any claim_existing complete_idempotency is_forbidden safe_reference encoded_length
    escaped_length string_length is_alphanumeric add_path changed_field_paths is_section_name
    payload_paths section_path section_paths text_leb without_underscores add_revision append_record
    base_record paperwork_event put_record record_revision can_read_paperwork locked_record
    get_field json_eq lookup_field decimal decimal_from hex_char hyphened uuid_from uuid_text
    update_where text_eq
created_lem = refl

saved_lem :
    save_paperwork_record rules officer
      (call_at 2 (codes "key-0002"))
      count_sheet
      (asks "two" (some 1))
      (some 101)
      created
    ≡ (ok (view "two" 2 1 2), saved)
unfolding save_paperwork_record paperwork_snapshot fields_size save_validated save_base save_on_base
    claim_save claim_idempotency is_key all is_key_char find save_claimed create_record add_record
    is_taken any claim_existing complete_idempotency is_forbidden safe_reference encoded_length
    escaped_length string_length is_alphanumeric add_path changed_field_paths is_section_name
    payload_paths section_path section_paths text_leb without_underscores add_revision append_record
    base_record paperwork_event put_record record_revision can_read_paperwork locked_record
    get_field json_eq lookup_field decimal decimal_from hex_char hyphened uuid_from uuid_text
    update_where text_eq
saved_lem = refl

restored_lem :
    restore_paperwork_record rules chief (call_at 3 (codes "key-0003")) 101 1 none saved
    ≡ (ok (view "one" 3 3 3), restored_db)
unfolding save_paperwork_record paperwork_snapshot fields_size save_validated save_base save_on_base
    claim_save claim_idempotency is_key all is_key_char find save_claimed create_record add_record
    is_taken any claim_existing complete_idempotency is_forbidden safe_reference encoded_length
    escaped_length string_length is_alphanumeric add_path changed_field_paths is_section_name
    payload_paths section_path section_paths text_leb without_underscores add_revision append_record
    base_record paperwork_event put_record record_revision can_read_paperwork locked_record
    get_field json_eq lookup_field decimal decimal_from hex_char hyphened uuid_from uuid_text
    update_where text_eq restore_paperwork_record claim_restore restore_source restore_claimed
    restore_fresh restore_revision revision_of
restored_lem = refl

created_fresh : Lacks (λ (r : PaperworkRecord). r.id) 102 created.records
unfolding save_paperwork_record paperwork_snapshot fields_size save_validated save_base save_on_base
    claim_save claim_idempotency is_key all is_key_char find save_claimed create_record add_record
    is_taken any claim_existing complete_idempotency is_forbidden safe_reference encoded_length
    escaped_length string_length is_alphanumeric add_path changed_field_paths is_section_name
    payload_paths section_path section_paths text_leb without_underscores add_revision append_record
    base_record paperwork_event put_record record_revision can_read_paperwork locked_record
    get_field json_eq lookup_field decimal decimal_from hex_char hyphened uuid_from uuid_text
    update_where text_eq
created_fresh = (λ e. omega arith, tt)

saved_more : saved.revisions ≢ created.revisions
unfolding save_paperwork_record paperwork_snapshot fields_size save_validated save_base save_on_base
    claim_save claim_idempotency is_key all is_key_char find save_claimed create_record add_record
    is_taken any claim_existing complete_idempotency is_forbidden safe_reference encoded_length
    escaped_length string_length is_alphanumeric add_path changed_field_paths is_section_name
    payload_paths section_path section_paths text_leb without_underscores add_revision append_record
    base_record paperwork_event put_record record_revision can_read_paperwork locked_record
    get_field json_eq lookup_field decimal decimal_from hex_char hyphened uuid_from uuid_text
    update_where text_eq
saved_more e = absurd (omega (arith, ap length e))

saved-IsHidden : IsHidden other_officer 101 saved
unfolding save_paperwork_record paperwork_snapshot fields_size save_validated save_base save_on_base
    claim_save claim_idempotency is_key all is_key_char find save_claimed create_record add_record
    is_taken any claim_existing complete_idempotency is_forbidden safe_reference encoded_length
    escaped_length string_length is_alphanumeric add_path changed_field_paths is_section_name
    payload_paths section_path section_paths text_leb without_underscores add_revision append_record
    base_record paperwork_event put_record record_revision can_read_paperwork locked_record
    get_field json_eq lookup_field decimal decimal_from hex_char hyphened uuid_from uuid_text
    update_where text_eq
saved-IsHidden = (refl, (λ e n. omega (arith, n), tt))

created-IsLogged : IsLogged created
created-IsLogged =
    (save_paperwork_record_refines rules officer (call_at 1 (codes "key-0001")) count_sheet
      (asks "one" none) none empty created _ empty-IsLogged tt created_lem).0

asks-IsValid : (notes : String) (base : Option ℕ) → IsValid rules count_sheet (asks notes base)
unfolding paperwork_snapshot fields_size
asks-IsValid notes base = record { payload = _; snapshot = _; accepted = refl; fits = refl }

save_paperwork_record-refines_example :
    IsLogged saved
    × ((payload : Fields) × (rules.validate_payload_for_kind count_sheet
            (asks "two" (some 1)).payload
          ≡ ok payload)
        × Commits
            (IsRepeatedSave rules officer
              (call_at 2 (codes "key-0002"))
              count_sheet
              (asks "two" (some 1))
              (some 101)
              payload
              created
              saved
              (view "two" 2 1 2))
            (IsFresh officer (call_at 2 (codes "key-0002")) "paperwork.save" created)
            (history created)
            (history saved)
            (some 101)
            (some 1)
            102
            (requested count_sheet (asks "two" (some 1)) payload))
save_paperwork_record-refines_example =
    save_paperwork_record_refines rules officer (call_at 2 (codes "key-0002")) count_sheet
      (asks "two" (some 1)) (some 101) created saved _ created-IsLogged created_fresh saved_lem

abbrev saved_row : PaperworkRecord
saved_row = record {
  id = 101;
  kind = count_sheet;
  work_date = 20300;
  shift = some (codes "Days");
  current_revision_number = 2;
  current_payload = field (codes "notes") (string (codes "two")) done;
  created_by_account_id = 10;
  created_by_staff_member_id = 1;
  last_editor_account_id = 10;
  last_editor_staff_member_id = 1;
  created_at = 1;
  updated_at = 2;
}

saved_found : by_id_kind 101 none saved ≡ some saved_row
unfolding save_paperwork_record paperwork_snapshot fields_size save_validated save_base save_on_base
    claim_save claim_idempotency is_key all is_key_char find save_claimed create_record add_record
    is_taken any claim_existing complete_idempotency is_forbidden safe_reference encoded_length
    escaped_length string_length is_alphanumeric add_path changed_field_paths is_section_name
    payload_paths section_path section_paths text_leb without_underscores add_revision append_record
    base_record paperwork_event put_record record_revision can_read_paperwork locked_record
    get_field json_eq lookup_field decimal decimal_from hex_char hyphened uuid_from uuid_text
    update_where text_eq
saved_found = refl

saved_row_readable : can_read_paperwork officer saved_row ≡ true
unfolding can_read_paperwork
saved_row_readable = refl

-- the reference that the create left, after the save that followed it
view_from_reference-reference_to_example :
    view_from_reference officer (reference_to 101 1) none saved ≡ (ok (view "two" 2 1 2), saved)
view_from_reference-reference_to_example =
    view_from_reference-reference_to officer 101 1 none saved_row saved (omega arith) saved_found
      saved_row_readable (omega arith) (omega arith)

saved-IsLogged : IsLogged saved
saved-IsLogged =
    (save_paperwork_record_refines rules officer (call_at 2 (codes "key-0002")) count_sheet
      (asks "two" (some 1)) (some 101) created saved _ created-IsLogged created_fresh saved_lem).0

restore_paperwork_record-refines_example :
    IsLogged restored_db
    × Restores
        (IsRepeatedRestore rules chief
          (call_at 3 (codes "key-0003"))
          101
          1
          none
          saved
          restored_db
          (view "one" 3 3 3))
        (IsFresh chief (call_at 3 (codes "key-0003")) "paperwork.restore" saved)
        (history saved)
        (history restored_db)
        101
        1
        saved
restore_paperwork_record-refines_example =
    restore_paperwork_record_refines rules chief (call_at 3 (codes "key-0003")) 101 1 none saved
      restored_db _ saved-IsLogged restored_lem

-- the officer's own save once more, under its own key
stale_save_conflicts_example :
    save_paperwork_record rules officer
      (call_at 9 (codes "key-0002"))
      count_sheet
      (asks "two" (some 1))
      (some 101)
      saved
    ≡ (raised (paperwork_revision_conflict 2), saved)
stale_save_conflicts_example =
    stale_save_conflicts rules officer officer (call_at 2 (codes "key-0002"))
      (call_at 9 (codes "key-0002")) count_sheet (asks "two" (some 1)) (asks "two" (some 1)) 101 1
      created saved _ saved_lem saved_more refl refl (asks-IsValid "two" (some 1)) refl

hidden_paperwork_example :
    (get_paperwork_record other_officer 101 none saved ≡ (raised paperwork_not_found, saved))
    × (save_paperwork_record rules other_officer
          (call_at 4 (codes "key-0004"))
          count_sheet
          (asks "three" (some 2))
          (some 101)
          saved
        ≡ (raised paperwork_not_found, saved))
    × (restore_paperwork_record rules other_officer (call_at 4 (codes "key-0004")) 101 1 none saved
        ≡ (raised paperwork_not_found, saved))
hidden_paperwork_example =
    hidden_paperwork rules other_officer (call_at 4 (codes "key-0004")) count_sheet
      (asks "three" (some 2)) 101 2 0 none saved saved-IsHidden (asks-IsValid "three" (some 2)) refl

runs : Reach rules empty restored_db
runs =
    next
      (next
        (next here (
          saves officer (call_at 1 (codes "key-0001")) count_sheet (asks "one" none) none empty
            created _ tt created_lem))
        (saves officer (call_at 2 (codes "key-0002")) count_sheet (asks "two" (some 1)) (some 101)
          created saved _ created_fresh saved_lem))
      (restores chief (call_at 3 (codes "key-0003")) 101 1 none saved restored_db _ restored_lem)

Reach-keeps_history_example : IsLogged restored_db × Continues (history empty) (history restored_db)
Reach-keeps_history_example = Reach-keeps_history runs empty-IsLogged
