-- ===== src/Tests/Rosters.antt =====
-- Runs of paperwork/daily.py, and of the copy of a roster.
use prison_policy_ai.Paperwork.Daily.{group_locations}
use prison_policy_ai.Paperwork.Daily.{duplicates}
use prison_policy_ai.Paperwork.Daily.{unfilled}
use prison_policy_ai.Prelude.{find, false}
use prison_policy_ai.Prelude.{
  String, ℕ, ◌≤◌, ◌≡◌, refl, List, [], ◌∷◌, map, Option, some, none, Text, codes, text_eq, true,
  any, all, length, leb, arith,
}
use prison_policy_ai.Fault.{ok}
use prison_policy_ai.Paperwork.Daily.{
  StaffSelection, assigned, unassigned, AssignmentState, PostAssignment, ZoneAssignment,
  AssignmentRoster, RosterDefinition, not_checked, security_equipment_keys, validate_roster,
  CoverageWarning, calculate_roster_coverage, roster_posts, duplicate_initial_assignment,
  duplicate_rotation_assignment, p1_unfilled,
}
use prison_policy_ai.Paperwork.Daily.Derived.{
  UniformInspection, build_uniform_rows_from_roster, staff_of_zones, staff_is_unique, has_staff,
  add_all,
}
use prison_policy_ai.Paperwork.Daily.Coverage.{
  warns, warns_unfilled, is_unfilled, calculate_roster_coverage_iff,
}
use prison_policy_ai.Paperwork.Daily.Locations.{times_in_zones}
use prison_policy_ai.Paperwork.Daily.Uniforms.{zone_has_staff, build_uniform_rows_from_roster_sound}
use prison_policy_ai.Prelude.{◌+◌, ◌≢◌, ap}
use prison_policy_ai.Fault.{raised, paperwork_already_exists}
use prison_policy_ai.Identity.Json.{done}
use prison_policy_ai.Identity.Models.{admin}
use prison_policy_ai.Identity.Elevation.{Actor}
use prison_policy_ai.Identity.Normalization.{join_words, split_from, is_space}
use prison_policy_ai.Paperwork.Models.{PaperworkDb, assignment_roster, PaperworkView}
use prison_policy_ai.Paperwork.Service.{Rules, Call}
use prison_policy_ai.Paperwork.Service.Copies.{
  Rosters, copy_previous_daily_record, normalized_shift,
}
use prison_policy_ai.Paperwork.Service.Recopies.{copy_previous_daily_record-once}
use prison_policy_ai.Paperwork.Service.Copies.{copy_to, latest, copy_request, is_later}
use prison_policy_ai.Prelude.{
  select, decimal, decimal_from, hex_char, hyphened, uuid_from, uuid_text, update_where,
}
use prison_policy_ai.Paperwork.Daily.{zones_match, zone_matches, states_match}
use prison_policy_ai.Paperwork.Daily.Derived.{prepare_copied_roster_payload, copied}
use prison_policy_ai.Paperwork.Schemas.{
  save_request, normalize_shift, paperwork_snapshot, add_path, changed_field_paths, is_section_name,
  payload_paths, section_path, section_paths, text_leb, without_underscores,
}
use prison_policy_ai.Paperwork.Values.{
  utf8_length, utf8_string, utf8_char, fields_size, get_field, json_eq, lookup_field,
}
use prison_policy_ai.Paperwork.CountSheet.{same_keys, is_subset, is_key_of}
use prison_policy_ai.Paperwork.Service.Rows.{
  add_record, is_taken, add_revision, paperwork_event, put_record,
}
use prison_policy_ai.Paperwork.Service.Saves.{
  save_paperwork_record, save_validated, save_base, save_on_base, claim_save, save_claimed,
  create_record, append_record, base_record, record_revision,
}
use prison_policy_ai.Identity.Idempotency.{
  claim_idempotency, is_key, is_key_char, claim_existing, complete_idempotency, is_forbidden,
  safe_reference,
}
use prison_policy_ai.Identity.Json.{encoded_length, escaped_length, string_length}
use prison_policy_ai.Identity.Pins.{is_alphanumeric}
use prison_policy_ai.Paperwork.Service.{can_read_paperwork, locked_record}

abbrev staff : ℕ → StaffSelection
staff id = record { staff_id = id; display_name_snapshot = codes "Officer" }

abbrev state_of : Option StaffSelection → AssignmentState
state_of none = unassigned
state_of (some s) = assigned

abbrev post : String → Option StaffSelection → Option StaffSelection → PostAssignment
post code initial rotation = record {
  post_code = codes code;
  initial_staff = initial;
  rotation_staff = rotation;
  initial_state = state_of initial;
  rotation_state = state_of rotation;
}

abbrev north : ZoneAssignment
north = record {
  zone_code = codes "north";
  supervisor = some (staff 7);
  posts = post "gate" (some (staff 1)) none ∷ post "tower" (some (staff 1)) (some (staff 2)) ∷ [];
}

abbrev south : ZoneAssignment
south = record {
  zone_code = codes "south";
  supervisor = none;
  posts = post "yard" none (some (staff 7)) ∷ post "desk" none (some (staff 2)) ∷ [];
}

abbrev definition : RosterDefinition
definition = record {
  zone_posts =
      (codes "north", codes "tower" ∷ codes "gate" ∷ [])
      ∷ (codes "south", codes "yard" ∷ codes "desk" ∷ [])
      ∷ [];
  is_p1 =
      (codes "gate", true)
      ∷ (codes "tower", true)
      ∷ (codes "yard", true)
      ∷ (codes "desk", false)
      ∷ [];
}

abbrev roster : AssignmentRoster
roster = record {
  work_date = 20300;
  shift = codes "Days";
  captain = some (staff 8);
  lieutenant = none;
  duty_warden = none;
  alternate_shift_supervisor = none;
  leave_entries = [];
  extra_assignments = [];
  zones = north ∷ south ∷ [];
  briefing_minutes = codes "All quiet.";
  roll_call_completed = true;
  uniform_inspection_completed = true;
  equipment = map (λ key. (key, not_checked)) security_equipment_keys;
  briefing_guests = [];
  assigned_and_dismissed = true;
  lieutenant_signature_name = none;
}

roster-valid : validate_roster definition roster ≡ ok roster
unfolding validate_roster all text_eq any
roster-valid = refl

-- not of the desk, which is blank and has another priority, as the second post of staff member 2 in
-- rotation
abbrev warnings : List CoverageWarning
warnings =
    record {
      code = p1_unfilled;
      zone_code = codes "south";
      post_code = some (codes "yard");
      staff_id = none;
    }
    ∷ record {
      code = duplicate_initial_assignment;
      zone_code = codes "north";
      post_code = none;
      staff_id = some 1;
    }
    ∷ []

roster-warns : calculate_roster_coverage definition roster ≡ ok warnings
unfolding calculate_roster_coverage roster_posts find text_eq unfilled duplicates group_locations
roster-warns = refl

calculate_roster_coverage-iff_example :
    ((code : Text)
      → any (warns_unfilled code) warnings
        ≡ any
            (λ (zone : ZoneAssignment). any (is_unfilled definition code) zone.posts)
            roster.zones)
    × ((id : ℕ)
        → any (warns duplicate_initial_assignment id) warnings
          ≡ leb 2 (times_in_zones definition (λ p. p.initial_staff) id roster.zones))
    × ((id : ℕ)
        → any (warns duplicate_rotation_assignment id) warnings
          ≡ leb 2 (times_in_zones definition (λ p. p.rotation_staff) id roster.zones))
calculate_roster_coverage-iff_example =
    calculate_roster_coverage_iff definition roster warnings roster-warns

few_staff : length (add_all (staff_of_zones roster.zones) []) ≤ 250
unfolding add_all staff_of_zones any
few_staff = omega arith

build_uniform_rows_from_roster-sound_example :
    (inspection : UniformInspection) × (build_uniform_rows_from_roster definition roster 101 3
      ≡ ok inspection)
    × (staff_is_unique inspection.staff ≡ true)
    × ((id : ℕ) → has_staff id inspection.staff ≡ any (zone_has_staff id) roster.zones)
build_uniform_rows_from_roster-sound_example =
    build_uniform_rows_from_roster_sound definition roster 101 3 roster-valid few_staff
      (omega arith)

abbrev rosters : Rosters
rosters = record {
  definition = definition;
  read_roster = λ fields. ok roster;
  dump_roster = λ r. done;
}

abbrev copy_rules : Rules
copy_rules = record {
  validate_payload_for_kind = λ kind payload. ok payload;
  request_digest = λ canonical. 7;
}

abbrev administrator : ℕ → Actor
administrator id = record {
  account_id = id;
  staff_member_id = id;
  session_id = id;
  role = admin;
  auth_version = 1;
}

abbrev copy_call : ℕ → Call
copy_call n = record {
  idempotency_key = codes "key-0001";
  request_id = "request";
  client_version = "1";
  now = n;
  draws = record { record_id = 100 + n; revision_id = 200 + n; claim_id = 300 + n };
}

abbrev day_before : PaperworkDb
day_before = record {
  records =
      record {
        id = 1;
        kind = assignment_roster;
        work_date = 20299;
        shift = some (codes "Days");
        current_revision_number = 1;
        current_payload = done;
        created_by_account_id = 1;
        created_by_staff_member_id = 1;
        last_editor_account_id = 1;
        last_editor_staff_member_id = 1;
        created_at = 1;
        updated_at = 1;
      }
      ∷ [];
  revisions = [];
  requests = [];
  audit = [];
}

abbrev copied_db : PaperworkDb
copied_db =
    (copy_previous_daily_record copy_rules rosters (administrator 1) (copy_call 2) assignment_roster
      20300 (codes " Days ") none day_before).1

abbrev copy_view : PaperworkView
copy_view = record {
  record_id = 102;
  kind = assignment_roster;
  work_date = 20300;
  shift = some (codes "Days");
  current_revision_number = 1;
  payload = done;
  created_by_staff_member_id = 1;
  last_editor_staff_member_id = 1;
  created_at = 2;
  updated_at = 2;
}

copied_lem :
    copy_previous_daily_record copy_rules rosters
      (administrator 1)
      (copy_call 2)
      assignment_roster
      20300
      (codes " Days ")
      none
      day_before
    ≡ (ok copy_view, copied_db)
unfolding copy_previous_daily_record join_words split_from is_space copy_to latest select
    copy_request prepare_copied_roster_payload validate_roster save_request utf8_length copied
    is_later zones_match zone_matches states_match same_keys is_subset is_key_of normalize_shift
    utf8_string utf8_char save_paperwork_record paperwork_snapshot fields_size save_validated
    save_base save_on_base claim_save claim_idempotency is_key all is_key_char find save_claimed
    create_record add_record is_taken any claim_existing complete_idempotency is_forbidden
    safe_reference encoded_length escaped_length string_length is_alphanumeric add_path
    changed_field_paths is_section_name payload_paths section_path section_paths text_leb
    without_underscores add_revision append_record base_record paperwork_event put_record
    record_revision can_read_paperwork locked_record get_field json_eq lookup_field decimal
    decimal_from hex_char hyphened uuid_from uuid_text update_where text_eq
copied_lem = refl

copied_more : copied_db.records ≢ day_before.records
unfolding copy_previous_daily_record join_words split_from is_space copy_to latest select
    copy_request prepare_copied_roster_payload validate_roster save_request utf8_length copied
    is_later zones_match zone_matches states_match same_keys is_subset is_key_of normalize_shift
    utf8_string utf8_char save_paperwork_record paperwork_snapshot fields_size save_validated
    save_base save_on_base claim_save claim_idempotency is_key all is_key_char find save_claimed
    create_record add_record is_taken any claim_existing complete_idempotency is_forbidden
    safe_reference encoded_length escaped_length string_length is_alphanumeric add_path
    changed_field_paths is_section_name payload_paths section_path section_paths text_leb
    without_underscores add_revision append_record base_record paperwork_event put_record
    record_revision can_read_paperwork locked_record get_field json_eq lookup_field decimal
    decimal_from hex_char hyphened uuid_from uuid_text update_where text_eq
copied_more e = absurd (omega (arith, ap length e))

same_words : normalized_shift (codes "Days") ≡ normalized_shift (codes " Days ")
unfolding join_words split_from is_space
same_words = refl

-- the second administrator's copy, under the key of the first one
copy_previous_daily_record-once_example :
    copy_previous_daily_record copy_rules rosters
      (administrator 4)
      (copy_call 8)
      assignment_roster
      20300
      (codes "Days")
      (some 1)
      copied_db
    ≡ (raised (paperwork_already_exists 102), copied_db)
copy_previous_daily_record-once_example =
    copy_previous_daily_record-once copy_rules rosters (administrator 1) (administrator 4)
      (copy_call 2) (copy_call 8) 20300 (codes " Days ") (codes "Days") none (some 1) day_before
      copied_db copy_view copied_lem copied_more same_words refl
