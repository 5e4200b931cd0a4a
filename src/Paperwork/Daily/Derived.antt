-- ===== src/Paperwork/Daily/Derived.antt =====
-- paperwork/daily.py: the copy of a roster and the uniform inspection, made from a roster.
use prison_policy_ai.Prelude.{
  ℕ, List, [], ◌∷◌, ◌++◌, map, Option, none, some, Bool, true, false, not, ◌&&◌, Text, leb, ◌==◌,
  any, if◌then◌else◌, length,
}
use prison_policy_ai.Fault.{Result, ok, raised, value_error}
use prison_policy_ai.Paperwork.CountSheet.{◌>>=◌}
use prison_policy_ai.Paperwork.Daily.{
  StaffSelection, PostAssignment, ZoneAssignment, AssignmentRoster, RosterDefinition,
  security_equipment_keys, validate_roster, not_checked,
}

-- the copy of a roster for another day
unfoldable pub copied : AssignmentRoster → ℕ → Text → AssignmentRoster
copied source target_work_date shift = record source {
  work_date = target_work_date;
  shift = shift;
  captain = none;
  lieutenant = none;
  duty_warden = none;
  alternate_shift_supervisor = none;
  leave_entries = [];
  briefing_minutes = [];
  roll_call_completed = false;
  uniform_inspection_completed = false;
  equipment = map (λ key. (key, not_checked)) security_equipment_keys;
  briefing_guests = [];
  assigned_and_dismissed = false;
  lieutenant_signature_name = none;
  extra_assignments =
      map (λ extra. record { label = extra.label; staff = none }) source.extra_assignments;
}

unfoldable pub prepare_copied_roster_payload :
    RosterDefinition → AssignmentRoster → ℕ → Text → Result AssignmentRoster
unfolding copied
prepare_copied_roster_payload d source target_work_date shift = do
  model ← validate_roster d source
  validate_roster d (copied model target_work_date shift)

-- the staff of a roster in print order
unfoldable pub staff_of_posts : List PostAssignment → List (Option StaffSelection)
staff_of_posts [] = []
staff_of_posts (post ∷ posts) = post.initial_staff ∷ post.rotation_staff ∷ staff_of_posts posts

unfoldable pub staff_of_zones : List ZoneAssignment → List (Option StaffSelection)
unfolding staff_of_posts
staff_of_zones [] = []
staff_of_zones (zone ∷ zones) =
    zone.supervisor ∷ (staff_of_posts zone.posts ++ staff_of_zones zones)

abbrev pub has_staff : ℕ → List StaffSelection → Bool
has_staff id = any (λ s. s.staff_id == id)

-- `add`: `seen` holds the ids of `ordered_staff`
unfoldable pub add_staff : Option StaffSelection → List StaffSelection → List StaffSelection
add_staff none ordered = ordered
add_staff (some s) ordered = if has_staff s.staff_id ordered then ordered else ordered ++ s ∷ []

unfoldable pub add_all : List (Option StaffSelection) → List StaffSelection → List StaffSelection
unfolding add_staff
add_all [] ordered = ordered
add_all (s ∷ staff) ordered = add_all staff (add_staff s ordered)

-- reject_duplicate_staff
unfoldable pub staff_is_unique : List StaffSelection → Bool
staff_is_unique [] = true
staff_is_unique (s ∷ staff) = not (has_staff s.staff_id staff) && staff_is_unique staff

-- a uniform inspection with blank rows for `staff`
pub record UniformInspection : Type 0 where
  pub work_date : ℕ
  pub shift : Text
  pub roster_record_id : ℕ
  pub roster_revision_number : ℕ
  pub staff : List StaffSelection

unfoldable pub build_uniform_rows_from_roster :
    RosterDefinition → AssignmentRoster → ℕ → ℕ → Result UniformInspection
unfolding staff_is_unique add_all staff_of_zones
build_uniform_rows_from_roster d roster record_id revision_number = do
  model ← validate_roster d roster
  let staff = add_all (staff_of_zones model.zones) []
  if leb (length staff) 250 && staff_is_unique staff && leb 1 revision_number
      then ok (record {
        work_date = model.work_date;
        shift = model.shift;
        roster_record_id = record_id;
        roster_revision_number = revision_number;
        staff = staff;
      })
      else raised value_error
