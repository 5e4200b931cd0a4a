-- ===== src/Paperwork/Daily.antt =====
-- paperwork/daily.py: the assignment roster of a shift, its coverage, its copy for another day, and the
-- rows of a uniform inspection. Texts are bounded when they are read; here they are what was read.
-- Messages of warnings are left out.
pub mod Derived
pub mod Locations
pub mod Coverage
pub mod Uniforms
use prison_policy_ai.Prelude.{
  ℕ, ◌+◌, List, [], ◌∷◌, ◌++◌, map, Option, none, some, Bool, true, false, not, ◌&&◌, ◌||◌, Text,
  codes, text_eq, leb, ◌==◌, any, all, if◌then◌else◌, length, is_none, is_some,
}
use prison_policy_ai.Fault.{Result, ok, raised, value_error}
use prison_policy_ai.Paperwork.CountSheet.{Dict, keys, same_keys, entry, ◌>>=◌}

pub record StaffSelection : Type 0 where
  pub staff_id : ℕ
  pub display_name_snapshot : Text

pub data AssignmentState : Type 0 where
  unassigned assigned no_officer_available : AssignmentState

abbrev pub is_assigned : AssignmentState → Bool
is_assigned unassigned = false
is_assigned assigned = true
is_assigned no_officer_available = false

pub record PostAssignment : Type 0 where
  pub post_code : Text
  pub initial_staff : Option StaffSelection
  pub rotation_staff : Option StaffSelection
  pub initial_state : AssignmentState
  pub rotation_state : AssignmentState

pub record ZoneAssignment : Type 0 where
  pub zone_code : Text
  pub supervisor : Option StaffSelection
  pub posts : List PostAssignment

pub record LeaveEntry : Type 0 where
  pub staff : StaffSelection
  pub leave_time : Text
  pub leave_type : Text

pub record ExtraAssignment : Type 0 where
  pub label : Text
  pub staff : Option StaffSelection

-- "yes", "no" and "not_checked"
pub data EquipmentState : Type 0 where
  present missing not_checked : EquipmentState

pub record AssignmentRoster : Type 0 where
  pub work_date : ℕ
  pub shift : Text
  pub captain : Option StaffSelection
  pub lieutenant : Option StaffSelection
  pub duty_warden : Option Text
  pub alternate_shift_supervisor : Option StaffSelection
  pub leave_entries : List LeaveEntry
  pub extra_assignments : List ExtraAssignment
  pub zones : List ZoneAssignment
  pub briefing_minutes : Text
  pub roll_call_completed : Bool
  pub uniform_inspection_completed : Bool
  pub equipment : Dict EquipmentState
  pub briefing_guests : List Text
  pub assigned_and_dismissed : Bool
  pub lieutenant_signature_name : Option Text

-- ROSTER_ZONE_POSTS, and of ROSTER_POST_METADATA whether the priority of a post is "P1"
pub record RosterDefinition : Type 0 where
  pub zone_posts : Dict (List Text)
  pub is_p1 : Dict Bool

abbrev pub security_equipment_keys : List Text
security_equipment_keys =
    codes "digital_camera" ∷ codes "video_camera_go_pro" ∷ codes "metal_detector_wands" ∷ []

abbrev pub same_bool : Bool → Bool → Bool
same_bool true b = b
same_bool false b = not b

-- match_assignment_states_to_staff
unfoldable pub states_match : PostAssignment → Bool
states_match post =
    same_bool (is_assigned post.initial_state) (is_some post.initial_staff)
    && same_bool (is_assigned post.rotation_state) (is_some post.rotation_staff)

-- the posts of a zone are the approved ones, each once
unfoldable pub zone_matches : ZoneAssignment → List Text → Bool
unfolding same_keys
zone_matches zone approved =
    let codes_of = map (λ post. post.post_code) zone.posts in
    length codes_of == length approved && same_keys codes_of approved

unfoldable pub zones_match : List ZoneAssignment → Dict (List Text) → Bool
unfolding zone_matches
zones_match [] [] = true
zones_match [] (_ ∷ _) = false
zones_match (_ ∷ _) [] = false
zones_match (zone ∷ zones) ((code, approved) ∷ rest) =
    text_eq zone.zone_code code && zone_matches zone approved && zones_match zones rest

-- the validators of AssignmentRosterV1 and of its posts
unfoldable pub validate_roster : RosterDefinition → AssignmentRoster → Result AssignmentRoster
unfolding zones_match states_match same_keys
validate_roster d roster =
    if all (λ zone. all states_match zone.posts) roster.zones
      && zones_match roster.zones d.zone_posts
      && same_keys (keys roster.equipment) security_equipment_keys
    then ok roster
    else raised value_error

pub data WarningCode : Type 0 where
  p1_unfilled duplicate_initial_assignment duplicate_rotation_assignment : WarningCode

pub record CoverageWarning : Type 0 where
  pub code : WarningCode
  pub zone_code : Text
  pub post_code : Option Text
  pub staff_id : Option ℕ

-- the posts of priority P1, with their zones, in print order; KeyError for a post of no definition
-- `for zone in model.zones: for post in zone.posts`
abbrev pub posts_at : Text → List PostAssignment → List (Text × PostAssignment)
posts_at zone_code = map (λ post. (zone_code, post))

unfoldable pub roster_posts : List ZoneAssignment → List (Text × PostAssignment)
roster_posts [] = []
roster_posts (zone ∷ zones) = posts_at zone.zone_code zone.posts ++ roster_posts zones

-- the first loop, with its test of the priority
unfoldable pub unfilled :
    RosterDefinition → List (Text × PostAssignment) → Result (List CoverageWarning)
unfolding entry
unfilled d [] = ok []
unfilled d ((zone_code, post) ∷ posts) = elim (entry post.post_code d.is_p1) [
  | raised f ↦ raised f
  | ok p1 ↦ elim (unfilled d posts) [
    | raised f ↦ raised f
    | ok rest ↦ ok (
        if p1 && is_none post.initial_staff
        then record {
          code = p1_unfilled;
          zone_code = zone_code;
          post_code = some post.post_code;
          staff_id = none;
        }
          ∷ rest
        else rest)
  ]
]

-- the zones in which each staff member is assigned, by `assignments.setdefault(…).append(…)`
unfoldable pub add_location : ℕ → Text → List (ℕ × List Text) → List (ℕ × List Text)
add_location id zone [] = (id, zone ∷ []) ∷ []
add_location id zone ((j, zones) ∷ rest) =
    if id == j then (j, zones ++ zone ∷ []) ∷ rest else (j, zones) ∷ add_location id zone rest

-- the second loop, with its own test of the priority
unfoldable pub group_locations :
    RosterDefinition
    → (PostAssignment → Option StaffSelection)
    → List (Text × PostAssignment)
    → List (ℕ × List Text)
    → Result (List (ℕ × List Text))
unfolding add_location entry
group_locations d staff [] found = ok found
group_locations d staff ((zone, post) ∷ posts) found = elim (entry post.post_code d.is_p1) [
  | raised f ↦ raised f
  | ok p1 ↦ group_locations d staff posts (
      if not p1
      then found
      else elim (staff post) [ none ↦ found | some s ↦ add_location s.staff_id zone found ])
]

unfoldable pub duplicates : WarningCode → List (ℕ × List Text) → List CoverageWarning
duplicates code [] = []
duplicates code ((id, []) ∷ rest) = duplicates code rest
duplicates code ((id, zone ∷ []) ∷ rest) = duplicates code rest
duplicates code ((id, zone ∷ other ∷ zones) ∷ rest) =
    record { code = code; zone_code = zone; post_code = none; staff_id = some id }
    ∷ duplicates code rest

unfoldable pub calculate_roster_coverage :
    RosterDefinition → AssignmentRoster → Result (List CoverageWarning)
calculate_roster_coverage d roster = do
  let posts = roster_posts roster.zones
  first ← unfilled d posts
  initial ← group_locations d (λ p. p.initial_staff) posts []
  rotation ← group_locations d (λ p. p.rotation_staff) posts []
  ok (
      first
      ++ (duplicates duplicate_initial_assignment initial
          ++ duplicates duplicate_rotation_assignment rotation))
