-- ===== src/Paperwork/Daily/Uniforms.antt =====
-- paperwork/daily.py: the rows of a uniform inspection, and the copy of a roster.
use prison_policy_ai.Prelude.{
  text_eq, ℕ, ◌≤◌, ◌≡◌, refl, subst, ◌∙◌, List, [], ◌∷◌, ◌++◌, map, Option, none, some, Bool, true,
  false, ◌||◌, Text, arith, any, all, Bool-cases, inl, inr, ◌==◌, length,
}
use prison_policy_ai.Fault.{ok}
use prison_policy_ai.Paperwork.CountSheet.{keys, same_keys, is_subset, is_key_of}
use prison_policy_ai.Paperwork.Daily.{
  StaffSelection, PostAssignment, ZoneAssignment, AssignmentRoster, RosterDefinition,
  validate_roster, not_checked, security_equipment_keys,
}
use prison_policy_ai.Paperwork.Daily.Derived.{
  UniformInspection, has_staff, add_staff, add_all, staff_of_posts, staff_of_zones, staff_is_unique,
  build_uniform_rows_from_roster, copied, prepare_copied_roster_payload,
}

-- an optional selection of the staff member
abbrev pub is_selected : ℕ → Option StaffSelection → Bool
is_selected id none = false
is_selected id (some s) = s.staff_id == id

has_staff-append :
    (id : ℕ) (xs ys : List StaffSelection)
    → has_staff id (xs ++ ys) ≡ has_staff id xs || has_staff id ys
unfolding any
has_staff-append id [] ys = refl
has_staff-append id (x ∷ xs) ys = ground (arith, has_staff-append id xs ys)

add_staff-has :
    (id : ℕ) (s : Option StaffSelection) (ordered : List StaffSelection)
    → has_staff id (add_staff s ordered) ≡ has_staff id ordered || is_selected id s
unfolding add_staff
add_staff-has id none ordered = ground arith
add_staff-has id (some s) ordered = elim (Bool-cases (has_staff s.staff_id ordered)) [
  | inl old ↦ elim (Bool-cases (s.staff_id == id)) [
    | inl own ↦
        let same : s.staff_id ≡ id = ground arith in
        let known : has_staff id ordered ≡ true =
          subst (λ k. has_staff k ordered ≡ true) same old in
        ground (arith, old, own, known)
    | inr other ↦ ground (arith, old, other)
  ]
  | inr new ↦ rw new (has_staff-append id ordered (s ∷ []) ∙ (unfold any in ground arith))
]

add_all-has :
    (id : ℕ) (staff : List (Option StaffSelection)) (ordered : List StaffSelection)
    → has_staff id (add_all staff ordered) ≡ has_staff id ordered || any (is_selected id) staff
unfolding add_all any
add_all-has id [] ordered = ground arith
add_all-has id (s ∷ staff) ordered =
    ground (arith, add_all-has id staff (add_staff s ordered), add_staff-has id s ordered)

unique-append :
    (xs : List StaffSelection) (s : StaffSelection)
    → staff_is_unique xs ≡ true
    → has_staff s.staff_id xs ≡ false
    → staff_is_unique (xs ++ s ∷ []) ≡ true
unfolding staff_is_unique any
unique-append [] s u n = refl
unique-append (x ∷ xs) s u n =
    ground (arith, has_staff-append x.staff_id xs (s ∷ []), unique-append xs s)

add_all_unique :
    (staff : List (Option StaffSelection)) (ordered : List StaffSelection)
    → staff_is_unique ordered ≡ true
    → staff_is_unique (add_all staff ordered) ≡ true
unfolding add_all add_staff
add_all_unique [] ordered u = u
add_all_unique (none ∷ staff) ordered u = add_all_unique staff ordered u
add_all_unique (some s ∷ staff) ordered u = elim (Bool-cases (has_staff s.staff_id ordered)) [
  | inl old ↦ rw old (add_all_unique staff ordered u)
  | inr new ↦ rw new (add_all_unique staff (ordered ++ s ∷ []) (unique-append ordered s u new))
]

-- a post that has the staff member, initially or in rotation
abbrev pub post_has_staff : ℕ → PostAssignment → Bool
post_has_staff id post = is_selected id post.initial_staff || is_selected id post.rotation_staff

-- a zone that has the staff member, as its supervisor or on a post
abbrev pub zone_has_staff : ℕ → ZoneAssignment → Bool
zone_has_staff id zone = is_selected id zone.supervisor || any (post_has_staff id) zone.posts

staff_of_posts-append :
    (id : ℕ) (posts : List PostAssignment) (rest : List (Option StaffSelection))
    → any (is_selected id) (staff_of_posts posts ++ rest)
      ≡ any (post_has_staff id) posts || any (is_selected id) rest
unfolding staff_of_posts any
staff_of_posts-append id [] rest = refl
staff_of_posts-append id (post ∷ posts) rest = ground (arith, staff_of_posts-append id posts rest)

staff_of_zones-has :
    (id : ℕ) (zones : List ZoneAssignment)
    → any (is_selected id) (staff_of_zones zones) ≡ any (zone_has_staff id) zones
unfolding staff_of_zones any
staff_of_zones-has id [] = refl
staff_of_zones-has id (zone ∷ zones) =
    ground (
      arith,
      staff_of_posts-append id zone.posts (staff_of_zones zones),
      staff_of_zones-has id zones,
    )

staff_of_roster-has :
    (id : ℕ) (zones : List ZoneAssignment)
    → has_staff id (add_all (staff_of_zones zones) []) ≡ any (zone_has_staff id) zones
staff_of_roster-has id zones =
    rw (add_all-has id (staff_of_zones zones) [], staff_of_zones-has id zones) (unfold any in refl)

-- The inspection built from a roster has each staff member of the roster once: a member has a row
-- exactly when some zone has it as supervisor, or some post initially or in rotation. It is built from
-- every valid roster with at most 250 of them: the check of the inspection against duplicates never
-- refuses it.
pub build_uniform_rows_from_roster_sound :
    (d : RosterDefinition) (roster : AssignmentRoster) (record_id n : ℕ)
    → validate_roster d roster ≡ ok roster
    → length (add_all (staff_of_zones roster.zones) []) ≤ 250
    → 1 ≤ n
    → (inspection : UniformInspection) × (build_uniform_rows_from_roster d roster record_id n
        ≡ ok inspection)
      × (staff_is_unique inspection.staff ≡ true)
      × ((id : ℕ) → has_staff id inspection.staff ≡ any (zone_has_staff id) roster.zones)
unfolding build_uniform_rows_from_roster
build_uniform_rows_from_roster_sound d roster record_id n valid few positive =
    let staff = add_all (staff_of_zones roster.zones) [] in
    let unique = add_all_unique (staff_of_zones roster.zones) [] (unfold staff_is_unique in refl) in
    (
      record {
        work_date = roster.work_date;
        shift = roster.shift;
        roster_record_id = record_id;
        roster_revision_number = n;
        staff = staff;
      },
      ground (arith, valid, unique),
      unique,
      λ id. staff_of_roster-has id roster.zones,
    )

blank_equipment :
    same_keys
      (keys (map (λ key. (key, not_checked)) security_equipment_keys))
      security_equipment_keys
    ≡ true
unfolding same_keys is_subset is_key_of any all text_eq
blank_equipment = refl

copied-valid :
    (d : RosterDefinition) (source : AssignmentRoster) (target_work_date : ℕ) (shift : Text)
    → validate_roster d source ≡ ok source
    → validate_roster d (copied source target_work_date shift)
      ≡ ok (copied source target_work_date shift)
unfolding validate_roster copied
copied-valid d source target_work_date shift valid = ground (arith, blank_equipment)

-- The copy of a valid roster is valid: the code's second validation never refuses it. It has the
-- assignments of the source, zone by zone and post by post, for the day and the shift asked for, and
-- nothing of what the day before had recorded.
prepare_copied_roster_payload_sound :
    (d : RosterDefinition) (source : AssignmentRoster) (target_work_date : ℕ) (shift : Text)
    → validate_roster d source ≡ ok source
    → prepare_copied_roster_payload d source target_work_date shift
      ≡ ok (copied source target_work_date shift)
unfolding prepare_copied_roster_payload
prepare_copied_roster_payload_sound d source target_work_date shift valid =
    rw valid (copied-valid d source target_work_date shift valid)
