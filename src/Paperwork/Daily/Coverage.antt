-- ===== src/Paperwork/Daily/Coverage.antt =====
-- paperwork/daily.py: the warnings about the coverage of a roster, against counts of its assignments.
use prison_policy_ai.Prelude.{
  ℕ, ◌≡◌, refl, subst, sym, ap, ◌∙◌, List, [], ◌∷◌, ◌++◌, none, some, Bool, true, false, ◌&&◌, ◌||◌,
  Text, text_eq, arith, any, Lacks, Bool-cases, inl, inr, leb, ◌==◌, is_none, if◌then◌else◌,
}
use prison_policy_ai.Fault.{ok, Result-cases}
use prison_policy_ai.Paperwork.CountSheet.{entry}
use prison_policy_ai.Paperwork.Daily.{
  PostAssignment, AssignmentRoster, RosterDefinition, WarningCode, p1_unfilled,
  duplicate_initial_assignment, duplicate_rotation_assignment, CoverageWarning, roster_posts,
  posts_at, ZoneAssignment, unfilled, group_locations, duplicates, calculate_roster_coverage,
}
use prison_policy_ai.Paperwork.Daily.Locations.{
  Places, Posts, is_priority, times_in_zones, times_found, times_at-zones, entry-priority,
  group_locations-times, Apart, group_locations-Apart, times_found-Lacks,
}

abbrev pub same_code : WarningCode → WarningCode → Bool
same_code p1_unfilled p1_unfilled = true
same_code duplicate_initial_assignment duplicate_initial_assignment = true
same_code duplicate_rotation_assignment duplicate_rotation_assignment = true
same_code _ _ = false

-- a warning with the code about the staff member
abbrev pub warns : WarningCode → ℕ → CoverageWarning → Bool
warns code id w = same_code w.code code && elim w.staff_id [ none ↦ false | some j ↦ j == id ]

own_once :
    (id j : ℕ) (rest : Places)
    → Lacks (λ (g : ℕ × List Text). g.0) j rest
    → (if j == id then times_found id rest else 0) ≡ 0
own_once id j rest l = elim (Bool-cases (j == id)) [
  | inl e ↦
      let same : j ≡ id = ground arith in
      rw e (subst (λ k. times_found k rest ≡ 0) same (times_found-Lacks j rest l))
  | inr e ↦ rw e
]

duplicates-times :
    (code : WarningCode) (id : ℕ) (found : Places)
    → Apart found
    → same_code code code ≡ true
    → any (warns code id) (duplicates code found) ≡ leb 2 (times_found id found)
unfolding duplicates any times_found
duplicates-times code id [] u e = refl
duplicates-times code id ((j, []) ∷ rest) u e = ground (arith, duplicates-times code id rest u.1 e)
duplicates-times code id ((j, z ∷ []) ∷ rest) u e =
    ground (arith, own_once id j rest u.0, duplicates-times code id rest u.1 e)
duplicates-times code id ((j, z ∷ y ∷ zs) ∷ rest) u e =
    ground (arith, e, own_once id j rest u.0, duplicates-times code id rest u.1 e)

duplicates-other :
    (code code' : WarningCode) (id : ℕ) (found : Places)
    → same_code code' code ≡ false
    → any (warns code id) (duplicates code' found) ≡ false
unfolding duplicates any
duplicates-other code code' id [] e = refl
duplicates-other code code' id ((j, []) ∷ rest) e = duplicates-other code code' id rest e
duplicates-other code code' id ((j, z ∷ []) ∷ rest) e = duplicates-other code code' id rest e
duplicates-other code code' id ((j, z ∷ y ∷ zs) ∷ rest) e =
    ground (arith, e, duplicates-other code code' id rest e)

-- a post that has no initial staff, though of priority P1, with its code
abbrev pub is_unfilled : RosterDefinition → Text → PostAssignment → Bool
is_unfilled d code post =
    is_priority d post && text_eq code post.post_code && is_none post.initial_staff

-- a warning that the post has nobody at first
abbrev pub warns_unfilled : Text → CoverageWarning → Bool
warns_unfilled code w =
    same_code w.code p1_unfilled
    && elim w.post_code [ none ↦ false | some post ↦ text_eq code post ]

unfilled-warns :
    (d : RosterDefinition) (posts : Posts) (ws : List CoverageWarning)
    → unfilled d posts ≡ ok ws
    → ((code : WarningCode) (id : ℕ)
        → same_code p1_unfilled code ≡ false
        → any (warns code id) ws ≡ false)
      × ((code : Text)
          → any (warns_unfilled code) ws
            ≡ any (λ (at : Text × PostAssignment). is_unfilled d code at.1) posts)
unfolding unfilled any
unfilled-warns d [] ws h = (λ code id n. ground arith, λ code. ground arith)
unfilled-warns d ((zone, post) ∷ posts) ws h = elim (Result-cases (entry post.post_code d.is_p1)) [
  | inr (f, e) ↦ absurd (ground arith)
  | inl (p1, e) ↦ elim (Result-cases (unfilled d posts)) [
    | inr (f, e') ↦ absurd (ground arith)
    | inl (rest, e') ↦
        let p = entry-priority d post p1 e in
        let (no_other, ih) = unfilled-warns d posts rest e' in
        elim (Bool-cases (p1 && is_none post.initial_staff)) [
          | inl warned ↦ (
            λ code id n. ground (arith, e, e', warned, no_other code id n),
            λ code. ground (arith, e, e', p, warned, ih code),
          )
          | inr quiet ↦ (
            λ code id n. ground (arith, e, e', quiet, no_other code id n),
            λ code. ground (arith, e, e', p, quiet, ih code),
          )
        ]
  ]
]

any-append {ℓ} :
    {A : Type ℓ} (p : A → Bool) (xs ys : List A) → any p (xs ++ ys) ≡ any p xs || any p ys
unfolding any
any-append p [] ys = refl
any-append p (x ∷ xs) ys = ground (arith, any-append p xs ys)

any-posts :
    (p : PostAssignment → Bool) (zone : Text) (posts : List PostAssignment)
    → any (λ (at : Text × PostAssignment). p at.1) (posts_at zone posts) ≡ any p posts
unfolding any
any-posts p zone [] = refl
any-posts p zone (post ∷ posts) = rw (any-posts p zone posts) refl

any-zones :
    (p : PostAssignment → Bool) (zones : List ZoneAssignment)
    → any (λ (at : Text × PostAssignment). p at.1) (roster_posts zones)
      ≡ any (λ (zone : ZoneAssignment). any p zone.posts) zones
unfolding roster_posts any
any-zones p [] = refl
any-zones p (zone ∷ zones) =
    any-append (λ (at : Text × PostAssignment). p at.1) (posts_at zone.zone_code zone.posts)
      (roster_posts zones)
    ∙ rw (any-posts p zone.zone_code zone.posts, any-zones p zones) refl

duplicates-filled :
    (c : WarningCode) (code : Text) (found : Places)
    → any (warns_unfilled code) (duplicates c found) ≡ false
unfolding duplicates any
duplicates-filled c code [] = refl
duplicates-filled c code ((j, []) ∷ rest) = duplicates-filled c code rest
duplicates-filled c code ((j, z ∷ []) ∷ rest) = duplicates-filled c code rest
duplicates-filled c code ((j, z ∷ y ∷ zs) ∷ rest) = ground (arith, duplicates-filled c code rest)

-- The warnings of a roster. There is a warning that a post is unfilled exactly when some post with its
-- code, of priority P1 by the definition, has no initial staff. There is a warning of a duplicate
-- initial assignment about a staff member exactly when two or more of the P1 posts of all zones have
-- that member initially, and one of a duplicate rotation assignment exactly when two or more have that
-- member in rotation. Posts of another priority are never counted.
pub calculate_roster_coverage_iff :
    (d : RosterDefinition) (roster : AssignmentRoster) (ws : List CoverageWarning)
    → calculate_roster_coverage d roster ≡ ok ws
    → ((code : Text)
        → any (warns_unfilled code) ws
          ≡ any (λ (zone : ZoneAssignment). any (is_unfilled d code) zone.posts) roster.zones)
      × ((id : ℕ)
          → any (warns duplicate_initial_assignment id) ws
            ≡ leb 2 (times_in_zones d (λ p. p.initial_staff) id roster.zones))
      × ((id : ℕ)
          → any (warns duplicate_rotation_assignment id) ws
            ≡ leb 2 (times_in_zones d (λ p. p.rotation_staff) id roster.zones))
unfolding calculate_roster_coverage times_found
calculate_roster_coverage_iff d roster ws h =
    let posts = roster_posts roster.zones in
    elim (Result-cases (unfilled d posts)) [
      | inr (f, e) ↦ absurd (ground arith)
      | inl (blank, e) ↦ elim (Result-cases (group_locations d (λ p. p.initial_staff) posts [])) [
        | inr (f, e') ↦ absurd (ground arith)
        | inl (initial, e') ↦
            elim (Result-cases (group_locations d (λ p. p.rotation_staff) posts [])) [
              | inr (f, e'') ↦ absurd (ground arith)
              | inl (rotation, e'') ↦
                  let first = duplicates duplicate_initial_assignment initial in
                  let second = duplicates duplicate_rotation_assignment rotation in
                  let same : blank ++ (first ++ second) ≡ ws = ground (arith, e, e', e'', h) in
                  let split = λ (p : CoverageWarning → Bool).
                    sym (ap (any p) same)
                    ∙ any-append p blank (first ++ second)
                    ∙ ap (λ b. any p blank || b) (any-append p first second) in
                  let (no_dup, blanks) = unfilled-warns d posts blank e in
                  let apart =
                    group_locations-Apart d (λ p. p.initial_staff) posts [] initial tt e' in
                  let apart' =
                    group_locations-Apart d (λ p. p.rotation_staff) posts [] rotation tt e'' in
                  (
                    λ code.
                        split (warns_unfilled code)
                        ∙ ground (
                          arith,
                          blanks code,
                          any-zones (is_unfilled d code) roster.zones,
                          duplicates-filled duplicate_initial_assignment code initial,
                          duplicates-filled duplicate_rotation_assignment code rotation,
                        ),
                    λ id.
                        split (warns duplicate_initial_assignment id)
                        ∙ ground (
                          arith,
                          no_dup duplicate_initial_assignment id refl,
                          duplicates-times duplicate_initial_assignment id initial apart refl,
                          duplicates-other duplicate_initial_assignment
                              duplicate_rotation_assignment id rotation refl,
                          group_locations-times d (λ p. p.initial_staff) id posts [] initial e',
                          times_at-zones d (λ p. p.initial_staff) id roster.zones,
                        ),
                    λ id.
                        split (warns duplicate_rotation_assignment id)
                        ∙ ground (
                          arith,
                          no_dup duplicate_rotation_assignment id refl,
                          duplicates-times duplicate_rotation_assignment id rotation apart' refl,
                          duplicates-other duplicate_rotation_assignment
                              duplicate_initial_assignment id initial refl,
                          group_locations-times d (λ p. p.rotation_staff) id posts [] rotation e'',
                          times_at-zones d (λ p. p.rotation_staff) id roster.zones,
                        ),
                  )
            ]
      ]
    ]
