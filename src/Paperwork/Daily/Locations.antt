-- ===== src/Paperwork/Daily/Locations.antt =====
-- paperwork/daily.py: the P1 posts of each staff member, as the loops collect them, against counts.
use prison_policy_ai.Prelude.{
  ℕ, ◌+◌, ◌≡◌, ◌≢◌, refl, subst, List, [], ◌∷◌, ◌++◌, Option, none, some, Bool, false, ◌&&◌, Text,
  text_eq, arith, find, Unique, Lacks, Bool-cases, Option-cases, inl, inr, ◌==◌, length,
  length-append, if◌then◌else◌,
}
use prison_policy_ai.Fault.{ok, Result-cases}
use prison_policy_ai.Paperwork.CountSheet.{entry}
use prison_policy_ai.Paperwork.Daily.{
  StaffSelection, PostAssignment, RosterDefinition, roster_posts, posts_at, ZoneAssignment,
  add_location, group_locations,
}

abbrev pub Places : Type 0
Places = List (ℕ × List Text)

abbrev pub Posts : Type 0
Posts = List (Text × PostAssignment)

-- whether the post with this code has priority P1, by a look into the definition
abbrev pub is_priority : RosterDefinition → PostAssignment → Bool
is_priority d post = elim (find (λ (e : Text × Bool). text_eq post.post_code e.0) d.is_p1) [
  | none ↦ false
  | some e ↦ e.1
]

-- 1 for a P1 post that has the staff member
abbrev pub has_post :
    RosterDefinition → (PostAssignment → Option StaffSelection) → ℕ → PostAssignment → ℕ
has_post d staff id post =
    if is_priority d post && elim (staff post) [ none ↦ false | some s ↦ s.staff_id == id ]
    then 1
    else 0

times_assigned :
    RosterDefinition → (PostAssignment → Option StaffSelection) → ℕ → List PostAssignment → ℕ
times_assigned d staff id [] = 0
times_assigned d staff id (post ∷ posts) =
    has_post d staff id post + times_assigned d staff id posts

-- how many P1 posts of the zones have the staff member
pub times_in_zones :
    RosterDefinition → (PostAssignment → Option StaffSelection) → ℕ → List ZoneAssignment → ℕ
times_in_zones d staff id [] = 0
times_in_zones d staff id (zone ∷ zones) =
    times_assigned d staff id zone.posts + times_in_zones d staff id zones

-- of posts with their zones
unfoldable pub times_at :
    RosterDefinition → (PostAssignment → Option StaffSelection) → ℕ → Posts → ℕ
times_at d staff id [] = 0
times_at d staff id ((zone, post) ∷ posts) = has_post d staff id post + times_at d staff id posts

times_at-append :
    (d : RosterDefinition) (staff : PostAssignment → Option StaffSelection) (id : ℕ) (zone : Text)
    (posts : List PostAssignment) (rest : Posts)
    → times_at d staff id (posts_at zone posts ++ rest)
      ≡ times_assigned d staff id posts + times_at d staff id rest
unfolding times_at times_assigned
times_at-append d staff id zone [] rest = omega arith
times_at-append d staff id zone (post ∷ posts) rest =
    rw (times_at-append d staff id zone posts rest) (omega arith)

pub times_at-zones :
    (d : RosterDefinition) (staff : PostAssignment → Option StaffSelection) (id : ℕ)
    (zones : List ZoneAssignment)
    → times_at d staff id (roster_posts zones) ≡ times_in_zones d staff id zones
unfolding times_at times_in_zones roster_posts
times_at-zones d staff id [] = refl
times_at-zones d staff id (zone ∷ zones) =
    rw
      (
        times_at-append d staff id zone.zone_code zone.posts (roster_posts zones),
        times_at-zones d staff id zones,
      )
      refl

-- a post that has a definition has the priority there
pub entry-priority :
    (d : RosterDefinition) (post : PostAssignment) (p1 : Bool)
    → entry post.post_code d.is_p1 ≡ ok p1
    → is_priority d post ≡ p1
unfolding entry
entry-priority d post p1 h =
    elim (Option-cases (find (λ (e : Text × Bool). text_eq post.post_code e.0) d.is_p1)) [
      | inl gone ↦ absurd (ground arith)
      | inr (e, at) ↦ ground arith
    ]

unfoldable pub times_found : ℕ → Places → ℕ
times_found id [] = 0
times_found id ((j, zones) ∷ rest) = (if j == id then length zones else 0) + times_found id rest

add_location-times :
    (id j : ℕ) (zone : Text) (found : Places)
    → times_found id (add_location j zone found) ≡ times_found id found + (if j == id then 1 else 0)
unfolding times_found add_location
add_location-times id j zone [] = ground arith
add_location-times id j zone ((k, zones) ∷ rest) =
    ground (arith, length-append zones (zone ∷ []), add_location-times id j zone rest)

pub group_locations-times :
    (d : RosterDefinition) (staff : PostAssignment → Option StaffSelection) (id : ℕ) (posts : Posts)
    (found places : Places)
    → group_locations d staff posts found ≡ ok places
    → times_found id places ≡ times_found id found + times_at d staff id posts
unfolding group_locations times_at
group_locations-times d staff id [] found places h = ground arith
group_locations-times d staff id ((zone, post) ∷ posts) found places h =
    elim (Result-cases (entry post.post_code d.is_p1)) [
      | inr (f, e) ↦ absurd (ground arith)
      | inl (p1, e) ↦
          let p = entry-priority d post p1 e in
          elim (Bool-cases p1) [
            | inr low ↦
                ground (arith, e, p, low, group_locations-times d staff id posts found places)
            | inl high ↦ elim (Option-cases (staff post)) [
              | inl free ↦
                  ground
                    (arith, e, p, high, free, group_locations-times d staff id posts found places)
              | inr (s, own) ↦ ground (
                arith,
                e,
                p,
                high,
                own,
                group_locations-times d staff id posts (add_location s.staff_id zone found) places,
                add_location-times id s.staff_id zone found,
              )
            ]
          ]
    ]

abbrev pub Apart : Places → Type 0
Apart = Unique (λ (g : ℕ × List Text). g.0)

add_location-Lacks :
    (k j : ℕ) (zone : Text) (found : Places)
    → j ≢ k
    → Lacks (λ (g : ℕ × List Text). g.0) k found
    → Lacks (λ (g : ℕ × List Text). g.0) k (add_location j zone found)
unfolding add_location
add_location-Lacks k j zone [] n l = (n, tt)
add_location-Lacks k j zone ((i, zones) ∷ rest) n l = elim (Bool-cases (j == i)) [
  | inl e ↦ rw e (l.0, l.1)
  | inr e ↦ rw e (l.0, add_location-Lacks k j zone rest n l.1)
]

add_location-Apart :
    (j : ℕ) (zone : Text) (found : Places) → Apart found → Apart (add_location j zone found)
unfolding add_location
add_location-Apart j zone [] u = (tt, tt)
add_location-Apart j zone ((i, zones) ∷ rest) u = elim (Bool-cases (j == i)) [
  | inl e ↦ rw e (u.0, u.1)
  | inr e ↦
      rw e (add_location-Lacks i j zone rest (ground arith) u.0, add_location-Apart j zone rest u.1)
]

pub group_locations-Apart :
    (d : RosterDefinition) (staff : PostAssignment → Option StaffSelection) (posts : Posts)
    (found places : Places)
    → Apart found
    → group_locations d staff posts found ≡ ok places
    → Apart places
unfolding group_locations
group_locations-Apart d staff [] found places u h = subst Apart (ground arith) u
group_locations-Apart d staff ((zone, post) ∷ posts) found places u h =
    elim (Result-cases (entry post.post_code d.is_p1)) [
      | inr (f, e) ↦ absurd (ground arith)
      | inl (p1, e) ↦ elim (Bool-cases p1) [
        | inr low ↦ group_locations-Apart d staff posts found places u (ground arith)
        | inl high ↦ elim (Option-cases (staff post)) [
          | inl free ↦ group_locations-Apart d staff posts found places u (ground arith)
          | inr (s, own) ↦
              group_locations-Apart d staff posts (add_location s.staff_id zone found) places
                (add_location-Apart s.staff_id zone found u) (ground arith)
        ]
      ]
    ]

pub times_found-Lacks :
    (id : ℕ) (found : Places)
    → Lacks (λ (g : ℕ × List Text). g.0) id found
    → times_found id found ≡ 0
unfolding times_found
times_found-Lacks id [] l = refl
times_found-Lacks id ((j, zones) ∷ rest) l = ground (arith, l.0, times_found-Lacks id rest l.1)
