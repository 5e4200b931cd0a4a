-- ===== src/Identity/Elevation/Window.antt =====
-- The elevation of a session is open for exactly fifteen minutes after its last confirmation or use.
use prison_policy_ai.Prelude.{
  ℕ, ◌+◌, ◌≡◌, refl, true, false, none, some, String, Text, [], ◌∷◌, arith, find, find_sound,
  find-append, Option-cases, inl, inr, ◌==◌, ==_iff, minutes, subst, sym, find-update_own, ltb,
}
use prison_policy_ai.Fault.{ok, raised, admin_elevation_required}
use prison_policy_ai.Identity.Crypto.{Crypto}
use prison_policy_ai.Identity.Models.{Db, AdminElevation}
use prison_policy_ai.Identity.Elevation.{
  Actor, StepUpDraw, ElevationResult, confirm_admin_pin, elevation_is_active, elevation_of,
  touch_admin_elevation, touched, opened, open_elevation, new_elevation, update_elevation,
}

-- the row that an update by its own key leaves for the actor
elevation-update :
    (actor : Actor) (f : AdminElevation → AdminElevation) (db : Db) (row : AdminElevation)
    → ((x : AdminElevation) → (f x).session_id ≡ x.session_id)
    → elevation_of actor db ≡ some row
    → elevation_of actor (update_elevation row.session_id f db) ≡ some (f row)
elevation-update actor f db row keeps found =
    let same : row.session_id ≡ actor.session_id = (==_iff row.session_id actor.session_id).0 (
      find_sound (λ (e : AdminElevation). e.session_id == actor.session_id) db.elevations row
        found) in
    rw (← same) (
      find-update_own (λ (e : AdminElevation). e.session_id) f db.elevations row keeps
        (subst (λ k. find (λ (e : AdminElevation). e.session_id == k) db.elevations ≡ some row)
          (sym same) found))

open_elevation-opens :
    (actor : Actor) (now : ℕ) (db : Db)
    → (row : AdminElevation) × (elevation_of actor (open_elevation actor now db) ≡ some row)
      × (row.revoked_at ≡ none)
      × (row.idle_expires_at ≡ now + minutes 15)
unfolding open_elevation
open_elevation-opens actor now db = elim (Option-cases (elevation_of actor db)) [
  | inl new ↦ (
    new_elevation actor now,
    rw (new, open_elevation)
        (rw
          (
            find-append (λ (e : AdminElevation). e.session_id == actor.session_id) db.elevations
                (new_elevation actor now ∷ []),
            new,
          )
          (unfold find in ground (arith, ==_iff actor.session_id actor.session_id))),
    refl,
    refl,
  )
  | inr (row, found) ↦ (
    opened now row,
    rw (found, open_elevation) (elevation-update actor (opened now) db row (λ x. refl) found),
    refl,
    refl,
  )
]

-- A confirmed PIN opens the elevation of the session for exactly fifteen minutes, whatever its row
-- was before.
confirm_admin_pin-window :
    (crypto : Crypto) (actor : Actor) (pin : Text) (purpose : String) (now : ℕ)
    (request_id : String) (draw : StepUpDraw) (db after : Db) (result : ElevationResult)
    → confirm_admin_pin crypto actor pin purpose now request_id draw db ≡ (ok result, after)
    → (t : ℕ) → elevation_is_active actor t after ≡ ltb t (now + minutes 15)
unfolding confirm_admin_pin elevation_is_active
confirm_admin_pin-window crypto actor pin purpose now request_id draw db after result h t =
    let (row, found, live, until) = open_elevation-opens actor now db in
    let e : after.elevations ≡ (open_elevation actor now db).elevations = ground arith in
    let at : elevation_of actor after ≡ some row = rw e found in ground (arith, at, live, until)

-- A use of the elevation succeeds exactly while it is open; it then stays open for exactly fifteen
-- minutes more, and a use that is refused writes nothing.
touch_admin_elevation-window :
    (actor : Actor) (now : ℕ) (db : Db)
    → (elevation_is_active actor now db ≡ true
        → ((touch_admin_elevation actor now db).0 ≡ ok (now + minutes 15))
          × ((t : ℕ)
              → elevation_is_active actor t (touch_admin_elevation actor now db).1
                ≡ ltb t (now + minutes 15)))
      × (elevation_is_active actor now db ≡ false
          → touch_admin_elevation actor now db ≡ (raised admin_elevation_required, db))
unfolding touch_admin_elevation elevation_is_active
touch_admin_elevation-window actor now db = elim (Option-cases (elevation_of actor db)) [
  | inl gone ↦ (λ live. absurd (ground arith), λ shut. ground arith)
  | inr (row, found) ↦ (
    λ live. (
      ground arith,
      λ t. ground (arith, elevation-update actor (touched now) db row (λ x. refl) found),
    ),
    λ shut. ground arith,
  )
]
