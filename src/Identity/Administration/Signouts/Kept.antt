-- ===== src/Identity/Administration/Signouts/Kept.antt =====
-- identity/accounts.py: an administrator's sign-out keeps the rows that are revoked.
use text.Mathlib.Text.{◌==◌ as str_eq}
use prison_policy_ai.Prelude.{
  ℕ, ◌≡◌, refl, ◌∙◌, Bool, true, false, Option, none, some, String, List, [], ◌∷◌, arith, any, find,
  find_sound, find-update_where, select, is_some, Unique, Lacks, Option-cases, Bool-cases, inl, inr,
  ◌==◌, ==_iff, subst, if◌then◌else◌,
}
use prison_policy_ai.Fault.{Fault, ok, raised, Exec-cases}
use prison_policy_ai.Identity.Models.{AccessSession, Db, session_by_id, account_by_id}
use prison_policy_ai.Identity.Sessions.Defs.{revoke}
use prison_policy_ai.Identity.Sessions.Operations.{live_of}
use prison_policy_ai.Identity.Sessions.Revoked.{KeepsRevoked, KeepsRevoked-refl}
use prison_policy_ai.Identity.Sessions.Kept.{from_cases}
use prison_policy_ai.Identity.Elevation.{Actor}
use prison_policy_ai.Identity.Administration.Signouts.{
  order_by_id, revoke_row, revoke_rows, selected_rows, end_versions, revoke_account_sessions,
}
use prison_policy_ai.Identity.Administration.Signouts.Ends.{has_id, has_id-order}

Lacks-has_id :
    (p : AccessSession → Bool) (id : ℕ) (sessions : List AccessSession)
    → Lacks (λ (s : AccessSession). s.id) id sessions
    → has_id id (select p sessions) ≡ false
unfolding select any
Lacks-has_id p id [] l = refl
Lacks-has_id p id (s ∷ sessions) l = ground (arith, l.0, Lacks-has_id p id sessions l.1)

-- a row with this id is none of those that are not revoked
live-has_id :
    (account_id id : ℕ) (sessions : List AccessSession) (row : AccessSession)
    → Unique (λ (s : AccessSession). s.id) sessions
    → find (λ (s : AccessSession). s.id == id) sessions ≡ some row
    → is_some row.revoked_at ≡ true
    → has_id id (select (live_of account_id) sessions) ≡ false
unfolding find select any
live-has_id account_id id [] row u found gone = refl
live-has_id account_id id (s ∷ sessions) row u found gone = elim (Bool-cases (s.id == id)) [
  | inl own ↦
      let same : s.id ≡ id = ground (arith, ==_iff s.id id) in
      let ended : is_some s.revoked_at ≡ true = ground (arith, own) in
      let lacks = subst (λ k. Lacks (λ (r : AccessSession). r.id) k sessions) same u.0 in
      ground (arith, ended, Lacks-has_id (live_of account_id) id sessions lacks)
  | inr other ↦ ground (arith, other, live-has_id account_id id sessions row u.1)
]

-- what an update of another row finds
other_row :
    (id k : ℕ) (f : AccessSession → AccessSession) (sessions : List AccessSession)
    → (k == id) ≡ false
    → (elim (find (λ (s : AccessSession). s.id == id) sessions) [
      | none ↦ none
      | some x ↦ some (if x.id == k then f x else x)
    ])
      ≡ find (λ (s : AccessSession). s.id == id) sessions
other_row id k f sessions other =
    elim (Option-cases (find (λ (s : AccessSession). s.id == id) sessions)) [
      | inl gone ↦ rw gone refl
      | inr (row, at) ↦
          let own = find_sound (λ (s : AccessSession). s.id == id) sessions row at in
          rw at (ground (arith, own, other))
    ]

-- none of the rows that a sign-out selects is revoked
selected_rows-live :
    (id : ℕ) (scope : String) (target : Option ℕ) (db s : Db) (rows : List AccessSession)
    → Unique (λ (r : AccessSession). r.id) db.sessions
    → selected_rows id scope target db ≡ (ok rows, s)
    → (s ≡ db)
      × ((k : ℕ) (row : AccessSession)
          → session_by_id k db ≡ some row
          → is_some row.revoked_at ≡ true
          → has_id k rows ≡ false)
unfolding selected_rows any
selected_rows-live id scope none db s rows u h = elim (Bool-cases (str_eq scope "all")) [
  | inr other ↦ absurd (ground arith)
  | inl all_of ↦
      let e : order_by_id (select (live_of id) db.sessions) ≡ rows = ground arith in
      (
        ground arith,
        λ k row found gone. rw (← e) (
            has_id-order k (select (live_of id) db.sessions)
            ∙ live-has_id id k db.sessions row u found gone),
      )
]
selected_rows-live id scope (some target) db s rows u h = elim (Bool-cases (str_eq scope "one")) [
  | inr other ↦ absurd (ground arith)
  | inl one ↦ elim (Option-cases (session_by_id target db)) [
    | inl gone ↦ absurd (ground arith)
    | inr (row, found) ↦
        let own = find_sound (λ (r : AccessSession). r.id == target) db.sessions row found in
        let e : rows ≡ row ∷ [] = ground arith in
        let same : row.id ≡ target = ground (arith, own, ==_iff row.id target) in
        (
          ground arith,
          λ k row' found' gone. elim (Bool-cases (row.id == k)) [
            | inr other ↦ rw e (ground (arith, other))
            | inl hit ↦
                let at : session_by_id k db ≡ some row =
                  subst (λ i. session_by_id i db ≡ some row)
                    (ground (arith, hit, same, ==_iff row.id k)) found in
                absurd (ground (arith, at, found', gone, h))
          ],
        )
  ]
]

selected_rows-raised :
    (id : ℕ) (scope : String) (target : Option ℕ) (db s : Db) (f : Fault)
    → selected_rows id scope target db ≡ (raised f, s)
    → s ≡ db
unfolding selected_rows
selected_rows-raised id scope none db s f h = ground arith
selected_rows-raised id scope (some target) db s f h =
    elim (Option-cases (session_by_id target db)) [
      | inl gone ↦ ground arith
      | inr (row, found) ↦ ground arith
    ]

module _ (actor : Actor) (now : ℕ) (request_id : String) where
  -- a row that is not among those to be revoked stays as it is
  revoke_rows-other :
      (id : ℕ) (rows : List AccessSession) (db : Db)
      → has_id id rows ≡ false
      → session_by_id id (revoke_rows actor now request_id rows db).1 ≡ session_by_id id db
  unfolding revoke_rows revoke_row any
  revoke_rows-other id [] db none_left = refl
  revoke_rows-other id (row ∷ rows) db none_left =
      revoke_rows-other id rows (revoke_row actor now request_id row db).1 (ground arith)
      ∙ (find-update_where (λ (s : AccessSession). s.id == id)
            (λ (s : AccessSession). s.id == row.id) (revoke now "admin_action") db.sessions
            (λ x. refl)
          ∙ other_row id row.id (revoke now "admin_action") db.sessions (ground arith))

  -- Ids are distinct, as the primary key demands.
  pub revoke_account_sessions-KeepsRevoked :
      (id : ℕ) (scope : String) (target : Option ℕ) (db : Db)
      → Unique (λ (s : AccessSession). s.id) db.sessions
      → KeepsRevoked db.sessions
          (revoke_account_sessions actor id scope target now request_id db).1.sessions
  unfolding revoke_account_sessions
  revoke_account_sessions-KeepsRevoked id scope target db u =
      elim (Option-cases (account_by_id id db)) [
        | inl gone ↦ from_cases (inl (ground arith)) (KeepsRevoked-refl db.sessions)
        | inr (account, at) ↦ elim (Exec-cases (selected_rows id scope target db)) [
          | inr (f, s, e) ↦
              from_cases (inl (ground (arith, selected_rows-raised id scope target db s f e)))
                (KeepsRevoked-refl db.sessions)
          | inl (rows, s, e) ↦
              let (same, none_gone) = selected_rows-live id scope target db s rows u e in
              let ended : (revoke_account_sessions actor id scope target now request_id
                    db).1.sessions
                  ≡ (revoke_rows actor now request_id rows db).1.sessions =
                unfold end_versions in ground (arith, at, e, same) in
              λ k row found gone. (
                row,
                rw ended (revoke_rows-other k rows db (none_gone k row found gone) ∙ found),
                (refl, refl, refl),
              )
        ]
      ]
