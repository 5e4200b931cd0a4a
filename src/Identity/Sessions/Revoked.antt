-- ===== src/Identity/Sessions/Revoked.antt =====
-- identity/sessions.py: what it means that the revoked rows of a table of sessions are kept.
use prison_policy_ai.Prelude.{
  ℕ, ◌≡◌, refl, Bool, true, some, String, List, [], ◌∷◌, ◌++◌, arith, is_some, find, find-append,
  update_where, find-update_where, Bool-cases, inl, inr, ◌==◌,
}
use prison_policy_ai.Identity.Crypto.{Crypto}
use prison_policy_ai.Identity.Models.{AccessSession}
use prison_policy_ai.Identity.Sessions.Defs.{IdentitySettings, Draw, in_family, revoke, rotated}

-- A revoked row stays, revoked at the same time for the same reason, and of the same account.
abbrev pub SameEnd : AccessSession → AccessSession → Type 0
SameEnd row row' =
    (row'.revoked_at ≡ row.revoked_at)
    × (row'.revoke_reason ≡ row.revoke_reason)
    × (row'.account_id ≡ row.account_id)

abbrev pub KeepsRevoked : List AccessSession → List AccessSession → Type 0
KeepsRevoked rows rows' =
    (id : ℕ) (row : AccessSession)
    → find (λ s. s.id == id) rows ≡ some row
    → is_some row.revoked_at ≡ true
    → (row' : AccessSession) × (find (λ s. s.id == id) rows' ≡ some row') × SameEnd row row'

pub KeepsRevoked-refl : (rows : List AccessSession) → KeepsRevoked rows rows
KeepsRevoked-refl rows id row found gone = (row, found, (refl, refl, refl))

pub KeepsRevoked-trans :
    (a b c : List AccessSession) → KeepsRevoked a b → KeepsRevoked b c → KeepsRevoked a c
KeepsRevoked-trans a b c h k id row found gone =
    let (row', at, same) = h id row found gone in
    let (row'', at', same') = k id row' at (rw same.0 gone) in (row'', at', ground arith)

pub KeepsRevoked-append :
    (rows : List AccessSession) (new : AccessSession) → KeepsRevoked rows (rows ++ new ∷ [])
KeepsRevoked-append rows new id row found gone =
    (row, rw (find-append (λ s. s.id == id) rows (new ∷ []), found), (refl, refl, refl))

-- an update that writes to no revoked row's end
pub KeepsRevoked-update :
    (p : AccessSession → Bool) (f : AccessSession → AccessSession) (rows : List AccessSession)
    → ((x : AccessSession) → (f x).id ≡ x.id)
    → ((x : AccessSession) → p x ≡ true → is_some x.revoked_at ≡ true → SameEnd x (f x))
    → KeepsRevoked rows (update_where p f rows)
KeepsRevoked-update p f rows keeps same id row found gone = elim (Bool-cases (p row)) [
  | inl hit ↦ (
    f row,
    rw (find-update_where (λ s. s.id == id) p f rows (λ x. rw (keeps x)), found) (ground arith),
    same row hit gone,
  )
  | inr miss ↦ (
    row,
    rw (find-update_where (λ s. s.id == id) p f rows (λ x. rw (keeps x)), found) (ground arith),
    (refl, refl, refl),
  )
]

pub KeepsRevoked-revoke_family :
    (current : AccessSession) (now : ℕ) (reason : String) (rows : List AccessSession)
    → KeepsRevoked rows (update_where (in_family current) (revoke now reason) rows)
KeepsRevoked-revoke_family current now reason rows =
    KeepsRevoked-update (in_family current) (revoke now reason) rows (λ x. refl)
      (λ x hit gone. absurd (ground arith))

module _ (crypto : Crypto) (settings : IdentitySettings) where
  pub KeepsRevoked-rotated :
      (version now k : ℕ) (draw : Draw) (rows : List AccessSession)
      → KeepsRevoked rows (
          update_where
            (λ (s : AccessSession). s.id == k)
            (rotated crypto settings version now draw)
            rows)
  unfolding rotated
  KeepsRevoked-rotated version now k draw rows =
      KeepsRevoked-update (λ (s : AccessSession). s.id == k)
        (rotated crypto settings version now draw) rows (λ x. refl)
        (λ x hit gone. (refl, refl, refl))
