-- ===== src/Fault.antt =====
-- The exceptions that the services raise, and methods that may raise. What was written before a
-- raise stays in the session's state until the caller commits or rolls back, so an action returns
-- the state beside an error too.
use prison_policy_ai.Prelude.{
  arith, ℕ, Bool, true, false, Option, none, some, ◌≡◌, refl, ◌⊎◌, inl, inr,
}

-- One constructor for each exception class of the modelled code, and one for a loop that is given too
-- few draws to end.
pub data Fault : Type 0 where
  value_error runtime_error lookup_error key_error attribute_error type_error : Fault
  pin_policy invalid_credentials reauthentication_required : Fault
  last_active_admin account_conflict account_already_exists duplicate_employee_number : Fault
  bootstrap_refused admin_elevation_required step_up_required lock_not_available : Fault
  idempotency_conflict request_in_progress : Fault
  csrf_invalid browser_session_invalid handoff_invalid rate_limited : Fault
  still_drawing : Fault
  job_not_found stale_job_claim invalid_job_result incident_not_found revision_conflict : Fault
  count_sheet_invalid integrity_error : Fault
  paperwork_not_found paperwork_revision_not_found : Fault
  paperwork_revision_conflict paperwork_already_exists : ℕ → Fault

pub data Result {ℓ} (A : Type ℓ) : Type ℓ where
  ok : A → Result A
  raised : Fault → Result A

abbrev pub Exec {ℓ} : Type ℓ → Type ℓ → Type ℓ
Exec S A = S → Result A × S

module _ {ℓ} {S A : Type ℓ} where
  abbrev pub pure : A → Exec S A
  pure a s = (ok a, s)

  abbrev pub raise : Fault → Exec S A
  raise f s = (raised f, s)

  abbrev pub gets : (S → A) → Exec S A
  gets q s = (ok (q s), s)

  -- a call that does not touch the session
  abbrev pub lift : Result A → Exec S A
  lift r s = (r, s)

  -- the row of a query, or the exception that its absence raises
  abbrev pub require : (S → Option A) → Fault → Exec S A
  require q f s = (elim (q s) [ none ↦ raised f | some a ↦ ok a ], s)

abbrev pub modify : {S : Type 0} → (S → S) → Exec S (Unit {0})
modify f s = (ok tt, f s)

abbrev pub raise_if : {S : Type 0} → Bool → Fault → Exec S (Unit {0})
raise_if true f s = (raised f, s)
raise_if false f s = (ok tt, s)

infixl 10 ◌>>=◌ ◌>>◌
abbrev pub ◌>>=◌ : {S A B : Type 0} → Exec S A → (A → Exec S B) → Exec S B
◌>>=◌ m k s = let (r, s') = m s in elim r [ ok a ↦ k a s' | raised f ↦ (raised f, s') ]

abbrev pub ◌>>◌ : {S A B : Type 0} → Exec S A → Exec S B → Exec S B
m >> k = m >>= λ _. k

-- `isinstance(error, ValueError)`, by the class statements.
pub is_value_error : Fault → Bool
is_value_error value_error = true
is_value_error pin_policy = true
is_value_error invalid_credentials = true
is_value_error reauthentication_required = true
is_value_error last_active_admin = true
is_value_error account_conflict = true
is_value_error account_already_exists = true
is_value_error duplicate_employee_number = true
is_value_error idempotency_conflict = true
is_value_error request_in_progress = true
is_value_error csrf_invalid = true
is_value_error stale_job_claim = true
is_value_error invalid_job_result = true
is_value_error revision_conflict = true
is_value_error count_sheet_invalid = true
is_value_error (paperwork_revision_conflict _) = true
is_value_error (paperwork_already_exists _) = true
is_value_error _ = false

pub Result-cases {ℓ} :
    {A : Type ℓ} (r : Result A) → ((a : A) × (r ≡ ok a)) ⊎ ((f : Fault) × (r ≡ raised f))
Result-cases (ok a) = inl (a, refl)
Result-cases (raised f) = inr (f, refl)

-- How a call ended, with the state that it left.
pub Exec-cases {ℓ} :
    {S A : Type ℓ} (r : Result A × S)
    → ((a : A) × (s : S) × (r ≡ (ok a, s))) ⊎ ((f : Fault) × (s : S) × (r ≡ (raised f, s)))
Exec-cases (ok a, s) = inl (a, s, refl)
Exec-cases (raised f, s) = inr (f, s, refl)

-- What a block that succeeds has done: its first action succeeded, and the rest after it.
pub bind-ok :
    {S A B : Type 0} (m : Exec S A) (k : A → Exec S B) (s t : S) (b : B)
    → (m >>= k) s ≡ (ok b, t)
    → (a : A) × (u : S) × (m s ≡ (ok a, u)) × (k a u ≡ (ok b, t))
bind-ok m k s t b h = elim (Exec-cases (m s)) [
  | inl (a, u, e) ↦ (a, u, e, ground (arith, e, h))
  | inr (f, u, e) ↦ absurd (ground (arith, e, h))
]
