-- ===== src/Identity/Administration/Signouts/Order.antt =====
-- identity/accounts.py: the ids that a sign-out of all sessions names.
use prison_policy_ai.Prelude.{
  ℕ, suc, ◌≡◌, ◌≤◌, refl, ap, ◌∙◌, Bool, List, [], ◌∷◌, arith, All, any, map, select, length,
  Bool-cases, inl, inr, ◌==◌, ◌&&◌, leb,
}
use prison_policy_ai.Identity.Models.{AccessSession}
use prison_policy_ai.Identity.Administration.Signouts.{insert_by_id, order_by_id}
use prison_policy_ai.Identity.Administration.Signouts.Ends.{has_id, has_id-order}

-- each number at most every later one
abbrev pub Ascending : List ℕ → Type 0
Ascending [] = Unit
Ascending (k ∷ ks) = All (λ j. k ≤ j) ks × Ascending ks

abbrev pub row_ids : List AccessSession → List ℕ
row_ids = map (λ (row : AccessSession). row.id)

any-insert :
    (p : AccessSession → Bool) (row : AccessSession) (rows : List AccessSession)
    → any p (insert_by_id row rows) ≡ any p (row ∷ rows)
unfolding insert_by_id any
any-insert p row [] = refl
any-insert p row (x ∷ xs) = ground (arith, any-insert p row xs)

-- a test of the selected rows in order is one of the rows that were selected
pub any-order_by_id :
    (p q : AccessSession → Bool) (rows : List AccessSession)
    → any p (order_by_id (select q rows)) ≡ any (λ s. q s && p s) rows
unfolding order_by_id any select
any-order_by_id p q [] = refl
any-order_by_id p q (x ∷ xs) =
    ground (arith, any-insert p x (order_by_id (select q xs)), any-order_by_id p q xs)

insert_by_id-All :
    (k : ℕ) (row : AccessSession) (rows : List AccessSession)
    → k ≤ row.id
    → All (λ j. k ≤ j) (row_ids rows)
    → All (λ j. k ≤ j) (row_ids (insert_by_id row rows))
unfolding insert_by_id
insert_by_id-All k row [] le h = (le, tt)
insert_by_id-All k row (x ∷ xs) le h = elim (Bool-cases (leb row.id x.id)) [
  | inl before ↦ rw before (le, h)
  | inr later ↦ rw later (h.0, insert_by_id-All k row xs le h.1)
]

All-weaken : (k j : ℕ) (ks : List ℕ) → k ≤ j → All (λ i. j ≤ i) ks → All (λ i. k ≤ i) ks
All-weaken k j [] le h = tt
All-weaken k j (i ∷ ks) le h = (omega (arith, h.0), All-weaken k j ks le h.1)

insert_by_id-Ascending :
    (row : AccessSession) (rows : List AccessSession)
    → Ascending (row_ids rows)
    → Ascending (row_ids (insert_by_id row rows))
unfolding insert_by_id
insert_by_id-Ascending row [] h = (tt, tt)
insert_by_id-Ascending row (x ∷ xs) h = elim (Bool-cases (leb row.id x.id)) [
  | inl before ↦
      let le : row.id ≤ x.id = ground arith in
      rw before ((le, All-weaken row.id x.id (row_ids xs) le h.0), h)
  | inr later ↦
      rw later (insert_by_id-All x.id row xs (ground arith) h.0, insert_by_id-Ascending row xs h.1)
]

pub order_by_id-Ascending : (rows : List AccessSession) → Ascending (row_ids (order_by_id rows))
unfolding order_by_id
order_by_id-Ascending [] = tt
order_by_id-Ascending (x ∷ xs) =
    insert_by_id-Ascending x (order_by_id xs) (order_by_id-Ascending xs)

insert_by_id-length :
    (row : AccessSession) (rows : List AccessSession)
    → length (row_ids (insert_by_id row rows)) ≡ suc (length (row_ids rows))
unfolding insert_by_id
insert_by_id-length row [] = refl
insert_by_id-length row (x ∷ xs) = ground (arith, insert_by_id-length row xs)

pub order_by_id-length :
    (rows : List AccessSession) → length (row_ids (order_by_id rows)) ≡ length rows
unfolding order_by_id
order_by_id-length [] = refl
order_by_id-length (x ∷ xs) =
    insert_by_id-length x (order_by_id xs) ∙ ap suc (order_by_id-length xs)

any-row_ids : (k : ℕ) (rows : List AccessSession) → any (λ j. j == k) (row_ids rows) ≡ has_id k rows
unfolding any
any-row_ids k [] = refl
any-row_ids k (x ∷ xs) = rw (any-row_ids k xs) refl

any-select :
    (p : AccessSession → Bool) (k : ℕ) (rows : List AccessSession)
    → has_id k (select p rows) ≡ any (λ (s : AccessSession). p s && s.id == k) rows
unfolding any select
any-select p k [] = refl
any-select p k (x ∷ xs) = ground (arith, any-select p k xs)

-- the ids of the ordered rows are those of the rows that were selected
pub order_by_id-members :
    (p : AccessSession → Bool) (k : ℕ) (rows : List AccessSession)
    → any (λ j. j == k) (row_ids (order_by_id (select p rows)))
      ≡ any (λ (s : AccessSession). p s && s.id == k) rows
order_by_id-members p k rows =
    any-row_ids k (order_by_id (select p rows))
    ∙ has_id-order k (select p rows)
    ∙ any-select p k rows
