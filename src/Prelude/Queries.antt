-- ===== src/Prelude/Queries.antt =====
-- Rows in the order of a query: ORDER BY, and what a condition on the rows selects of them.
use mathlib.Core.Path.{◌≡◌, refl, ap, ◌∙◌}
use mathlib.Core.Logic.{◌≢◌, inl, inr}
use mathlib.Core.Bool.{Bool, true, false, ◌&&◌}
use mathlib.Core.List.{List, [], ◌∷◌, ◌++◌}
use mathlib.Core.Option.{Option, none, some}
use Prim.Native.Nat.{ℕ, zero, suc, ◌≤◌, ◌<◌}
use native.Mathlib.Omega.{arith}
use prison_policy_ai.Prelude.Tests.{Bool-cases, if◌then◌else◌}
use prison_policy_ai.Prelude.Tables.{All, select, length}
use prison_policy_ai.Prelude.Keys.{Lacks, Unique}
use prison_policy_ai.Prelude.Pointwise.{All-map}

-- the first so many rows
unfoldable pub limit_rows {ℓ} : {A : Type ℓ} → ℕ → List A → List A
limit_rows zero xs = []
limit_rows (suc n) [] = []
limit_rows (suc n) (x ∷ xs) = x ∷ limit_rows n xs

module _ {A : Type 0} where
  pub All-middle : (P : A → Type 0) (xs : List A) (c : A) (ys : List A) → All P (xs ++ c ∷ ys) → P c
  All-middle P [] c ys a = a.0
  All-middle P (x ∷ xs) c ys a = All-middle P xs c ys a.1

  pub select-All : (P : A → Type 0) (p : A → Bool) (xs : List A) → All P xs → All P (select p xs)
  unfolding select
  select-All P p [] a = tt
  select-All P p (x ∷ xs) a = elim (Bool-cases (p x)) [
    | inl e ↦ rw e (a.0, select-All P p xs a.1)
    | inr e ↦ rw e (select-All P p xs a.1)
  ]

  select-every : (p : A → Bool) (xs : List A) → All (λ y. p y ≡ true) xs → select p xs ≡ xs
  unfolding select
  select-every p [] a = refl
  select-every p (x ∷ xs) a = ground (arith, a.0, select-every p xs a.1)

module _ {A : Type 0} (before : A → A → Bool) where
  unfoldable pub insert_row : A → List A → List A
  insert_row r [] = r ∷ []
  insert_row r (x ∷ xs) = let rest = insert_row r xs in if before x r then x ∷ rest else r ∷ x ∷ xs

  unfoldable pub order_rows : List A → List A
  unfolding insert_row
  order_rows [] = []
  order_rows (x ∷ xs) = insert_row x (order_rows xs)

  -- each row comes before all that follow
  abbrev pub Ordered : List A → Type 0
  Ordered [] = Unit
  Ordered (x ∷ xs) = All (λ y. before x y ≡ true) xs × Ordered xs

  insert_row-All : (P : A → Type 0) (r : A) (xs : List A) → P r → All P xs → All P (insert_row r xs)
  unfolding insert_row
  insert_row-All P r [] h a = (h, tt)
  insert_row-All P r (x ∷ xs) h a = elim (Bool-cases (before x r)) [
    | inl e ↦ rw e (a.0, insert_row-All P r xs h a.1)
    | inr e ↦ rw e (h, (a.0, a.1))
  ]

  pub order_rows-All : (P : A → Type 0) (xs : List A) → All P xs → All P (order_rows xs)
  unfolding order_rows
  order_rows-All P [] a = tt
  order_rows-All P (x ∷ xs) a = insert_row-All P x (order_rows xs) a.0 (order_rows-All P xs a.1)

  insert_row-first :
      (r : A) (xs : List A) → All (λ y. before y r ≡ false) xs → insert_row r xs ≡ r ∷ xs
  unfolding insert_row
  insert_row-first r [] a = refl
  insert_row-first r (x ∷ xs) a = ground (arith, a.0)

  module _ (key : A → ℕ)
      (trans : (x y z : A) → before x y ≡ true → before y z ≡ true → before x z ≡ true)
      (asym : (x y : A) → before x y ≡ true → before y x ≡ false)
      (total : (x y : A) → key x ≢ key y → before x y ≡ false → before y x ≡ true) where
    insert_row-Ordered :
        (r : A) (xs : List A) → Ordered xs → Lacks key (key r) xs → Ordered (insert_row r xs)
    unfolding insert_row
    insert_row-Ordered r [] o l = (tt, tt)
    insert_row-Ordered r (x ∷ xs) o l = elim (Bool-cases (before x r)) [
      | inl e ↦ rw e (insert_row-All _ r xs e o.0, insert_row-Ordered r xs o.1 l.1)
      | inr e ↦
          let first : before r x ≡ true = total x r l.0 e in
          rw e ((first, All-map xs (λ y h. trans r x y first h) o.0), (o.0, o.1))
    ]

    pub order_rows-Ordered : (xs : List A) → Unique key xs → Ordered (order_rows xs)
    unfolding order_rows
    order_rows-Ordered [] u = tt
    order_rows-Ordered (x ∷ xs) u =
        insert_row-Ordered x (order_rows xs) (order_rows-Ordered xs u.1) (order_rows-All _ xs u.0)

    select-insert_row :
        (p : A → Bool) (r : A) (xs : List A)
        → Ordered xs
        → Lacks key (key r) xs
        → select p (insert_row r xs) ≡ (if p r then insert_row r (select p xs) else select p xs)
    unfolding select insert_row
    select-insert_row p r [] o l = ground arith
    select-insert_row p r (x ∷ xs) o l = elim (Bool-cases (before x r)) [
      | inl e ↦ ground (arith, e, select-insert_row p r xs o.1 l.1)
      | inr e ↦
          let first : before r x ≡ true = total x r l.0 e in
          let later : All (λ y. before y r ≡ false) (x ∷ xs) =
            (e, All-map xs (λ y h. asym r y (trans r x y first h)) o.0) in
          ground (
            arith,
            e,
            insert_row-first r (select p (x ∷ xs))
                (select-All (λ y. before y r ≡ false) p (x ∷ xs) later),
          )
    ]

    -- a condition may be asked for before the rows are ordered or after
    pub select-order_rows :
        (p : A → Bool) (xs : List A)
        → Unique key xs
        → select p (order_rows xs) ≡ order_rows (select p xs)
    unfolding order_rows select
    select-order_rows p [] u = refl
    select-order_rows p (x ∷ xs) u =
        select-insert_row p x (order_rows xs) (order_rows-Ordered xs u.1) (order_rows-All _ xs u.0)
        ∙ ground (arith, select-order_rows p xs u.1)

    -- the rows that come after one of them
    pub select-after :
        (c : A) (xs ys : List A) → Ordered (xs ++ c ∷ ys) → select (before c) (xs ++ c ∷ ys) ≡ ys
    unfolding select
    select-after c [] ys o =
        let own : before c c ≡ false = elim (Bool-cases (before c c)) [
          | inl e ↦ asym c c e
          | inr e ↦ e
        ] in
        ground (arith, own, select-every (before c) ys o.0)
    select-after c (x ∷ xs) ys o =
        let back : before c x ≡ false =
          asym x c (All-middle (λ y. before x y ≡ true) xs c ys o.0) in
        ground (arith, back, select-after c xs ys o.1)

module _ {A : Type 0} where
  pub select-select :
      (p q : A → Bool) (xs : List A) → select (λ x. p x && q x) xs ≡ select q (select p xs)
  unfolding select
  select-select p q [] = refl
  select-select p q (x ∷ xs) = ground (arith, select-select p q xs)

  pub select-true : (p : A → Bool) (xs : List A) → select (λ x. p x && true) xs ≡ select p xs
  unfolding select
  select-true p [] = refl
  select-true p (x ∷ xs) = ground (arith, select-true p xs)

  pub Unique-select :
      (key : A → ℕ) (p : A → Bool) (xs : List A) → Unique key xs → Unique key (select p xs)
  unfolding select
  Unique-select key p [] u = tt
  Unique-select key p (x ∷ xs) u = elim (Bool-cases (p x)) [
    | inl e ↦ rw e (select-All (λ y. key y ≢ key x) p xs u.0, Unique-select key p xs u.1)
    | inr e ↦ rw e (Unique-select key p xs u.1)
  ]

  pub length-select : (p : A → Bool) (xs : List A) → length (select p xs) ≤ length xs
  unfolding select
  length-select p [] = omega arith
  length-select p (x ∷ xs) = ground (arith, length-select p xs)

  length-insert_row :
      (before : A → A → Bool) (r : A) (xs : List A)
      → length (insert_row before r xs) ≡ suc (length xs)
  unfolding insert_row
  length-insert_row before r [] = refl
  length-insert_row before r (x ∷ xs) = ground (arith, length-insert_row before r xs)

  pub length-order_rows :
      (before : A → A → Bool) (xs : List A) → length (order_rows before xs) ≡ length xs
  unfolding order_rows
  length-order_rows before [] = refl
  length-order_rows before (x ∷ xs) =
      length-insert_row before x (order_rows before xs) ∙ ap suc (length-order_rows before xs)

  -- a limit that is not reached
  pub limit_rows-all : (n : ℕ) (xs : List A) → length xs ≤ n → limit_rows n xs ≡ xs
  unfolding limit_rows
  limit_rows-all zero [] h = refl
  limit_rows-all zero (x ∷ xs) h = absurd (omega arith)
  limit_rows-all (suc n) [] h = refl
  limit_rows-all (suc n) (x ∷ xs) h = ap (λ ys. x ∷ ys) (limit_rows-all n xs (omega arith))

  -- one row more than the limit tells that there are more, and leaves the rows within it
  pub limit_rows-more :
      (n : ℕ) (xs : List A)
      → n < length xs
      → (n < length (limit_rows (suc n) xs))
        × (limit_rows n (limit_rows (suc n) xs) ≡ limit_rows n xs)
  unfolding limit_rows
  limit_rows-more zero [] h = absurd (omega arith)
  limit_rows-more zero (x ∷ xs) h = (omega arith, refl)
  limit_rows-more (suc n) [] h = absurd (omega arith)
  limit_rows-more (suc n) (x ∷ xs) h =
      let (more, same) = limit_rows-more n xs (omega arith) in (omega arith, ap (λ ys. x ∷ ys) same)

  -- the last row within a limit that is reached, and the rows after it
  pub limit_rows-cut :
      (n : ℕ) (xs : List A)
      → n < length xs
      → 1 ≤ n
      → (ys : List A) × (c : A) × (zs : List A) × (xs ≡ ys ++ c ∷ zs)
        × (limit_rows n xs ≡ ys ++ c ∷ [])
  unfolding limit_rows
  limit_rows-cut zero xs h low = absurd (omega arith)
  limit_rows-cut (suc n) [] h low = absurd (omega arith)
  limit_rows-cut (suc zero) (x ∷ xs) h low = ([], x, xs, refl, refl)
  limit_rows-cut (suc (suc n)) (x ∷ xs) h low =
      let (ys, c, zs, e, cut) = limit_rows-cut (suc n) xs (omega arith) (omega arith) in
      (x ∷ ys, c, zs, ap (λ l. x ∷ l) e, ap (λ l. x ∷ l) cut)

  unfoldable pub last_row : List A → Option A
  last_row [] = none
  last_row (x ∷ []) = some x
  last_row (x ∷ y ∷ xs) = last_row (y ∷ xs)

  pub last_row-snoc : (xs : List A) (c : A) → last_row (xs ++ c ∷ []) ≡ some c
  unfolding last_row
  last_row-snoc [] c = refl
  last_row-snoc (x ∷ []) c = refl
  last_row-snoc (x ∷ y ∷ xs) c = last_row-snoc (y ∷ xs) c
