-- ===== src/Prelude/Keys.antt =====
-- Tables with a key: a primary key or a UNIQUE constraint.
use mathlib.Core.Path.{◌≡◌, refl, sym, ◌∙◌, ap, subst}
use mathlib.Core.Logic.{◌≢◌, inl, inr}
use mathlib.Core.Bool.{Bool}
use mathlib.Core.List.{List, [], ◌∷◌, ◌++◌}
use mathlib.Core.Option.{none, some}
use Prim.Native.Nat.{ℕ}
use native.Mathlib.Omega.{arith}
use prison_policy_ai.Prelude.Tests.{◌==◌, ==_iff, Bool-cases}
use prison_policy_ai.Prelude.Tables.{All, find, update_where, All-find, find-update_where}

module _ {ℓ} {A : Type ℓ} (key : A → ℕ) where
  abbrev pub Lacks : ℕ → List A → Type 0
  Lacks k = All (λ x. key x ≢ k)

  -- No two rows have the same key.
  abbrev pub Unique : List A → Type 0
  Unique [] = Unit
  Unique (x ∷ xs) = Lacks (key x) xs × Unique xs

  pub find-Lacks : (k : ℕ) (xs : List A) → Lacks k xs → find (λ x. key x == k) xs ≡ none
  unfolding find
  find-Lacks k [] h = refl
  find-Lacks k (x ∷ xs) h = ground (arith, find-Lacks k xs h.1, h.0)

  pub Lacks-find : (k : ℕ) (xs : List A) → find (λ x. key x == k) xs ≡ none → Lacks k xs
  unfolding find
  Lacks-find k [] h = tt
  Lacks-find k (x ∷ xs) h = elim (Bool-cases (key x == k)) [
    | inl same ↦ ground arith
    | inr other ↦ (λ e. ground arith, Lacks-find k xs (rw other at h))
  ]

  pub update_where-Lacks :
      (k : ℕ) (f : A → A) (xs : List A) → Lacks k xs → update_where (λ x. key x == k) f xs ≡ xs
  unfolding update_where
  update_where-Lacks k f [] h = refl
  update_where-Lacks k f (x ∷ xs) h = ground (arith, update_where-Lacks k f xs h.1, h.0)

  -- A row that some query finds is the one that its key finds.
  pub find_by_key :
      (q : A → Bool) (xs : List A) (x : A)
      → Unique xs
      → find q xs ≡ some x
      → find (λ y. key y == key x) xs ≡ some x
  unfolding find
  find_by_key q [] x u h = ground arith
  find_by_key q (y ∷ xs) x u h = elim (Bool-cases (q y)) [
    | inl here ↦ let same : y ≡ x = ground arith in ground (arith, same, ap key same)
    | inr later ↦
        let found : find q xs ≡ some x = rw later at h in
        let apart : key x ≢ key y = All-find (λ z. key z ≢ key y) q xs x u.0 found in
        ground (arith, apart, find_by_key q xs x u.1 found)
  ]

  pub Lacks-update_where :
      (k : ℕ) (p : A → Bool) (f : A → A) (xs : List A)
      → ((x : A) → key (f x) ≡ key x)
      → Lacks k xs
      → Lacks k (update_where p f xs)
  unfolding update_where
  Lacks-update_where k p f [] h l = tt
  Lacks-update_where k p f (x ∷ xs) h l = elim (Bool-cases (p x)) [
    | inl e ↦ rw e (λ c. l.0 (sym (h x) ∙ c), Lacks-update_where k p f xs h l.1)
    | inr e ↦ rw e (l.0, Lacks-update_where k p f xs h l.1)
  ]

  -- An update that keeps the keys keeps them distinct.
  pub Unique-update_where :
      (p : A → Bool) (f : A → A) (xs : List A)
      → ((x : A) → key (f x) ≡ key x)
      → Unique xs
      → Unique (update_where p f xs)
  unfolding update_where
  Unique-update_where p f [] h u = tt
  Unique-update_where p f (x ∷ xs) h u = elim (Bool-cases (p x)) [
    | inl e ↦
        rw (e, h x) (Lacks-update_where (key x) p f xs h u.0, Unique-update_where p f xs h u.1)
    | inr e ↦ rw e (Lacks-update_where (key x) p f xs h u.0, Unique-update_where p f xs h u.1)
  ]

  -- The row that an update by key changes.
  pub find-update_own :
      (f : A → A) (xs : List A) (x : A)
      → ((y : A) → key (f y) ≡ key y)
      → find (λ y. key y == key x) xs ≡ some x
      → find (λ y. key y == key x) (update_where (λ y. key y == key x) f xs) ≡ some (f x)
  find-update_own f xs x keeps found =
      rw
        (
          find-update_where (λ y. key y == key x) (λ y. key y == key x) f xs (λ y. rw (keeps y)),
          found,
        )
        (ground (arith, ==_iff (key x) (key x)))

  Lacks-append : (k : ℕ) (xs : List A) (z : A) → Lacks k xs → key z ≢ k → Lacks k (xs ++ z ∷ [])
  Lacks-append k [] z h n = (n, tt)
  Lacks-append k (x ∷ xs) z h n = (h.0, Lacks-append k xs z h.1 n)

  pub Unique-append : (xs : List A) (z : A) → Unique xs → Lacks (key z) xs → Unique (xs ++ z ∷ [])
  Unique-append [] z u h = (tt, tt)
  Unique-append (x ∷ xs) z u h =
      (Lacks-append (key x) xs z u.0 (λ e. h.0 (sym e)), Unique-append xs z u.1 h.1)

head_replaced {ℓ} :
    {A : Type ℓ} (id key : A → ℕ) (f : A → A) (k : ℕ) (x : A) (xs : List A)
    → Lacks id (id x) xs
    → Lacks key k xs
    → key (f x) ≢ k
    → find (λ z. key z == k) (update_where (λ z. id z == id x) f (x ∷ xs)) ≡ none
unfolding find update_where
head_replaced id key f k x xs li lk n =
    ground
      (arith, n, ==_iff (id x) (id x), update_where-Lacks id (id x) f xs li, find-Lacks key k xs lk)

-- Where two columns are keys, the row that the second finds has its own value of the second no more
-- after an update by the first.
pub find_replaced {ℓ} :
    {A : Type ℓ} (id key : A → ℕ) (f : A → A) (k : ℕ) (xs : List A) (x : A)
    → Unique id xs
    → Unique key xs
    → find (λ y. key y == k) xs ≡ some x
    → key (f x) ≢ k
    → find (λ y. key y == k) (update_where (λ y. id y == id x) f xs) ≡ none
unfolding find update_where
find_replaced id key f k [] x ui uk h n = refl
find_replaced id key f k (y ∷ xs) x ui uk h n = elim (Bool-cases (key y == k)) [
  | inl here ↦
      let same : y ≡ x = ground arith in
      let is_k : key y ≡ k = ground arith in
      rw same (
        head_replaced id key f k x xs (subst (λ z. Lacks id (id z) xs) same ui.0)
          (subst (λ z. Lacks key z xs) is_k uk.0) n)
  | inr later ↦
      let found : find (λ z. key z == k) xs ≡ some x = rw later at h in
      let apart : id x ≢ id y = All-find (λ z. id z ≢ id y) (λ z. key z == k) xs x ui.0 found in
      ground (arith, apart, find_replaced id key f k xs x ui.1 uk.1 found n)
]
