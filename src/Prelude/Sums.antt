-- ===== src/Prelude/Sums.antt =====
-- Sums over lists, and the difference of two numbers as an integer.
use Prim.Native.Nat.{ℕ, ◌+◌, ◌-◌}
use mathlib.Core.Path.{◌≡◌, refl, ap, sym, ◌∙◌}
use mathlib.Core.Logic.{◌↔◌}
use mathlib.Core.Bool.{Bool, true, false}
use mathlib.Core.List.{List, [], ◌∷◌}
use native.Mathlib.Omega.{arith}
use prison_policy_ai.Prelude.Tests.{leb, ◌==◌, if◌then◌else◌}

-- sum(f(x) for x in xs)
unfoldable pub sum_by {ℓ} : {A : Type ℓ} → (A → ℕ) → List A → ℕ
sum_by f [] = 0
sum_by f (x ∷ xs) = f x + sum_by f xs

-- `negsuc n` is -(n + 1).
pub data ℤ : Type 0 where
  pos : ℕ → ℤ
  negsuc : ℕ → ℤ

-- a - b
abbrev pub sub_ℕ : ℕ → ℕ → ℤ
sub_ℕ a b = if leb b a then pos (a - b) else negsuc (b - a - 1)

abbrev pub is_zero : ℤ → Bool
is_zero (pos n) = n == 0
is_zero (negsuc n) = false

pub is_zero-sub_ℕ : (a b : ℕ) → (is_zero (sub_ℕ a b) ≡ true) ↔ (a ≡ b)
is_zero-sub_ℕ a b = (λ h. ground arith, λ h. ground arith)

module _ {ℓ} {A : Type ℓ} where
  pub sum_by-zero : (xs : List A) → sum_by (λ (_ : A). 0) xs ≡ 0
  unfolding sum_by
  sum_by-zero [] = refl
  sum_by-zero (x ∷ xs) = omega (arith, sum_by-zero xs)

  pub sum_by-add :
      (f g : A → ℕ) (xs : List A) → sum_by (λ x. f x + g x) xs ≡ sum_by f xs + sum_by g xs
  unfolding sum_by
  sum_by-add f g [] = omega arith
  sum_by-add f g (x ∷ xs) = omega (arith, sum_by-add f g xs)

-- The order of two sums does not matter.
pub sum_by-swap {ℓ κ} :
    {A : Type ℓ} {B : Type κ} (f : A → B → ℕ) (xs : List A) (ys : List B)
    → sum_by (λ x. sum_by (f x) ys) xs ≡ sum_by (λ y. sum_by (λ x. f x y) xs) ys
unfolding sum_by
sum_by-swap f [] ys = sym (sum_by-zero ys)
sum_by-swap f (x ∷ xs) ys =
    ap (λ n. sum_by (f x) ys + n) (sum_by-swap f xs ys)
    ∙ sym (sum_by-add (f x) (λ y. sum_by (λ z. f z y) xs) ys)
