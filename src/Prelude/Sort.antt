-- ===== src/Prelude/Sort.antt =====
-- `sorted` and `list.sort`: a stable sort by a test that an element stands before another.
use Prim.Native.Nat.{ℕ, ◌+◌}
use mathlib.Core.Path.{◌≡◌, refl, ◌∙◌}
use mathlib.Core.Bool.{Bool}
use mathlib.Core.List.{List, [], ◌∷◌}
use native.Mathlib.Omega.{arith}
use si_lnt.Prelude.Tests.{if◌then◌else◌}
use si_lnt.Prelude.Lists.{sum_of}

module _ {ℓ} {A : Type ℓ} (before : A → A → Bool) where
  -- In front of those that it does not stand behind.
  unfoldable pub insert : A → List A → List A
  insert x [] = x ∷ []
  insert x (y ∷ ys) = let rest = insert x ys in if before y x then y ∷ rest else x ∷ y ∷ ys

  unfoldable pub sort : List A → List A
  sort [] = []
  sort (x ∷ xs) = insert x (sort xs)

  pub sum_of-insert : (f : A → ℕ) (x : A) (xs : List A) → sum_of f (insert x xs) ≡ f x + sum_of f xs
  unfolding insert
  sum_of-insert f x [] = refl
  sum_of-insert f x (y ∷ ys) = ground (arith, sum_of-insert f x ys)

  -- The sorted list has the same elements, as often: a sum over it, whatever is summed, is that
  -- over the list.
  pub sum_of-sort : (f : A → ℕ) (xs : List A) → sum_of f (sort xs) ≡ sum_of f xs
  unfolding sort
  sum_of-sort f [] = refl
  sum_of-sort f (x ∷ xs) = sum_of-insert f x (sort xs) ∙ omega (arith, sum_of-sort f xs)
