-- ===== src/Base/Occurs.antt =====
-- How often a number, such as an address, stands in a list.
use stellar_rwa_contracts.Base.Tests.{length, ◌==◌, if◌then◌else◌}
use Prim.Native.Nat.{ℕ, ◌+◌}
use mathlib.Core.Bool.{Bool}
use mathlib.Core.Path.{◌≡◌, refl}
use mathlib.Core.List.{List, [], ◌∷◌, ◌++◌}
use native.Mathlib.Omega.{arith}

abbrev pub one_if : Bool → ℕ
one_if b = if b then 1 else 0

unfoldable pub occurs : ℕ → List ℕ → ℕ
occurs a [] = 0
occurs a (b ∷ bs) = (if b == a then 1 else 0) + occurs a bs

pub occurs-++ : (a : ℕ) (xs ys : List ℕ) → occurs a (xs ++ ys) ≡ occurs a xs + occurs a ys
unfolding occurs
occurs-++ a [] ys = omega arith
occurs-++ a (x ∷ xs) ys = ground (arith, occurs-++ a xs ys)

pub length-++ : (xs ys : List ℕ) → length (xs ++ ys) ≡ length xs + length ys
length-++ [] ys = omega arith
length-++ (x ∷ xs) ys = ground (arith, length-++ xs ys)

pub empty_of_occurs : (xs : List ℕ) → ((a : ℕ) → occurs a xs ≡ 0) → xs ≡ []
unfolding occurs
empty_of_occurs [] h = refl
empty_of_occurs (x ∷ xs) h = absurd (ground (arith, h x))
