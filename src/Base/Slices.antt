-- ===== src/Base/Slices.antt =====
-- The first items of a list and what follows them. An address and an id are numbers.
use stellar_rwa_contracts.Base.Tests.{length}
use Prim.Native.Nat.{ℕ, zero, suc, min, ◌+◌, ◌-◌, ◌≤◌}
use mathlib.Core.Path.{◌≡◌, refl, sym, ap, ◌∙◌}
use mathlib.Core.Logic.{◌⊎◌, inl, inr}
use mathlib.Core.List.{List, [], ◌∷◌, ◌++◌}
use native.Mathlib.Nat.{zero-add}
use native.Mathlib.Omega.{arith}

unfoldable pub drop : ℕ → List ℕ → List ℕ
drop zero ids = ids
drop (suc n) [] = []
drop (suc n) (_ ∷ ids) = drop n ids

unfoldable pub take : ℕ → List ℕ → List ℕ
take zero ids = []
take (suc n) [] = []
take (suc n) (id ∷ ids) = id ∷ take n ids

pub take_all : (n : ℕ) (ids : List ℕ) → length ids ≤ n → take n ids ≡ ids
unfolding take
take_all zero [] h = refl
take_all zero (x ∷ ids) h = absurd (omega arith)
take_all (suc n) [] h = refl
take_all (suc n) (x ∷ ids) h = ap (λ t. x ∷ t) (take_all n ids (omega arith))

pub drop_all : (n : ℕ) (ids : List ℕ) → length ids ≤ n → drop n ids ≡ []
unfolding drop
drop_all zero [] h = refl
drop_all zero (x ∷ ids) h = absurd (omega arith)
drop_all (suc n) [] h = refl
drop_all (suc n) (x ∷ ids) h = drop_all n ids (omega arith)

pub length-drop : (n : ℕ) (ids : List ℕ) → length (drop n ids) ≡ length ids - n
unfolding drop
length-drop zero ids = omega arith
length-drop (suc n) [] = omega arith
length-drop (suc n) (x ∷ ids) = grind (arith, length-drop n ids)

suc_add : (a b : ℕ) → suc a + b ≡ suc (a + b)
suc_add a b = omega arith

pub take_add : (a b : ℕ) (ids : List ℕ) → take (a + b) ids ≡ take a ids ++ take b (drop a ids)
unfolding take drop
take_add zero b ids = ap (λ n. take n ids) (zero-add b)
take_add (suc a) zero [] = ap (λ n. take n []) (suc_add a zero)
take_add (suc a) (suc b) [] = ap (λ n. take n []) (suc_add a (suc b))
take_add (suc a) b (x ∷ ids) =
    ap (λ n. take n (x ∷ ids)) (suc_add a b) ∙ ap (λ t. x ∷ t) (take_add a b ids)

pub take_same :
    (m n : ℕ) (ids : List ℕ)
    → (m ≡ n) ⊎ ((length ids ≤ m) × (length ids ≤ n))
    → take m ids ≡ take n ids
take_same m n ids (inl e) = ap (λ k. take k ids) e
take_same m n ids (inr (p, q)) = take_all m ids p ∙ sym (take_all n ids q)

pub take_nothing : (n : ℕ) → take n [] ≡ []
unfolding take
take_nothing zero = refl
take_nothing (suc n) = refl

zero_sub : (n : ℕ) → 0 ≡ 0 - n
zero_sub n = omega arith

sub_zero : (n : ℕ) → n ≡ n - 0
sub_zero n = omega arith

suc_sub : (n m : ℕ) → n - m ≡ suc n - suc m
suc_sub n m = omega arith

pub length-take : (n : ℕ) (ids : List ℕ) → length (take n ids) ≡ min n (length ids)
unfolding take
length-take zero ids = omega arith
length-take (suc n) [] = omega arith
length-take (suc n) (x ∷ ids) = grind (arith, length-take n ids)

pub drop-++ : (n : ℕ) (xs ys : List ℕ) → drop n (xs ++ ys) ≡ drop n xs ++ drop (n - length xs) ys
unfolding drop
drop-++ zero xs ys = ap (λ (m : ℕ). xs ++ drop m ys) (zero_sub (length xs))
drop-++ (suc n) [] ys = ap (λ (m : ℕ). drop m ys) (sub_zero (suc n))
drop-++ (suc n) (x ∷ xs) ys =
    drop-++ n xs ys ∙ ap (λ (m : ℕ). drop n xs ++ drop m ys) (suc_sub n (length xs))

pub take-++ : (n : ℕ) (xs ys : List ℕ) → take n (xs ++ ys) ≡ take n xs ++ take (n - length xs) ys
unfolding take
take-++ zero xs ys = ap (λ (m : ℕ). take m ys) (zero_sub (length xs))
take-++ (suc n) [] ys = ap (λ (m : ℕ). take m ys) (sub_zero (suc n))
take-++ (suc n) (x ∷ xs) ys =
    ap (λ t. x ∷ t)
      (take-++ n xs ys ∙ ap (λ (m : ℕ). take n xs ++ take m ys) (suc_sub n (length xs)))
