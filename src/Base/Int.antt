-- ===== src/Base/Int.antt =====
-- Integers over the native numbers, and the checked arithmetic of Rust's `i128`.
use stellar_rwa_contracts.Base.Tests.{ltb, leb, if◌then◌else◌}
use Prim.Native.Nat.{ℕ, suc, ◌+◌, ◌-◌, ◌*◌, ◌/◌, ◌^◌, ◌≤◌, ◌<◌}
use mathlib.Core.Path.{◌≡◌}
use mathlib.Core.Logic.{◌⊎◌}
use mathlib.Core.Bool.{Bool, true}
use mathlib.Core.Option.{Option, none, some}
use native.Mathlib.Omega.{arith}

-- `negsuc n` is -(n + 1).
pub data ℤ : Type 0 where
  pos : ℕ → ℤ
  negsuc : ℕ → ℤ

abbrev pub pos_part : ℤ → ℕ
pos_part (pos n) = n
pos_part (negsuc _) = 0

abbrev pub neg_part : ℤ → ℕ
neg_part (pos _) = 0
neg_part (negsuc n) = suc n

abbrev pub sub_ℕ : ℕ → ℕ → ℤ
sub_ℕ a b = if leb b a then pos (a - b) else negsuc (b - a - 1)

infixl 65 ◌+ℤ◌ ◌-ℤ◌
infixl 70 ◌*ℤ◌ ◌/ℤ◌
infix 50 ◌≤ℤ◌ ◌<ℤ◌
unfoldable pub ◌+ℤ◌ : ℤ → ℤ → ℤ
a +ℤ b = sub_ℕ (pos_part a + pos_part b) (neg_part a + neg_part b)

unfoldable pub ◌-ℤ◌ : ℤ → ℤ → ℤ
a -ℤ b = sub_ℕ (pos_part a + neg_part b) (neg_part a + pos_part b)

unfoldable pub ◌*ℤ◌ : ℤ → ℤ → ℤ
a *ℤ b =
    sub_ℕ (pos_part a * pos_part b + neg_part a * neg_part b)
      (pos_part a * neg_part b + neg_part a * pos_part b)

-- Rust's `/` truncates towards zero. A zero divisor does not occur where it is used.
unfoldable pub ◌/ℤ◌ : ℤ → ℤ → ℤ
pos a /ℤ pos b = pos (a / b)
pos a /ℤ negsuc b = sub_ℕ 0 (a / suc b)
negsuc a /ℤ pos b = sub_ℕ 0 (suc a / b)
negsuc a /ℤ negsuc b = pos (suc a / suc b)

abbrev pub ◌≤ℤ◌ : ℤ → ℤ → Type 0
a ≤ℤ b = pos_part a + neg_part b ≤ pos_part b + neg_part a

abbrev pub ◌<ℤ◌ : ℤ → ℤ → Type 0
a <ℤ b = pos_part a + neg_part b < pos_part b + neg_part a

abbrev pub leb_ℤ : ℤ → ℤ → Bool
leb_ℤ a b = leb (pos_part a + neg_part b) (pos_part b + neg_part a)

abbrev pub ltb_ℤ : ℤ → ℤ → Bool
ltb_ℤ a b = ltb (pos_part a + neg_part b) (pos_part b + neg_part a)

-- `i128::abs`
unfoldable pub abs : ℤ → ℤ
abs a = pos (pos_part a + neg_part a)

-- With these the operations can stay shut.
pub +ℤ_parts :
    (a b : ℤ)
    → pos_part (a +ℤ b) + neg_part a + neg_part b ≡ neg_part (a +ℤ b) + pos_part a + pos_part b
unfolding ◌+ℤ◌
+ℤ_parts a b = ground arith

pub -ℤ_parts :
    (a b : ℤ)
    → pos_part (a -ℤ b) + neg_part a + pos_part b ≡ neg_part (a -ℤ b) + pos_part a + neg_part b
unfolding ◌-ℤ◌
-ℤ_parts a b = ground arith

pub eq_of_parts : (a b : ℤ) → pos_part a + neg_part b ≡ pos_part b + neg_part a → a ≡ b
eq_of_parts a b h = ground arith

pub ruleset int_laws = (arith, +ℤ_parts, -ℤ_parts, eq_of_parts)

-- The range of `i128`.
abbrev pub in_i128 : ℤ → Bool
in_i128 (pos n) = ltb n (2 ^ 127)
in_i128 (negsuc n) = ltb n (2 ^ 127)

abbrev pub checked : ℤ → Option ℤ
checked a = if in_i128 a then some a else none

-- `i128::checked_add`, `i128::checked_sub`, `i128::checked_mul`
unfoldable pub checked_add : ℤ → ℤ → Option ℤ
checked_add a b = checked (a +ℤ b)

unfoldable pub checked_sub : ℤ → ℤ → Option ℤ
checked_sub a b = checked (a -ℤ b)

unfoldable pub checked_mul : ℤ → ℤ → Option ℤ
checked_mul a b = checked (a *ℤ b)

-- A checked operation yields the exact result or `None`.
pub checked_add-cases : (a b : ℤ) → (checked_add a b ≡ none) ⊎ (checked_add a b ≡ some (a +ℤ b))
unfolding checked_add
checked_add-cases a b = ground arith

pub checked_sub-cases : (a b : ℤ) → (checked_sub a b ≡ none) ⊎ (checked_sub a b ≡ some (a -ℤ b))
unfolding checked_sub
checked_sub-cases a b = ground arith

pub checked_mul-cases : (a b : ℤ) → (checked_mul a b ≡ none) ⊎ (checked_mul a b ≡ some (a *ℤ b))
unfolding checked_mul
checked_mul-cases a b = ground arith

-- What lies between 0 and an `i128` is one.
pub checked-between : (a b : ℤ) → pos 0 ≤ℤ a → a ≤ℤ b → in_i128 b ≡ true → checked a ≡ some a
checked-between a b p q h = ground arith

pub checked_add-between :
    (a b c : ℤ) → pos 0 ≤ℤ a +ℤ b → a +ℤ b ≤ℤ c → in_i128 c ≡ true → checked_add a b ≡ some (a +ℤ b)
unfolding checked_add
checked_add-between a b c p q h = checked-between (a +ℤ b) c p q h

pub checked_sub-between :
    (a b c : ℤ) → pos 0 ≤ℤ a -ℤ b → a -ℤ b ≤ℤ c → in_i128 c ≡ true → checked_sub a b ≡ some (a -ℤ b)
unfolding checked_sub
checked_sub-between a b c p q h = checked-between (a -ℤ b) c p q h
