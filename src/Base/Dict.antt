-- ===== src/Base/Dict.antt =====
-- One kind of entry in a contract's storage, as the list of the keys that are set and their
-- values. A write replaces the value under its key.
use stellar_rwa_contracts.Base.Tests.{◌==◌, if◌then◌else◌, unwrap_or}
use stellar_rwa_contracts.Base.Int.{ℤ, pos, ◌+ℤ◌, ◌≤ℤ◌, int_laws}
use Prim.Native.Nat.{ℕ}
use mathlib.Core.Path.{◌≡◌, refl}
use mathlib.Core.Option.{Option, none, some}
use mathlib.Core.List.{List, [], ◌∷◌}
use native.Mathlib.Omega.{arith}

abbrev pub Dict {ℓ} : Type ℓ → Type ℓ
Dict V = List (ℕ × V)

module _ {ℓ} {V : Type ℓ} where
  unfoldable pub lookup : ℕ → Dict V → Option V
  lookup k [] = none
  lookup k ((j, v) ∷ d) = if j == k then some v else lookup k d

  unfoldable pub insert : ℕ → V → Dict V → Dict V
  insert k v [] = (k, v) ∷ []
  insert k v ((j, w) ∷ d) = if j == k then (k, v) ∷ d else (j, w) ∷ insert k v d

  pub lookup-insert :
      (j k : ℕ) (v : V) (d : Dict V)
      → lookup j (insert k v d) ≡ (if k == j then some v else lookup j d)
  unfolding lookup insert
  lookup-insert j k v [] = refl
  lookup-insert j k v ((i, w) ∷ d) = ground (arith, lookup-insert j k v d)

  -- Every value that is set satisfies the predicate.
  abbrev pub All {κ} : (V → Type κ) → Dict V → Type κ
  All P [] = Unit
  All P ((_, v) ∷ d) = P v × All P d

-- The sum of the amounts that are set.
unfoldable pub sum : Dict ℤ → ℤ
sum [] = pos 0
sum ((_, v) ∷ d) = v +ℤ sum d

-- A write moves the sum by the difference to what the key held, 0 if it was not set.
pub sum-insert :
    (k : ℕ) (v : ℤ) (d : Dict ℤ) → sum (insert k v d) +ℤ unwrap_or (lookup k d) (pos 0) ≡ sum d +ℤ v
unfolding sum lookup insert
sum-insert k v [] = omega int_laws
sum-insert k v ((j, w) ∷ d) = grind (int_laws, sum-insert k v d)

abbrev pub NonNeg : Dict ℤ → Type 0
NonNeg = All (λ v. pos 0 ≤ℤ v)

pub insert-NonNeg : (k : ℕ) (v : ℤ) (d : Dict ℤ) → pos 0 ≤ℤ v → NonNeg d → NonNeg (insert k v d)
unfolding insert
insert-NonNeg k v [] p h = (p, tt)
insert-NonNeg k v ((j, w) ∷ d) p h = ground (arith, insert-NonNeg k v d p h.1)

-- No amount is more than the sum of all.
pub lookup-le-sum :
    (k : ℕ) (d : Dict ℤ)
    → NonNeg d
    → (pos 0 ≤ℤ unwrap_or (lookup k d) (pos 0)) × (unwrap_or (lookup k d) (pos 0) ≤ℤ sum d)
unfolding lookup sum
lookup-le-sum k [] h = (omega arith, omega arith)
lookup-le-sum k ((j, w) ∷ d) h = grind (int_laws, lookup-le-sum k d h.1)

pub sum_nonneg : (d : Dict ℤ) → NonNeg d → pos 0 ≤ℤ sum d
unfolding sum
sum_nonneg [] h = omega arith
sum_nonneg ((_, w) ∷ d) h = omega (int_laws, sum_nonneg d h.1)

-- Nor are the amounts under two keys together.
pub lookup-add-le-sum :
    (j k : ℕ) (d : Dict ℤ)
    → (j ≡ k → ⊥)
    → NonNeg d
    → unwrap_or (lookup j d) (pos 0) +ℤ unwrap_or (lookup k d) (pos 0) ≤ℤ sum d
unfolding lookup sum
lookup-add-le-sum j k [] ne h = omega int_laws
lookup-add-le-sum j k ((i, w) ∷ d) ne h =
    grind (int_laws, lookup-add-le-sum j k d ne h.1, lookup-le-sum j d h.1, lookup-le-sum k d h.1)

-- The sum of an amount that each value stands for.
unfoldable pub sum_by {ℓ} : {V : Type ℓ} → (V → ℤ) → Dict V → ℤ
sum_by f [] = pos 0
sum_by f ((_, v) ∷ d) = f v +ℤ sum_by f d

-- A new key adds its amount.
pub sum_by-insert_new {ℓ} :
    {V : Type ℓ} (f : V → ℤ) (k : ℕ) (v : V) (d : Dict V)
    → lookup k d ≡ none
    → sum_by f (insert k v d) ≡ sum_by f d +ℤ f v
unfolding sum_by lookup insert
sum_by-insert_new f k v [] h = omega int_laws
sum_by-insert_new f k v ((j, w) ∷ d) h = grind (int_laws, sum_by-insert_new f k v d)

-- A write over `w` replaces the amount of `w`.
pub sum_by-insert {ℓ} :
    {V : Type ℓ} (f : V → ℤ) (k : ℕ) (v w : V) (d : Dict V)
    → lookup k d ≡ some w
    → sum_by f (insert k v d) +ℤ f w ≡ sum_by f d +ℤ f v
unfolding sum_by lookup insert
sum_by-insert f k v w [] h = cc
sum_by-insert f k v w ((j, u) ∷ d) h = grind (int_laws, sum_by-insert f k v w d)

pub sum_by_nonneg {ℓ} :
    {V : Type ℓ} (f : V → ℤ) (d : Dict V) → ((v : V) → pos 0 ≤ℤ f v) → pos 0 ≤ℤ sum_by f d
unfolding sum_by
sum_by_nonneg f [] n = omega int_laws
sum_by_nonneg f ((_, w) ∷ d) n = grind (int_laws, sum_by_nonneg f d n, n w)

-- An amount that is never negative adds up to one that is at least that of each value.
pub le-sum_by {ℓ} :
    {V : Type ℓ} (f : V → ℤ) (k : ℕ) (v : V) (d : Dict V)
    → ((v : V) → pos 0 ≤ℤ f v)
    → lookup k d ≡ some v
    → f v ≤ℤ sum_by f d
unfolding sum_by lookup
le-sum_by f k v [] n h = cc
le-sum_by f k v ((j, w) ∷ d) n h = grind (int_laws, le-sum_by f k v d n, n w, sum_by_nonneg f d n)
