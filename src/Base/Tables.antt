-- ===== src/Base/Tables.antt =====
-- Kinds of entries in a contract's storage whose sum is never asked for, as functions of their key.
use stellar_rwa_contracts.Base.Tests.{◌==◌, if◌then◌else◌}
use Prim.Native.Nat.{ℕ}
use mathlib.Core.Bool.{◌&&◌}

abbrev pub update {ℓ} : {V : Type ℓ} → ℕ → V → (ℕ → V) → ℕ → V
update k v f j = if j == k then v else f j

abbrev pub update_pair {ℓ} : {V : Type ℓ} → ℕ → ℕ → V → (ℕ → ℕ → V) → ℕ → ℕ → V
update_pair k l v f i j = if i == k && j == l then v else f i j
