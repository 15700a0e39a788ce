-- ===== src/Base/Text.antt =====
-- A `String` of the host, as its bytes, and the entries of a contract's storage under such a key.
use stellar_rwa_contracts.Base.Tests.{◌==◌, if◌then◌else◌}
use Prim.Native.Nat.{ℕ}
use mathlib.Core.Path.{◌≡◌, refl}
use mathlib.Core.Bool.{Bool, true, false, ◌&&◌}
use mathlib.Core.List.{List, [], ◌∷◌}
use native.Mathlib.Omega.{arith}

abbrev pub Text : Type 0
Text = List ℕ

unfoldable pub eq_text : Text → Text → Bool
eq_text [] [] = true
eq_text (a ∷ t) (b ∷ u) = a == b && eq_text t u
eq_text _ _ = false

pub eq_text_refl : (t : Text) → eq_text t t ≡ true
unfolding eq_text
eq_text_refl [] = refl
eq_text_refl (a ∷ t) = ground (arith, eq_text_refl t)

pub eq_of_eq_text : (t u : Text) → eq_text t u ≡ true → t ≡ u
unfolding eq_text
eq_of_eq_text [] [] h = refl
eq_of_eq_text [] (b ∷ u) h = ground arith
eq_of_eq_text (a ∷ t) [] h = ground arith
eq_of_eq_text (a ∷ t) (b ∷ u) h = ground (arith, eq_of_eq_text t u)

-- The value at `t`, in place of the one before.
abbrev pub update_text {ℓ} : {V : Type ℓ} → Text → V → (Text → V) → Text → V
update_text t v f u = if eq_text u t then v else f u
