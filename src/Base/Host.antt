-- ===== src/Base/Host.antt =====
-- What a contract call returns to the Soroban host. A panic aborts the call and the host discards
-- every write and event of it, so a failed call has no new state.
use stellar_rwa_contracts.Base.Tests.{if◌then◌else◌}
use Prim.Native.Nat.{ℕ}
use mathlib.Core.Path.{◌≡◌, refl}
use mathlib.Core.Logic.{◌⊎◌, inl, inr}
use mathlib.Core.Bool.{Bool, true, false}
use mathlib.Core.Option.{Option, none, some}

-- An address is only compared.
abbrev pub Address : Type 0
Address = ℕ

-- `panic_with_error!` with a code of the contract's `Error`, or a trap of the host: a missing
-- authorization, a failed call of another contract, an arithmetic overflow.
pub data Failure (E : Type 0) : Type 0 where
  error : E → Failure E
  trap : Failure E

pub data Result {ℓ} (E : Type 0) (A : Type ℓ) : Type ℓ where
  ok : A → Result E A
  err : Failure E → Result E A

module _ {E : Type 0} where
  infixl 5 ◌>>=◌ ◌>>◌
  abbrev pub ◌>>=◌ {ℓ κ} : {A : Type ℓ} {B : Type κ} → Result E A → (A → Result E B) → Result E B
  ok a >>= f = f a
  err e >>= _ = err e

  abbrev pub ◌>>◌ {ℓ} : {B : Type ℓ} → Result E (Unit {0}) → Result E B → Result E B
  m >> k = m >>= λ _. k

  -- `if c { panic_err(env, e) }`
  abbrev pub panic_if : Bool → E → Result E (Unit {0})
  panic_if c e = if c then err (error e) else ok tt

  -- `unwrap_or_else(|| panic_err(env, e))`
  abbrev pub or_panic {ℓ} : {A : Type ℓ} → Option A → E → Result E A
  or_panic none e = err (error e)
  or_panic (some a) _ = ok a

  -- A step that the host refuses by a trap.
  abbrev pub or_trap {ℓ} : {A : Type ℓ} → Option A → Result E A
  or_trap none = err trap
  or_trap (some a) = ok a

  -- `address.require_auth()`, given the addresses that have authorized the call.
  abbrev pub require_auth : (Address → Bool) → Address → Result E (Unit {0})
  require_auth authorized a = if authorized a then ok tt else err trap

  -- Drops what a call returns beside the new state.
  abbrev pub state_of {ℓ κ} : {A : Type ℓ} {S : Type κ} → Result E (A × S) → Result E S
  state_of (ok (_, s)) = ok s
  state_of (err e) = err e

  -- The state after a call: a failed call leaves it as it was.
  abbrev pub after {ℓ} : {S : Type ℓ} → S → Result E S → S
  after _ (ok s') = s'
  after s (err _) = s

  -- Whether a call returns.
  abbrev pub succeeds {ℓ} : {A : Type ℓ} → Result E A → Bool
  succeeds (ok _) = true
  succeeds (err _) = false

  pub Result-cases {ℓ} :
      {A : Type ℓ} (r : Result E A) → ((a : A) × (r ≡ ok a)) ⊎ ((e : Failure E) × (r ≡ err e))
  Result-cases (ok a) = inl (a, refl)
  Result-cases (err e) = inr (e, refl)
