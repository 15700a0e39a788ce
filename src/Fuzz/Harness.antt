-- ===== src/Fuzz/Harness.antt =====
-- fuzz/fuzz_targets: what the targets share. A run of a target is an `Option`: `none` if it panics,
-- which is what a failed assertion and a failed call of a client without `try_` do. The test host
-- (`Env::default`, `mock_all_auths`) authorizes everything and is at the ledger sequence that is set.
use stellar_rwa_contracts.Base.{
  ℕ, zero, suc, ◌+◌, ◌-◌, ◌^◌, min, Bool, true, false, not, Option, none, some, List, [], ◌∷◌,
}
use stellar_rwa_contracts.Base.Host.{Result, ok, err}
use stellar_rwa_contracts.Compliance.State.{Env, Compliance, Error}
use stellar_rwa_contracts.Compliance.Calls.{Call, execute}

infixl 5 ◌>>=◌ ◌>>◌
abbrev pub ◌>>=◌ {ℓ κ} : {A : Type ℓ} {B : Type κ} → Option A → (A → Option B) → Option B
none >>= _ = none
some a >>= f = f a

abbrev pub ◌>>◌ {ℓ} : {B : Type ℓ} → Option (Unit {0}) → Option B → Option B
m >> k = m >>= λ _. k

-- `assert!`
abbrev pub assert : Bool → Option (Unit {0})
assert true = some tt
assert false = none

-- Whether two Booleans are the same.
abbrev pub same : Bool → Bool → Bool
same true b = b
same false b = not b

-- `env.mock_all_auths()`, at a ledger sequence.
abbrev pub mock : ℕ → Env
mock sequence = record { authorized = λ _. true; sequence = sequence }

-- The value of a call that must return.
abbrev pub expect {ℓ} : {A : Type ℓ} → Result Error A → Option A
expect (ok a) = some a
expect (err _) = none

-- A call of the client without `try_`.
unfoldable pub client : ℕ → Call → Compliance → Option Compliance
unfolding execute
client now c s = expect (execute (mock now) c s)

-- `u32::saturating_add`
abbrev pub saturating_add : ℕ → ℕ → ℕ
saturating_add a b = min (a + b) (2 ^ 32 - 1)

-- The item at an index, `d` beyond the end.
unfoldable pub nth {ℓ} : {A : Type ℓ} → A → List A → ℕ → A
nth d [] i = d
nth d (x ∷ xs) zero = x
nth d (x ∷ xs) (suc i) = nth d xs i
