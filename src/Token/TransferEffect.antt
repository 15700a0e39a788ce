-- ===== src/Token/TransferEffect.antt =====
-- contracts/asset-token/src/lib.rs, `transfer`: when it succeeds and what it does.
use stellar_rwa_contracts.Base.{
  ◌≡◌, some, true, false, ◌∷◌, arith, inl, inr, Bool-cases, ◌==◌, if◌then◌else◌, ◌≢◌, ◌↔◌,
}
use stellar_rwa_contracts.Base.Int.{
  ℤ, pos, ◌+ℤ◌, ◌-ℤ◌, ◌≤ℤ◌, ◌<ℤ◌, int_laws, checked_add-cases, checked_sub-cases, in_i128,
  checked_add-between, checked_sub-between,
}
use stellar_rwa_contracts.Base.Dict.{insert, lookup-insert, lookup-le-sum, lookup-add-le-sum}
use stellar_rwa_contracts.Base.Host.{Address, ok, succeeds}
use stellar_rwa_contracts.Token.State.{Env, Token, AssetMetadata, Event, balance}
use stellar_rwa_contracts.Token.Transfers.{move_balance, settle, transfer}
use stellar_rwa_contracts.Token.Backing.{Backed}

-- The balance of `a` after `x` has moved: nothing moves from an account to itself.
abbrev pub moved : Address → Address → ℤ → Address → ℤ → ℤ
moved from to x a b =
    if from == to then b else if from == a then b -ℤ x else if to == a then b +ℤ x else b

-- `s'` is `s` after `x` has moved; the log has one more event, with the balances after the call.
abbrev pub Moved : Address → Address → ℤ → Token → Token → Type 0
Moved from to x s s' =
    ((a : Address) → balance s' a ≡ moved from to x a (balance s a))
    × (s'.metadata ≡ s.metadata)
    × (s'.allowances ≡ s.allowances)
    × (s'.events ≡ Event.transfer from to x (balance s' from) (balance s' to) ∷ s.events)

module _ (from to : Address) (x : ℤ) (s s' : Token) where
  move_balance-Moved :
      from ≢ to → move_balance from to x (balance s from) s ≡ ok s' → Moved from to x s s'
  unfolding move_balance
  move_balance-Moved ne h = (
    at,
    ground (arith, checked_sub-cases (balance s from) x, checked_add-cases (balance s to) x),
    ground (arith, checked_sub-cases (balance s from) x, checked_add-cases (balance s to) x),
    ground (
      arith,
      at from,
      at to,
      checked_sub-cases (balance s from) x,
      checked_add-cases (balance s to) x,
    ),
  )
    where
      at : (a : Address) → balance s' a ≡ moved from to x a (balance s a)
      at a = ground (
        arith,
        checked_sub-cases (balance s from) x,
        checked_add-cases (balance s to) x,
        lookup-insert a from (balance s from -ℤ x) s.balances,
        lookup-insert a to (balance s to +ℤ x) (insert from (balance s from -ℤ x) s.balances),
      )

  pub settle-Moved : settle from to x s ≡ ok s' → Moved from to x s s'
  unfolding settle
  settle-Moved h = elim (Bool-cases (from == to)) [
    | inl e ↦ (λ a. ground arith, ground arith, ground arith, ground arith)
    | inr e ↦ move_balance-Moved (λ p. ground arith) (ground arith)
  ]

pub settle-balance :
    (from to a : Address) (x : ℤ) (s s' : Token)
    → settle from to x s ≡ ok s'
    → (balance s' a ≡ moved from to x a (balance s a)) × (s'.metadata ≡ s.metadata)
settle-balance from to a x s s' h = let m = settle-Moved from to x s s' h in (m.0 a, m.1)

-- What a transfer needs of the token and of the host.
pub record MayTransfer (env : Env) (m : AssetMetadata) (from to : Address) (x : ℤ) (s : Token)
    : Type 0 where
  pub authorized : env.authorized from ≡ true
  pub positive : pos 0 <ℤ x
  pub initialized : s.metadata ≡ some m
  pub unpaused : m.paused ≡ false
  pub sender_allowed : env.is_allowed m.compliance_contract from ≡ some true
  pub recipient_allowed : env.is_allowed m.compliance_contract to ≡ some true
  pub covered : x ≤ℤ balance s from

-- With the balances backed by a supply that is an `i128`, neither party's balance leaves the
-- range of `i128`, so the end of a transfer cannot fail.
pub settle-succeeds :
    (m : AssetMetadata) (from to : Address) (x : ℤ) (s : Token)
    → Backed s
    → s.metadata ≡ some m
    → in_i128 m.total_supply ≡ true
    → pos 0 <ℤ x
    → x ≤ℤ balance s from
    → succeeds (settle from to x s) ≡ true
unfolding settle move_balance
settle-succeeds m from to x s b e r p c = grind (
  int_laws,
  checked_sub-between (balance s from) x m.total_supply,
  checked_add-between (balance s to) x m.total_supply,
  lookup-le-sum from s.balances b.nonneg,
  lookup-le-sum to s.balances b.nonneg,
  lookup-add-le-sum from to s.balances,
)

settle-covered :
    (from to : Address) (x : ℤ) (s : Token)
    → succeeds (settle from to x s) ≡ true
    → x ≤ℤ balance s from
unfolding settle
settle-covered from to x s h = ground arith

-- Where the balances are backed by a recorded supply `m.total_supply` that is an `i128`: a
-- transfer succeeds exactly when its sender has authorized it, the amount is positive, the token
-- is not paused, the compliance contract allows both parties and the sender's balance covers the
-- amount. In particular it cannot overflow.
pub transfer-succeeds :
    (env : Env) (m : AssetMetadata) (from to : Address) (x : ℤ) (s : Token)
    → Backed s
    → s.metadata ≡ some m
    → in_i128 m.total_supply ≡ true
    → (succeeds (transfer env from to x s) ≡ true) ↔ MayTransfer env m from to x s
unfolding transfer
transfer-succeeds env m from to x s b e r = (
  λ h. ground (arith, settle-covered from to x s),
  λ h. ground (arith, settle-succeeds m from to x s b e r h.positive h.covered),
)

pub transfer-Moved :
    (env : Env) (from to : Address) (x : ℤ) (s s' : Token)
    → transfer env from to x s ≡ ok s'
    → Moved from to x s s'
unfolding transfer
transfer-Moved env from to x s s' h = settle-Moved from to x s s' (ground arith)
