-- ===== src/Token/Spending.antt =====
-- contracts/asset-token/src/lib.rs, the allowances: `approve`, `allowance` and `transfer_from`.
use stellar_rwa_contracts.Base.{
  ℕ, ◌≡◌, ap, ◌∙◌, true, arith, Option-cases, inl, inr, ◌==◌, if◌then◌else◌, ◌≤◌, leb, unwrap_or,
  ◌&&◌,
}
use stellar_rwa_contracts.Base.Int.{
  ℤ, pos, ◌+ℤ◌, ◌-ℤ◌, ◌≤ℤ◌, ◌<ℤ◌, int_laws, checked_sub, checked_add-cases, checked_sub-cases,
}
use stellar_rwa_contracts.Base.Dict.{lookup, insert, lookup-insert}
use stellar_rwa_contracts.Base.Host.{Address, Result-cases, ok}
use stellar_rwa_contracts.Token.State.{Env, Token, balance}
use stellar_rwa_contracts.Token.Allowances.{
  approve, allowance, set_allowance, current_allowance, debit_credit, spend, transfer_from,
}
use stellar_rwa_contracts.Token.TransferEffect.{moved}

-- A successful `approve` sets the allowance of that pair to exactly the amount, as long as the
-- ledger is not past the expiration, and to 0 from then on; the amount 0 reads as 0 at any time.
-- Every other pair's allowance, the balances and the metadata stay.
pub allowance-approve :
    (env now : Env) (from spender a b : Address) (x : ℤ) (e : ℕ) (s s' : Token)
    → approve env from spender x e s ≡ ok s'
    → (allowance now a b s' ≡ (
        if a == from && b == spender
        then (if leb now.sequence e then x else pos 0)
        else allowance now a b s))
      × (s'.balances ≡ s.balances)
      × (s'.metadata ≡ s.metadata)
unfolding approve allowance
allowance-approve env now from spender a b x e s s' h = (ground arith, ground arith, ground arith)

debit_credit-balance :
    (from to a : Address) (x u v : ℤ) (s s' : Token)
    → debit_credit from to x s ≡ ok (u, v, s')
    → balance s' a ≡ moved from to x a (balance s a)
unfolding debit_credit
debit_credit-balance from to a x u v s s' h = grind (
  int_laws,
  checked_sub-cases (balance s from) x,
  checked_add-cases (balance s to) x,
  checked_add-cases (balance s from -ℤ x) x,
  lookup-insert to from (balance s from -ℤ x) s.balances,
  lookup-insert a from (balance s from -ℤ x) s.balances,
  lookup-insert a to (balance s to +ℤ x) (insert from (balance s from -ℤ x) s.balances),
  lookup-insert a to (balance s from -ℤ x +ℤ x) (insert from (balance s from -ℤ x) s.balances),
)

debit_credit-allowances :
    (from to : Address) (x u v : ℤ) (s s' : Token)
    → debit_credit from to x s ≡ ok (u, v, s')
    → s'.allowances ≡ s.allowances
unfolding debit_credit
debit_credit-allowances from to x u v s s' h =
    elim (Option-cases (checked_sub (balance s from) x)) [
      | inl e ↦ ground arith
      | inr (b, e) ↦ ground arith
    ]

pub spend-covered :
    (env : Env) (spender from to : Address) (x : ℤ) (s s' : Token)
    → pos 0 <ℤ x
    → spend env spender from to x s ≡ ok s'
    → x ≤ℤ allowance env from spender s
unfolding spend allowance
spend-covered env spender from to x s s' p h = ground arith

balance-cong : (a : Address) (s t : Token) → s.balances ≡ t.balances → balance s a ≡ balance t a
unfolding balance
balance-cong a s t h = ap (λ d. unwrap_or (lookup a d) (pos 0)) h

spend-after :
    (env : Env) (spender from to : Address) (x u v : ℤ) (s s' t : Token)
    → debit_credit from to x s ≡ ok (u, v, t)
    → spend env spender from to x s ≡ ok s'
    → (s'.balances ≡ t.balances)
      × (s'.allowances
          ≡ (set_allowance from spender
              (record (current_allowance from spender s) {
                amount = (current_allowance from spender s).amount -ℤ x;
              })
              t).allowances)
unfolding spend
spend-after env spender from to x u v s s' t e h = (
  ground (arith, checked_sub-cases (current_allowance from spender s).amount x),
  ground (arith, checked_sub-cases (current_allowance from spender s).amount x),
)

spend-needs :
    (env : Env) (spender from to : Address) (x : ℤ) (s s' : Token)
    → spend env spender from to x s ≡ ok s'
    → env.sequence ≤ (current_allowance from spender s).expiration_ledger
unfolding spend
spend-needs env spender from to x s s' h = ground arith

pub spend-eq :
    (env : Env) (spender from to : Address) (x : ℤ) (s s' : Token)
    → pos 0 <ℤ x
    → spend env spender from to x s ≡ ok s'
    → ((a : Address) → balance s' a ≡ moved from to x a (balance s a))
      × ((a b : Address)
          → allowance env a b s' ≡ (
              if a == from && b == spender
              then allowance env from spender s -ℤ x
              else allowance env a b s))
unfolding spend allowance
spend-eq env spender from to x s s' p h = elim (Result-cases (debit_credit from to x s)) [
  | inr (f, e) ↦ ground arith
  | inl ((u, v, t), e) ↦ (
    λ a.
        balance-cong a s' t (spend-after env spender from to x u v s s' t e h).0
        ∙ debit_credit-balance from to a x u v s t e,
    λ a b. ground (
      arith,
      ap (λ f. f a b) (spend-after env spender from to x u v s s' t e h).1,
      ap (λ f. f a b) (debit_credit-allowances from to x u v s t e),
      spend-needs env spender from to x s s' h,
      spend-covered env spender from to x s s' p h,
    ),
  )
]

-- A successful `transfer_from` was authorized by the spender, moved a positive amount within the
-- live allowance, and lowered that allowance by exactly the amount; every other allowance stays.
-- The balances move as in a `transfer`.
pub transfer_from-spends :
    (env : Env) (spender from to : Address) (x : ℤ) (s s' : Token)
    → transfer_from env spender from to x s ≡ ok s'
    → (env.authorized spender ≡ true)
      × (pos 0 <ℤ x)
      × (x ≤ℤ allowance env from spender s)
      × ((a : Address) → balance s' a ≡ moved from to x a (balance s a))
      × ((a b : Address)
          → allowance env a b s' ≡ (
              if a == from && b == spender
              then allowance env from spender s -ℤ x
              else allowance env a b s))
unfolding transfer_from
transfer_from-spends env spender from to x s s' h =
    let p : pos 0 <ℤ x = ground arith in
    let e : spend env spender from to x s ≡ ok s' = ground arith in
    let (m, l) = spend-eq env spender from to x s s' p e in
    (ground arith, p, spend-covered env spender from to x s s' p e, m, l)
