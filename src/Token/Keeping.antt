-- ===== src/Token/Keeping.antt =====
-- The calls of contracts/asset-token/src/lib.rs that move no supply: transfers and approvals.
use stellar_rwa_contracts.Base.{
  Option-cases, inl, inr, ℕ, ◌≡◌, Option, none, some, List, [], ◌∷◌, arith,
}
use stellar_rwa_contracts.Base.Int.{
  ℤ, pos, ◌+ℤ◌, ◌-ℤ◌, ◌≤ℤ◌, int_laws, checked_add-cases, checked_sub-cases,
}
use stellar_rwa_contracts.Base.Dict.{
  insert, sum, sum-insert, lookup-insert, NonNeg, insert-NonNeg, lookup-le-sum,
}
use stellar_rwa_contracts.Base.Host.{Address, Result, ok, err, ◌>>=◌}
use stellar_rwa_contracts.Token.State.{
  Env, Token, AssetMetadata, Outcome, Event, Error, balance, set_balance,
}
use stellar_rwa_contracts.Token.Transfers.{
  move_balance, settle, transfer, transfer_entry, transfer_entries, transfer_batch,
}
use stellar_rwa_contracts.Token.Allowances.{approve, debit_credit, spend, transfer_from}

-- What an indexer of the events counts: the mints, less the burns.
abbrev pub net_minted : List Event → ℤ
net_minted [] = pos 0
net_minted (Event.mint _ x ∷ es) = net_minted es +ℤ x
net_minted (Event.burn _ x ∷ es) = net_minted es -ℤ x
net_minted (_ ∷ es) = net_minted es

abbrev pub supply_of : Option AssetMetadata → ℤ
supply_of none = pos 0
supply_of (some m) = m.total_supply

-- `s'` has the metadata and the supply of `s`, and no negative balance.
abbrev pub Same : Token → Token → Type 0
Same s s' =
    (s'.metadata ≡ s.metadata)
    × NonNeg s'.balances
    × (sum s'.balances ≡ sum s.balances)
    × (net_minted s'.events ≡ net_minted s.events)

-- What a call that moves no supply has done when it succeeds.
abbrev pub Keeps : Token → Outcome → Type 0
Keeps s (ok s') = Same s s'
Keeps s (err _) = Unit {0}

move_balance-Keeps :
    (from to : Address) (x : ℤ) (s : Token)
    → pos 0 ≤ℤ x
    → x ≤ℤ balance s from
    → (from ≡ to → ⊥)
    → NonNeg s.balances
    → Keeps s (move_balance from to x (balance s from) s)
unfolding move_balance
move_balance-Keeps from to x s p q ne h = grind (
  int_laws,
  checked_sub-cases (balance s from) x,
  checked_add-cases (balance s to) x,
  sum-insert from (balance s from -ℤ x) s.balances,
  sum-insert to (balance s to +ℤ x) (insert from (balance s from -ℤ x) s.balances),
  lookup-insert to from (balance s from -ℤ x) s.balances,
  insert-NonNeg from (balance s from -ℤ x) s.balances,
  insert-NonNeg to (balance s to +ℤ x) (insert from (balance s from -ℤ x) s.balances),
  lookup-le-sum to s.balances h,
)

pub settle-Keeps :
    (from to : Address) (x : ℤ) (s : Token)
    → pos 0 ≤ℤ x
    → NonNeg s.balances
    → Keeps s (settle from to x s)
unfolding settle
settle-Keeps from to x s p h = ground (arith, move_balance-Keeps from to x s)

pub transfer-Keeps :
    (env : Env) (from to : Address) (x : ℤ) (s : Token)
    → NonNeg s.balances
    → Keeps s (transfer env from to x s)
unfolding transfer
transfer-Keeps env from to x s h = ground (arith, settle-Keeps from to x s)

transfer_entry-Keeps :
    (env : Env) (c from : Address) (e : Address × ℤ) (s : Token)
    → NonNeg s.balances
    → Keeps s (transfer_entry env c from e s)
unfolding transfer_entry
transfer_entry-Keeps env c from (to, x) s h = ground (arith, settle-Keeps from to x s)

>>=-Keeps :
    (s : Token) (r : Outcome) (f : Token → Outcome)
    → Keeps s r
    → ((s' : Token) → NonNeg s'.balances → Keeps s' (f s'))
    → Keeps s (r >>= f)
>>=-Keeps s (err _) f k next = tt
>>=-Keeps s (ok s') f k next = ground (arith, next s' k.1)

pub transfer_entries-Keeps :
    (env : Env) (c from : Address) (es : List (Address × ℤ)) (s : Token)
    → NonNeg s.balances
    → Keeps s (transfer_entries env c from es s)
unfolding transfer_entries
transfer_entries-Keeps env c from [] s h = ground arith
transfer_entries-Keeps env c from (e ∷ es) s h =
    >>=-Keeps s (transfer_entry env c from e s) (transfer_entries env c from es)
      (transfer_entry-Keeps env c from e s h) (transfer_entries-Keeps env c from es)

abbrev Moves : Token → Result Error (ℤ × ℤ × Token) → Type 0
Moves s (ok (_, _, s')) = Same s s'
Moves s (err _) = Unit {0}

debit_credit-Moves :
    (from to : Address) (x : ℤ) (s : Token)
    → pos 0 ≤ℤ x
    → NonNeg s.balances
    → Moves s (debit_credit from to x s)
unfolding debit_credit
debit_credit-Moves from to x s p h =
    let debited : Token = set_balance from (balance s from -ℤ x) s in
    grind (
      int_laws,
      checked_sub-cases (balance s from) x,
      checked_add-cases (balance debited to) x,
      sum-insert from (balance s from -ℤ x) s.balances,
      sum-insert to (balance debited to +ℤ x) debited.balances,
      insert-NonNeg from (balance s from -ℤ x) s.balances,
      insert-NonNeg to (balance debited to +ℤ x) debited.balances,
      lookup-le-sum to debited.balances,
    )

spend-Keeps :
    (env : Env) (spender from to : Address) (x : ℤ) (s : Token)
    → pos 0 ≤ℤ x
    → NonNeg s.balances
    → Keeps s (spend env spender from to x s)
unfolding spend
spend-Keeps env spender from to x s p h = ground (arith, debit_credit-Moves from to x s p h)

pub transfer_from-Keeps :
    (env : Env) (spender from to : Address) (x : ℤ) (s : Token)
    → NonNeg s.balances
    → Keeps s (transfer_from env spender from to x s)
unfolding transfer_from
transfer_from-Keeps env spender from to x s h = ground (arith, spend-Keeps env spender from to x s)

pub approve-Keeps :
    (env : Env) (from spender : Address) (x : ℤ) (e : ℕ) (s : Token)
    → NonNeg s.balances
    → Keeps s (approve env from spender x e s)
unfolding approve
approve-Keeps env from spender x e s h = ground arith

pub transfer_batch-Keeps :
    (env : Env) (from : Address) (es : List (Address × ℤ)) (s : Token)
    → NonNeg s.balances
    → Keeps s (transfer_batch env from es s)
unfolding transfer_batch
transfer_batch-Keeps env from es s h = elim (Option-cases s.metadata) [
  | inl e ↦ ground arith
  | inr (m, e) ↦ ground (arith, transfer_entries-Keeps env m.compliance_contract from es s h)
]
