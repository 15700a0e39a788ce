-- ===== src/Token/Backing.antt =====
-- contracts/asset-token/src/lib.rs: the balances and the supply, over histories of calls.
use stellar_rwa_contracts.Base.{ℕ, ◌≡◌, refl, Option, List, [], ◌∷◌, arith, Option-cases, inl, inr}
use stellar_rwa_contracts.Base.Int.{
  ℤ, pos, ◌+ℤ◌, ◌-ℤ◌, checked_add-cases, checked_sub-cases, ◌≤ℤ◌, int_laws,
}
use stellar_rwa_contracts.Base.Dict.{sum, sum-insert, NonNeg, insert-NonNeg, lookup-le-sum}
use stellar_rwa_contracts.Base.Host.{Address, Result, ok, err, after, ◌>>=◌}
use stellar_rwa_contracts.Token.State.{Env, Token, Outcome, Error, Text, balance, empty}
use stellar_rwa_contracts.Token.Genesis.{initialize}
use stellar_rwa_contracts.Token.Supply.{credit, mint, mint_entry, mint_entries, mint_batch, burn}
use stellar_rwa_contracts.Token.Admin.{
  pause, unpause, set_guardian, update_valuation, set_compliance, propose_admin,
  cancel_admin_proposal, accept_admin,
}
use stellar_rwa_contracts.Token.Calls.{Call, execute, step, run}
use stellar_rwa_contracts.Token.Keeping.{
  net_minted, supply_of, Keeps, transfer-Keeps, transfer_batch-Keeps, transfer_from-Keeps,
  approve-Keeps,
}

pub record Backed (s : Token) : Type 0 where
  pub nonneg : NonNeg s.balances
  pub backed : sum s.balances ≡ supply_of s.metadata
  pub counted : net_minted s.events ≡ supply_of s.metadata

abbrev Backs : Outcome → Type 0
Backs (ok s') = Backed s'
Backs (err _) = Unit {0}

Keeps-Backs : (s : Token) (r : Outcome) → Backed s → Keeps s r → Backs r
Keeps-Backs s (err _) b k = tt
Keeps-Backs s (ok s') b k = ground arith

-- From the supply `n` on, the balances and the counted mints have moved as the supply has.
abbrev Mints : ℤ → ℤ → Token → Result Error (ℤ × Token) → Type 0
Mints d n s (ok (n', s')) =
    (s'.metadata ≡ s.metadata)
    × NonNeg s'.balances
    × (sum s'.balances +ℤ n ≡ sum s.balances +ℤ n')
    × (net_minted s'.events +ℤ n +ℤ d ≡ net_minted s.events +ℤ n')
Mints d n s (err _) = Unit {0}

Mints-trans :
    (n n' : ℤ) (s s' : Token) (r : Result Error (ℤ × Token))
    → Mints (pos 0) n s (ok (n', s'))
    → Mints (pos 0) n' s' r
    → Mints (pos 0) n s r
Mints-trans n n' s s' (err _) k l = tt
Mints-trans n n' s s' (ok (n2, s2)) k l = grind int_laws

credit-Mints :
    (to : Address) (x n : ℤ) (s : Token)
    → pos 0 ≤ℤ x
    → NonNeg s.balances
    → Mints x n s (credit to x (n, s))
unfolding credit
credit-Mints to x n s p h = grind (
  int_laws,
  checked_add-cases n x,
  checked_add-cases (balance s to) x,
  sum-insert to (balance s to +ℤ x) s.balances,
  insert-NonNeg to (balance s to +ℤ x) s.balances,
  lookup-le-sum to s.balances,
)

mint-Backs :
    (env : Env) (admin to : Address) (x : ℤ) (s : Token) → Backed s → Backs (mint env admin to x s)
unfolding mint
mint-Backs env admin to x s b = elim (Option-cases s.metadata) [
  | inl e ↦ ground arith
  | inr (m, e) ↦ grind (int_laws, credit-Mints to x m.total_supply s)
]

mint_entry-Mints :
    (env : Env) (c to : Address) (x n : ℤ) (s : Token)
    → NonNeg s.balances
    → Mints (pos 0) n s (mint_entry env c (to, x) (n, s))
unfolding mint_entry
mint_entry-Mints env c to x n s h = grind (int_laws, credit-Mints to x n s)

>>=-Mints :
    (n : ℤ) (s : Token) (r : Result Error (ℤ × Token)) (f : ℤ × Token → Result Error (ℤ × Token))
    → Mints (pos 0) n s r
    → ((n' : ℤ) (s' : Token) → NonNeg s'.balances → Mints (pos 0) n' s' (f (n', s')))
    → Mints (pos 0) n s (r >>= f)
>>=-Mints n s (err _) f k next = tt
>>=-Mints n s (ok (n', s')) f k next = Mints-trans n n' s s' (f (n', s')) k (next n' s' k.1)

mint_entries-Mints :
    (env : Env) (c : Address) (es : List (Address × ℤ)) (n : ℤ) (s : Token)
    → NonNeg s.balances
    → Mints (pos 0) n s (mint_entries env c es (n, s))
unfolding mint_entries
mint_entries-Mints env c [] n s h = grind int_laws
mint_entries-Mints env c ((to, x) ∷ es) n s h =
    >>=-Mints n s (mint_entry env c (to, x) (n, s)) (mint_entries env c es)
      (mint_entry-Mints env c to x n s h) (mint_entries-Mints env c es)

mint_batch-Backs :
    (env : Env) (admin : Address) (es : List (Address × ℤ)) (s : Token)
    → Backed s
    → Backs (mint_batch env admin es s)
unfolding mint_batch
mint_batch-Backs env admin es s b = elim (Option-cases s.metadata) [
  | inl e ↦ ground arith
  | inr (m, e) ↦ grind (int_laws, mint_entries-Mints env m.compliance_contract es m.total_supply s)
]

burn-Backs : (env : Env) (from : Address) (x : ℤ) (s : Token) → Backed s → Backs (burn env from x s)
unfolding burn
burn-Backs env from x s b = elim (Option-cases s.metadata) [
  | inl e ↦ ground arith
  | inr (m, e) ↦ grind (
    int_laws,
    checked_sub-cases (balance s from) x,
    checked_sub-cases m.total_supply x,
    sum-insert from (balance s from -ℤ x) s.balances,
    insert-NonNeg from (balance s from -ℤ x) s.balances,
  )
]

initialize-Backs :
    (env : Env) (a : Address) (n y t : Text) (supply : ℤ) (d : ℕ) (c : Address) (about : Text)
    (v : ℤ) (s : Token)
    → Backed s
    → Backs (initialize env a n y t supply d c about v s)
unfolding initialize
initialize-Backs env a n y t supply d c about v s b = grind (
  int_laws,
  sum-insert a supply s.balances,
  insert-NonNeg a supply s.balances,
  lookup-le-sum a s.balances,
)

-- The administration changes no balance and no supply.
module _ (env : Env) (a : Address) (s : Token) (b : Backed s) where
  pause-Backs : Backs (pause env a s)
  unfolding pause
  pause-Backs = ground arith

  unpause-Backs : Backs (unpause env a s)
  unfolding unpause
  unpause-Backs = ground arith

  set_guardian-Backs : (g : Option Address) → Backs (set_guardian env a g s)
  unfolding set_guardian
  set_guardian-Backs g = ground arith

  update_valuation-Backs : (v : ℤ) → Backs (update_valuation env a v s)
  unfolding update_valuation
  update_valuation-Backs v = ground arith

  set_compliance-Backs : (c : Address) → Backs (set_compliance env a c s)
  unfolding set_compliance
  set_compliance-Backs c = ground arith

  propose_admin-Backs : (new : Address) → Backs (propose_admin env a new s)
  unfolding propose_admin
  propose_admin-Backs new = ground arith

  cancel_admin_proposal-Backs : Backs (cancel_admin_proposal env a s)
  unfolding cancel_admin_proposal
  cancel_admin_proposal-Backs = ground arith

  accept_admin-Backs : Backs (accept_admin env a s)
  unfolding accept_admin
  accept_admin-Backs = ground arith

execute-Backs : (env : Env) (c : Call) (s : Token) → Backed s → Backs (execute env c s)
unfolding execute
execute-Backs env (Call.initialize a n y t supply d c about v) s b =
    initialize-Backs env a n y t supply d c about v s b
execute-Backs env (Call.transfer from to x) s b =
    Keeps-Backs s _ b (transfer-Keeps env from to x s b.nonneg)
execute-Backs env (Call.mint a to x) s b = mint-Backs env a to x s b
execute-Backs env (Call.transfer_batch from es) s b =
    Keeps-Backs s _ b (transfer_batch-Keeps env from es s b.nonneg)
execute-Backs env (Call.mint_batch a es) s b = mint_batch-Backs env a es s b
execute-Backs env (Call.burn from x) s b = burn-Backs env from x s b
execute-Backs env (Call.approve from spender x e) s b =
    Keeps-Backs s _ b (approve-Keeps env from spender x e s b.nonneg)
execute-Backs env (Call.transfer_from spender from to x) s b =
    Keeps-Backs s _ b (transfer_from-Keeps env spender from to x s b.nonneg)
execute-Backs env (Call.pause a) s b = pause-Backs env a s b
execute-Backs env (Call.unpause a) s b = unpause-Backs env a s b
execute-Backs env (Call.cancel_admin_proposal a) s b = cancel_admin_proposal-Backs env a s b
execute-Backs env (Call.accept_admin a) s b = accept_admin-Backs env a s b
execute-Backs env (Call.set_guardian a g) s b = set_guardian-Backs env a s b g
execute-Backs env (Call.update_valuation a v) s b = update_valuation-Backs env a s b v
execute-Backs env (Call.set_compliance a c) s b = set_compliance-Backs env a s b c
execute-Backs env (Call.propose_admin a new) s b = propose_admin-Backs env a s b new

after-Backed : (s : Token) (r : Outcome) → Backed s → Backs r → Backed (after s r)
after-Backed s (ok s') b k = k
after-Backed s (err _) b k = b

-- Every call, successful or not, keeps the balances non-negative, their sum equal to the recorded
-- supply, and that supply equal to the published mints less the published burns.
pub step-Backed : (s : Token) (c : Env × Call) → Backed s → Backed (step s c)
unfolding step
step-Backed s (env, c) b = after-Backed s (execute env c s) b (execute-Backs env c s b)

run-Backed : (s : Token) (cs : List (Env × Call)) → Backed s → Backed (run s cs)
unfolding run
run-Backed s [] b = b
run-Backed s (c ∷ cs) b = run-Backed (step s c) cs (step-Backed s c b)

-- After any history of calls on a new contract, whatever the host and the compliance contract
-- answered: no balance is negative, the balances add up to the recorded supply (0 before
-- `initialize`), and so do the published mints less the published burns.
pub run-empty-Backed : (cs : List (Env × Call)) → Backed (run empty cs)
unfolding sum
run-empty-Backed cs = run-Backed empty cs (record { nonneg = tt; backed = refl; counted = refl })
