-- ===== src/Wired/Payments.antt =====
-- contracts/dividend/src/lib.rs, where a contract of contracts/asset-token/src/lib.rs is a payment
-- token: it carries out the transfers that the dividend contract asks it for.
use stellar_rwa_contracts.Base.{
  ◌≡◌, ◌≢◌, sym, ap, subst, ◌∙◌, false, List, ◌∷◌, arith, inl, inr, ◌⊎◌,
}
use stellar_rwa_contracts.Base.Int.{ℤ, pos, ◌+ℤ◌, ◌≤ℤ◌, int_laws}
use stellar_rwa_contracts.Base.Dict.{sum_by}
use stellar_rwa_contracts.Base.Host.{Address, ok}
use stellar_rwa_contracts.Token.State.{Token, balance, Env as TokenEnv}
use stellar_rwa_contracts.Token.Transfers.{transfer}
use stellar_rwa_contracts.Token.Calls.{Call as TokenCall, step as token_step}
use stellar_rwa_contracts.Token.TransferEffect.{moved, transfer-Moved}
use stellar_rwa_contracts.Token.Holding.{Holds, step-Holds, step-Holds_balance}
use stellar_rwa_contracts.Dividend.State.{Env, Dividend, Payment, empty}
use stellar_rwa_contracts.Dividend.Calls.{Call, step}
use stellar_rwa_contracts.Dividend.Escrow.{gain, escrow, owed, Solvent}
use stellar_rwa_contracts.Dividend.Solvency.{empty-Solvent, step-Solvent_at}

-- The states of the two contracts.
pub record World : Type 0 where
  pub token : Token
  pub dividend : Dividend

-- No payment of the token at `at` was added.
abbrev pub Unpaid : Address → List Payment → List Payment → Type 0
Unpaid at ps ps' = (ps' ≡ ps) ⊎ ((p : Payment) × (ps' ≡ p ∷ ps) × (p.token ≢ at))

module _ (this at : Address) where
  -- One call, with the dividend contract at `this` and the token at `at`: a call of the token, a
  -- call of the dividend contract that pays nothing in the token, or one that makes a payment in
  -- it, for which the token's `transfer` succeeds.
  pub data WorldStep : World → World → Type 0 where
    token_call :
        (env : TokenEnv) (c : TokenCall) (w : World)
        → env.authorized this ≡ false
        → WorldStep w (record w { token = token_step w.token (env, c) })
    unpaid_call :
        (env : Env) (c : Call) (w : World)
        → env.this ≡ this
        → env.authorized this ≡ false
        → Unpaid at w.dividend.payments (step w.dividend (env, c)).payments
        → WorldStep w (record w { dividend = step w.dividend (env, c) })
    paid_call :
        (env : Env) (c : Call) (w : World) (host : TokenEnv) (p : Payment) (t : Token)
        → env.this ≡ this
        → env.authorized this ≡ false
        → (step w.dividend (env, c)).payments ≡ p ∷ w.dividend.payments
        → p.token ≡ at
        → transfer host p.from p.to p.amount w.token ≡ ok t
        → WorldStep w (record { token = t; dividend = step w.dividend (env, c) })

  -- The states that are reached from a new dividend contract, beside an initialized token in which
  -- its address has no negative balance and has approved no spender.
  pub data Reached : World → Type 0 where
    start :
        (t : Token)
        → Holds this t
        → pos 0 ≤ℤ balance t this
        → Reached (record { token = t; dividend = empty })
    next : (w w' : World) → Reached w → WorldStep w w' → Reached w'

  record Funded (w : World) : Type 0 where
    solvent : Solvent this w.dividend
    holds : Holds this w.token
    enough : escrow this at w.dividend.payments ≤ℤ balance w.token this

  gain-elsewhere : (p : Payment) → p.token ≢ at → gain this at p ≡ pos 0
  gain-elsewhere p ne = ground arith

  moved-gain :
      (p : Payment) (b : ℤ) → p.token ≡ at → moved p.from p.to p.amount this b ≡ b +ℤ gain this at p
  moved-gain p b e = grind int_laws

  transfer-Holds :
      (host : TokenEnv) (p : Payment) (s t : Token)
      → transfer host p.from p.to p.amount s ≡ ok t
      → Holds this s
      → Holds this t
  transfer-Holds host p s t h v =
      let w = transfer-Moved host p.from p.to p.amount s t h in
      record {
        started = (v.started.0, w.1 ∙ v.started.1);
        no_spender = λ b. ap (λ f. f this b) w.2 ∙ v.no_spender b;
      }

  escrow-Unpaid :
      (ps ps' : List Payment) → Unpaid at ps ps' → escrow this at ps' ≡ escrow this at ps
  escrow-Unpaid ps ps' (inl e) = ap (escrow this at) e
  escrow-Unpaid ps ps' (inr (p, e, ne)) =
      ap (escrow this at) e ∙ grind (int_laws, gain-elsewhere p ne)

  WorldStep-Funded : (w w' : World) → WorldStep w w' → Funded w → Funded w'
  WorldStep-Funded w w' (token_call env c _ n) v = record {
    solvent = v.solvent;
    holds = step-Holds env this n w.token c v.holds;
    enough = omega (arith, v.enough, step-Holds_balance env this n w.token c v.holds);
  }
  WorldStep-Funded w w' (unpaid_call env c _ e n u) v = record {
    solvent = step-Solvent_at this w.dividend env c e n v.solvent;
    holds = v.holds;
    enough =
        subst (λ x. x ≤ℤ balance w.token this)
          (sym (escrow-Unpaid w.dividend.payments (step w.dividend (env, c)).payments u)) v.enough;
  }
  WorldStep-Funded w w' (paid_call env c _ host p t e n q at_is h) v =
      let moves = (transfer-Moved host p.from p.to p.amount w.token t h).0 this in
      let paid = ap (escrow this at) q in
      record {
        solvent = step-Solvent_at this w.dividend env c e n v.solvent;
        holds = transfer-Holds host p w.token t h v.holds;
        enough = grind (int_laws, moves, paid, moved-gain p (balance w.token this) at_is, v.enough);
      }

  Reached-Funded : (w : World) → Reached w → Funded w
  Reached-Funded w (start t v p) = record { solvent = empty-Solvent this; holds = v; enough = p }
  Reached-Funded w (next u _ r m) = WorldStep-Funded u w m (Reached-Funded u r)

  -- Start from a new dividend contract, beside an initialized token in which the contract's own
  -- address has no negative balance and has approved no spender. However calls of the two then
  -- alternate, none of them authorized by that address, where the token carries out the payments in
  -- it: the token's balance of the dividend contract is at least the sum, over the distributions in
  -- that token that are not completed, of what is not yet distributed.
  pub Reached-covers :
      (w : World) → Reached w → sum_by (owed at) w.dividend.dists ≤ℤ balance w.token this
  Reached-covers w r =
      let v = Reached-Funded w r in
      subst (λ x. x ≤ℤ balance w.token this) (v.solvent.covered at) v.enough
