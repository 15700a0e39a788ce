-- ===== src/Wired.antt =====
-- contracts/asset-token/src/lib.rs, where contracts/compliance/src/lib.rs is the contract that
-- answers its calls of `is_allowed`.
pub mod Payments
mod Tests
mod PaymentTests
use stellar_rwa_contracts.Base.{
  ℕ, ◌≡◌, refl, sym, ap, ◌∙◌, Option, none, some, Bool, true, false, List, arith, ◌<◌, ◌^◌, ◌↔◌,
}
use stellar_rwa_contracts.Base.Int.{◌<ℤ◌}
use stellar_rwa_contracts.Base.Host.{Address, Result, ok, err}
use stellar_rwa_contracts.Token
use stellar_rwa_contracts.Token.Consent.{step-compliant}
use stellar_rwa_contracts.Compliance.State.{Env, Compliance, Error, empty}
use stellar_rwa_contracts.Compliance.Checks.{is_allowed}
use stellar_rwa_contracts.Compliance.Calls.{Call, run}
use stellar_rwa_contracts.Compliance.Allowed.{Allowed, is_allowed-Allowed}

-- The answer that a caller of `is_allowed` gets; `none` if the call fails.
abbrev pub answer : Result Error (Bool × Compliance) → Option Bool
answer (ok (allowed, _)) = some allowed
answer (err _) = none

-- The answer that the token gets, whichever address it has the compliance contract at, is that of
-- the compliance contract in the state `k`.
abbrev pub AnsweredBy : Env → Compliance → Address → Token.State.Env → Type 0
AnsweredBy view k contract env =
    (env.sequence ≡ view.sequence)
    × ((a : Address) → env.is_allowed contract a ≡ answer (is_allowed view a k))

-- If a new compliance contract after any history of calls answers the token, at a ledger sequence
-- that is a `u32`: a call of the token that raises the balance of `a` finds the token not paused and
-- `a` with an approved record that has not expired, in a jurisdiction that is not blocked, and with
-- its minimum holding period, if it has one and has acquired, over.
pub raised-Allowed :
    (cs : List (Env × Call)) (view : Env) (s : Token.State.Token) (m : Token.State.AssetMetadata)
    (env : Token.State.Env) (c : Token.Calls.Call) (a : Address)
    → view.sequence < 2 ^ 32
    → AnsweredBy view (run empty cs) m.compliance_contract env
    → s.metadata ≡ some m
    → Token.State.balance s a <ℤ Token.State.balance (Token.Calls.step s (env, c)) a
    → Allowed view a (run empty cs) × (m.paused ≡ false)
raised-Allowed cs view s m env c a u (same, answers) i h =
    let (allowed, live) = step-compliant s m env c a i h in
    let ((says, k), is, iff, rest) = is_allowed-Allowed view a cs u in
    let yes : some says ≡ some true = ap answer (sym is) ∙ sym (answers a) ∙ allowed in
    (iff.0 (ground (arith, yes)), live)
