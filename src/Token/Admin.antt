-- ===== src/Token/Admin.antt =====
-- contracts/asset-token/src/lib.rs, the administration: pausing, the guardian, the valuation, the
-- compliance gate and the two-step handover of the admin role.
use stellar_rwa_contracts.Base.{
  Bool, true, false, not, ◌&&◌, Option, none, some, ◌==◌, if◌then◌else◌,
}
use stellar_rwa_contracts.Base.Int.{ℤ, pos, ltb_ℤ, ◌/ℤ◌, abs, checked_sub, checked_mul}
use stellar_rwa_contracts.Base.Host.{
  Address, Result, ◌>>=◌, ◌>>◌, ok, panic_if, or_panic, or_trap, require_auth,
}
use stellar_rwa_contracts.Token.State.{
  Env, Token, Event, Error, Outcome, publish, metadata, set_metadata, require_admin, compliant,
  unauthorized, invalid_amount, invalid_compliance, no_pending_admin, overflow,
  valuation_change_too_large, max_valuation_change_bps, bps_denominator,
}

-- `option == Some(address)`
abbrev pub is_some_of : Option Address → Address → Bool
is_some_of none _ = false
is_some_of (some a) b = a == b

unfoldable pub pause : Env → Address → Token → Outcome
unfolding metadata
pause env caller s = do
  require_auth env.authorized caller
  meta ← metadata s
  let is_guardian = is_some_of meta.guardian caller
  panic_if (not (meta.admin == caller) && not is_guardian) unauthorized
  ok (publish (Event.pause caller) (set_metadata (record meta { paused = true }) s))

unfoldable pub unpause : Env → Address → Token → Outcome
unfolding require_admin
unpause env admin s = do
  meta ← require_admin env admin s
  ok (publish (Event.unpause admin) (set_metadata (record meta { paused = false }) s))

unfoldable pub set_guardian : Env → Address → Option Address → Token → Outcome
unfolding require_admin
set_guardian env admin guardian s = do
  meta ← require_admin env admin s
  ok (publish (Event.guardian guardian) (set_metadata (record meta { guardian = guardian }) s))

-- The limit on one change of a positive valuation.
unfoldable pub check_change : ℤ → ℤ → Result Error (Unit {0})
unfolding ◌/ℤ◌ abs
check_change old new = do
  diff ← or_trap (checked_sub new old)
  scaled ← or_panic (checked_mul old max_valuation_change_bps) overflow
  let max_change = scaled /ℤ bps_denominator
  panic_if (ltb_ℤ max_change (abs diff)) valuation_change_too_large

unfoldable pub update_valuation : Env → Address → ℤ → Token → Outcome
unfolding require_admin
update_valuation env admin new_valuation s = do
  meta ← require_admin env admin s
  panic_if (ltb_ℤ new_valuation (pos 0)) invalid_amount
  let old_valuation = meta.valuation
  (if ltb_ℤ (pos 0) old_valuation then check_change old_valuation new_valuation else ok tt)
  ok (
      publish (Event.valuation old_valuation new_valuation)
        (set_metadata (record meta { valuation = new_valuation }) s))

unfoldable pub set_compliance : Env → Address → Address → Token → Outcome
unfolding require_admin compliant
set_compliance env admin compliance s = do
  meta ← require_admin env admin s
  allowed ← compliant env compliance admin
  panic_if (not allowed) invalid_compliance
  let old_compliance = meta.compliance_contract
  ok (
      publish (Event.setcomp old_compliance compliance)
        (set_metadata (record meta { compliance_contract = compliance }) s))

unfoldable pub propose_admin : Env → Address → Address → Token → Outcome
unfolding require_admin
propose_admin env admin new_admin s = do
  meta ← require_admin env admin s
  ok (
      publish (Event.proposed admin new_admin)
        (set_metadata (record meta { pending_admin = some new_admin }) s))

abbrev is_none : Option Address → Bool
is_none none = true
is_none (some _) = false

unfoldable pub cancel_admin_proposal : Env → Address → Token → Outcome
unfolding require_admin
cancel_admin_proposal env admin s = do
  meta ← require_admin env admin s
  panic_if (is_none meta.pending_admin) no_pending_admin
  ok (publish (Event.cancelled admin) (set_metadata (record meta { pending_admin = none }) s))

unfoldable pub accept_admin : Env → Address → Token → Outcome
unfolding metadata
accept_admin env new_admin s = do
  require_auth env.authorized new_admin
  meta ← metadata s
  pending ← or_panic meta.pending_admin no_pending_admin
  panic_if (not (pending == new_admin)) unauthorized
  let old_admin = meta.admin
  ok (
      publish (Event.set_admin old_admin new_admin)
        (set_metadata (record meta { admin = new_admin; pending_admin = none }) s))
