-- ===== src/Wired/Tests.antt =====
-- contracts/asset-token/src/lib.rs and contracts/compliance/src/lib.rs together, on a concrete
-- history.
use stellar_rwa_contracts.Base.{◌≡◌, refl, none, some, true, false, List, [], ◌∷◌, arith}
use stellar_rwa_contracts.Base.Int.{pos, ◌+ℤ◌, ◌-ℤ◌, checked_add, checked_sub}
use stellar_rwa_contracts.Base.Dict.{lookup, insert}
use stellar_rwa_contracts.Base.Text.{eq_text}
use stellar_rwa_contracts.Token
use stellar_rwa_contracts.Token.State.{Token, AssetMetadata}
use stellar_rwa_contracts.Compliance.State.{Env, empty, require_admin, blocked_list}
use stellar_rwa_contracts.Compliance.Jurisdictions.{
  normalize_jurisdiction, normalize_bytes, is_jurisdiction_blocked,
}
use stellar_rwa_contracts.Compliance.Records.{add_to_allowlist, approve_entry}
use stellar_rwa_contracts.Compliance.Checks.{
  is_allowed, check_record, check_holding, check_unlocked,
}
use stellar_rwa_contracts.Compliance.State.{append_to_allowlist, next_slot}
use stellar_rwa_contracts.Compliance.Admin.{initialize}
use stellar_rwa_contracts.Compliance.Calls.{Call, execute, step, run}
use stellar_rwa_contracts.Compliance.Allowed.{Allowed}
use stellar_rwa_contracts.Wired.{answer, raised-Allowed}

-- Everybody has authorized the call.
abbrev view : Env
view = record { authorized = λ _. true; sequence = 10 }

-- 1 approves 5.
abbrev history : List (Env × Call)
history = (view, Call.initialize 1) ∷ (view, Call.add_to_allowlist 1 5 (85 ∷ 83 ∷ []) 0) ∷ []

abbrev env : Token.State.Env
env = record {
  authorized = λ _. true;
  sequence = 10;
  is_allowed = λ _ a. answer (is_allowed view a (run empty history));
  accepts_ttl = λ _. true;
}

abbrev meta : AssetMetadata
meta = record {
  name = 65 ∷ [];
  symbol = 65 ∷ [];
  asset_type = 66 ∷ [];
  total_supply = pos 100;
  decimals = 2;
  admin = 1;
  compliance_contract = 9;
  asset_description = 67 ∷ [];
  valuation = pos 1000;
  paused = false;
  guardian = none;
  pending_admin = none;
}

-- 2 has all of it.
abbrev held : Token
held = record Token.State.empty { metadata = some meta; balances = (2, pos 100) ∷ [] }

raised-Allowed_example : Allowed view 5 (run empty history) × (false ≡ false)
unfolding Token.Calls.step Token.Calls.execute Token.Supply.mint Token.Supply.credit
    Token.State.metadata Token.State.require_admin Token.State.compliant Token.State.check_amount
    Token.State.set_balance Token.State.balance checked_add checked_sub ◌+ℤ◌ ◌-ℤ◌ lookup insert run
    step execute initialize add_to_allowlist approve_entry normalize_jurisdiction normalize_bytes
    append_to_allowlist next_slot blocked_list require_admin eq_text is_allowed check_record
    check_holding check_unlocked is_jurisdiction_blocked
raised-Allowed_example =
    raised-Allowed history view held meta env (Token.Calls.Call.mint 1 5 (pos 10)) 5 (omega arith)
      (refl, λ a. refl) refl (omega arith)
