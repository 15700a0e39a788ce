-- ===== src/Token/Genesis.antt =====
-- contracts/asset-token/src/lib.rs, `initialize`.
use stellar_rwa_contracts.Base.{ℕ, Bool, true, false, none, some, not, ◌||◌}
use stellar_rwa_contracts.Base.Int.{ℤ, pos, ltb_ℤ}
use stellar_rwa_contracts.Base.Host.{Address, ◌>>=◌, ◌>>◌, ok, panic_if, require_auth}
use stellar_rwa_contracts.Token.State.{
  Env, Token, Text, Event, AssetMetadata, Outcome, publish, set_metadata, set_balance, compliant,
  check_str, already_initialized, invalid_amount, recipient_not_compliant, max_name_len,
  max_symbol_len, max_asset_type_len, max_desc_len,
}

-- `env.storage().instance().has(&DataKey::Metadata)`
abbrev pub has_metadata : Token → Bool
has_metadata s = elim s.metadata [ none ↦ false | some _ ↦ true ]

unfoldable pub initialize :
    Env → Address → Text → Text → Text → ℤ → ℕ → Address → Text → ℤ → Token → Outcome
unfolding set_balance compliant check_str
initialize env admin name symbol asset_type supply decimals compliance description value s = do
  panic_if (has_metadata s) already_initialized
  require_auth env.authorized admin
  panic_if (ltb_ℤ supply (pos 0) || ltb_ℤ value (pos 0)) invalid_amount
  check_str name 1 max_name_len
  check_str symbol 1 max_symbol_len
  check_str asset_type 1 max_asset_type_len
  check_str description 1 max_desc_len
  allowed ← compliant env compliance admin
  panic_if (not allowed) recipient_not_compliant
  let meta : AssetMetadata = record {
    name = name;
    symbol = symbol;
    asset_type = asset_type;
    total_supply = supply;
    decimals = decimals;
    admin = admin;
    compliance_contract = compliance;
    asset_description = description;
    valuation = value;
    paused = false;
    guardian = none;
    pending_admin = none;
  }
  let s = set_balance admin supply (set_metadata meta s)
  ok (publish (Event.mint admin supply) (publish (Event.genesis admin supply) s))
