-- ===== src/Registry/Assets.antt =====
-- contracts/registry/src/lib.rs: the calls that register, close, reopen and value assets.
use stellar_rwa_contracts.Base.{
  ℕ, ◌-◌, true, false, not, some, [], ◌∷◌, ◌++◌, ltb, ◌==◌, if◌then◌else◌, unwrap_or, length,
}
use stellar_rwa_contracts.Base.Int.{ℤ, pos, ltb_ℤ, checked_add, checked_sub}
use stellar_rwa_contracts.Base.Tables.{update}
use stellar_rwa_contracts.Base.Host.{
  Address, Result, ◌>>=◌, ◌>>◌, ok, panic_if, or_panic, require_auth,
}
use stellar_rwa_contracts.Base.Text.{Text, update_text}
use stellar_rwa_contracts.Registry.State.{
  AssetEntry, Error, Event, Registry, Env, Outcome, publish, load, set_asset, is_some, assert_init,
  require_admin, require_admin_or_asset_admin, increment, validate_asset_type, max_name_len,
  invalid_valuation, invalid_input, duplicate_asset, overflow,
}

-- The total valuation after a checked addition.
unfoldable pub raise_total : ℤ → Registry → Outcome
raise_total valuation s = do
  new_tvl ← or_panic (checked_add (unwrap_or s.total_valuation (pos 0)) valuation) overflow
  ok (record s { total_valuation = some new_tvl })

unfoldable pub lower_total : ℤ → Registry → Outcome
lower_total valuation s = do
  new_tvl ← or_panic (checked_sub (unwrap_or s.total_valuation (pos 0)) valuation) overflow
  ok (record s { total_valuation = some new_tvl })

-- `register_asset` from the new id on.
unfoldable pub store_asset : AssetEntry → Registry → Outcome
unfolding raise_total increment
store_asset entry s = do
  active_count ← increment (unwrap_or s.active 0)
  let issuer_ids = unwrap_or (s.issuer_index entry.issuer) [] ++ entry.id ∷ []
  let type_ids = unwrap_or (s.type_index entry.asset_type) [] ++ entry.id ∷ []
  let s = set_asset entry.id entry (record s {
    token_index = update entry.token_contract (some entry.id) s.token_index;
    counter = some entry.id;
    active = some active_count;
    issuer_index = update entry.issuer (some issuer_ids) s.issuer_index;
    type_index = update_text entry.asset_type (some type_ids) s.type_index;
  })
  s ← raise_total entry.valuation s
  ok (publish (Event.register entry.issuer entry.id) s)

unfoldable pub register_asset :
    Env → Address → Address → Text → Text → ℤ → Registry → Result Error (ℕ × Registry)
unfolding assert_init validate_asset_type increment
register_asset env issuer token_contract name asset_type valuation s = do
  assert_init s
  require_auth env.authorized issuer
  panic_if (ltb_ℤ valuation (pos 0)) invalid_valuation
  panic_if (length name == 0) invalid_input
  panic_if (ltb max_name_len (length name)) invalid_input
  validate_asset_type asset_type
  panic_if (is_some (s.token_index token_contract)) duplicate_asset
  id ← increment (unwrap_or s.counter 0)
  let entry : AssetEntry = record {
    id = id;
    token_contract = token_contract;
    issuer = issuer;
    name = name;
    asset_type = asset_type;
    valuation = valuation;
    created_at = env.sequence;
    active = true;
  }
  s ← store_asset entry s
  ok (id, s)

-- `deactivate_asset` of an active asset, from the write of its entry on.
unfoldable pub close_asset : ℕ → AssetEntry → Registry → Outcome
unfolding lower_total
close_asset id entry s = do
  let s = record s { active = some (unwrap_or s.active 0 - 1) }
  s ← lower_total entry.valuation (set_asset id (record entry { active = false }) s)
  ok (publish (Event.deactivate id) s)

unfoldable pub deactivate_asset : Env → Address → ℕ → Registry → Outcome
unfolding load require_admin_or_asset_admin
deactivate_asset env admin asset_id s = do
  entry ← load asset_id s
  require_admin_or_asset_admin env admin entry.token_contract s
  (if not entry.active then ok s else close_asset asset_id entry s)

-- `reactivate_asset` of an inactive asset, from the write of its entry on.
unfoldable pub reopen_asset : ℕ → AssetEntry → Registry → Outcome
unfolding raise_total increment
reopen_asset id entry s = do
  active_count ← increment (unwrap_or s.active 0)
  let s = record s { active = some active_count }
  s ← raise_total entry.valuation (set_asset id (record entry { active = true }) s)
  ok (publish (Event.reactivate id) s)

unfoldable pub reactivate_asset : Env → Address → ℕ → Registry → Outcome
unfolding load require_admin_or_asset_admin
reactivate_asset env admin asset_id s = do
  entry ← load asset_id s
  require_admin_or_asset_admin env admin entry.token_contract s
  (if entry.active then ok s else reopen_asset asset_id entry s)

-- The total valuation with the old valuation of an active asset replaced.
unfoldable pub replace_total : ℤ → ℤ → Registry → Outcome
replace_total old new s = do
  left ← or_panic (checked_sub (unwrap_or s.total_valuation (pos 0)) old) overflow
  new_tvl ← or_panic (checked_add left new) overflow
  ok (record s { total_valuation = some new_tvl })

unfoldable pub update_valuation : Env → Address → ℕ → ℤ → Registry → Outcome
unfolding require_admin load
update_valuation env admin asset_id new_valuation s = do
  require_admin env admin s
  panic_if (ltb_ℤ new_valuation (pos 0)) invalid_valuation
  entry ← load asset_id s
  let s = set_asset asset_id (record entry { valuation = new_valuation }) s
  s ← (if entry.active then replace_total entry.valuation new_valuation s else ok s)
  ok (publish (Event.valuation asset_id entry.valuation new_valuation) s)
