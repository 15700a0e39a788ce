-- ===== src/Registry/Tests.antt =====
-- contracts/registry/src/lib.rs: the registry on concrete calls.
use stellar_rwa_contracts.Base.{◌≡◌, arith, ℕ, some, true, List, [], ◌∷◌}
use stellar_rwa_contracts.Base.Int.{pos}
use stellar_rwa_contracts.Registry.State.{Env, empty}
use stellar_rwa_contracts.Base.Text.{eq_text}
use stellar_rwa_contracts.Registry.Calls.{Call, run}
use stellar_rwa_contracts.Registry.Totals.{Totalled}
use stellar_rwa_contracts.Registry.Pages.{fetch}
use stellar_rwa_contracts.Registry.State.{AssetEntry}
use stellar_rwa_contracts.Registry.Calls.{step, execute}
use stellar_rwa_contracts.Registry.Admin.{initialize}
use stellar_rwa_contracts.Registry.Assets.{
  register_asset, store_asset, raise_total, deactivate_asset, close_asset, lower_total,
  update_valuation, replace_total,
}
use stellar_rwa_contracts.Registry.State.{
  increment, assert_init, validate_asset_type, is_one_of, load, require_admin,
  require_admin_or_asset_admin,
}
use stellar_rwa_contracts.Base.Dict.{lookup, insert}
use stellar_rwa_contracts.Base.Int.{checked_add, checked_sub, ◌+ℤ◌, ◌-ℤ◌}
use stellar_rwa_contracts.Base.{refl}
use stellar_rwa_contracts.Registry.Authority.{KeepsEntry, step-Keeps}
use stellar_rwa_contracts.Registry.Paging.{pages, pages-fetch}
use stellar_rwa_contracts.Registry.Histories.{run-empty-Totalled}
use stellar_rwa_contracts.Registry.Catalog.{Catalogued}
use stellar_rwa_contracts.Registry.CatalogHistories.{run-empty-Totalled-Catalogued}

-- Everybody has authorized the call.
abbrev env : Env
env = record { authorized = λ _. true; sequence = 10; asset_admin = λ _. some 5 }

abbrev bond : List ℕ
bond = 98 ∷ 111 ∷ 110 ∷ 100 ∷ []

-- 1 is the admin; two bonds are registered, one of them is closed, the other revalued.
abbrev history : List (Env × Call)
history =
    (env, Call.initialize 1)
    ∷ (env, Call.register_asset 2 8 (65 ∷ []) bond (pos 100))
    ∷ (env, Call.register_asset 2 9 (66 ∷ []) bond (pos 70))
    ∷ (env, Call.deactivate_asset 1 1)
    ∷ (env, Call.update_valuation 1 2 (pos 75))
    ∷ []

run-empty-Totalled-Catalogued_example :
    Totalled (run empty history) × Catalogued (run empty history)
run-empty-Totalled-Catalogued_example = run-empty-Totalled-Catalogued history

pages-fetch_example :
    pages (run empty history).assets (1 ∷ 2 ∷ []) 1 2
    ≡ fetch (run empty history).assets (1 ∷ 2 ∷ [])
pages-fetch_example =
    pages-fetch (run empty history).assets (1 ∷ 2 ∷ []) 1 2 (omega arith) (omega arith)
      (omega arith)

abbrev second : AssetEntry
second = record {
  id = 2;
  token_contract = 9;
  issuer = 2;
  name = 66 ∷ [];
  asset_type = bond;
  valuation = pos 75;
  created_at = 10;
  active = true;
}

step-Keeps_example :
    KeepsEntry env 2 second
      (run empty history)
      (step (run empty history) (env, Call.deactivate_asset 5 2))
unfolding run step execute initialize register_asset store_asset raise_total deactivate_asset
    close_asset lower_total update_valuation replace_total increment assert_init validate_asset_type
    is_one_of eq_text load require_admin require_admin_or_asset_admin lookup insert checked_add
    checked_sub ◌+ℤ◌ ◌-ℤ◌
step-Keeps_example =
    step-Keeps env (Call.deactivate_asset 5 2) 2 second (run empty history)
      (run-empty-Totalled history) refl
