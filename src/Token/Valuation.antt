-- ===== src/Token/Valuation.antt =====
-- contracts/asset-token/src/lib.rs, `update_valuation`: how far the valuation can move.
use stellar_rwa_contracts.Base.{ℕ, ◌≡◌, some, true, arith, ◌<◌, ◌≤◌, ◌≢◌, ◌+◌, ◌/◌}
use stellar_rwa_contracts.Base.Int.{
  ℤ, pos, negsuc, ◌-ℤ◌, ◌*ℤ◌, ◌/ℤ◌, ◌≤ℤ◌, ◌<ℤ◌, abs, checked_sub, checked_mul, in_i128, pos_part,
}
use stellar_rwa_contracts.Base.Host.{Address, ok, err, error}
use stellar_rwa_contracts.Token.State.{Env, Token, AssetMetadata, valuation_change_too_large}
use stellar_rwa_contracts.Token.Admin.{check_change, update_valuation}

-- The change that `check_change` lets pass: at most half of the old valuation.
check_change-bound :
    (a b : ℕ) → check_change (pos a) (pos b) ≡ ok tt → (b ≤ a + a / 2) × (a ≤ b + a / 2)
unfolding check_change abs ◌-ℤ◌ ◌*ℤ◌ ◌/ℤ◌ checked_sub checked_mul
check_change-bound a b h = ground arith

-- An accepted update of a positive valuation was authorized by the admin, changes nothing else of
-- the metadata, and moves it by at most half of its old value, so it stays positive.
pub update_valuation-bound :
    (env : Env) (admin : Address) (s s' : Token) (m : AssetMetadata) (a : ℕ) (v : ℤ)
    → s.metadata ≡ some m
    → m.valuation ≡ pos a
    → 0 < a
    → update_valuation env admin v s ≡ ok s'
    → (pos 0 <ℤ v)
      × (pos_part v ≤ a + a / 2)
      × (a ≤ pos_part v + a / 2)
      × (s'.metadata ≡ some (record m { valuation = v }))
      × (env.authorized m.admin ≡ true)
      × (admin ≡ m.admin)
unfolding update_valuation
update_valuation-bound env admin s s' m a (pos b) e w p h = ground (arith, check_change-bound a b)
update_valuation-bound env admin s s' m a (negsuc b) e w p h = ground arith

-- A valuation of one cent is final: the limit of 50% rounds down to no change at all.
update_valuation-stuck :
    (env : Env) (s : Token) (m : AssetMetadata) (v : ℤ)
    → s.metadata ≡ some m
    → m.valuation ≡ pos 1
    → env.authorized m.admin ≡ true
    → pos 0 ≤ℤ v
    → in_i128 v ≡ true
    → v ≢ pos 1
    → update_valuation env m.admin v s ≡ err (error valuation_change_too_large)
unfolding update_valuation check_change abs ◌-ℤ◌ ◌*ℤ◌ ◌/ℤ◌ checked_sub checked_mul
update_valuation-stuck env s m v e w a p r ne = ground arith
