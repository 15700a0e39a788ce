-- ===== src/Registry/State.antt =====
-- contracts/registry/src/lib.rs: the stored data, the errors, the constants and the internal
-- helpers. Extending the lifetime of an entry (`bump`, `extend_ttl`) has no effect on the values.
use stellar_rwa_contracts.Base.{
  ℕ, ◌+◌, ◌^◌, Bool, true, false, not, ◌||◌, Option, none, some, List, [], ◌∷◌, ltb, ◌==◌,
  if◌then◌else◌,
}
use stellar_rwa_contracts.Base.Text.{Text, eq_text}
use stellar_rwa_contracts.Base.Int.{ℤ}
use stellar_rwa_contracts.Base.Dict.{Dict, lookup, insert}
use stellar_rwa_contracts.Base.Host.{
  Address, Result, ◌>>=◌, ◌>>◌, ok, panic_if, or_panic, or_trap, require_auth,
}

pub record AssetEntry : Type 0 where
  pub id : ℕ
  pub token_contract : Address
  pub issuer : Address
  pub name : Text
  pub asset_type : Text
  pub valuation : ℤ
  pub created_at : ℕ
  pub active : Bool

pub data Error : Type 0 where
  already_initialized not_initialized unauthorized asset_not_found invalid_valuation : Error
  overflow invalid_input no_pending_admin duplicate_asset : Error

-- The published events, by topic.
pub data Event : Type 0 where
  init : Address → Event
  register : Address → ℕ → Event
  deactivate reactivate : ℕ → Event
  valuation : ℕ → ℤ → ℤ → Event
  proposed set_admin : Address → Address → Event
  cancelled : Address → Event

-- The storage under each `DataKey` (`Ids` is never used), and the events, newest first.
pub record Registry : Type 0 where
  pub admin : Option Address
  pub pending_admin : Option Address
  pub counter : Option ℕ
  pub assets : Dict AssetEntry
  pub active : Option ℕ
  pub issuer_index : Address → Option (List ℕ)
  pub type_index : Text → Option (List ℕ)
  pub total_valuation : Option ℤ
  pub token_index : Address → Option ℕ
  pub events : List Event

-- What a call sees of the host: who has authorized it, the ledger sequence, and what the asset
-- token at an address answers for the `admin` of `get_metadata` (`none` if that call traps).
pub record Env : Type 0 where
  pub authorized : Address → Bool
  pub sequence : ℕ
  pub asset_admin : Address → Option Address

abbrev pub max_page_size : ℕ
max_page_size = 100

abbrev pub max_name_len : ℕ
max_name_len = 64

abbrev pub Outcome : Type 0
Outcome = Result Error Registry

abbrev pub publish : Event → Registry → Registry
publish e s = record s { events = e ∷ s.events }

unfoldable pub load : ℕ → Registry → Result Error AssetEntry
load id s = or_panic (lookup id s.assets) asset_not_found

abbrev pub set_asset : ℕ → AssetEntry → Registry → Registry
set_asset id entry s = record s { assets = insert id entry s.assets }

abbrev pub is_some {ℓ} : {A : Type ℓ} → Option A → Bool
is_some none = false
is_some (some _) = true

unfoldable pub assert_init : Registry → Result Error (Unit {0})
assert_init s = panic_if (not (is_some s.admin)) not_initialized

unfoldable pub require_admin : Env → Address → Registry → Result Error (Unit {0})
require_admin env admin s = do
  stored ← or_panic s.admin not_initialized
  require_auth env.authorized admin
  panic_if (not (stored == admin)) unauthorized

unfoldable pub require_admin_or_asset_admin :
    Env → Address → Address → Registry → Result Error (Unit {0})
require_admin_or_asset_admin env admin asset_token s = do
  stored ← or_panic s.admin not_initialized
  require_auth env.authorized admin
  (if admin == stored
      then ok tt
      else or_trap (env.asset_admin asset_token) >>= λ asset_admin.
          panic_if (not (admin == asset_admin)) unauthorized)

-- `n + 1`, which panics beyond `u64`.
unfoldable pub increment : ℕ → Result Error ℕ
increment n = or_trap (if ltb (n + 1) (2 ^ 64) then some (n + 1) else none)

-- The bytes of the recognised asset types: real_estate, invoice, commodity, bond, equity, fund.
abbrev pub valid_asset_types : List Text
valid_asset_types =
    (114 ∷ 101 ∷ 97 ∷ 108 ∷ 95 ∷ 101 ∷ 115 ∷ 116 ∷ 97 ∷ 116 ∷ 101 ∷ [])
    ∷ (105 ∷ 110 ∷ 118 ∷ 111 ∷ 105 ∷ 99 ∷ 101 ∷ [])
    ∷ (99 ∷ 111 ∷ 109 ∷ 109 ∷ 111 ∷ 100 ∷ 105 ∷ 116 ∷ 121 ∷ [])
    ∷ (98 ∷ 111 ∷ 110 ∷ 100 ∷ [])
    ∷ (101 ∷ 113 ∷ 117 ∷ 105 ∷ 116 ∷ 121 ∷ [])
    ∷ (102 ∷ 117 ∷ 110 ∷ 100 ∷ [])
    ∷ []

unfoldable pub is_one_of : Text → List Text → Bool
unfolding eq_text
is_one_of t [] = false
is_one_of t (v ∷ vs) = eq_text t v || is_one_of t vs

unfoldable pub validate_asset_type : Text → Result Error (Unit {0})
unfolding is_one_of
validate_asset_type t = panic_if (not (is_one_of t valid_asset_types)) invalid_input

-- Before `initialize`.
abbrev pub empty : Registry
empty = record {
  admin = none;
  pending_admin = none;
  counter = none;
  assets = [];
  active = none;
  issuer_index = λ _. none;
  type_index = λ _. none;
  total_valuation = none;
  token_index = λ _. none;
  events = [];
}
