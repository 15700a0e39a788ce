-- ===== src/Token/State.antt =====
-- contracts/asset-token/src/lib.rs: the stored data, the errors, the constants and the internal
-- helpers. Extending the lifetime of an entry (`bump`, `extend_ttl`) has no effect on the values.
use stellar_rwa_contracts.Base.{
  ℕ, Bool, not, Option, none, some, List, ◌∷◌, ltb, ◌||◌, ◌==◌, unwrap_or, length,
}
use stellar_rwa_contracts.Base.Int.{ℤ, pos, leb_ℤ}
use stellar_rwa_contracts.Base.Dict.{Dict, lookup, insert}
use stellar_rwa_contracts.Base.Host.{
  Address, Result, ◌>>=◌, ◌>>◌, ok, panic_if, or_panic, or_trap, require_auth,
}

-- A `String` of the host: its bytes.
abbrev pub Text : Type 0
Text = List ℕ

pub record AssetMetadata : Type 0 where
  pub name : Text
  pub symbol : Text
  pub asset_type : Text
  pub total_supply : ℤ
  pub decimals : ℕ
  pub admin : Address
  pub compliance_contract : Address
  pub asset_description : Text
  pub valuation : ℤ
  pub paused : Bool
  pub guardian : Option Address
  pub pending_admin : Option Address

pub record AllowanceValue : Type 0 where
  pub amount : ℤ
  pub expiration_ledger : ℕ

pub data Error : Type 0 where
  already_initialized not_initialized unauthorized insufficient_balance invalid_amount : Error
  is_paused sender_not_compliant recipient_not_compliant overflow invalid_input : Error
  invalid_compliance no_pending_admin insufficient_allowance valuation_change_too_large : Error

-- The published events, by topic.
pub data Event : Type 0 where
  genesis mint burn : Address → ℤ → Event
  transfer : Address → Address → ℤ → ℤ → ℤ → Event
  approve : Address → Address → ℤ → ℕ → Event
  pause unpause cancelled : Address → Event
  guardian : Option Address → Event
  valuation : ℤ → ℤ → Event
  setcomp proposed set_admin : Address → Address → Event

-- The storage under each `DataKey`, and the events so far, newest first.
pub record Token : Type 0 where
  pub metadata : Option AssetMetadata
  pub balances : Dict ℤ
  pub allowances : Address → Address → Option AllowanceValue
  pub events : List Event

-- What a call sees of the host: who has authorized it, the ledger sequence, what the contract at
-- an address answers to `is_allowed` (`none` if that call traps), and whether the host accepts to
-- extend a temporary entry by a number of ledgers.
pub record Env : Type 0 where
  pub authorized : Address → Bool
  pub sequence : ℕ
  pub is_allowed : Address → Address → Option Bool
  pub accepts_ttl : ℕ → Bool

abbrev pub max_name_len : ℕ
max_name_len = 64

abbrev pub max_symbol_len : ℕ
max_symbol_len = 16

abbrev pub max_asset_type_len : ℕ
max_asset_type_len = 32

abbrev pub max_desc_len : ℕ
max_desc_len = 256

abbrev pub max_valuation_change_bps : ℤ
max_valuation_change_bps = pos 5000

abbrev pub bps_denominator : ℤ
bps_denominator = pos 10000

abbrev pub Outcome : Type 0
Outcome = Result Error Token

abbrev pub publish : Event → Token → Token
publish e s = record s { events = e ∷ s.events }

abbrev pub set_metadata : AssetMetadata → Token → Token
set_metadata m s = record s { metadata = some m }

unfoldable pub metadata : Token → Result Error AssetMetadata
metadata s = or_panic s.metadata not_initialized

unfoldable pub require_admin : Env → Address → Token → Result Error AssetMetadata
unfolding metadata
require_admin env admin s = do
  meta ← metadata s
  require_auth env.authorized admin
  panic_if (not (meta.admin == admin)) unauthorized
  ok meta

unfoldable pub compliant : Env → Address → Address → Result Error Bool
compliant env compliance who = or_trap (env.is_allowed compliance who)

unfoldable pub check_amount : ℤ → Result Error (Unit {0})
check_amount amount = panic_if (leb_ℤ amount (pos 0)) invalid_amount

unfoldable pub check_str : Text → ℕ → ℕ → Result Error (Unit {0})
check_str s min_len max_len =
    panic_if (ltb (length s) min_len || ltb max_len (length s)) invalid_input

unfoldable pub balance : Token → Address → ℤ
balance s id = unwrap_or (lookup id s.balances) (pos 0)

unfoldable pub set_balance : Address → ℤ → Token → Token
set_balance id amount s = record s { balances = insert id amount s.balances }

unfoldable pub total_supply : Token → Result Error ℤ
unfolding metadata
total_supply s = do meta ← metadata s; ok meta.total_supply

unfoldable pub get_metadata : Token → Result Error AssetMetadata
unfolding metadata
get_metadata s = metadata s

unfoldable pub get_pending_admin : Token → Result Error (Option Address)
unfolding metadata
get_pending_admin s = do meta ← metadata s; ok meta.pending_admin

-- Before `initialize`.
abbrev pub empty : Token
empty = record { metadata = none; balances = List.[]; allowances = λ _ _. none; events = List.[] }
