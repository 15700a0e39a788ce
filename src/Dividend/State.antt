-- ===== src/Dividend/State.antt =====
-- contracts/dividend/src/lib.rs: the stored data, the errors and the internal helpers. Extending
-- the lifetime of an entry (`bump`, `extend_ttl`) has no effect on the values.
use stellar_rwa_contracts.Base.{
  ℕ, ◌+◌, ◌^◌, Bool, not, Option, none, some, List, [], ◌∷◌, ltb, ◌==◌, if◌then◌else◌, unwrap_or,
}
use stellar_rwa_contracts.Base.Int.{ℤ, pos}
use stellar_rwa_contracts.Base.Dict.{Dict, lookup, insert}
use stellar_rwa_contracts.Base.Tables.{update}
use stellar_rwa_contracts.Base.Host.{
  Address, Result, ◌>>=◌, ◌>>◌, ok, err, trap, panic_if, or_panic, or_trap, require_auth,
}

pub record Distribution : Type 0 where
  pub id : ℕ
  pub asset_token : Address
  pub payment_token : Address
  pub total_amount : ℤ
  pub distributed : ℤ
  pub created_at : ℕ
  pub completed : Bool
  pub deadline : ℕ
  pub cancelled : Bool

pub data Error : Type 0 where
  already_initialized not_initialized unauthorized distribution_not_found invalid_amount : Error
  nothing_to_claim already_claimed zero_supply over_distributed arithmetic_overflow : Error
  duplicate_holder no_pending_admin deadline_passed deadline_not_reached no_deadline : Error
  distribution_too_young deadline_in_past : Error

-- The published events, by topic.
pub data Event : Type 0 where
  init cancelled : Address → Event
  created : Address → ℕ → ℤ → Event
  claim reclaim : Address → ℕ → ℤ → Event
  cancel : Address → ℕ → Event
  proposed set_admin : Address → Address → Event

-- A call of `transfer` of a payment token.
pub record Payment : Type 0 where
  pub token : Address
  pub from : Address
  pub to : Address
  pub amount : ℤ

-- A list of holders with their balances.
abbrev pub Snapshot : Type 0
Snapshot = List (Address × ℤ)

-- The storage under each `DataKey` (`Ids` is never used), and, newest first, the payments that
-- have been made and the events.
pub record Dividend : Type 0 where
  pub admin : Option Address
  pub pending_admin : Option Address
  pub counter : Option ℕ
  pub dists : Dict Distribution
  pub claimed : ℕ → Address → Option Bool
  pub asset_ids : Address → Option (List ℕ)
  pub supplies : ℕ → Option ℤ
  pub snapshots : ℕ → Option Snapshot
  pub payments : List Payment
  pub events : List Event

-- What a call sees of the host: who has authorized it, the ledger sequence, the contract's own
-- address, what the asset token at an address answers to `total_supply` and for the `admin` of
-- `get_metadata`, and whether a payment token carries out a transfer (`none` and `false`: the
-- call traps).
pub record Env : Type 0 where
  pub authorized : Address → Bool
  pub sequence : ℕ
  pub this : Address
  pub asset_supply : Address → Option ℤ
  pub asset_admin : Address → Option Address
  pub carries_out : Payment → Bool

abbrev pub Outcome : Type 0
Outcome = Result Error Dividend

abbrev pub publish : Event → Dividend → Dividend
publish e s = record s { events = e ∷ s.events }

-- `TokenClient::new(env, token).transfer(from, to, amount)`
unfoldable pub pay : Env → Payment → Dividend → Outcome
pay env p s = if env.carries_out p then ok (record s { payments = p ∷ s.payments }) else err trap

abbrev pub set_dist : ℕ → Distribution → Dividend → Dividend
set_dist id d s = record s { dists = insert id d s.dists }

-- Removes the snapshot and the supply of a distribution.
abbrev pub clear_snapshot : ℕ → Dividend → Dividend
clear_snapshot id s = record s {
  snapshots = update id none s.snapshots;
  supplies = update id none s.supplies;
}

unfoldable pub load : ℕ → Dividend → Result Error Distribution
load id s = or_panic (lookup id s.dists) distribution_not_found

unfoldable pub get_distribution : ℕ → Dividend → Result Error Distribution
unfolding load
get_distribution id s = load id s

unfoldable pub has_claimed : ℕ → Address → Dividend → Bool
has_claimed id holder s = unwrap_or (s.claimed id holder) Bool.false

unfoldable pub load_supply : ℕ → Dividend → ℤ
load_supply id s = unwrap_or (s.supplies id) (pos 0)

-- The first entry of a holder, 0 if there is none.
unfoldable pub find_balance : Address → Snapshot → ℤ
find_balance holder [] = pos 0
find_balance holder ((h, b) ∷ snap) = if h == holder then b else find_balance holder snap

unfoldable pub snapshot_balance : ℕ → Address → Dividend → Result Error ℤ
snapshot_balance id holder s = do
  snap ← or_panic (s.snapshots id) distribution_not_found
  ok (find_balance holder snap)

unfoldable pub get_admin : Dividend → Result Error Address
get_admin s = or_panic s.admin not_initialized

unfoldable pub get_pending_admin : Dividend → Option Address
get_pending_admin s = s.pending_admin

unfoldable pub require_admin : Env → Address → Dividend → Result Error (Unit {0})
require_admin env admin s = do
  stored ← or_panic s.admin not_initialized
  require_auth env.authorized admin
  panic_if (not (stored == admin)) unauthorized

unfoldable pub require_admin_or_asset_admin :
    Env → Address → Address → Dividend → Result Error (Unit {0})
require_admin_or_asset_admin env admin asset_token s = do
  stored ← or_panic s.admin not_initialized
  require_auth env.authorized admin
  (if admin == stored
      then ok tt
      else or_trap (env.asset_admin asset_token) >>= λ asset_admin.
          panic_if (not (admin == asset_admin)) unauthorized)

-- `id + 1`, which panics beyond `u64`.
unfoldable pub next_id : Dividend → Result Error ℕ
next_id s =
    let id = unwrap_or s.counter 0 + 1 in or_trap (if ltb id (2 ^ 64) then some id else none)

-- The distributions of the ids that are stored, in their order.
unfoldable pub collect : Dict Distribution → List ℕ → List Distribution
collect dists [] = []
collect dists (id ∷ ids) =
    let out = collect dists ids in elim (lookup id dists) [ none ↦ out | some d ↦ d ∷ out ]

unfoldable pub get_distributions_for_asset : Address → Dividend → List Distribution
get_distributions_for_asset asset_token s = collect s.dists (unwrap_or (s.asset_ids asset_token) [])

-- Before `initialize`.
abbrev pub empty : Dividend
empty = record {
  admin = none;
  pending_admin = none;
  counter = none;
  dists = [];
  claimed = λ _ _. none;
  asset_ids = λ _. none;
  supplies = λ _. none;
  snapshots = λ _. none;
  payments = [];
  events = [];
}
