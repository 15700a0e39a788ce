-- ===== src/Dividend/Creation.antt =====
-- contracts/dividend/src/lib.rs, `create_distribution` and `create_distribution_deadline`.
use stellar_rwa_contracts.Base.{
  ℕ, Bool, true, false, not, ◌&&◌, ◌||◌, some, List, [], ◌∷◌, ◌++◌, ltb, ◌==◌, unwrap_or,
}
use stellar_rwa_contracts.Base.Int.{ℤ, pos, ltb_ℤ, leb_ℤ, checked_add}
use stellar_rwa_contracts.Base.Tables.{update}
use stellar_rwa_contracts.Base.Host.{Address, Result, ◌>>=◌, ◌>>◌, ok, panic_if, or_panic, or_trap}
use stellar_rwa_contracts.Dividend.State.{
  Env, Dividend, Distribution, Event, Error, Payment, Snapshot, publish, pay, set_dist,
  require_admin_or_asset_admin, next_id, invalid_amount, zero_supply, duplicate_holder,
  arithmetic_overflow, deadline_in_past,
}

-- `seen.contains_key`
unfoldable pub contains : Address → List Address → Bool
contains a [] = false
contains a (b ∷ bs) = b == a || contains a bs

-- The loop over the eligible holders: the addresses seen so far and the sum of their balances.
unfoldable pub check_eligible : List Address → ℤ → Snapshot → Result Error ℤ
unfolding contains
check_eligible seen supply [] = ok supply
check_eligible seen supply ((addr, balance) ∷ eligible) = do
  panic_if (ltb_ℤ balance (pos 0)) invalid_amount
  panic_if (contains addr seen) duplicate_holder
  sum ← or_panic (checked_add supply balance) arithmetic_overflow
  check_eligible (addr ∷ seen) sum eligible

abbrev pub is_empty : Snapshot → Bool
is_empty [] = true
is_empty (_ ∷ _) = false

-- The payment that puts the funds into escrow.
abbrev pub funding : Env → Address → Address → ℤ → Payment
funding env admin payment_token total_amount = record {
  token = payment_token;
  from = admin;
  to = env.this;
  amount = total_amount;
}

abbrev pub new_distribution : Env → ℕ → Address → Address → ℤ → ℕ → Distribution
new_distribution env id asset_token payment_token total_amount deadline = record {
  id = id;
  asset_token = asset_token;
  payment_token = payment_token;
  total_amount = total_amount;
  distributed = pos 0;
  created_at = env.sequence;
  completed = false;
  deadline = deadline;
  cancelled = false;
}

-- From the escrow of the funds on.
unfoldable pub store_distribution :
    Env
    → Address
    → Address
    → Address
    → ℤ
    → Snapshot
    → ℕ
    → ℤ
    → Dividend
    → Result Error (ℕ × Dividend)
unfolding pay next_id
store_distribution env admin asset_token payment_token total_amount eligible deadline supply s = do
  s ← pay env (funding env admin payment_token total_amount) s
  id ← next_id s
  let dist = new_distribution env id asset_token payment_token total_amount deadline
  let ids = unwrap_or (s.asset_ids asset_token) [] ++ id ∷ []
  let s = set_dist id dist (record s {
    snapshots = update id (some eligible) s.snapshots;
    supplies = update id (some supply) s.supplies;
    asset_ids = update asset_token (some ids) s.asset_ids;
    counter = some id;
  })
  ok (id, publish (Event.created admin id total_amount) s)

unfoldable pub create_distribution_deadline :
    Env → Address → Address → Address → ℤ → Snapshot → ℕ → Dividend → Result Error (ℕ × Dividend)
unfolding require_admin_or_asset_admin
create_distribution_deadline env admin asset_token payment_token total_amount eligible deadline s =
    do
      require_admin_or_asset_admin env admin asset_token s
      panic_if (leb_ℤ total_amount (pos 0)) invalid_amount
      panic_if (not (deadline == 0) && ltb deadline env.sequence) deadline_in_past
      supply ← or_trap (env.asset_supply asset_token)
      panic_if (leb_ℤ supply (pos 0)) zero_supply
      panic_if (is_empty eligible) invalid_amount
      snapshot_supply ← check_eligible [] (pos 0) eligible
      store_distribution env admin asset_token payment_token total_amount eligible deadline
          snapshot_supply s

unfoldable pub create_distribution :
    Env → Address → Address → Address → ℤ → Snapshot → Dividend → Result Error (ℕ × Dividend)
unfolding create_distribution_deadline
create_distribution env admin asset_token payment_token total_amount eligible s =
    create_distribution_deadline env admin asset_token payment_token total_amount eligible 0 s
