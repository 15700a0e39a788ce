-- ===== src/Dividend/Claims.antt =====
-- contracts/dividend/src/lib.rs, `claimable` and `claim`.
use stellar_rwa_contracts.Base.{ℕ, Bool, true, not, ◌&&◌, some, ltb, ◌==◌, if◌then◌else◌}
use stellar_rwa_contracts.Base.Int.{ℤ, pos, ltb_ℤ, leb_ℤ, ◌/ℤ◌, checked_add, checked_mul}
use stellar_rwa_contracts.Base.Tables.{update_pair}
use stellar_rwa_contracts.Base.Host.{
  Address, Result, ◌>>=◌, ◌>>◌, ok, panic_if, or_panic, require_auth,
}
use stellar_rwa_contracts.Dividend.State.{
  Env, Dividend, Distribution, Event, Error, Payment, Outcome, publish, pay, set_dist,
  clear_snapshot, load, has_claimed, load_supply, snapshot_balance, nothing_to_claim,
  already_claimed, deadline_passed, over_distributed, arithmetic_overflow,
}

-- A holder's proportional share, rounded down.
unfoldable pub share : ℤ → ℤ → ℤ → Result Error ℤ
share total_amount basis supply = do
  product ← or_panic (checked_mul total_amount basis) arithmetic_overflow
  ok (product /ℤ supply)

-- `claimable` of a holder that has not claimed.
unfoldable pub entitlement : Distribution → ℕ → Address → Dividend → Result Error ℤ
unfolding load_supply snapshot_balance
entitlement dist id holder s =
    let supply = load_supply id s in
    if leb_ℤ supply (pos 0) then ok (pos 0) else do
      basis ← snapshot_balance id holder s
      (if leb_ℤ basis (pos 0) then ok (pos 0) else share dist.total_amount basis supply)

unfoldable pub claimable : ℕ → Address → Dividend → Result Error ℤ
unfolding load has_claimed
claimable id holder s = do
  dist ← load id s
  (if has_claimed id holder s then ok (pos 0) else entitlement dist id holder s)

-- Whether nothing of a distribution is left once this much is distributed.
abbrev pub finished : Distribution → ℤ → Bool
finished dist distributed = leb_ℤ dist.total_amount distributed

-- The distribution once this much is distributed.
abbrev pub settled : Distribution → ℤ → Distribution
settled dist distributed = record dist {
  distributed = distributed;
  completed = if finished dist distributed then true else dist.completed;
}

-- The end of `claim`, after the payment.
unfoldable pub settle_claim : ℕ → Address → ℤ → Distribution → Dividend → Outcome
settle_claim id holder amount dist s = do
  distributed ← or_panic (checked_add dist.distributed amount) arithmetic_overflow
  panic_if (ltb_ℤ dist.total_amount distributed) over_distributed
  let s = if finished dist distributed then clear_snapshot id s else s
  ok (publish (Event.claim holder id amount) (set_dist id (settled dist distributed) s))

-- The end of `claim`, for the amount that is due.
unfoldable pub pay_claim : Env → ℕ → Address → ℤ → Distribution → Dividend → Outcome
unfolding pay
pay_claim env id holder amount dist s = do
  panic_if (leb_ℤ amount (pos 0)) nothing_to_claim
  let s = record s { claimed = update_pair id holder (some true) s.claimed }
  let payment : Payment = record {
    token = dist.payment_token;
    from = env.this;
    to = holder;
    amount = amount;
  }
  s ← pay env payment s
  settle_claim id holder amount dist s

unfoldable pub claim : Env → ℕ → Address → Dividend → Outcome
unfolding load has_claimed
claim env id holder s = do
  require_auth env.authorized holder
  dist ← load id s
  panic_if dist.completed nothing_to_claim
  panic_if (not (dist.deadline == 0) && ltb dist.deadline env.sequence) deadline_passed
  panic_if (has_claimed id holder s) already_claimed
  amount ← claimable id holder s
  pay_claim env id holder amount dist s
