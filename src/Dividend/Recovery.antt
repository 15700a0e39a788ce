-- ===== src/Dividend/Recovery.antt =====
-- contracts/dividend/src/lib.rs, `reclaim_unclaimed` and `cancel_distribution`.
use stellar_rwa_contracts.Base.{ℕ, true, leb, ◌==◌}
use stellar_rwa_contracts.Base.Int.{ℤ, pos, ltb_ℤ, leb_ℤ, checked_sub}
use stellar_rwa_contracts.Base.Host.{Address, Result, ◌>>=◌, ◌>>◌, ok, panic_if, or_trap}
use stellar_rwa_contracts.Dividend.State.{
  Env, Dividend, Distribution, Event, Error, Payment, Outcome, publish, pay, set_dist,
  clear_snapshot, load, require_admin, nothing_to_claim, no_deadline, deadline_not_reached,
  invalid_amount,
}

unfoldable pub reclaim_unclaimed : Env → Address → ℕ → Dividend → Result Error (ℤ × Dividend)
unfolding require_admin load pay
reclaim_unclaimed env admin id s = do
  require_admin env admin s
  dist ← load id s
  panic_if (dist.deadline == 0) no_deadline
  panic_if (leb env.sequence dist.deadline) deadline_not_reached
  panic_if dist.completed nothing_to_claim
  remaining ← or_trap (checked_sub dist.total_amount dist.distributed)
  panic_if (leb_ℤ remaining (pos 0)) nothing_to_claim
  let payment : Payment = record {
    token = dist.payment_token;
    from = env.this;
    to = admin;
    amount = remaining;
  }
  s ← pay env payment s
  let dist' : Distribution = record dist { distributed = dist.total_amount; completed = true }
  let s = set_dist id dist' (clear_snapshot id s)
  ok (remaining, publish (Event.reclaim admin id remaining) s)

unfoldable pub cancel_distribution : Env → Address → ℕ → Dividend → Outcome
unfolding require_admin load pay
cancel_distribution env admin id s = do
  require_admin env admin s
  dist ← load id s
  panic_if (ltb_ℤ (pos 0) dist.distributed) invalid_amount
  panic_if dist.completed nothing_to_claim
  let payment : Payment = record {
    token = dist.payment_token;
    from = env.this;
    to = admin;
    amount = dist.total_amount;
  }
  s ← pay env payment s
  let cancelled_dist : Distribution = record dist { completed = true; cancelled = true }
  ok (publish (Event.cancel admin id) (set_dist id cancelled_dist (clear_snapshot id s)))
