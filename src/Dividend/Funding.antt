-- ===== src/Dividend/Funding.antt =====
-- contracts/dividend/src/lib.rs: open distributions, their snapshots and the shares of those who
-- have claimed.
use native.Mathlib.Nat.{mul-zero, div-zero, zero-div}
use stellar_rwa_contracts.Base.{
  zero, suc, ℕ, ◌≡◌, sym, ap, ◌∙◌, none, some, true, false, arith, ◌==◌, if◌then◌else◌, ◌<◌,
  unwrap_or, ◌*◌, ◌+◌, length,
}
use stellar_rwa_contracts.Base.Int.{ℤ, pos, negsuc, ◌+ℤ◌, leb_ℤ, pos_part}
use stellar_rwa_contracts.Base.Dict.{lookup}
use stellar_rwa_contracts.Base.Host.{Address, Result, ok}
use stellar_rwa_contracts.Dividend.State.{
  Dividend, Distribution, Error, Snapshot, has_claimed, find_balance,
}
use stellar_rwa_contracts.Dividend.Claims.{share, entitlement, settled}
use stellar_rwa_contracts.Dividend.Shares.{
  total_balance, shares_of, floor_share, IsProper, shares-cong, shares-claim, share-floor,
}

-- An open distribution has its frozen snapshot, and has paid the shares of those who have claimed.
pub record Funds (s : Dividend) (id : ℕ) (d : Distribution) : Type 0 where
  pub total : ℕ
  pub supply : ℕ
  pub snapshot : Snapshot
  pub total_is : d.total_amount ≡ pos total
  pub supply_is : s.supplies id ≡ some (pos supply)
  pub snapshot_is : s.snapshots id ≡ some snapshot
  pub proper : IsProper snapshot
  pub nonempty : 0 < length snapshot
  pub summed : total_balance snapshot ≡ supply
  pub paid : d.distributed ≡ pos (shares_of (λ h. has_claimed id h s) total supply snapshot)

-- Ids above the counter are unused and unclaimed, before `initialize` nothing is stored, and every
-- open distribution is funded.
pub record Tracked (s : Dividend) : Type 0 where
  pub fresh :
      (id : ℕ)
      → unwrap_or s.counter 0 < id
      → (lookup id s.dists ≡ none) × ((h : Address) → s.claimed id h ≡ none)
  pub unused :
      s.admin ≡ none
      → (id : ℕ) → (lookup id s.dists ≡ none) × ((h : Address) → s.claimed id h ≡ none)
  pub funded :
      (id : ℕ) (d : Distribution) → lookup id s.dists ≡ some d → d.completed ≡ false → Funds s id d

-- Funding depends on the supply, the snapshot and the claims under the id.
pub Funds-cong :
    (s s' : Dividend) (id : ℕ) (d : Distribution)
    → s'.supplies id ≡ s.supplies id
    → s'.snapshots id ≡ s.snapshots id
    → ((h : Address) → s'.claimed id h ≡ s.claimed id h)
    → Funds s id d
    → Funds s' id d
unfolding has_claimed
Funds-cong s s' id d p q r f = record {
  total = f.total;
  supply = f.supply;
  snapshot = f.snapshot;
  total_is = f.total_is;
  supply_is = p ∙ f.supply_is;
  snapshot_is = q ∙ f.snapshot_is;
  proper = f.proper;
  nonempty = f.nonempty;
  summed = f.summed;
  paid =
      f.paid
      ∙ ap pos (
          sym (
            shares-cong (λ h. has_claimed id h s) (λ h. has_claimed id h s') f.total f.supply
              f.snapshot (λ h. ap (λ o. unwrap_or o false) (r h))));
}

pos_add : (a b : ℕ) → pos a +ℤ pos b ≡ pos (a + b)
unfolding ◌+ℤ◌
pos_add a b = ground arith

-- The claim of one more holder, for the share that is due.
pub Funds-claim :
    (s s' : Dividend) (id : ℕ) (holder : Address) (x : ℤ) (d : Distribution)
    → (f : Funds s id d) → s'.supplies id ≡ s.supplies id
    → s'.snapshots id ≡ s.snapshots id
    → ((h : Address) → has_claimed id h s' ≡ (if h == holder then true else has_claimed id h s))
    → has_claimed id holder s ≡ false
    → x ≡ pos (floor_share f.total (pos_part (find_balance holder f.snapshot)) f.supply)
    → Funds s' id (settled d (d.distributed +ℤ x))
Funds-claim s s' id holder x d f p q r n e = record {
  total = f.total;
  supply = f.supply;
  snapshot = f.snapshot;
  total_is = f.total_is;
  supply_is = p ∙ f.supply_is;
  snapshot_is = q ∙ f.snapshot_is;
  proper = f.proper;
  nonempty = f.nonempty;
  summed = f.summed;
  paid =
      rw (f.paid, e)
        (pos_add _ _
          ∙ ap pos (
              sym (
                shares-claim (λ h. has_claimed id h s) (λ h. has_claimed id h s') holder f.total
                  f.supply f.snapshot f.proper n r)));
}

share_or_zero : ℕ → ℕ → ℤ → Result Error ℤ
share_or_zero t s b =
    if leb_ℤ (pos s) (pos 0)
    then ok (pos 0)
    else (if leb_ℤ b (pos 0) then ok (pos 0) else share (pos t) b (pos s))

share_or_zero-floor :
    (t s : ℕ) (b r : ℤ) → share_or_zero t s b ≡ ok r → r ≡ pos (floor_share t (pos_part b) s)
unfolding share_or_zero
share_or_zero-floor t zero b r h = ground (arith, div-zero (t * pos_part b))
share_or_zero-floor t (suc s) (negsuc n) r h = ground (arith, mul-zero t, zero-div (suc s))
share_or_zero-floor t (suc s) (pos n) r h =
    ground (arith, mul-zero t, zero-div (suc s), share-floor t n (suc s) r)

-- What `claimable` computes for a holder of a funded distribution that has not claimed.
pub entitlement-floor :
    (s : Dividend) (id : ℕ) (holder : Address) (d : Distribution) (f : Funds s id d) (r : ℤ)
    → entitlement d id holder s ≡ ok r
    → r ≡ pos (floor_share f.total (pos_part (find_balance holder f.snapshot)) f.supply)
unfolding entitlement share_or_zero
entitlement-floor s id holder d f r h =
    share_or_zero-floor f.total f.supply (find_balance holder f.snapshot) r
      (rw (← f.total_is) (ground (arith, f.supply_is, f.snapshot_is)))
