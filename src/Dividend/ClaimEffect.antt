-- ===== src/Dividend/ClaimEffect.antt =====
-- contracts/dividend/src/lib.rs, `claim`: when it succeeds and what it leaves behind.
use native.Mathlib.Nat.{div-zero}
use stellar_rwa_contracts.Base.{
  ap, none, ◌/◌, ◌&&◌, zero, suc, ℕ, ◌≡◌, refl, sym, subst, ◌∙◌, some, true, false, arith, ◌==◌,
  if◌then◌else◌, ◌<◌, ◌≤◌, ◌*◌, ◌+◌, Bool, ◌⊎◌, ◌↔◌, inl, inr, ◌∷◌,
}
use stellar_rwa_contracts.Base.Int.{
  ℤ, pos, leb_ℤ, ◌+ℤ◌, ◌≤ℤ◌, ◌<ℤ◌, int_laws, in_i128, checked_add-between, checked_add-cases,
  pos_part,
}
use stellar_rwa_contracts.Base.Dict.{insert, lookup, lookup-insert}
use stellar_rwa_contracts.Base.Host.{Address, ok, succeeds, Result-cases}
use stellar_rwa_contracts.Dividend.State.{
  Env, Dividend, Distribution, Snapshot, has_claimed, find_balance,
}
use stellar_rwa_contracts.Dividend.Claims.{entitlement, claimable, settle_claim, pay_claim, claim}
use stellar_rwa_contracts.Dividend.Escrow.{claim_payment, claim_paid}
use stellar_rwa_contracts.Dividend.Shares.{
  total_balance, shares_of, floor_share, IsProper, shares-le-total, shares-claim,
}
use stellar_rwa_contracts.Dividend.Funding.{Funds, Tracked, entitlement-floor}

floor_share-le :
    (c : Address → Bool) (holder : Address) (t s : ℕ) (es : Snapshot)
    → IsProper es
    → total_balance es ≡ s
    → c holder ≡ false
    → 0 < floor_share t (pos_part (find_balance holder es)) s
    → shares_of c t s es + floor_share t (pos_part (find_balance holder es)) s ≤ t
floor_share-le c holder t zero es p e n lt =
    ground (arith, div-zero (t * pos_part (find_balance holder es)))
floor_share-le c holder t (suc s) es p e n lt =
    let c' : Address → Bool = λ h. if h == holder then true else c h in
    subst (λ n. n ≤ t) (shares-claim c c' holder t (suc s) es p n (λ h. refl))
      (shares-le-total c' t (suc s) es (omega arith) e)

pos_le : (a b t : ℕ) (x y z : ℤ) → x ≡ pos a → y ≡ pos b → z ≡ pos t → a + b ≤ t → x +ℤ y ≤ℤ z
unfolding ◌+ℤ◌
pos_le a b t x y z p q r h = ground arith

pos_lt : (n : ℕ) (x : ℤ) → x ≡ pos n → pos 0 <ℤ x → 0 < n
pos_lt n x e h = ground arith

add_nonneg : (n : ℕ) (x y : ℤ) → y ≡ pos n → pos 0 <ℤ x → pos 0 ≤ℤ y +ℤ x
add_nonneg n x y e h = grind int_laws

-- What is due to a holder is still within the total.
pub due-le-total :
    (s : Dividend) (id : ℕ) (holder : Address) (d : Distribution) (x : ℤ)
    → Funds s id d
    → has_claimed id holder s ≡ false
    → entitlement d id holder s ≡ ok x
    → pos 0 <ℤ x
    → d.distributed +ℤ x ≤ℤ d.total_amount
due-le-total s id holder d x f n e lt =
    let q = entitlement-floor s id holder d f x e in
    pos_le _ _ f.total d.distributed x d.total_amount f.paid q f.total_is (
      floor_share-le (λ h. has_claimed id h s) holder f.total f.supply f.snapshot f.proper f.summed
        n (pos_lt _ x q lt))

settle_succeeds :
    (id : ℕ) (holder : Address) (x : ℤ) (d : Distribution) (s : Dividend)
    → pos 0 ≤ℤ d.distributed +ℤ x
    → d.distributed +ℤ x ≤ℤ d.total_amount
    → in_i128 d.total_amount ≡ true
    → succeeds (settle_claim id holder x d s) ≡ true
unfolding settle_claim
settle_succeeds id holder x d s p q r =
    ground (arith, checked_add-between d.distributed x d.total_amount p q r)

-- What a claim of `x` needs.
pub record MayClaim (env : Env) (id : ℕ) (holder : Address) (x : ℤ) (d : Distribution)
    (s : Dividend) : Type 0 where
  pub authorized : env.authorized holder ≡ true
  pub stored : lookup id s.dists ≡ some d
  pub unfinished : d.completed ≡ false
  pub in_time : (d.deadline ≡ 0) ⊎ (env.sequence ≤ d.deadline)
  pub unclaimed : has_claimed id holder s ≡ false
  pub due : entitlement d id holder s ≡ ok x
  pub positive : pos 0 <ℤ x
  pub carried_out : env.carries_out (claim_payment env holder x d) ≡ true

pay_claim-succeeds :
    (env : Env) (id : ℕ) (holder : Address) (x : ℤ) (d : Distribution) (s : Dividend)
    → Tracked s
    → in_i128 d.total_amount ≡ true
    → MayClaim env id holder x d s
    → succeeds (pay_claim env id holder x d s) ≡ true
unfolding pay_claim
pay_claim-succeeds env id holder x d s v r m =
    let f = v.funded id d m.stored m.unfinished in
    let le = due-le-total s id holder d x f m.unclaimed m.due m.positive in
    ground (
      arith,
      m.positive,
      m.carried_out,
      settle_succeeds id holder x d (claim_paid env id holder x d s)
          (add_nonneg _ x d.distributed f.paid m.positive) le r,
    )

claim_is-pay :
    (env : Env) (id : ℕ) (holder : Address) (x : ℤ) (d : Distribution) (s : Dividend)
    → MayClaim env id holder x d s
    → claim env id holder s ≡ pay_claim env id holder x d s
unfolding claim claimable
claim_is-pay env id holder x d s m =
    ground (arith, m.authorized, m.stored, m.unfinished, m.in_time, m.unclaimed, m.due)

may-claim :
    (env : Env) (id : ℕ) (holder : Address) (d : Distribution) (s : Dividend)
    → lookup id s.dists ≡ some d
    → succeeds (claim env id holder s) ≡ true
    → (x : ℤ) × MayClaim env id holder x d s
unfolding claim claimable pay_claim
may-claim env id holder d s e h = elim (Result-cases (entitlement d id holder s)) [
  | inl (x, k) ↦ (
    x,
    record {
      authorized = ground arith;
      stored = e;
      unfinished = ground arith;
      in_time = ground arith;
      unclaimed = ground arith;
      due = k;
      positive = ground arith;
      carried_out = ground arith;
    },
  )
  | inr (f, k) ↦ ground arith
]

-- For a stored distribution whose total is an `i128`, in a state where the open distributions are
-- funded: a claim succeeds exactly when some amount `x` is due that may be claimed, that is when
-- the holder has authorized the call and has not claimed, the distribution is not completed, its
-- deadline (if any) has not passed, the share `x` computed for the holder is positive, and the
-- payment token carries out the payment of `x`. In particular it never fails by distributing more
-- than the total.
pub claim-succeeds :
    (env : Env) (id : ℕ) (holder : Address) (d : Distribution) (s : Dividend)
    → Tracked s
    → lookup id s.dists ≡ some d
    → in_i128 d.total_amount ≡ true
    → (succeeds (claim env id holder s) ≡ true) ↔ ((x : ℤ) × MayClaim env id holder x d s)
claim-succeeds env id holder d s v e r = (
  may-claim env id holder d s e,
  λ (x, m). rw (claim_is-pay env id holder x d s m) (pay_claim-succeeds env id holder x d s v r m),
)

-- What a claim pays, and what it leaves behind.
pub record Claimed (env : Env) (id : ℕ) (holder : Address) (x : ℤ) (d : Distribution)
    (s s' : Dividend) : Type 0 where
  pub total : ℕ
  pub supply : ℕ
  pub snapshot : Snapshot
  pub done : Bool
  pub total_is : d.total_amount ≡ pos total
  pub supply_is : s.supplies id ≡ some (pos supply)
  pub snapshot_is : s.snapshots id ≡ some snapshot
  pub share_is : x ≡ pos (total * pos_part (find_balance holder snapshot) / supply)
  pub positive : pos 0 <ℤ x
  pub within : d.distributed +ℤ x ≤ℤ d.total_amount
  pub done_iff : (done ≡ true) ↔ (d.distributed +ℤ x ≡ d.total_amount)
  pub payments_are :
      s'.payments
      ≡ (record { token = d.payment_token; from = env.this; to = holder; amount = x }) ∷ s.payments
  pub dists_are :
      (k : ℕ)
      → lookup k s'.dists ≡ (
          if id == k
          then some (record d { distributed = d.distributed +ℤ x; completed = done })
          else lookup k s.dists)
  pub claims_are :
      (k : ℕ) (h : Address)
      → has_claimed k h s' ≡ (if id == k && holder == h then true else has_claimed k h s)
  pub snapshots_are : (k : ℕ) → s'.snapshots k ≡ (if id == k && done then none else s.snapshots k)
  pub supplies_are : (k : ℕ) → s'.supplies k ≡ (if id == k && done then none else s.supplies k)

finish : (a b : ℤ) → a ≤ℤ b → (leb_ℤ b a ≡ true) ↔ (a ≡ b)
finish a b le = (λ h. ground (arith, h, le), λ e. ground (arith, e))

pay_claim-Claimed :
    (env : Env) (id : ℕ) (holder : Address) (x : ℤ) (d : Distribution) (s s' : Dividend)
    (f : Funds s id d)
    → MayClaim env id holder x d s
    → pay_claim env id holder x d s ≡ ok s'
    → Claimed env id holder x d s s'
unfolding pay_claim settle_claim has_claimed
pay_claim-Claimed env id holder x d s s' f m h =
    let c = checked_add-cases d.distributed x in
    let le = due-le-total s id holder d x f m.unclaimed m.due m.positive in
    let after_claim : Distribution = record d {
      distributed = d.distributed +ℤ x;
      completed = leb_ℤ d.total_amount (d.distributed +ℤ x);
    } in
    let written : s'.dists ≡ insert id after_claim s.dists = ground (arith, c, m.unfinished) in
    record {
      total = f.total;
      supply = f.supply;
      snapshot = f.snapshot;
      done = leb_ℤ d.total_amount (d.distributed +ℤ x);
      total_is = f.total_is;
      supply_is = f.supply_is;
      snapshot_is = f.snapshot_is;
      share_is = entitlement-floor s id holder d f x m.due;
      positive = m.positive;
      within = le;
      done_iff = finish (d.distributed +ℤ x) d.total_amount le;
      payments_are = ground (arith, c);
      dists_are = λ k. ap (lookup k) written ∙ lookup-insert k id after_claim s.dists;
      claims_are = λ k a. ground (arith, c);
      snapshots_are = λ k. ground (arith, c);
      supplies_are = λ k. ground (arith, c);
    }

-- For a stored distribution, in a state where the open distributions are funded: a claim that
-- succeeds pays an amount `x`, the holder's part of the total by the frozen snapshot, rounded down,
-- which is positive, from the contract to the holder in the distribution's token. It adds `x` to
-- what is distributed, which stays within the total, completes the distribution and removes its
-- snapshot and supply exactly when nothing is left, records the claim of this holder, and leaves
-- the other distributions, claims, snapshots and supplies.
pub claim-Claimed :
    (env : Env) (id : ℕ) (holder : Address) (d : Distribution) (s s' : Dividend)
    → Tracked s
    → lookup id s.dists ≡ some d
    → claim env id holder s ≡ ok s'
    → (x : ℤ) × Claimed env id holder x d s s'
claim-Claimed env id holder d s s' v e h =
    let (x, m) = may-claim env id holder d s e (ap succeeds h) in
    (
      x,
      pay_claim-Claimed env id holder x d s s' (v.funded id d e m.unfinished) m
          (sym (claim_is-pay env id holder x d s m) ∙ h),
    )
