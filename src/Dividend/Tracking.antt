-- ===== src/Dividend/Tracking.antt =====
-- contracts/dividend/src/lib.rs: the open distributions, over the calls that pay out.
use native.Mathlib.Decide.{ℕ_discrete}
use stellar_rwa_contracts.Base.{
  ℕ, ◌≡◌, refl, sym, ap, subst, ◌∙◌, none, some, true, false, arith, Option-cases, inl, inr, ◌<◌,
  ◌≢◌, ◌⊎◌, unwrap_or,
}
use stellar_rwa_contracts.Base.Int.{ℤ, ◌+ℤ◌, checked_add-cases, checked_sub-cases}
use stellar_rwa_contracts.Base.Dict.{lookup, insert, lookup-insert}
use stellar_rwa_contracts.Base.Host.{Address, Result-cases, ok, state_of}
use stellar_rwa_contracts.Dividend.State.{Env, Dividend, Distribution, has_claimed}
use stellar_rwa_contracts.Dividend.Claims.{
  entitlement, claimable, settled, settle_claim, pay_claim, claim,
}
use stellar_rwa_contracts.Dividend.Recovery.{reclaim_unclaimed, cancel_distribution}
use stellar_rwa_contracts.Dividend.Escrow.{claim_paid}
use stellar_rwa_contracts.Dividend.Funding.{
  Funds, Tracked, Funds-cong, Funds-claim, entitlement-floor,
}

-- The entries under `k` are the same in both states.
abbrev pub SameAt : ℕ → Dividend → Dividend → Type 0
SameAt k s s' =
    (s'.supplies k ≡ s.supplies k)
    × (s'.snapshots k ≡ s.snapshots k)
    × ((h : Address) → s'.claimed k h ≡ s.claimed k h)

-- A write of one distribution that leaves the entries under other ids alone.
pub record WritesOne (id : ℕ) (d : Distribution) (s s' : Dividend) : Type 0 where
  pub dists_are : s'.dists ≡ insert id d s.dists
  pub counted : (k : ℕ) → unwrap_or s'.counter 0 < k → (unwrap_or s.counter 0 < k) × (k ≢ id)
  pub has_admin : s'.admin ≢ none
  pub others : (k : ℕ) → k ≢ id → SameAt k s s'
  pub funds : d.completed ≡ false → Funds s' id d

pub WritesOne-Tracked :
    (id : ℕ) (d : Distribution) (s s' : Dividend) → WritesOne id d s s' → Tracked s → Tracked s'
WritesOne-Tracked id d s s' w v = record {
  fresh = λ k lt.
      let (lt', ne) = w.counted k lt in
      (
        rw (w.dists_are) (ground (arith, lookup-insert k id d s.dists, (v.fresh k lt').0)),
        λ h. (w.others k ne).2 h ∙ (v.fresh k lt').1 h,
      );
  unused = λ e. absurd (w.has_admin e);
  funded = λ k c e o. elim (ℕ_discrete k id) [
    | yes p ↦
        let q : d ≡ c = ground (arith, w.dists_are, lookup-insert k id d s.dists) in
        rw p (subst (Funds s' id) q (w.funds (ground arith)))
    | no p ↦
        Funds-cong s s' k c (w.others k p).0 (w.others k p).1 (w.others k p).2
          (v.funded k c (ground (arith, w.dists_are, lookup-insert k id d s.dists)) o)
  ];
}

admin_ne :
    (s : Dividend) (id : ℕ) (d : Distribution)
    → Tracked s
    → lookup id s.dists ≡ some d
    → s.admin ≢ none
admin_ne s id d v e a = ground (arith, (v.unused a id).0)

-- An id that is stored is not above the counter.
stored-le :
    (s : Dividend) (id : ℕ) (d : Distribution)
    → Tracked s
    → lookup id s.dists ≡ some d
    → (k : ℕ) → unwrap_or s.counter 0 < k
    → k ≢ id
stored-le s id d v e k lt q = ground (arith, (v.fresh k lt).0, q)

pub settle_claim-fields :
    (id : ℕ) (holder : Address) (x : ℤ) (d : Distribution) (s s' : Dividend)
    → settle_claim id holder x d s ≡ ok s'
    → (s'.dists ≡ insert id (settled d (d.distributed +ℤ x)) s.dists)
      × (s'.counter ≡ s.counter)
      × (s'.admin ≡ s.admin)
      × (s'.claimed ≡ s.claimed)
unfolding settle_claim
settle_claim-fields id holder x d s s' h = ground (arith, checked_add-cases d.distributed x)

settle_claim-kept :
    (id : ℕ) (holder : Address) (x : ℤ) (d : Distribution) (s s' : Dividend) (k : ℕ)
    → settle_claim id holder x d s ≡ ok s'
    → (k ≢ id) ⊎ ((settled d (d.distributed +ℤ x)).completed ≡ false)
    → (s'.supplies k ≡ s.supplies k) × (s'.snapshots k ≡ s.snapshots k)
unfolding settle_claim
settle_claim-kept id holder x d s s' k h o = ground (arith, checked_add-cases d.distributed x)

module _ (env : Env) (id : ℕ) (holder : Address) (s s' : Dividend) (v : Tracked s) where
  pay_claim-Tracked :
      (x : ℤ) (d : Distribution)
      → lookup id s.dists ≡ some d
      → d.completed ≡ false
      → has_claimed id holder s ≡ false
      → entitlement d id holder s ≡ ok x
      → pay_claim env id holder x d s ≡ ok s'
      → Tracked s'
  unfolding pay_claim has_claimed
  pay_claim-Tracked x d e c n k h =
      let paid : Dividend = claim_paid env id holder x d s in
      let t : settle_claim id holder x d paid ≡ ok s' = ground arith in
      let (ds, co, ad, cl) = settle_claim-fields id holder x d paid s' t in
      let f : Funds s id d = v.funded id d e c in
      WritesOne-Tracked id (settled d (d.distributed +ℤ x)) s s'
        (record {
          dists_are = ds;
          counted = λ j lt. (ground arith, stored-le s id d v e j (ground arith));
          has_admin = λ a. admin_ne s id d v e (sym ad ∙ a);
          others = λ j ne.
              let (su, sn) = settle_claim-kept id holder x d paid s' j t (inl ne) in
              (su, sn, λ h. ground (arith, ap (λ f. f j h) cl));
          funds = λ o.
              let (su, sn) = settle_claim-kept id holder x d paid s' id t (inr o) in
              Funds-claim s s' id holder x d f su sn (λ h. ground (arith, ap (λ g. g id h) cl)) n
                (entitlement-floor s id holder d f x k);
        })
        v

  pub claim-Tracked : claim env id holder s ≡ ok s' → Tracked s'
  unfolding claim claimable
  claim-Tracked h = elim (Option-cases (lookup id s.dists)) [
    | inl e ↦ ground arith
    | inr (d, e) ↦ elim (Result-cases (entitlement d id holder s)) [
      | inl (x, k) ↦ pay_claim-Tracked x d e (ground arith) (ground arith) k (ground arith)
      | inr (f, k) ↦ ground arith
    ]
  ]

-- A distribution that is completed needs no snapshot.
module _ (env : Env) (admin : Address) (id : ℕ) (s s' : Dividend) (v : Tracked s) where
  closes-Tracked :
      (d d' : Distribution)
      → lookup id s.dists ≡ some d
      → d'.completed ≡ true
      → (s'.dists ≡ insert id d' s.dists) × (s'.counter ≡ s.counter) × (s'.admin ≡ s.admin)
      → ((j : ℕ) → j ≢ id → SameAt j s s')
      → Tracked s'
  closes-Tracked d d' e c (ds, co, ad) o =
      WritesOne-Tracked id d' s s'
        (record {
          dists_are = ds;
          counted = λ j lt. (ground arith, stored-le s id d v e j (ground arith));
          has_admin = λ a. admin_ne s id d v e (sym ad ∙ a);
          others = o;
          funds = λ p. ground arith;
        })
        v

  pub reclaim-Tracked : state_of (reclaim_unclaimed env admin id s) ≡ ok s' → Tracked s'
  unfolding reclaim_unclaimed
  reclaim-Tracked h = elim (Option-cases (lookup id s.dists)) [
    | inl e ↦ ground arith
    | inr (d, e) ↦
        let c = checked_sub-cases d.total_amount d.distributed in
        closes-Tracked d (record d { distributed = d.total_amount; completed = true }) e refl
          (ground (arith, c))
          (λ j ne. (ground (arith, c), ground (arith, c), λ a. ground (arith, c)))
  ]

  pub cancel-Tracked : cancel_distribution env admin id s ≡ ok s' → Tracked s'
  unfolding cancel_distribution
  cancel-Tracked h = elim (Option-cases (lookup id s.dists)) [
    | inl e ↦ ground arith
    | inr (d, e) ↦
        closes-Tracked d (record d { completed = true; cancelled = true }) e refl (ground arith)
          (λ j ne. (ground arith, ground arith, λ a. ground arith))
  ]
