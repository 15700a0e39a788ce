-- ===== src/Dividend/Recoveries.antt =====
-- contracts/dividend/src/lib.rs: when funds can be recovered, and what a recovery pays.
use stellar_rwa_contracts.Base.{
  ℕ, ◌≡◌, subst, none, some, Bool, true, false, not, ◌∷◌, arith, inl, inr, ◌==◌, ◌<◌, ◌↔◌, ltb,
  ◌&&◌,
}
use stellar_rwa_contracts.Base.Int.{
  ℤ, pos, ◌-ℤ◌, ◌≤ℤ◌, ◌<ℤ◌, int_laws, -ℤ_parts, checked_sub, checked_sub-cases, in_i128,
  checked_sub-between,
}
use stellar_rwa_contracts.Base.Dict.{lookup, insert}
use stellar_rwa_contracts.Base.Host.{Address, Result-cases, ok, succeeds}
use stellar_rwa_contracts.Dividend.State.{Env, Dividend, Distribution, Payment}
use stellar_rwa_contracts.Dividend.Claims.{claim}
use stellar_rwa_contracts.Dividend.Recovery.{reclaim_unclaimed, cancel_distribution}
use stellar_rwa_contracts.Dividend.Funding.{Tracked, Funds}

-- Whether a distribution could be reclaimed at this ledger.
abbrev pub expired : Env → Distribution → Bool
expired env d = not (d.deadline == 0) && ltb d.deadline env.sequence

-- What `reclaim_unclaimed` and `cancel_distribution` pay.
abbrev pub recovery_payment : Env → Address → ℤ → Distribution → Payment
recovery_payment env admin x d = record {
  token = d.payment_token;
  from = env.this;
  to = admin;
  amount = x;
}

-- What both recoveries need.
pub record MayRecover (env : Env) (admin : Address) (x : ℤ) (d : Distribution) (s : Dividend)
    : Type 0 where
  pub is_admin : s.admin ≡ some admin
  pub authorized : env.authorized admin ≡ true
  pub unfinished : d.completed ≡ false
  pub carried_out : env.carries_out (recovery_payment env admin x d) ≡ true

-- A recovery of `x` leaves the distribution `d'` and none of its snapshot.
pub record Recovered (env : Env) (admin : Address) (id : ℕ) (x : ℤ) (d d' : Distribution)
    (s s' : Dividend) : Type 0 where
  pub payments_are : s'.payments ≡ recovery_payment env admin x d ∷ s.payments
  pub dists_are : s'.dists ≡ insert id d' s.dists
  pub no_supply : s'.supplies id ≡ none
  pub no_snapshot : s'.snapshots id ≡ none
  pub same_claims : s'.claimed ≡ s.claimed

left_fits :
    (p : ℕ) (t d : ℤ) → d ≡ pos p → d <ℤ t → in_i128 t ≡ true → checked_sub t d ≡ some (t -ℤ d)
left_fits p t d e l r = checked_sub-between t d t (grind int_laws) (grind int_laws) r

module _ (env : Env) (admin : Address) (id : ℕ) (d : Distribution) (s : Dividend)
    (e : lookup id s.dists ≡ some d) where
  -- For a stored distribution: a cancellation succeeds exactly when the contract's admin makes and
  -- authorizes it, the distribution is not completed and nothing is distributed of it, and the
  -- payment token carries out the payment of the whole total to the admin.
  cancel-succeeds :
      (succeeds (cancel_distribution env admin id s) ≡ true)
      ↔ MayRecover env admin d.total_amount d s × (d.distributed ≤ℤ pos 0)
  unfolding cancel_distribution
  cancel-succeeds = (
    λ h. (
      record {
        is_admin = ground arith;
        authorized = ground arith;
        unfinished = ground arith;
        carried_out = ground arith;
      },
      ground arith,
    ),
    λ (m, z). ground (arith, m.is_admin, m.authorized, m.unfinished, m.carried_out),
  )

  -- A cancellation of a stored distribution that succeeds pays the whole total from the escrow to
  -- the contract's admin, completes and cancels the distribution, removes its snapshot and its
  -- supply, and leaves the other distributions and the claims as they were.
  cancel-Recovered :
      (s' : Dividend)
      → cancel_distribution env admin id s ≡ ok s'
      → Recovered env admin id d.total_amount d
          (record d { completed = true; cancelled = true })
          s
          s'
  unfolding cancel_distribution
  cancel-Recovered s' h = record {
    payments_are = ground arith;
    dists_are = ground arith;
    no_supply = ground arith;
    no_snapshot = ground arith;
    same_claims = ground arith;
  }

  -- A reclaim of a stored distribution that succeeds returns the positive amount `x` that is not
  -- distributed, is made and authorized by the admin after the distribution's deadline, pays `x`
  -- from the escrow to the admin, completes the distribution as distributed in full, removes its
  -- snapshot and its supply, and leaves the other distributions and the claims as they were.
  pub reclaim-Recovered :
      (x : ℤ) (s' : Dividend)
      → reclaim_unclaimed env admin id s ≡ ok (x, s')
      → (x ≡ d.total_amount -ℤ d.distributed)
        × (pos 0 <ℤ x)
        × (expired env d ≡ true)
        × MayRecover env admin x d s
        × Recovered env admin id x d
            (record d { distributed = d.total_amount; completed = true })
            s
            s'
  unfolding reclaim_unclaimed
  reclaim-Recovered x s' h =
      let c = checked_sub-cases d.total_amount d.distributed in
      (
        ground (arith, c),
        ground (arith, c),
        ground (arith, c),
        record {
          is_admin = ground (arith, c);
          authorized = ground (arith, c);
          unfinished = ground (arith, c);
          carried_out = ground (arith, c);
        },
        record {
          payments_are = ground (arith, c);
          dists_are = ground (arith, c);
          no_supply = ground (arith, c);
          no_snapshot = ground (arith, c);
          same_claims = ground (arith, c);
        },
      )

  may_reclaim :
      succeeds (reclaim_unclaimed env admin id s) ≡ true
      → MayRecover env admin (d.total_amount -ℤ d.distributed) d s
        × (expired env d ≡ true)
        × (d.distributed <ℤ d.total_amount)
  may_reclaim h = elim (Result-cases (reclaim_unclaimed env admin id s)) [
    | inr (f, k) ↦ ground arith
    | inl ((x, s'), k) ↦
        let (q, p, o, m, w) = reclaim-Recovered x s' k in
        (subst (λ x. MayRecover env admin x d s) q m, o, grind (int_laws, q, p))
  ]

  reclaim_goes :
      checked_sub d.total_amount d.distributed ≡ some (d.total_amount -ℤ d.distributed)
      → d.distributed <ℤ d.total_amount
      → expired env d ≡ true
      → MayRecover env admin (d.total_amount -ℤ d.distributed) d s
      → succeeds (reclaim_unclaimed env admin id s) ≡ true
  unfolding reclaim_unclaimed
  reclaim_goes c l q m = ground (
    arith,
    m.is_admin,
    m.authorized,
    m.unfinished,
    m.carried_out,
    -ℤ_parts d.total_amount d.distributed,
  )

  -- For a stored distribution whose total is an `i128`, in a state where the open distributions
  -- are funded: a reclaim succeeds exactly when the contract's admin makes and authorizes it, the
  -- distribution is not completed, its deadline has passed, less than the total is distributed,
  -- and the payment token carries out the payment of the rest to the admin.
  reclaim-succeeds :
      Tracked s
      → in_i128 d.total_amount ≡ true
      → (succeeds (reclaim_unclaimed env admin id s) ≡ true)
        ↔ MayRecover env admin (d.total_amount -ℤ d.distributed) d s
          × (expired env d ≡ true)
          × (d.distributed <ℤ d.total_amount)
  reclaim-succeeds t r = (
    λ h. may_reclaim h,
    λ (m, q, l).
        let f : Funds s id d = t.funded id d e m.unfinished in
        reclaim_goes (left_fits _ d.total_amount d.distributed f.paid l r) l q m,
  )

-- If a holder can claim a distribution and somebody can reclaim it in the same state, then the
-- claim's ledger comes before the reclaim's: the deadline separates them.
claim-before-reclaim :
    (env env' : Env) (id : ℕ) (holder admin : Address) (s : Dividend)
    → succeeds (claim env id holder s) ≡ true
    → succeeds (reclaim_unclaimed env' admin id s) ≡ true
    → env.sequence < env'.sequence
unfolding claim reclaim_unclaimed
claim-before-reclaim env env' id holder admin s h k = ground arith
