-- ===== src/Dividend/Payouts.antt =====
-- contracts/dividend/src/lib.rs: the payouts and what they change of the escrow.
use stellar_rwa_contracts.Base.{
  ℕ, ◌≡◌, refl, ap, some, true, false, ◌∷◌, arith, Option-cases, inl, inr, ◌==◌, if◌then◌else◌, ◌≢◌,
}
use stellar_rwa_contracts.Base.Int.{ℤ, pos, ◌-ℤ◌, ◌≤ℤ◌, int_laws, -ℤ_parts, checked_sub-cases}
use stellar_rwa_contracts.Base.Dict.{lookup}
use stellar_rwa_contracts.Base.Host.{Address, Result-cases, ok, state_of}
use stellar_rwa_contracts.Dividend.State.{Env, Dividend, Distribution, Payment}
use stellar_rwa_contracts.Dividend.Claims.{claimable, claim}
use stellar_rwa_contracts.Dividend.Recovery.{reclaim_unclaimed, cancel_distribution}
use stellar_rwa_contracts.Dividend.Escrow.{
  owed-closed, gain, owed, Writes, Settles, pay_claim-Settles, gain-out, sub_neg,
}

pub signer-ne :
    (env : Env) (a : Address)
    → env.authorized env.this ≡ false
    → env.authorized a ≡ true
    → a ≢ env.this
signer-ne env a n y e = cc (ap env.authorized e)

sub_zero : (a b : ℤ) → pos 0 ≤ℤ b → b ≤ℤ pos 0 → a ≡ a -ℤ b
sub_zero a b p q = grind int_laws

-- A payment closes a distribution, out of the contract to an address other than it.
closes-Settles :
    (this id to : Address) (d d' : Distribution) (x : ℤ) (s s' : Dividend)
    → lookup id s.dists ≡ some d
    → d.completed ≡ false
    → d'.completed ≡ true
    → x ≡ d.total_amount -ℤ d.distributed
    → to ≢ this
    → (pos 0 ≤ℤ d.distributed → pos 0 ≤ℤ d'.distributed)
    → Writes id d'
        (record { token = d.payment_token; from = this; to = to; amount = x } ∷ s.payments)
        s
        s'
    → Settles this s s'
unfolding Settles
closes-Settles this id to d d' x s s' e c c' r ne n w =
    let p : Payment = record { token = d.payment_token; from = this; to = to; amount = x } in
    (
      id,
      d,
      d',
      p,
      e,
      w,
      λ t.
          sub_neg (owed t d) (owed t d') (if d.payment_token == t then x else pos 0) (gain this t p)
            (owed-closed t d d' x c c' r) (gain-out this t d.payment_token to x ne),
      n,
    )

module _ (env : Env) (s : Dividend) (unsigned : env.authorized env.this ≡ false) where
  pub claim-Settles :
      (id : ℕ) (holder : Address) (s' : Dividend)
      → claim env id holder s ≡ ok s'
      → Settles env.this s s'
  unfolding claim
  claim-Settles id holder s' h = elim (Option-cases (lookup id s.dists)) [
    | inl e ↦ ground arith
    | inr (d, e) ↦ elim (Result-cases (claimable id holder s)) [
      | inl (x, k) ↦
          pay_claim-Settles env id holder x d s s' e (ground arith)
            (signer-ne env holder unsigned (ground arith)) (ground arith)
      | inr (f, k) ↦ ground arith
    ]
  ]

  pub reclaim-Settles :
      (admin : Address) (id : ℕ) (s' : Dividend)
      → state_of (reclaim_unclaimed env admin id s) ≡ ok s'
      → Settles env.this s s'
  unfolding reclaim_unclaimed
  reclaim-Settles admin id s' h = elim (Option-cases (lookup id s.dists)) [
    | inl e ↦ ground arith
    | inr (d, e) ↦
        let x = d.total_amount -ℤ d.distributed in
        let c = checked_sub-cases d.total_amount d.distributed in
        closes-Settles env.this id admin d
          (record d { distributed = d.total_amount; completed = true }) x s s' e (ground arith) refl
          refl (signer-ne env admin unsigned (ground arith))
          (ground (arith, c, -ℤ_parts d.total_amount d.distributed)) (ground (arith, c))
  ]

  pub cancel-Settles :
      (admin : Address) (id : ℕ) (s' : Dividend)
      → ((d : Distribution) → lookup id s.dists ≡ some d → pos 0 ≤ℤ d.distributed)
      → cancel_distribution env admin id s ≡ ok s'
      → Settles env.this s s'
  unfolding cancel_distribution
  cancel-Settles admin id s' n h = elim (Option-cases (lookup id s.dists)) [
    | inl e ↦ ground arith
    | inr (d, e) ↦
        closes-Settles env.this id admin d (record d { completed = true; cancelled = true })
          d.total_amount s s' e (ground arith) refl
          (sub_zero d.total_amount d.distributed (n d e) (ground arith))
          (signer-ne env admin unsigned (ground arith)) (λ z. z) (ground arith)
  ]
