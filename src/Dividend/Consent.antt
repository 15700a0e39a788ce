-- ===== src/Dividend/Consent.antt =====
-- contracts/dividend/src/lib.rs: who moves funds, and who becomes the admin.
use stellar_rwa_contracts.Base.{
  ℕ, ◌≡◌, refl, none, some, true, [], ◌∷◌, arith, Option-cases, inl, inr, ◌⊎◌,
}
use stellar_rwa_contracts.Base.Int.{ℤ, pos, ◌-ℤ◌, checked_add-cases, checked_sub-cases}
use stellar_rwa_contracts.Base.Dict.{lookup}
use stellar_rwa_contracts.Base.Host.{Address, Result-cases, ok, err, after, state_of}
use stellar_rwa_contracts.Dividend.State.{Env, Dividend, Distribution, Payment, Snapshot, Outcome}
use stellar_rwa_contracts.Dividend.Creation.{
  check_eligible, store_distribution, create_distribution_deadline, create_distribution,
}
use stellar_rwa_contracts.Dividend.Claims.{claimable, settle_claim, pay_claim, claim}
use stellar_rwa_contracts.Dividend.Recovery.{reclaim_unclaimed, cancel_distribution}
use stellar_rwa_contracts.Dividend.Admin.{
  initialize, propose_admin, cancel_admin_proposal, accept_admin,
}
use stellar_rwa_contracts.Dividend.Calls.{Call, execute, step}
use stellar_rwa_contracts.Dividend.Escrow.{claim_paid}
use stellar_rwa_contracts.Dividend.Creation.{funding}

-- A state in which at most one payment was made since `s`, into the contract from an account that
-- authorized it, or out of the contract to one that did.
abbrev pub Consented : Env → Dividend → Dividend → Type 0
Consented env s s' =
    (s'.payments ≡ s.payments)
    ⊎ ((p : Payment) × (s'.payments ≡ p ∷ s.payments)
        × (((p.to ≡ env.this) × (env.authorized p.from ≡ true))
            ⊎ ((p.from ≡ env.this) × (env.authorized p.to ≡ true))))

-- The admin is as before, was absent and has authorized this, or was the proposed one and has
-- authorized this.
abbrev pub KeepsAdmin : Env → Dividend → Dividend → Type 0
KeepsAdmin env s s' =
    (s'.admin ≡ s.admin)
    ⊎ ((a : Address) × (s'.admin ≡ some a)
        × (env.authorized a ≡ true)
        × ((s.admin ≡ none) ⊎ (s.pending_admin ≡ some a)))

-- A proposal is made or withdrawn by the admin, or used up.
abbrev pub KeepsProposal : Env → Dividend → Dividend → Type 0
KeepsProposal env s s' =
    (s'.pending_admin ≡ s.pending_admin)
    ⊎ ((a : Address) × (s.admin ≡ some a) × (env.authorized a ≡ true))
    ⊎ ((a : Address) × (s.pending_admin ≡ some a) × (s'.admin ≡ some a) × (s'.pending_admin ≡ none))

abbrev pub Governed : Env → Dividend → Dividend → Type 0
Governed env s s' = Consented env s s' × KeepsAdmin env s s' × KeepsProposal env s s'

settle_claim-same :
    (id : ℕ) (holder : Address) (x : ℤ) (d : Distribution) (s s' : Dividend)
    → settle_claim id holder x d s ≡ ok s'
    → (s'.payments ≡ s.payments) × (s'.admin ≡ s.admin) × (s'.pending_admin ≡ s.pending_admin)
unfolding settle_claim
settle_claim-same id holder x d s s' h = ground (arith, checked_add-cases d.distributed x)

module _ (env : Env) (s s' : Dividend) where
  paid_out :
      (token to : Address) (x : ℤ)
      → env.authorized to ≡ true
      → s'.payments ≡ (record { token = token; from = env.this; to = to; amount = x }) ∷ s.payments
      → Consented env s s'
  paid_out token to x a e =
      inr (record { token = token; from = env.this; to = to; amount = x }, e, inr (refl, a))

  claim-Governed : (id : ℕ) (holder : Address) → claim env id holder s ≡ ok s' → Governed env s s'
  unfolding claim pay_claim
  claim-Governed id holder h = elim (Option-cases (lookup id s.dists)) [
    | inl e ↦ ground arith
    | inr (d, e) ↦ elim (Result-cases (claimable id holder s)) [
      | inl (x, q) ↦
          let paid : Dividend = claim_paid env id holder x d s in
          let (w, a, p) = settle_claim-same id holder x d paid s' (ground arith) in
          (paid_out d.payment_token holder x (ground arith) w, inl a, inl p)
      | inr (f, q) ↦ ground arith
    ]
  ]

  reclaim-Governed :
      (admin : Address) (id : ℕ)
      → state_of (reclaim_unclaimed env admin id s) ≡ ok s'
      → Governed env s s'
  unfolding reclaim_unclaimed
  reclaim-Governed admin id h = elim (Option-cases (lookup id s.dists)) [
    | inl e ↦ ground arith
    | inr (d, e) ↦
        let c = checked_sub-cases d.total_amount d.distributed in
        (
          paid_out d.payment_token admin (d.total_amount -ℤ d.distributed) (ground arith)
              (ground (arith, c)),
          inl (ground (arith, c)),
          inl (ground (arith, c)),
        )
  ]

  cancel-Governed :
      (admin : Address) (id : ℕ) → cancel_distribution env admin id s ≡ ok s' → Governed env s s'
  unfolding cancel_distribution
  cancel-Governed admin id h = elim (Option-cases (lookup id s.dists)) [
    | inl e ↦ ground arith
    | inr (d, e) ↦ (
      paid_out d.payment_token admin d.total_amount (ground arith) (ground arith),
      inl (ground arith),
      inl (ground arith),
    )
  ]

  store-Governed :
      (admin asset payment : Address) (x : ℤ) (es : Snapshot) (deadline : ℕ) (n : ℤ) (id : ℕ)
      → env.authorized admin ≡ true
      → store_distribution env admin asset payment x es deadline n s ≡ ok (id, s')
      → Governed env s s'
  unfolding store_distribution
  store-Governed admin asset payment x es deadline n id a h = (
    inr (funding env admin payment x, ground arith, inl (refl, a)),
    inl (ground arith),
    inl (ground arith),
  )

  create-Governed :
      (admin asset payment : Address) (x : ℤ) (es : Snapshot) (deadline : ℕ)
      → state_of (create_distribution_deadline env admin asset payment x es deadline s) ≡ ok s'
      → Governed env s s'
  unfolding create_distribution_deadline
  create-Governed admin asset payment x es deadline h =
      elim (Result-cases (check_eligible [] (pos 0) es)) [
        | inr (f, e) ↦ ground arith
        | inl (n, e) ↦
            elim (Result-cases (store_distribution env admin asset payment x es deadline n s)) [
              | inr (f, q) ↦ ground arith
              | inl ((k, u), q) ↦
                  store-Governed admin asset payment x es deadline n k (ground arith) (ground arith)
            ]
      ]

  execute-Governed : (c : Call) → execute env c s ≡ ok s' → Governed env s s'
  unfolding execute create_distribution initialize accept_admin cancel_admin_proposal propose_admin
  execute-Governed (Call.initialize a) h = ground arith
  execute-Governed (Call.accept_admin a) h = ground arith
  execute-Governed (Call.cancel_admin_proposal a) h = ground arith
  execute-Governed (Call.propose_admin a b) h = ground arith
  execute-Governed (Call.create_distribution a t p x es) h = create-Governed a t p x es 0 h
  execute-Governed (Call.create_distribution_deadline a t p x es d) h =
      create-Governed a t p x es d h
  execute-Governed (Call.claim id holder) h = claim-Governed id holder h
  execute-Governed (Call.reclaim_unclaimed a id) h = reclaim-Governed a id h
  execute-Governed (Call.cancel_distribution a id) h = cancel-Governed a id h

after-Governed :
    (env : Env) (s : Dividend) (r : Outcome)
    → ((s' : Dividend) → r ≡ ok s' → Governed env s s')
    → Governed env s (after s r)
after-Governed env s (ok s') f = f s' refl
after-Governed env s (err _) f = (inl refl, inl refl, inl refl)

-- A call makes at most one payment: into the contract from an account that authorized the call,
-- or out of the contract to an account that authorized it. It changes the admin only to an account
-- that authorized it and either was the proposed admin or initializes the contract; and it changes
-- the proposed admin only with the admin's authorization, or by making the proposed one the admin.
pub step-Governed : (env : Env) (c : Call) (s : Dividend) → Governed env s (step s (env, c))
unfolding step
step-Governed env c s = after-Governed env s (execute env c s) (λ s'. execute-Governed env s s' c)
