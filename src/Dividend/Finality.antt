-- ===== src/Dividend/Finality.antt =====
-- contracts/dividend/src/lib.rs: the claims that are recorded, over histories of calls.
use stellar_rwa_contracts.Base.{
  ℕ, ◌≡◌, refl, ap, some, true, false, List, [], ◌∷◌, arith, Option-cases, inl, inr,
}
use stellar_rwa_contracts.Base.Int.{ℤ, pos, checked_sub-cases}
use stellar_rwa_contracts.Base.Dict.{lookup}
use stellar_rwa_contracts.Base.Host.{Address, Result-cases, ok, err, succeeds, after, state_of}
use stellar_rwa_contracts.Dividend.State.{
  Env, Dividend, Distribution, Snapshot, Outcome, has_claimed,
}
use stellar_rwa_contracts.Dividend.Creation.{
  check_eligible, store_distribution, create_distribution_deadline, create_distribution,
}
use stellar_rwa_contracts.Dividend.Claims.{claimable, settle_claim, pay_claim, claim}
use stellar_rwa_contracts.Dividend.Recovery.{reclaim_unclaimed, cancel_distribution}
use stellar_rwa_contracts.Dividend.Admin.{
  initialize, propose_admin, cancel_admin_proposal, accept_admin,
}
use stellar_rwa_contracts.Dividend.Calls.{Call, execute, step, run}
use stellar_rwa_contracts.Dividend.Tracking.{settle_claim-fields}
use stellar_rwa_contracts.Dividend.Escrow.{claim_paid}

-- A claim that has been recorded stays recorded.
abbrev pub Recorded : ℕ → Address → Dividend → Type 0
Recorded id h s = s.claimed id h ≡ some true

settle_claim-claimed :
    (id : ℕ) (holder : Address) (x : ℤ) (d : Distribution) (s s' : Dividend)
    → settle_claim id holder x d s ≡ ok s'
    → s'.claimed ≡ s.claimed
settle_claim-claimed id holder x d s s' h = (settle_claim-fields id holder x d s s' h).3

module _ (env : Env) (j : ℕ) (k : Address) (s s' : Dividend) (v : Recorded j k s) where
  pay_claim-Recorded :
      (id : ℕ) (holder : Address) (x : ℤ) (d : Distribution)
      → pay_claim env id holder x d s ≡ ok s'
      → Recorded j k s'
  unfolding pay_claim
  pay_claim-Recorded id holder x d h =
      let paid : Dividend = claim_paid env id holder x d s in
      let cl = settle_claim-claimed id holder x d paid s' (ground arith) in
      ground (arith, ap (λ f. f j k) cl)

  claim-Recorded : (id : ℕ) (holder : Address) → claim env id holder s ≡ ok s' → Recorded j k s'
  unfolding claim
  claim-Recorded id holder h = elim (Option-cases (lookup id s.dists)) [
    | inl e ↦ ground arith
    | inr (d, e) ↦ elim (Result-cases (claimable id holder s)) [
      | inl (x, q) ↦ pay_claim-Recorded id holder x d (ground arith)
      | inr (f, q) ↦ ground arith
    ]
  ]

  store-Recorded :
      (admin asset payment : Address) (x : ℤ) (es : Snapshot) (deadline : ℕ) (n : ℤ) (id : ℕ)
      → store_distribution env admin asset payment x es deadline n s ≡ ok (id, s')
      → Recorded j k s'
  unfolding store_distribution
  store-Recorded admin asset payment x es deadline n id h = ground arith

  create-Recorded :
      (admin asset payment : Address) (x : ℤ) (es : Snapshot) (deadline : ℕ)
      → state_of (create_distribution_deadline env admin asset payment x es deadline s) ≡ ok s'
      → Recorded j k s'
  unfolding create_distribution_deadline
  create-Recorded admin asset payment x es deadline h =
      elim (Result-cases (check_eligible [] (pos 0) es)) [
        | inr (f, e) ↦ ground arith
        | inl (n, e) ↦
            elim (Result-cases (store_distribution env admin asset payment x es deadline n s)) [
              | inr (f, q) ↦ ground arith
              | inl ((id, t), q) ↦
                  store-Recorded admin asset payment x es deadline n id (ground arith)
            ]
      ]

  execute-Recorded : (c : Call) → execute env c s ≡ ok s' → Recorded j k s'
  unfolding execute create_distribution initialize accept_admin cancel_admin_proposal propose_admin
      reclaim_unclaimed cancel_distribution
  execute-Recorded (Call.initialize a) h = ground arith
  execute-Recorded (Call.accept_admin a) h = ground arith
  execute-Recorded (Call.cancel_admin_proposal a) h = ground arith
  execute-Recorded (Call.propose_admin a b) h = ground arith
  execute-Recorded (Call.create_distribution a t p x es) h = create-Recorded a t p x es 0 h
  execute-Recorded (Call.create_distribution_deadline a t p x es d) h =
      create-Recorded a t p x es d h
  execute-Recorded (Call.claim id holder) h = claim-Recorded id holder h
  execute-Recorded (Call.reclaim_unclaimed a id) h =
      ground (arith, (λ (d : Distribution). checked_sub-cases d.total_amount d.distributed))
  execute-Recorded (Call.cancel_distribution a id) h = ground arith

after-Recorded :
    (j : ℕ) (k : Address) (s : Dividend) (r : Outcome)
    → ((s' : Dividend) → r ≡ ok s' → Recorded j k s')
    → Recorded j k s
    → Recorded j k (after s r)
after-Recorded j k s (ok s') f v = f s' refl
after-Recorded j k s (err _) f v = v

run-Recorded :
    (j : ℕ) (k : Address) (s : Dividend) (cs : List (Env × Call))
    → Recorded j k s
    → Recorded j k (run s cs)
unfolding run step
run-Recorded j k s [] v = v
run-Recorded j k s ((env, c) ∷ cs) v =
    run-Recorded j k (step s (env, c)) cs
      (after-Recorded j k s (execute env c s) (λ s'. execute-Recorded env j k s s' v c) v)

claim-records :
    (env : Env) (id : ℕ) (holder : Address) (s s' : Dividend)
    → claim env id holder s ≡ ok s'
    → Recorded id holder s'
unfolding claim pay_claim
claim-records env id holder s s' h = elim (Option-cases (lookup id s.dists)) [
  | inl e ↦ ground arith
  | inr (d, e) ↦ elim (Result-cases (claimable id holder s)) [
    | inl (x, q) ↦
        let paid : Dividend = claim_paid env id holder x d s in
        let cl = settle_claim-claimed id holder x d paid s' (ground arith) in
        ground (arith, ap (λ f. f id holder) cl)
    | inr (f, q) ↦ ground arith
  ]
]

claimed_fails :
    (env : Env) (id : ℕ) (holder : Address) (s : Dividend)
    → Recorded id holder s
    → succeeds (claim env id holder s) ≡ false
unfolding claim has_claimed
claimed_fails env id holder s v = ground arith

-- Once a claim by a holder has succeeded, no claim of the same distribution by the same holder
-- succeeds after any later history of calls, whoever makes them and whatever they see of the host.
pub claim-once :
    (env env' : Env) (id : ℕ) (holder : Address) (s s' : Dividend) (cs : List (Env × Call))
    → claim env id holder s ≡ ok s'
    → succeeds (claim env' id holder (run s' cs)) ≡ false
claim-once env env' id holder s s' cs h =
    claimed_fails env' id holder (run s' cs)
      (run-Recorded id holder s' cs (claim-records env id holder s s' h))
