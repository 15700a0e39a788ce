-- ===== src/Dividend/Closing.antt =====
-- contracts/dividend/src/lib.rs: completed distributions, over histories of calls.
use stellar_rwa_contracts.Base.{
  ℕ, ◌≡◌, refl, some, true, false, List, [], ◌∷◌, arith, Option-cases, inl, inr, ◌≢◌,
}
use stellar_rwa_contracts.Base.Int.{ℤ, pos, ◌+ℤ◌, checked_sub-cases}
use stellar_rwa_contracts.Base.Dict.{lookup, insert, lookup-insert}
use stellar_rwa_contracts.Base.Host.{Address, Result-cases, ok, err, succeeds, after, state_of}
use stellar_rwa_contracts.Dividend.State.{Env, Dividend, Distribution, Snapshot, Outcome}
use stellar_rwa_contracts.Dividend.Creation.{
  check_eligible, store_distribution, create_distribution_deadline, create_distribution,
}
use stellar_rwa_contracts.Dividend.Claims.{claimable, settled, pay_claim, claim}
use stellar_rwa_contracts.Dividend.Recovery.{reclaim_unclaimed, cancel_distribution}
use stellar_rwa_contracts.Dividend.Admin.{
  initialize, propose_admin, cancel_admin_proposal, accept_admin,
}
use stellar_rwa_contracts.Dividend.Calls.{Call, execute, step, run}
use stellar_rwa_contracts.Dividend.Tracking.{settle_claim-fields}
use stellar_rwa_contracts.Dividend.Escrow.{claim_paid}
use stellar_rwa_contracts.Dividend.Funding.{Tracked}
use stellar_rwa_contracts.Dividend.Creation.{new_distribution}
use stellar_rwa_contracts.Dividend.Histories.{step-Tracked}

-- The distribution `d` is stored under `id` and completed.
abbrev pub Closed : ℕ → Distribution → Dividend → Type 0
Closed id d s = (lookup id s.dists ≡ some d) × (d.completed ≡ true)

insert_other :
    (id k : ℕ) (d d' : Distribution) (s s' : Dividend)
    → Closed id d s
    → k ≢ id
    → s'.dists ≡ insert k d' s.dists
    → Closed id d s'
insert_other id k d d' s s' (e, c) n w = (rw w (ground (arith, lookup-insert id k d' s.dists)), c)

module _ (env : Env) (id : ℕ) (d : Distribution) (s s' : Dividend) (v : Closed id d s) where
  claim-Closed : (k : ℕ) (holder : Address) → claim env k holder s ≡ ok s' → Closed id d s'
  unfolding claim pay_claim
  claim-Closed k holder h = elim (Option-cases (lookup k s.dists)) [
    | inl e ↦ ground arith
    | inr (c, e) ↦ elim (Result-cases (claimable k holder s)) [
      | inl (x, q) ↦
          let paid : Dividend = claim_paid env k holder x c s in
          let w = settle_claim-fields k holder x c paid s' (ground arith) in
          insert_other id k d (settled c (c.distributed +ℤ x)) s s' v (λ p. ground arith) w.0
      | inr (f, q) ↦ ground arith
    ]
  ]

  reclaim-Closed :
      (admin : Address) (k : ℕ)
      → state_of (reclaim_unclaimed env admin k s) ≡ ok s'
      → Closed id d s'
  unfolding reclaim_unclaimed
  reclaim-Closed admin k h = elim (Option-cases (lookup k s.dists)) [
    | inl e ↦ ground arith
    | inr (c, e) ↦
        insert_other id k d (record c { distributed = c.total_amount; completed = true }) s s' v
          (λ p. ground arith) (ground (arith, checked_sub-cases c.total_amount c.distributed))
  ]

  cancel-Closed :
      (admin : Address) (k : ℕ) → cancel_distribution env admin k s ≡ ok s' → Closed id d s'
  unfolding cancel_distribution
  cancel-Closed admin k h = elim (Option-cases (lookup k s.dists)) [
    | inl e ↦ ground arith
    | inr (c, e) ↦
        insert_other id k d (record c { completed = true; cancelled = true }) s s' v
          (λ p. ground arith) (ground arith)
  ]

  module _ (t : Tracked s) where
    store-Closed :
        (admin asset payment : Address) (x : ℤ) (es : Snapshot) (deadline : ℕ) (n : ℤ) (k : ℕ)
        → store_distribution env admin asset payment x es deadline n s ≡ ok (k, s')
        → Closed id d s'
    unfolding store_distribution
    store-Closed admin asset payment x es deadline n k h =
        insert_other id k d (new_distribution env k asset payment x deadline) s s' v
          (λ p. ground (arith, (t.fresh k (ground arith)).0)) (ground arith)

    create-Closed :
        (admin asset payment : Address) (x : ℤ) (es : Snapshot) (deadline : ℕ)
        → state_of (create_distribution_deadline env admin asset payment x es deadline s) ≡ ok s'
        → Closed id d s'
    unfolding create_distribution_deadline
    create-Closed admin asset payment x es deadline h =
        elim (Result-cases (check_eligible [] (pos 0) es)) [
          | inr (f, e) ↦ ground arith
          | inl (n, e) ↦
              elim (Result-cases (store_distribution env admin asset payment x es deadline n s)) [
                | inr (f, q) ↦ ground arith
                | inl ((k, u), q) ↦
                    store-Closed admin asset payment x es deadline n k (ground arith)
              ]
        ]

    execute-Closed : (c : Call) → execute env c s ≡ ok s' → Closed id d s'
    unfolding execute create_distribution initialize accept_admin cancel_admin_proposal
        propose_admin
    execute-Closed (Call.initialize a) h = ground arith
    execute-Closed (Call.accept_admin a) h = ground arith
    execute-Closed (Call.cancel_admin_proposal a) h = ground arith
    execute-Closed (Call.propose_admin a b) h = ground arith
    execute-Closed (Call.create_distribution a t p x es) h = create-Closed a t p x es 0 h
    execute-Closed (Call.create_distribution_deadline a t p x es d) h = create-Closed a t p x es d h
    execute-Closed (Call.claim id holder) h = claim-Closed id holder h
    execute-Closed (Call.reclaim_unclaimed a id) h = reclaim-Closed a id h
    execute-Closed (Call.cancel_distribution a id) h = cancel-Closed a id h

after-Closed :
    (id : ℕ) (d : Distribution) (s : Dividend) (r : Outcome)
    → ((s' : Dividend) → r ≡ ok s' → Closed id d s')
    → Closed id d s
    → Closed id d (after s r)
after-Closed id d s (ok s') f v = f s' refl
after-Closed id d s (err _) f v = v

run-Closed :
    (id : ℕ) (d : Distribution) (s : Dividend) (cs : List (Env × Call))
    → Tracked s
    → Closed id d s
    → Closed id d (run s cs)
unfolding run step
run-Closed id d s [] t v = v
run-Closed id d s ((env, c) ∷ cs) t v =
    run-Closed id d (step s (env, c)) cs (step-Tracked s (env, c) t)
      (after-Closed id d s (execute env c s) (λ s'. execute-Closed env id d s s' v t c) v)

-- No call pays out of a distribution.
abbrev pub PaysNothing : Env → ℕ → Address → Dividend → Type 0
PaysNothing env id a s =
    (succeeds (claim env id a s) ≡ false)
    × (succeeds (reclaim_unclaimed env a id s) ≡ false)
    × (succeeds (cancel_distribution env a id s) ≡ false)

Closed-PaysNothing :
    (env : Env) (id : ℕ) (a : Address) (d : Distribution) (s : Dividend)
    → Closed id d s
    → PaysNothing env id a s
unfolding claim reclaim_unclaimed cancel_distribution
Closed-PaysNothing env id a d s v = (ground arith, ground arith, ground arith)

-- In a state where the open distributions are funded, a distribution that is completed (claimed
-- in full, reclaimed or cancelled) is stored unchanged after any later history of calls, and then
-- no claim, reclaim or cancellation of it succeeds, whoever makes it.
pub completed-final :
    (s : Dividend) (id : ℕ) (d : Distribution) (cs : List (Env × Call)) (env : Env) (a : Address)
    → Tracked s
    → lookup id s.dists ≡ some d
    → d.completed ≡ true
    → (lookup id (run s cs).dists ≡ some d) × PaysNothing env id a (run s cs)
completed-final s id d cs env a t e c =
    let v = run-Closed id d s cs t (e, c) in (v.0, Closed-PaysNothing env id a d (run s cs) v)
