-- ===== src/Dividend/Solvency.antt =====
-- contracts/dividend/src/lib.rs: the escrow, over histories of calls.
use stellar_rwa_contracts.Base.{
  ℕ, ◌≡◌, refl, sym, subst, ◌∙◌, none, some, true, false, List, [], ◌∷◌, arith, inl, inr, ◌≢◌, ◌⊎◌,
  unwrap_or, ◌+◌,
}
use stellar_rwa_contracts.Base.Int.{ℤ, pos}
use stellar_rwa_contracts.Base.Dict.{lookup, insert, lookup-insert, sum_by, sum_by-insert_new}
use stellar_rwa_contracts.Base.Host.{Address, Result-cases, ok, err, after, state_of}
use stellar_rwa_contracts.Dividend.State.{
  Env, Dividend, Distribution, Payment, Snapshot, Outcome, empty,
}
use stellar_rwa_contracts.Dividend.Creation.{
  funding, new_distribution, check_eligible, store_distribution, create_distribution_deadline,
  create_distribution,
}
use stellar_rwa_contracts.Dividend.Admin.{
  initialize, propose_admin, cancel_admin_proposal, accept_admin,
}
use stellar_rwa_contracts.Dividend.Calls.{Call, execute, step, run}
use stellar_rwa_contracts.Dividend.Escrow.{gain, owed, Solvent, Settles-Solvent}
use stellar_rwa_contracts.Dividend.Payouts.{
  signer-ne, claim-Settles, reclaim-Settles, cancel-Settles,
}

-- What `create_distribution` writes, as far as the escrow depends on it.
abbrev Creates : Address → ℕ → Distribution → Payment → Dividend → Dividend → Type 0
Creates this id d p s s' =
    (id ≡ unwrap_or s.counter 0 + 1)
    × (s'.counter ≡ some id)
    × (s'.admin ≡ s.admin)
    × (s'.dists ≡ insert id d s.dists)
    × (s'.payments ≡ p ∷ s.payments)
    × ((t : Address) → owed t d ≡ gain this t p)
    × (d.distributed ≡ pos 0)
    × (s.admin ≢ none)

Creates-Solvent :
    (this : Address) (id : ℕ) (d : Distribution) (p : Payment) (s s' : Dividend)
    → Creates this id d p s s'
    → Solvent this s
    → Solvent this s'
Creates-Solvent this id d p s s' (i, c, a, w, q, o, z, n) v = record {
  fresh = λ k lt. ground (arith, lookup-insert k id d s.dists, v.fresh k);
  unused = λ e. absurd (n (sym a ∙ e));
  nonneg = λ k c h. ground (arith, lookup-insert k id d s.dists, v.nonneg k c);
  covered = λ t.
      rw (w, q)
        (rw (sum_by-insert_new (owed t) id d s.dists (v.fresh id (omega arith)), v.covered t, o t));
}

module _ (env : Env) (s : Dividend) (unsigned : env.authorized env.this ≡ false) where
  owed-new :
      (id : ℕ) (admin asset payment : Address) (x : ℤ) (deadline : ℕ) (t : Address)
      → env.authorized admin ≡ true
      → owed t (new_distribution env id asset payment x deadline)
        ≡ gain env.this t (funding env admin payment x)
  owed-new id admin asset payment x deadline t e = ground (arith, signer-ne env admin unsigned e)

  store-Solvent :
      (admin asset payment : Address) (x : ℤ) (es : Snapshot) (deadline : ℕ) (n : ℤ) (id : ℕ)
      (s' : Dividend)
      → env.authorized admin ≡ true
      → s.admin ≢ none
      → store_distribution env admin asset payment x es deadline n s ≡ ok (id, s')
      → Solvent env.this s
      → Solvent env.this s'
  unfolding store_distribution
  store-Solvent admin asset payment x es deadline n id s' e a h =
      Creates-Solvent env.this id (new_distribution env id asset payment x deadline)
        (funding env admin payment x) s s'
        (
          ground arith,
          ground arith,
          ground arith,
          ground arith,
          ground arith,
          λ t. owed-new id admin asset payment x deadline t e,
          refl,
          a,
        )

  create-Solvent :
      (admin asset payment : Address) (x : ℤ) (es : Snapshot) (deadline : ℕ) (s' : Dividend)
      → state_of (create_distribution_deadline env admin asset payment x es deadline s) ≡ ok s'
      → Solvent env.this s
      → Solvent env.this s'
  unfolding create_distribution_deadline
  create-Solvent admin asset payment x es deadline s' h v =
      elim (Result-cases (check_eligible [] (pos 0) es)) [
        | inl (n, e) ↦
            elim (Result-cases (store_distribution env admin asset payment x es deadline n s)) [
              | inl ((id, t), k) ↦
                  store-Solvent admin asset payment x es deadline n id s' (ground arith)
                    (ground arith) (ground arith) v
              | inr (f, k) ↦ ground arith
            ]
        | inr (f, e) ↦ ground arith
      ]

  admin-Solvent :
      (a b : Address) (s' : Dividend)
      → (initialize env a s ≡ ok s')
        ⊎ (accept_admin env a s ≡ ok s')
        ⊎ (cancel_admin_proposal env a s ≡ ok s')
        ⊎ (propose_admin env a b s ≡ ok s')
      → Solvent env.this s
      → Solvent env.this s'
  unfolding initialize accept_admin cancel_admin_proposal propose_admin
  admin-Solvent a b s' h v = record {
    fresh = λ k lt. ground (arith, v.fresh k, λ (e : s.admin ≡ none). v.unused e k);
    unused = λ e k. ground (arith, λ (e : s.admin ≡ none). v.unused e k);
    nonneg = λ k d e. ground (arith, v.nonneg k d);
    covered = λ t. ground (arith, v.covered t);
  }

  execute-Solvent :
      (c : Call) (s' : Dividend)
      → execute env c s ≡ ok s'
      → Solvent env.this s
      → Solvent env.this s'
  unfolding execute create_distribution
  execute-Solvent (Call.initialize a) s' h v = admin-Solvent a a s' (inl h) v
  execute-Solvent (Call.accept_admin a) s' h v = admin-Solvent a a s' (inr (inl h)) v
  execute-Solvent (Call.cancel_admin_proposal a) s' h v = admin-Solvent a a s' (inr (inr (inl h))) v
  execute-Solvent (Call.propose_admin a b) s' h v = admin-Solvent a b s' (inr (inr (inr h))) v
  execute-Solvent (Call.create_distribution a t p x es) s' h v = create-Solvent a t p x es 0 s' h v
  execute-Solvent (Call.create_distribution_deadline a t p x es d) s' h v =
      create-Solvent a t p x es d s' h v
  execute-Solvent (Call.claim id holder) s' h v =
      Settles-Solvent env.this s s' v (claim-Settles env s unsigned id holder s' h)
  execute-Solvent (Call.reclaim_unclaimed a id) s' h v =
      Settles-Solvent env.this s s' v (reclaim-Settles env s unsigned a id s' h)
  execute-Solvent (Call.cancel_distribution a id) s' h v =
      Settles-Solvent env.this s s' v (cancel-Settles env s unsigned a id s' (v.nonneg id) h)

after-Solvent :
    (this : Address) (s : Dividend) (r : Outcome)
    → ((s' : Dividend) → r ≡ ok s' → Solvent this s → Solvent this s')
    → Solvent this s
    → Solvent this (after s r)
after-Solvent this s (ok s') k v = k s' refl v
after-Solvent this s (err _) k v = v

step-Solvent :
    (s : Dividend) (env : Env) (c : Call)
    → env.authorized env.this ≡ false
    → Solvent env.this s
    → Solvent env.this (step s (env, c))
unfolding step
step-Solvent s env c n = after-Solvent env.this s (execute env c s) (execute-Solvent env s n c)

-- A history of calls of the contract at `this`, none of which carries its own authorization.
abbrev pub At : Address → List (Env × Call) → Type 0
At this [] = Unit
At this ((env, _) ∷ cs) = (env.this ≡ this) × (env.authorized this ≡ false) × At this cs

-- The same with a name for the contract's address.
pub step-Solvent_at :
    (this : Address) (s : Dividend) (env : Env) (c : Call)
    → env.this ≡ this
    → env.authorized this ≡ false
    → Solvent this s
    → Solvent this (step s (env, c))
step-Solvent_at this s env c e n v =
    subst (λ x. Solvent x (step s (env, c))) e
      (step-Solvent s env c (rw e n) (subst (λ x. Solvent x s) (sym e) v))

run-Solvent :
    (this : Address) (s : Dividend) (cs : List (Env × Call))
    → At this cs
    → Solvent this s
    → Solvent this (run s cs)
unfolding run
run-Solvent this s [] a v = v
run-Solvent this s ((env, c) ∷ cs) (e, n, a) v =
    run-Solvent this (step s (env, c)) cs a (step-Solvent_at this s env c e n v)

pub empty-Solvent : (this : Address) → Solvent this empty
unfolding sum_by lookup
empty-Solvent this = record {
  fresh = λ k lt. refl;
  unused = λ e k. refl;
  nonneg = λ k d e. cc;
  covered = λ t. refl;
}

-- After any history of calls on a new contract, where the contract's own address authorizes none
-- of them: for each payment token, what the contract has received less what it has paid is
-- exactly the sum, over the distributions in that token that are not completed, of what is not
-- yet distributed. Ids above the counter are unused and no distributed amount is negative.
pub run-empty-Solvent :
    (this : Address) (cs : List (Env × Call)) → At this cs → Solvent this (run empty cs)
run-empty-Solvent this cs a = run-Solvent this empty cs a (empty-Solvent this)
