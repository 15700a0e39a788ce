-- ===== src/Dividend/Histories.antt =====
-- contracts/dividend/src/lib.rs: the open distributions, at their creation and over histories of
-- calls.
use stellar_rwa_contracts.Base.{
  ℕ, ◌≡◌, refl, sym, ap, subst, ◌∙◌, none, some, Bool, false, List, [], ◌∷◌, arith, inl, inr, ◌<◌,
  ◌≢◌, ◌⊎◌, unwrap_or, ◌+◌, ◌++◌, length,
}
use stellar_rwa_contracts.Base.Int.{ℤ, pos, ◌<ℤ◌, pos_part}
use stellar_rwa_contracts.Base.Dict.{lookup, insert}
use stellar_rwa_contracts.Base.Tables.{update}
use stellar_rwa_contracts.Base.Host.{Address, Result-cases, ok, err, after, state_of}
use stellar_rwa_contracts.Dividend.State.{Env, Dividend, Snapshot, Outcome, empty, has_claimed}
use stellar_rwa_contracts.Dividend.Creation.{
  check_eligible, store_distribution, create_distribution_deadline, create_distribution,
}
use stellar_rwa_contracts.Dividend.Admin.{
  initialize, propose_admin, cancel_admin_proposal, accept_admin,
}
use stellar_rwa_contracts.Dividend.Calls.{Call, execute, step, run}
use stellar_rwa_contracts.Dividend.Shares.{
  total_balance, shares_of, IsProper, check_eligible-IsProper,
}
use stellar_rwa_contracts.Dividend.Creation.{new_distribution}
use stellar_rwa_contracts.Dividend.Funding.{Tracked, Funds-cong}
use stellar_rwa_contracts.Dividend.Tracking.{
  WritesOne-Tracked, claim-Tracked, reclaim-Tracked, cancel-Tracked,
}

shares-none :
    (c : Address → Bool) (t s : ℕ) (es : Snapshot)
    → ((h : Address) → c h ≡ false)
    → shares_of c t s es ≡ 0
shares-none c t s [] e = refl
shares-none c t s ((h, b) ∷ es) e = rw (e h) (rw (shares-none c t s es e) (omega arith))

-- What `store_distribution` leaves in the storage.
pub record Stored (env : Env) (asset payment : Address) (x : ℤ) (es : Snapshot) (deadline id : ℕ)
    (n : ℤ) (s s' : Dividend) : Type 0 where
  pub id_is : id ≡ unwrap_or s.counter 0 + 1
  pub counter_is : s'.counter ≡ some id
  pub admin_is : s'.admin ≡ s.admin
  pub dists_are :
      s'.dists
      ≡ insert id
          (record {
            id = id;
            asset_token = asset;
            payment_token = payment;
            total_amount = x;
            distributed = pos 0;
            created_at = env.sequence;
            completed = false;
            deadline = deadline;
            cancelled = false;
          })
          s.dists
  pub asset_ids_are :
      s'.asset_ids ≡ update asset (some (unwrap_or (s.asset_ids asset) [] ++ id ∷ [])) s.asset_ids
  pub pending_admin_is : s'.pending_admin ≡ s.pending_admin
  pub claimed_is : s'.claimed ≡ s.claimed
  pub supplies_are : s'.supplies ≡ update id (some n) s.supplies
  pub snapshots_are : s'.snapshots ≡ update id (some es) s.snapshots

pub store-Stored :
    (env : Env) (admin asset payment : Address) (x : ℤ) (es : Snapshot) (deadline : ℕ) (n : ℤ)
    (id : ℕ) (s s' : Dividend)
    → store_distribution env admin asset payment x es deadline n s ≡ ok (id, s')
    → Stored env asset payment x es deadline id n s s'
unfolding store_distribution
store-Stored env admin asset payment x es deadline n id s s' h = ground arith

Stored-Tracked :
    (env : Env) (asset payment : Address) (x : ℤ) (es : Snapshot) (deadline id : ℕ)
    (s s' : Dividend)
    → Stored env asset payment x es deadline id (pos (total_balance es)) s s'
    → pos 0 <ℤ x
    → IsProper es
    → 0 < length es
    → s.admin ≢ none
    → Tracked s
    → Tracked s'
unfolding has_claimed
Stored-Tracked env asset payment x es deadline id s s' w px proper ne a v =
    WritesOne-Tracked id (new_distribution env id asset payment x deadline) s s'
      (record {
        dists_are = w.dists_are;
        counted = λ k lt. (ground (arith, w.counter_is, w.id_is), ground (arith, w.counter_is));
        has_admin = λ e. a (sym w.admin_is ∙ e);
        others = λ k q. (
          ground (arith, ap (λ f. f k) w.supplies_are),
          ground (arith, ap (λ f. f k) w.snapshots_are),
          λ h. ap (λ f. f k h) w.claimed_is,
        );
        funds = λ o. record {
          total = pos_part x;
          supply = total_balance es;
          snapshot = es;
          total_is = ground arith;
          supply_is = ground (arith, ap (λ f. f id) w.supplies_are);
          snapshot_is = ground (arith, ap (λ f. f id) w.snapshots_are);
          proper = proper;
          nonempty = ne;
          summed = refl;
          paid = ap pos (
              sym (
                shares-none (λ h. has_claimed id h s') (pos_part x) (total_balance es) es
                  (λ h.
                    ap (λ o. unwrap_or o false)
                      (ap (λ f. f id h) w.claimed_is
                        ∙ (v.fresh id (omega (arith, w.id_is))).1 h))));
        };
      })
      v

module _ (env : Env) (s s' : Dividend) (v : Tracked s) where
  create-Tracked :
      (admin asset payment : Address) (x : ℤ) (es : Snapshot) (deadline : ℕ)
      → state_of (create_distribution_deadline env admin asset payment x es deadline s) ≡ ok s'
      → Tracked s'
  unfolding create_distribution_deadline
  create-Tracked admin asset payment x es deadline h =
      elim (Result-cases (check_eligible [] (pos 0) es)) [
        | inr (f, e) ↦ ground arith
        | inl (n, e) ↦
            elim (Result-cases (store_distribution env admin asset payment x es deadline n s)) [
              | inr (f, k) ↦ ground arith
              | inl ((id, t), k) ↦
                  let (proper, sum) = check_eligible-IsProper n es e in
                  let q : t ≡ s' = ground arith in
                  let w = store-Stored env admin asset payment x es deadline n id s t k in
                  subst Tracked q (
                    Stored-Tracked env asset payment x es deadline id s t
                      (subst (λ n. Stored env asset payment x es deadline id n s t) sum w)
                      (ground arith) proper (ground arith) (ground arith) v)
            ]
      ]

  admin-Tracked :
      (a b : Address)
      → (initialize env a s ≡ ok s')
        ⊎ (accept_admin env a s ≡ ok s')
        ⊎ (cancel_admin_proposal env a s ≡ ok s')
        ⊎ (propose_admin env a b s ≡ ok s')
      → Tracked s'
  unfolding initialize accept_admin cancel_admin_proposal propose_admin
  admin-Tracked a b h = record {
    fresh = λ k lt. (
      ground (
        arith,
        λ (l : unwrap_or s.counter 0 < k). (v.fresh k l).0,
        λ (e : s.admin ≡ none). (v.unused e k).0,
      ),
      λ x. ground (
        arith,
        λ (l : unwrap_or s.counter 0 < k). (v.fresh k l).1 x,
        λ (e : s.admin ≡ none). (v.unused e k).1 x,
      ),
    );
    unused = λ e k. (
      ground (arith, λ (e : s.admin ≡ none). (v.unused e k).0),
      λ x. ground (arith, λ (e : s.admin ≡ none). (v.unused e k).1 x),
    );
    funded = λ id d e o.
        Funds-cong s s' id d (ground arith) (ground arith) (λ x. ground arith)
          (v.funded id d (ground arith) o);
  }

  execute-Tracked : (c : Call) → execute env c s ≡ ok s' → Tracked s'
  unfolding execute create_distribution
  execute-Tracked (Call.initialize a) h = admin-Tracked a a (inl h)
  execute-Tracked (Call.accept_admin a) h = admin-Tracked a a (inr (inl h))
  execute-Tracked (Call.cancel_admin_proposal a) h = admin-Tracked a a (inr (inr (inl h)))
  execute-Tracked (Call.propose_admin a b) h = admin-Tracked a b (inr (inr (inr h)))
  execute-Tracked (Call.create_distribution a t p x es) h = create-Tracked a t p x es 0 h
  execute-Tracked (Call.create_distribution_deadline a t p x es d) h = create-Tracked a t p x es d h
  execute-Tracked (Call.claim id holder) h = claim-Tracked env id holder s s' v h
  execute-Tracked (Call.reclaim_unclaimed a id) h = reclaim-Tracked env a id s s' v h
  execute-Tracked (Call.cancel_distribution a id) h = cancel-Tracked env a id s s' v h

after-Tracked :
    (s : Dividend) (r : Outcome)
    → ((s' : Dividend) → r ≡ ok s' → Tracked s')
    → Tracked s
    → Tracked (after s r)
after-Tracked s (ok s') k v = k s' refl
after-Tracked s (err _) k v = v

pub step-Tracked : (s : Dividend) (c : Env × Call) → Tracked s → Tracked (step s c)
unfolding step
step-Tracked s (env, c) v = after-Tracked s (execute env c s) (λ s'. execute-Tracked env s s' v c) v

run-Tracked : (s : Dividend) (cs : List (Env × Call)) → Tracked s → Tracked (run s cs)
unfolding run
run-Tracked s [] v = v
run-Tracked s (c ∷ cs) v = run-Tracked (step s c) cs (step-Tracked s c v)

-- After any history of calls on a new contract: ids above the counter are unused and unclaimed,
-- and each distribution that is not completed has its snapshot, without duplicates or negative
-- balances, has the sum of that snapshot as its supply, and has distributed exactly the
-- rounded-down shares of the holders that have claimed it.
pub run-empty-Tracked : (cs : List (Env × Call)) → Tracked (run empty cs)
unfolding lookup
run-empty-Tracked cs = run-Tracked empty cs (record {
  fresh = λ k lt. (refl, λ h. refl);
  unused = λ e k. (refl, λ h. refl);
  funded = λ id d e o. cc;
})
