-- ===== src/Dividend/CreateEffect.antt =====
-- contracts/dividend/src/lib.rs: which distributions are created, and what the creation stores.
use stellar_rwa_contracts.Base.{
  ℕ, ◌≡◌, refl, sym, ap, subst, none, some, true, false, List, [], ◌∷◌, arith, Option-cases, inl,
  inr, ◌^◌, ◌<◌, ◌≤◌, ◌≢◌, ◌↔◌, ◌⊎◌, unwrap_or, ◌+◌, length,
}
use stellar_rwa_contracts.Base.Int.{
  ℤ, pos, ◌+ℤ◌, ◌≤ℤ◌, ◌<ℤ◌, checked_add, checked_add-cases, in_i128, pos_part,
}
use stellar_rwa_contracts.Base.Host.{Address, Result-cases, ok, succeeds, state_of}
use stellar_rwa_contracts.Dividend.State.{Env, Dividend, Snapshot, load_supply}
use stellar_rwa_contracts.Dividend.Creation.{
  contains, check_eligible, store_distribution, create_distribution_deadline,
}
use stellar_rwa_contracts.Dividend.Claims.{entitlement, claimable, pay_claim, claim}
use stellar_rwa_contracts.Dividend.Creation.{funding}
use stellar_rwa_contracts.Dividend.Shares.{
  IsProper, total_balance, Absent, Unseen, check_eligible-IsProper,
}
use stellar_rwa_contracts.Dividend.Histories.{Stored, store-Stored}

-- Whether a proposal of a deadline is in order at this ledger.
abbrev InTime : Env → ℕ → Type 0
InTime env deadline = (deadline ≡ 0) ⊎ (env.sequence ≤ deadline)

-- What a creation needs of its arguments, of the contract and of the host.
pub record MayCreate (env : Env) (admin asset payment : Address) (x : ℤ) (es : Snapshot)
    (deadline : ℕ) (s : Dividend) : Type 0 where
  pub stored_admin : Address
  pub supply : ℤ
  pub initialized : s.admin ≡ some stored_admin
  pub authorized : env.authorized admin ≡ true
  pub is_admin : (admin ≡ stored_admin) ⊎ (env.asset_admin asset ≡ some admin)
  pub positive : pos 0 <ℤ x
  pub in_time : InTime env deadline
  pub asset_supply : env.asset_supply asset ≡ some supply
  pub supplied : pos 0 <ℤ supply
  pub nonempty : 0 < length es
  pub proper : IsProper es
  pub sum_fits : in_i128 (pos (total_balance es)) ≡ true
  pub carried_out : env.carries_out (funding env admin payment x) ≡ true
  pub id_fits : unwrap_or s.counter 0 + 1 < 2 ^ 64

no_one : (es : Snapshot) → Unseen [] es
unfolding contains
no_one [] = tt
no_one ((h, b) ∷ es) = (refl, no_one es)

checked_in : (a b : ℤ) → checked_add a b ≢ none → in_i128 (a +ℤ b) ≡ true
unfolding checked_add
checked_in a b h = ground arith

next_sum :
    (a n : ℕ) (b : ℤ)
    → pos 0 ≤ℤ b
    → in_i128 (pos (a + (pos_part b + n))) ≡ true
    → checked_add (pos a) b ≡ some (pos (a + pos_part b))
unfolding checked_add ◌+ℤ◌
next_sum a n b p q = ground arith

Unseen-cons :
    (h : Address) (seen : List Address) (es : Snapshot)
    → Absent h es
    → Unseen seen es
    → Unseen (h ∷ seen) es
unfolding contains
Unseen-cons h seen [] a u = tt
Unseen-cons h seen ((k, b) ∷ es) a u = ground (arith, Unseen-cons h seen es a.1 u.1)

check_eligible-sum :
    (seen : List Address) (a : ℕ) (es : Snapshot)
    → Unseen seen es
    → IsProper es
    → in_i128 (pos (a + total_balance es)) ≡ true
    → check_eligible seen (pos a) es ≡ ok (pos (a + total_balance es))
unfolding check_eligible
check_eligible-sum seen a [] u p r = ground arith
check_eligible-sum seen a ((h, b) ∷ es) u p r =
    let rest =
      check_eligible-sum (h ∷ seen) (a + pos_part b) es (Unseen-cons h seen es p.1 u.1) p.2
        (ground arith) in
    ground (arith, next_sum a (total_balance es) b p.0 r, rest)

zero_add : (es : Snapshot) → 0 + total_balance es ≡ total_balance es
zero_add es = omega arith

check_eligible-total :
    (es : Snapshot)
    → IsProper es
    → in_i128 (pos (total_balance es)) ≡ true
    → check_eligible [] (pos 0) es ≡ ok (pos (total_balance es))
check_eligible-total es p r =
    subst (λ n. check_eligible [] (pos 0) es ≡ ok (pos n)) (zero_add es)
      (check_eligible-sum [] 0 es (no_one es) p
        (subst (λ n. in_i128 (pos n) ≡ true) (sym (zero_add es)) r))

sum_in_range :
    (seen : List Address) (acc n : ℤ) (es : Snapshot)
    → check_eligible seen acc es ≡ ok n
    → in_i128 acc ≡ true
    → in_i128 n ≡ true
unfolding check_eligible
sum_in_range seen acc n [] h r = ground arith
sum_in_range seen acc n ((k, b) ∷ es) h r =
    sum_in_range (k ∷ seen) (acc +ℤ b) n es (ground (arith, checked_add-cases acc b))
      (checked_in acc b (ground arith))

store-succeeds :
    (env : Env) (admin asset payment : Address) (x : ℤ) (es : Snapshot) (deadline : ℕ) (n : ℤ)
    (s : Dividend)
    → (succeeds (state_of (store_distribution env admin asset payment x es deadline n s)) ≡ true)
      ↔ (env.carries_out (funding env admin payment x) ≡ true)
        × (unwrap_or s.counter 0 + 1 < 2 ^ 64)
unfolding store_distribution
store-succeeds env admin asset payment x es deadline n s = (λ h. ground arith, λ h. ground arith)

module _ (env : Env) (admin asset payment : Address) (x : ℤ) (es : Snapshot) (deadline : ℕ)
    (s : Dividend) where
  may-create :
      succeeds (state_of (create_distribution_deadline env admin asset payment x es deadline s))
        ≡ true
      → MayCreate env admin asset payment x es deadline s
  unfolding create_distribution_deadline
  may-create h = elim (Result-cases (check_eligible [] (pos 0) es)) [
    | inr (f, e) ↦ ground arith
    | inl (n, e) ↦
        let (proper, sum) = check_eligible-IsProper n es e in
        let stores : succeeds
              (state_of (store_distribution env admin asset payment x es deadline n s))
            ≡ true =
          ground arith in
        let (paid, id) = (store-succeeds env admin asset payment x es deadline n s).0 stores in
        elim (Option-cases s.admin) [
          | inl k ↦ ground arith
          | inr (a, k) ↦ elim (Option-cases (env.asset_supply asset)) [
            | inl l ↦ ground arith
            | inr (supply, l) ↦ record {
              stored_admin = a;
              supply = supply;
              initialized = k;
              authorized = ground arith;
              is_admin = ground arith;
              positive = ground arith;
              in_time = ground arith;
              asset_supply = l;
              supplied = ground arith;
              nonempty = ground arith;
              proper = proper;
              sum_fits = subst (λ n. in_i128 n ≡ true) sum (sum_in_range [] (pos 0) n es e refl);
              carried_out = paid;
              id_fits = id;
            }
          ]
        ]
  ]

  creates :
      MayCreate env admin asset payment x es deadline s
      → succeeds (state_of (create_distribution_deadline env admin asset payment x es deadline s))
        ≡ true
  unfolding create_distribution_deadline
  creates m =
      let sum = check_eligible-total es m.proper m.sum_fits in
      let stores =
        (store-succeeds env admin asset payment x es deadline (pos (total_balance es)) s).1
          (m.carried_out, m.id_fits) in
      ground (
        arith, m.initialized, m.authorized, m.is_admin, m.positive, m.in_time, m.asset_supply,
        m.supplied, m.nonempty, sum, stores,
      )

-- A creation succeeds exactly when: the caller has authorized it and is the contract's admin, of an
-- initialized contract, or the asset token's; the total is positive; the deadline is 0 or not yet
-- past; the asset token answers with a positive supply; there is an eligible holder, none is listed
-- twice, no balance is negative and the balances add up to an `i128`; the payment token carries
-- out the payment of the total into the contract; and the next id is a `u64`.
pub create-succeeds :
    (env : Env) (admin asset payment : Address) (x : ℤ) (es : Snapshot) (deadline : ℕ)
    (s : Dividend)
    → (succeeds (state_of (create_distribution_deadline env admin asset payment x es deadline s))
        ≡ true)
      ↔ MayCreate env admin asset payment x es deadline s
create-succeeds env admin asset payment x es deadline s = (
  may-create env admin asset payment x es deadline s,
  creates env admin asset payment x es deadline s,
)

funds :
    (env : Env) (admin asset payment : Address) (x : ℤ) (es : Snapshot) (deadline : ℕ) (n : ℤ)
    (id : ℕ) (s s' : Dividend)
    → store_distribution env admin asset payment x es deadline n s ≡ ok (id, s')
    → s'.payments
      ≡ (record { token = payment; from = admin; to = env.this; amount = x }) ∷ s.payments
unfolding store_distribution
funds env admin asset payment x es deadline n id s s' h = ground arith

-- A creation that succeeds returns the next id, stores under it an open distribution of the total
-- with nothing distributed, not cancelled, created at this ledger and with the given tokens and
-- deadline, the eligible list as its snapshot and the sum of its balances as its supply, appends
-- the id to the asset's list, moves the total from the caller into the contract in the payment
-- token, and leaves the admin, the proposed one, the claims, the other distributions, snapshots,
-- supplies and lists.
pub create-Stored :
    (env : Env) (admin asset payment : Address) (x : ℤ) (es : Snapshot) (deadline id : ℕ)
    (s s' : Dividend)
    → create_distribution_deadline env admin asset payment x es deadline s ≡ ok (id, s')
    → Stored env asset payment x es deadline id (pos (total_balance es)) s s'
      × (s'.payments
          ≡ (record { token = payment; from = admin; to = env.this; amount = x }) ∷ s.payments)
unfolding create_distribution_deadline
create-Stored env admin asset payment x es deadline id s s' h =
    elim (Result-cases (check_eligible [] (pos 0) es)) [
      | inr (f, e) ↦ absurd (ground arith)
      | inl (n, e) ↦
          let stores : store_distribution env admin asset payment x es deadline n s ≡ ok (id, s') =
            ground arith in
          (
            subst (λ n. Stored env asset payment x es deadline id n s s')
                (check_eligible-IsProper n es e).1
                (store-Stored env admin asset payment x es deadline n id s s' stores),
            funds env admin asset payment x es deadline n id s s' stores,
          )
    ]

unbacked-unclaimable :
    (env : Env) (id : ℕ) (holder : Address) (s : Dividend)
    → s.supplies id ≡ some (pos 0)
    → succeeds (claim env id holder s) ≡ false
unfolding claim claimable entitlement load_supply pay_claim
unbacked-unclaimable env id holder s e = ground arith

-- A creation whose eligible balances are all 0 escrows the total, but in the state it leaves no
-- holder can claim anything of it, at any ledger.
zero-snapshot-unclaimable :
    (env env' : Env) (admin asset payment holder : Address) (x : ℤ) (es : Snapshot)
    (deadline id : ℕ) (s s' : Dividend)
    → create_distribution_deadline env admin asset payment x es deadline s ≡ ok (id, s')
    → total_balance es ≡ 0
    → succeeds (claim env' id holder s') ≡ false
zero-snapshot-unclaimable env env' admin asset payment holder x es deadline id s s' h z =
    let w = (create-Stored env admin asset payment x es deadline id s s' h).0 in
    unbacked-unclaimable env' id holder s' (ground (arith, ap (λ f. f id) w.supplies_are, z))
