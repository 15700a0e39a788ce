-- ===== src/Dividend/Escrow.antt =====
-- contracts/dividend/src/lib.rs: the escrow of each payment token, and what a claim changes
-- of it.
use stellar_rwa_contracts.Base.{
  ℕ, ◌≡◌, sym, ◌∙◌, Option, none, some, true, false, not, List, [], ◌∷◌, arith, ◌==◌, if◌then◌else◌,
  ◌<◌, ◌≢◌, ◌&&◌, unwrap_or,
}
use stellar_rwa_contracts.Base.Int.{ℤ, pos, ◌+ℤ◌, ◌-ℤ◌, ◌≤ℤ◌, int_laws, checked_add-cases}
use stellar_rwa_contracts.Base.Dict.{lookup, insert, lookup-insert, sum_by, sum_by-insert}
use stellar_rwa_contracts.Base.Tables.{update_pair}
use stellar_rwa_contracts.Base.Host.{Address, ok}
use stellar_rwa_contracts.Dividend.State.{Env, Dividend, Distribution, Payment}
use stellar_rwa_contracts.Dividend.Claims.{settled, settle_claim, pay_claim}

-- What a payment brings to `this`, in units of the token `t`.
abbrev pub gain : Address → Address → Payment → ℤ
gain this t p =
    if p.token == t
    then (if p.to == this then p.amount else pos 0) -ℤ (if p.from == this then p.amount else pos 0)
    else pos 0

-- What all payments have brought to `this`.
abbrev pub escrow : Address → Address → List Payment → ℤ
escrow this t [] = pos 0
escrow this t (p ∷ ps) = escrow this t ps +ℤ gain this t p

-- What a distribution still owes in units of the token `t`: nothing once it is completed.
abbrev pub owed : Address → Distribution → ℤ
owed t d =
    if d.payment_token == t && not d.completed then d.total_amount -ℤ d.distributed else pos 0

-- Ids above the counter are unused, before `initialize` nothing is stored, no distributed amount
-- is negative, and the contract's balance of every payment token is what its open distributions
-- owe.
pub record Solvent (this : Address) (s : Dividend) : Type 0 where
  pub fresh : (id : ℕ) → unwrap_or s.counter 0 < id → lookup id s.dists ≡ none
  pub unused : s.admin ≡ none → (id : ℕ) → lookup id s.dists ≡ none
  pub nonneg : (id : ℕ) (d : Distribution) → lookup id s.dists ≡ some d → pos 0 ≤ℤ d.distributed
  pub covered : (t : Address) → escrow this t s.payments ≡ sum_by (owed t) s.dists

-- The fields that the escrow depends on, after a write of one distribution and some payments.
abbrev pub Writes : ℕ → Distribution → List Payment → Dividend → Dividend → Type 0
Writes id d ps s s' =
    (s'.dists ≡ insert id d s.dists)
    × (s'.payments ≡ ps)
    × (s'.counter ≡ s.counter)
    × (s'.admin ≡ s.admin)

pub settle_claim-Writes :
    (id : ℕ) (holder : Address) (x : ℤ) (d : Distribution) (s s' : Dividend)
    → settle_claim id holder x d s ≡ ok s'
    → Writes id (settled d (d.distributed +ℤ x)) s.payments s s'
      × (d.distributed +ℤ x ≤ℤ d.total_amount)
unfolding settle_claim
settle_claim-Writes id holder x d s s' h = ground (arith, checked_add-cases d.distributed x)

shift : (e n n' a b g : ℤ) → n' +ℤ a ≡ n +ℤ b → a ≡ b -ℤ g → e ≡ n → e +ℤ g ≡ n'
shift e n n' a b g h k l = grind int_laws

module _ (this t : Address) (id : ℕ) (s s' : Dividend) (d d' : Distribution) (p : Payment) where
  -- A payment that lowers what one distribution owes by what it costs keeps the balance covered.
  Writes-covered :
      lookup id s.dists ≡ some d
      → Writes id d' (p ∷ s.payments) s s'
      → owed t d ≡ owed t d' -ℤ gain this t p
      → escrow this t s.payments ≡ sum_by (owed t) s.dists
      → escrow this t s'.payments ≡ sum_by (owed t) s'.dists
  Writes-covered e w o c =
      rw (w.0, w.1)
        (shift (escrow this t s.payments) (sum_by (owed t) s.dists)
          (sum_by (owed t) (insert id d' s.dists)) (owed t d) (owed t d') (gain this t p)
          (sum_by-insert (owed t) id d' d s.dists e) o c)

  Writes-fresh :
      lookup id s.dists ≡ some d
      → Writes id d' (p ∷ s.payments) s s'
      → (k : ℕ) → (unwrap_or s.counter 0 < k → lookup k s.dists ≡ none)
      → unwrap_or s'.counter 0 < k
      → lookup k s'.dists ≡ none
  Writes-fresh e w k f lt = ground (arith, lookup-insert k id d' s.dists)

Writes-nonneg :
    (id : ℕ) (s s' : Dividend) (d d' : Distribution) (p : Payment)
    → lookup id s.dists ≡ some d
    → Writes id d' (p ∷ s.payments) s s'
    → (k : ℕ) → (pos 0 ≤ℤ d.distributed → pos 0 ≤ℤ d'.distributed)
    → pos 0 ≤ℤ d.distributed
    → ((c : Distribution) → lookup k s.dists ≡ some c → pos 0 ≤ℤ c.distributed)
    → (c : Distribution) → lookup k s'.dists ≡ some c
    → pos 0 ≤ℤ c.distributed
Writes-nonneg id s s' d d' p e w k n z f c h =
    ground (arith, lookup-insert k id d' s.dists, f c, n z)

-- One distribution is written, after one payment that lowers what it owes by what it costs.
unfoldable pub Settles : Address → Dividend → Dividend → Type 0
Settles this s s' =
    (id : ℕ) × (d : Distribution) × (d' : Distribution) × (p : Payment) × (lookup id s.dists
      ≡ some d)
    × Writes id d' (p ∷ s.payments) s s'
    × ((t : Address) → owed t d ≡ owed t d' -ℤ gain this t p)
    × (pos 0 ≤ℤ d.distributed → pos 0 ≤ℤ d'.distributed)

pub some_is_none : {o : Option Distribution} (d : Distribution) → o ≡ none → o ≡ some d → ⊥
some_is_none d h k = cc

pub Settles-Solvent :
    (this : Address) (s s' : Dividend) → Solvent this s → Settles this s s' → Solvent this s'
unfolding Settles
Settles-Solvent this s s' v (id, d, d', p, e, w, o, n) = record {
  fresh = λ k. Writes-fresh this this id s s' d d' p e w k (v.fresh k);
  unused = λ a. absurd (some_is_none d (v.unused (sym w.3 ∙ a) id) e);
  nonneg = λ k. Writes-nonneg id s s' d d' p e w k n (v.nonneg id d e) (v.nonneg k);
  covered = λ t. Writes-covered this t id s s' d d' p e w (o t) (v.covered t);
}

-- Within the total, a claim lowers what is owed by its amount, also when it is the last one.
owed-settled :
    (t : Address) (d : Distribution) (x : ℤ)
    → d.completed ≡ false
    → d.distributed +ℤ x ≤ℤ d.total_amount
    → owed t d
      ≡ owed t (settled d (d.distributed +ℤ x)) +ℤ (if d.payment_token == t then x else pos 0)
owed-settled t d x c le = grind int_laws

-- A payment out of the contract to another address.
pub gain-out :
    (this t token to : Address) (x : ℤ)
    → to ≢ this
    → gain this t (record { token = token; from = this; to = to; amount = x })
      ≡ pos 0 -ℤ (if token == t then x else pos 0)
gain-out this t token to x ne = grind int_laws

-- A distribution that is closed no longer owes what was left of it.
pub owed-closed :
    (t : Address) (d d' : Distribution) (x : ℤ)
    → d.completed ≡ false
    → d'.completed ≡ true
    → x ≡ d.total_amount -ℤ d.distributed
    → owed t d ≡ owed t d' +ℤ (if d.payment_token == t then x else pos 0)
owed-closed t d d' x c c' h = grind int_laws

pub sub_neg : (a b c g : ℤ) → a ≡ b +ℤ c → g ≡ pos 0 -ℤ c → a ≡ b -ℤ g
sub_neg a b c g h k = grind int_laws

abbrev pub claim_payment : Env → Address → ℤ → Distribution → Payment
claim_payment env holder x d = record {
  token = d.payment_token;
  from = env.this;
  to = holder;
  amount = x;
}

-- The state when a claim has been recorded and paid, and is still to be settled.
abbrev pub claim_paid : Env → ℕ → Address → ℤ → Distribution → Dividend → Dividend
claim_paid env id holder x d s = record s {
  claimed = update_pair id holder (some true) s.claimed;
  payments = claim_payment env holder x d ∷ s.payments;
}

module _ (env : Env) (id : ℕ) (holder : Address) (x : ℤ) (d : Distribution) (s s' : Dividend) where
  pub pay_claim-Settles :
      lookup id s.dists ≡ some d
      → d.completed ≡ false
      → holder ≢ env.this
      → pay_claim env id holder x d s ≡ ok s'
      → Settles env.this s s'
  unfolding pay_claim Settles
  pay_claim-Settles e c ne h =
      let px : pos 0 ≤ℤ x = ground arith in
      let paid : Dividend = claim_paid env id holder x d s in
      let k : settle_claim id holder x d paid ≡ ok s' = ground arith in
      let w = settle_claim-Writes id holder x d paid s' k in
      (
        id,
        d,
        settled d (d.distributed +ℤ x),
        (claim_payment env holder x d),
        e,
        w.0,
        λ t.
            sub_neg (owed t d) (owed t (settled d (d.distributed +ℤ x)))
              (if d.payment_token == t then x else pos 0)
              (gain env.this t (claim_payment env holder x d)) (owed-settled t d x c w.1)
              (gain-out env.this t d.payment_token holder x ne),
        omega int_laws,
      )
