-- ===== src/Fuzz/Refines.antt =====
-- fuzz/fuzz_targets/asset_token_transfer_batch.rs: its copy of `transfer_batch` and the contract's.
use stellar_rwa_contracts.Base.{
  ℕ, ◌≡◌, refl, ap, ◌∙◌, ◌⊎◌, true, false, none, some, List, [], ◌∷◌, arith, inl, inr, Bool-cases,
  ◌==◌, if◌then◌else◌,
}
use stellar_rwa_contracts.Base.Int.{
  ℤ, pos, leb_ℤ, ltb_ℤ, ◌+ℤ◌, ◌-ℤ◌, in_i128, checked_add, checked_sub,
}
use stellar_rwa_contracts.Base.Dict.{lookup-insert}
use stellar_rwa_contracts.Base.Host.{Address, Result, ok, err, error}
use stellar_rwa_contracts.Token.State.{
  Event, publish, Env, Token, AssetMetadata, Outcome, balance, set_balance, check_amount, compliant,
  metadata, Error as TokenError,
}
use stellar_rwa_contracts.Token.Transfers.{
  move_balance, settle, transfer_entry, transfer_entries, transfer_batch as contract_batch,
}
use stellar_rwa_contracts.Fuzz.Mirror.{
  Error, Ledger, set_at, move_amount, transfer_one, transfer_all, transfer_batch,
}

-- The contract's code of an error.
abbrev pub code : Error → TokenError
code Error.paused = TokenError.is_paused
code Error.sender_not_compliant = TokenError.sender_not_compliant
code Error.recipient_not_compliant = TokenError.recipient_not_compliant
code Error.invalid_amount = TokenError.invalid_amount
code Error.insufficient_balance = TokenError.insufficient_balance
code Error.overflow = TokenError.overflow

-- The account `i` of the ledger is the address `addr i` of the token.
abbrev pub Tracks : (ℕ → Address) → Token → Ledger → Type 0
Tracks addr s l = (i : ℕ) → balance s (addr i) ≡ l.balances i

abbrev pub Fits : Ledger → Type 0
Fits l = (i : ℕ) → in_i128 (l.balances i) ≡ true

-- Both succeed and track each other, or both fail with the same error.
abbrev pub Agree : (ℕ → Address) → Outcome → Result Error Ledger → Type 0
Agree addr r q =
    ((s : Token) × (l : Ledger) × (r ≡ ok s) × (q ≡ ok l) × Tracks addr s l × Fits l)
    ⊎ ((e : Error) × (r ≡ err (error (code e))) × (q ≡ err (error e)))

Agree-cong :
    (addr : ℕ → Address) (r r' : Outcome) (q q' : Result Error Ledger)
    → r ≡ r'
    → q ≡ q'
    → Agree addr r' q'
    → Agree addr r q
Agree-cong addr r r' q q' e f h = rw e (rw f h)

abbrev pub placed : (ℕ → Address) → List (ℕ × ℤ) → List (Address × ℤ)
placed addr [] = []
placed addr ((to, x) ∷ es) = (addr to, x) ∷ placed addr es

to_eq : (i j : ℕ) → i == j ≡ true → i ≡ j
to_eq i j q = ground arith

sub_fits :
    (b x : ℤ)
    → in_i128 b ≡ true
    → leb_ℤ x (pos 0) ≡ false
    → ltb_ℤ b x ≡ false
    → (checked_sub b x ≡ some (b -ℤ x)) × (in_i128 (b -ℤ x) ≡ true)
unfolding checked_sub ◌-ℤ◌
sub_fits b x f p q = ground arith

checked-cases :
    (b x : ℤ)
    → (checked_add b x ≡ none) ⊎ ((checked_add b x ≡ some (b +ℤ x)) × (in_i128 (b +ℤ x) ≡ true))
unfolding checked_add
checked-cases b x = ground arith

balance-set :
    (s : Token) (a b : Address) (x : ℤ)
    → balance (set_balance a x s) b ≡ (if a == b then x else balance s b)
unfolding balance set_balance
balance-set s a b x = ground (arith, lookup-insert b a x s.balances)

module _ (env : Env) (addr : ℕ → Address) (distinct : (i j : ℕ) → addr i ≡ addr j → i ≡ j) where
  same_test : (i j : ℕ) → addr i == addr j ≡ i == j
  same_test i j = elim (Bool-cases (i == j)) [
    | inl q ↦ ground (arith, ap addr (to_eq i j q))
    | inr q ↦ ground (arith, distinct i j)
  ]

  move-Agree :
      (from to : ℕ) (x : ℤ) (s : Token) (l : Ledger)
      → from == to ≡ false
      → leb_ℤ x (pos 0) ≡ false
      → ltb_ℤ (l.balances from) x ≡ false
      → Tracks addr s l
      → Fits l
      → Agree addr
          (move_balance (addr from) (addr to) x (balance s (addr from)) s)
          (move_amount from to x l)
  unfolding move_balance move_amount
  move-Agree from to x s l ne p q t f =
      let fb = l.balances from in
      let tb = l.balances to in
      let (sub, fits_from) = sub_fits fb x (f from) p q in
      elim (checked-cases tb x) [
        | inl o ↦ inr (Error.overflow, rw (t from) (rw (t to) (rw sub (rw o refl))), rw o refl)
        | inr (o, fits_to) ↦
            let s1 = set_balance (addr from) (fb -ℤ x) s in
            let s2 = set_balance (addr to) (tb +ℤ x) s1 in
            let l2 : Ledger = record l {
              balances = set_at to (tb +ℤ x) (set_at from (fb -ℤ x) l.balances);
            } in
            inl (
              publish (Event.transfer (addr from) (addr to) x (fb -ℤ x) (tb +ℤ x)) s2,
              l2,
              rw (t from) (rw (t to) (rw sub (rw o refl))),
              rw o (rw sub refl),
              (λ i.
                  balance-set s1 (addr to) (addr i) (tb +ℤ x)
                  ∙ ground (
                    arith,
                    balance-set s (addr from) (addr i) (fb -ℤ x),
                    same_test to i,
                    same_test from i,
                    t i,
                  )),
              (λ i. ground (arith, fits_from, fits_to, f i)),
            )
      ]

  entry-Agree :
      (c : Address) (from to : ℕ) (x : ℤ) (s : Token) (l0 l : Ledger)
      → ((i : ℕ) → env.is_allowed c (addr i) ≡ some (l0.compliant i))
      → Tracks addr s l
      → Fits l
      → Agree addr
          (transfer_entry env c (addr from) (addr to, x) s)
          (transfer_one l0 from (to, x) l)
  unfolding transfer_entry transfer_one check_amount compliant settle
  entry-Agree c from to x s l0 l a t f = elim (Bool-cases (leb_ℤ x (pos 0))) [
    | inl p ↦ inr (Error.invalid_amount, rw p refl, rw p refl)
    | inr p ↦ elim (Bool-cases (l0.compliant to)) [
      | inr w ↦ inr (Error.recipient_not_compliant, rw p (rw (a to) (rw w refl)), rw p (rw w refl))
      | inl w ↦ elim (Bool-cases (ltb_ℤ (l.balances from) x)) [
        | inl q ↦ inr (
          Error.insufficient_balance,
          rw p (rw (a to) (rw w (rw (t from) (rw q refl)))),
          rw p (rw w (rw q refl)),
        )
        | inr q ↦
            let covered = ap (λ b. ltb_ℤ b x) (t from) ∙ q in
            elim (Bool-cases (from == to)) [
              | inl e ↦
                  let self = same_test from to ∙ e in
                  inl (
                    publish
                        (Event.transfer (addr from) (addr to) x (balance s (addr from))
                          (balance s (addr from)))
                        s,
                    l,
                    rw p (rw (a to) (rw w (rw covered (rw self refl)))),
                    rw p (rw w (rw q (rw e refl))),
                    t,
                    f,
                  )
              | inr e ↦
                  let other = same_test from to ∙ e in
                  Agree-cong addr (transfer_entry env c (addr from) (addr to, x) s)
                    (move_balance (addr from) (addr to) x (balance s (addr from)) s)
                    (transfer_one l0 from (to, x) l) (move_amount from to x l)
                    (rw p (rw (a to) (rw w (rw covered (rw other refl)))))
                    (rw p (rw w (rw q (rw e refl)))) (move-Agree from to x s l e p q t f)
            ]
      ]
    ]
  ]

  entries-Agree :
      (c : Address) (from : ℕ) (es : List (ℕ × ℤ)) (s : Token) (l0 l : Ledger)
      → ((i : ℕ) → env.is_allowed c (addr i) ≡ some (l0.compliant i))
      → Tracks addr s l
      → Fits l
      → Agree addr
          (transfer_entries env c (addr from) (placed addr es) s)
          (transfer_all l0 from es l)
  unfolding transfer_entries transfer_all
  entries-Agree c from [] s l0 l a t f = inl (s, l, refl, refl, t, f)
  entries-Agree c from ((to, x) ∷ es) s l0 l a t f = elim (entry-Agree c from to x s l0 l a t f) [
    | inr (e, u, v) ↦ inr (e, rw u refl, rw v refl)
    | inl (s', l', u, v, t', f') ↦ rw u (rw v (entries-Agree c from es s' l0 l' a t' f'))
  ]

  -- The target's copy of `transfer_batch` is the contract's: on a ledger with the balances of the
  -- token, its pause flag and the answers of its compliance contract, both succeed and have the same
  -- balances again, or both fail with the same error. The sender has authorized the call, the token
  -- is initialized, different accounts have different addresses and the balances are `i128`s.
  pub mirrors-transfer_batch :
      (from : ℕ) (es : List (ℕ × ℤ)) (s : Token) (m : AssetMetadata) (l : Ledger)
      → env.authorized (addr from) ≡ true
      → s.metadata ≡ some m
      → m.paused ≡ l.paused
      → ((i : ℕ) → env.is_allowed m.compliance_contract (addr i) ≡ some (l.compliant i))
      → Tracks addr s l
      → Fits l
      → Agree addr (contract_batch env (addr from) (placed addr es) s) (transfer_batch l from es)
  unfolding contract_batch transfer_batch metadata compliant
  mirrors-transfer_batch from es s m l auth meta pause a t f = elim (Bool-cases l.paused) [
    | inl p ↦ inr (Error.paused, rw auth (rw meta (rw pause (rw p refl))), rw p refl)
    | inr p ↦ elim (Bool-cases (l.compliant from)) [
      | inr w ↦ inr (
        Error.sender_not_compliant,
        rw auth (rw meta (rw pause (rw p (rw (a from) (rw w refl))))),
        simp (p, w) refl,
      )
      | inl w ↦
          Agree-cong addr (contract_batch env (addr from) (placed addr es) s)
            (transfer_entries env m.compliance_contract (addr from) (placed addr es) s)
            (transfer_batch l from es) (transfer_all l from es l)
            (rw auth (rw meta (rw pause (rw p (rw (a from) (rw w refl)))))) (simp (p, w) refl)
            (entries-Agree m.compliance_contract from es s l l a t f)
    ]
  ]
