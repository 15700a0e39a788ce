-- ===== src/Fuzz/MirrorSteps.antt =====
-- fuzz/fuzz_targets/asset_token_transfer_batch.rs: what its copy of `transfer_batch` does.
use stellar_rwa_contracts.Base.{
  false, ℕ, ◌-◌, ◌≡◌, ◌≢◌, refl, ap, subst, ◌∙◌, ◌+◌, ◌^◌, ◌<◌, ◌≤◌, true, some, List, [], ◌∷◌,
  arith, inl, inr, Bool-cases, ◌==◌,
}
use stellar_rwa_contracts.Base.Int.{
  ℤ, pos, pos_part, leb_ℤ, ltb_ℤ, ◌+ℤ◌, ◌-ℤ◌, ◌≤ℤ◌, checked_add, checked_sub,
}
use stellar_rwa_contracts.Base.Host.{Result, Failure, Result-cases, ok, err, error, trap}
use stellar_rwa_contracts.Fuzz.Mirror.{
  accounts, Error, Ledger, set_at, move_amount, transfer_one, transfer_all,
}
use stellar_rwa_contracts.Fuzz.Conserve.{all_positive, all_compliant, all_to}
use stellar_rwa_contracts.Fuzz.Sums.{NonNegative, total, total-set, item-le-total}

-- No balance is negative, and their sum is `t`.
pub record Steady (t : ℕ) (l : Ledger) : Type 0 where
  pub non_negative : NonNegative l.balances
  pub sum_is : total accounts 0 l.balances ≡ t

pos_of : (a : ℤ) → ltb_ℤ (pos 0) a ≡ true → a ≡ pos (pos_part a)
pos_of a p = ground arith

sub_exact :
    (b : ℤ) (a : ℕ)
    → pos 0 ≤ℤ b
    → pos_part b < 2 ^ 127
    → a ≤ pos_part b
    → checked_sub b (pos a) ≡ some (pos (pos_part b - a))
unfolding checked_sub ◌-ℤ◌
sub_exact b a p lt le = ground arith

add_exact :
    (b : ℤ) (a : ℕ)
    → pos 0 ≤ℤ b
    → pos_part b + a < 2 ^ 127
    → checked_add b (pos a) ≡ some (pos (pos_part b + a))
unfolding checked_add ◌+ℤ◌
add_exact b a p lt = ground arith

set_at-NonNegative : (j v : ℕ) (f : ℕ → ℤ) → NonNegative f → NonNegative (set_at j (pos v) f)
set_at-NonNegative j v f p i = ground (arith, p i)

set_at_twice : (i j : ℕ) (u v : ℤ) (f : ℕ → ℤ) → i ≢ j → set_at j v (set_at i u f) i ≡ u
set_at_twice i j u v f ne = ground (arith, ne)

move_amount-Steady :
    (t from to : ℕ) (a : ℕ) (next : Ledger)
    → t < 2 ^ 127
    → from < accounts
    → to < accounts
    → from ≢ to
    → a ≤ pos_part (next.balances from)
    → Steady t next
    → (next' : Ledger) × (move_amount from to (pos a) next ≡ ok next')
      × Steady t next'
      × (pos_part (next.balances from) ≤ pos_part (next'.balances from) + a)
unfolding move_amount
move_amount-Steady t from to a next lt fb tb ne le v =
    let b = next.balances in
    let fv = pos_part (b from) in
    let tv = pos_part (b to) in
    let g = set_at from (pos (fv - a)) b in
    let h = set_at to (pos (tv + a)) g in
    let first = total-set accounts 0 from (pos (fv - a)) b (omega arith) (omega (arith, fb)) in
    let other : g to ≡ b to = ground (arith, ne) in
    let second = total-set accounts 0 to (pos (tv + a)) g (omega arith) (omega (arith, tb)) in
    let item = item-le-total accounts 0 to g (omega arith) (omega (arith, tb)) in
    let at_from : h from ≡ pos (fv - a) = set_at_twice from to (pos (fv - a)) (pos (tv + a)) b ne in
    let sum_h : total accounts 0 h ≡ t =
      omega (arith, v.sum_is, first, second, ap pos_part other, le) in
    let from_is : checked_sub (b from) (pos a) ≡ some (pos (fv - a)) =
      sub_exact (b from) a (v.non_negative from)
        (omega (arith, item-le-total accounts 0 from b (omega arith) (omega (arith, fb)), v.sum_is))
        le in
    let to_is : checked_add (b to) (pos a) ≡ some (pos (tv + a)) =
      add_exact (b to) a (v.non_negative to)
        (omega (arith, item-le-total accounts 0 to h (omega arith) (omega (arith, tb)), sum_h)) in
    (
      record next { balances = h },
      rw to_is (rw from_is refl),
      record {
        non_negative =
            set_at-NonNegative to (tv + a) g (set_at-NonNegative from (fv - a) b v.non_negative);
        sum_is = sum_h;
      },
      omega (arith, ap pos_part at_from),
    )

-- What the entry `(to, amount)` comes to: a success, or an error that has its reason. Nothing
-- overflows.
abbrev AfterOne : ℕ → Ledger → ℕ → ℕ × ℤ → Ledger → Result Error Ledger → Type 0
AfterOne t ledger from (to, amount) next (ok next') =
    Steady t next'
    × (ltb_ℤ (pos 0) amount ≡ true)
    × (ledger.compliant to ≡ true)
    × (to == from ≡ true → next' ≡ next)
    × (pos_part (next.balances from) ≤ pos_part (next'.balances from) + pos_part amount)
AfterOne t ledger from (to, amount) next (err (error Error.invalid_amount)) =
    ltb_ℤ (pos 0) amount ≡ false
AfterOne t ledger from (to, amount) next (err (error Error.recipient_not_compliant)) =
    ledger.compliant to ≡ false
AfterOne t ledger from (to, amount) next (err (error Error.insufficient_balance)) =
    pos_part (next.balances from) < pos_part amount
AfterOne t ledger from e next (err _) = ⊥

-- The sum of the amounts.
abbrev pub amounts : List (ℕ × ℤ) → ℕ
amounts [] = 0
amounts ((_, amount) ∷ es) = pos_part amount + amounts es

abbrev pub AfterAll : ℕ → Ledger → ℕ → List (ℕ × ℤ) → Ledger → Result Error Ledger → Type 0
AfterAll t ledger from es next (ok next') =
    Steady t next'
    × (all_positive es ≡ true)
    × (all_compliant ledger es ≡ true)
    × (all_to from es ≡ true → next' ≡ next)
AfterAll t ledger from es next (err (error Error.invalid_amount)) = all_positive es ≡ false
AfterAll t ledger from es next (err (error Error.recipient_not_compliant)) =
    all_compliant ledger es ≡ false
AfterAll t ledger from es next (err (error Error.insufficient_balance)) =
    pos_part (next.balances from) < amounts es
AfterAll t ledger from es next (err _) = ⊥

transfer_one-AfterOne :
    (t : ℕ) (ledger : Ledger) (from to : ℕ) (amount : ℤ) (next : Ledger)
    → t < 2 ^ 127
    → from < accounts
    → to < accounts
    → Steady t next
    → AfterOne t ledger from (to, amount) next (transfer_one ledger from (to, amount) next)
unfolding transfer_one
transfer_one-AfterOne t ledger from to amount next lt fb tb v =
    elim (Bool-cases (leb_ℤ amount (pos 0))) [
      | inl p ↦ rw p (ground (arith, p))
      | inr p ↦ elim (Bool-cases (ledger.compliant to)) [
        | inr c ↦ rw p (rw c c)
        | inl c ↦ elim (Bool-cases (ltb_ℤ (next.balances from) amount)) [
          | inl q ↦ rw p (rw c (rw q (ground (arith, p, q, v.non_negative from))))
          | inr q ↦ elim (Bool-cases (from == to)) [
            | inl e ↦ rw p (rw c (rw q (rw e (v, ground (arith, p), c, (λ _. refl), omega arith))))
            | inr e ↦
                let positive : ltb_ℤ (pos 0) amount ≡ true = ground (arith, p) in
                let (next', is, w, spent) =
                  move_amount-Steady t from to (pos_part amount) next lt fb tb (ground (arith, e))
                    (ground (arith, p, q)) v in
                let is' =
                  ap (λ (x : ℤ). move_amount from to x next) (pos_of amount positive) ∙ is in
                rw p (
                  rw c (
                    rw q (
                      rw e (rw is' (w, positive, c, (λ f. absurd (ground (arith, e, f))), spent)))))
          ]
        ]
      ]
    ]

-- Each recipient is an account.
abbrev pub AllBelow : List (ℕ × ℤ) → Type 0
AllBelow [] = Unit
AllBelow ((to, _) ∷ es) = (to < accounts) × AllBelow es

pub transfer_all-AfterAll :
    (t : ℕ) (ledger : Ledger) (from : ℕ) (es : List (ℕ × ℤ)) (next : Ledger)
    → t < 2 ^ 127
    → from < accounts
    → AllBelow es
    → Steady t next
    → AfterAll t ledger from es next (transfer_all ledger from es next)
unfolding transfer_all all_positive all_compliant all_to
transfer_all-AfterAll t ledger from [] next lt fb bs v = (v, refl, refl, λ _. refl)
transfer_all-AfterAll t ledger from ((to, amount) ∷ es) next lt fb (tb, bs) v =
    let one = transfer_one-AfterOne t ledger from to amount next lt fb tb v in
    elim (Result-cases (transfer_one ledger from (to, amount) next)) [
      | inr (f, q) ↦ rw q (refused f (subst (AfterOne t ledger from (to, amount) next) q one))
      | inl (n1, q) ↦
          let (w, p, c, same1, spent) = subst (AfterOne t ledger from (to, amount) next) q one in
          rw q (
            join n1 p c same1 spent (transfer_all ledger from es n1)
              (transfer_all-AfterAll t ledger from es n1 lt fb bs w))
    ]
  where
    refused :
        (f : Failure Error)
        → AfterOne t ledger from (to, amount) next (err f)
        → AfterAll t ledger from ((to, amount) ∷ es) next (err f)
    refused (error Error.invalid_amount) h = ground (arith, h)
    refused (error Error.recipient_not_compliant) h = ground (arith, h)
    refused (error Error.insufficient_balance) h = omega (arith, h)
    refused (error Error.paused) h = h
    refused (error Error.sender_not_compliant) h = h
    refused (error Error.overflow) h = h
    refused trap h = h

    join :
        (n1 : Ledger)
        → ltb_ℤ (pos 0) amount ≡ true
        → ledger.compliant to ≡ true
        → (to == from ≡ true → n1 ≡ next)
        → pos_part (next.balances from) ≤ pos_part (n1.balances from) + pos_part amount
        → (r : Result Error Ledger) → AfterAll t ledger from es n1 r
        → AfterAll t ledger from ((to, amount) ∷ es) next r
    join n1 p c same1 spent (ok n2) (w, ps, cs, same2) = (
      w,
      ground (arith, p, ps),
      ground (arith, c, cs),
      λ f. same2 (ground (arith, f)) ∙ same1 (ground (arith, f)),
    )
    join n1 p c same1 spent (err (error Error.invalid_amount)) h = ground (arith, p, h)
    join n1 p c same1 spent (err (error Error.recipient_not_compliant)) h = ground (arith, c, h)
    join n1 p c same1 spent (err (error Error.insufficient_balance)) h = omega (arith, h, spent)
    join n1 p c same1 spent (err (error Error.paused)) h = h
    join n1 p c same1 spent (err (error Error.sender_not_compliant)) h = h
    join n1 p c same1 spent (err (error Error.overflow)) h = h
    join n1 p c same1 spent (err trap) h = h
