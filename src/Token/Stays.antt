-- ===== src/Token/Stays.antt =====
-- contracts/asset-token/src/lib.rs: the moves of tokens that leave the allowances and the metadata.
use stellar_rwa_contracts.Base.{◌≡◌, ◌∙◌, List, [], ◌∷◌, arith, inl, inr}
use stellar_rwa_contracts.Base.Int.{ℤ, checked_add-cases, checked_sub-cases}
use stellar_rwa_contracts.Base.Host.{Address, Result-cases, ok}
use stellar_rwa_contracts.Token.State.{Env, Token, balance, set_balance}
use stellar_rwa_contracts.Token.Transfers.{move_balance, settle, transfer_entry, transfer_entries}
use stellar_rwa_contracts.Token.Allowances.{debit_credit}
use stellar_rwa_contracts.Token.Supply.{credit, mint_entry, mint_entries}

-- The allowances stay, and so does that there is metadata.
abbrev pub Stays : Token → Token → Type 0
Stays s s' = (s'.allowances ≡ s.allowances) × (s'.metadata ≡ s.metadata)

Stays-trans : (s t u : Token) → Stays s t → Stays t u → Stays s u
Stays-trans s t u (a, m) (b, n) = (b ∙ a, n ∙ m)

pub settle-Stays :
    (from to : Address) (x : ℤ) (s s' : Token) → settle from to x s ≡ ok s' → Stays s s'
unfolding settle move_balance balance
settle-Stays from to x s s' h =
    ground (arith, checked_sub-cases (balance s from) x, checked_add-cases (balance s to) x)

pub transfer_entries-Stays :
    (env : Env) (c from : Address) (es : List (Address × ℤ)) (s s' : Token)
    → transfer_entries env c from es s ≡ ok s'
    → Stays s s'
unfolding transfer_entries transfer_entry
transfer_entries-Stays env c from [] s s' h = ground arith
transfer_entries-Stays env c from ((to, x) ∷ es) s s' h =
    elim (Result-cases (transfer_entry env c from (to, x) s)) [
      | inl (t, k) ↦
          Stays-trans s t s' (settle-Stays from to x s t (ground arith))
            (transfer_entries-Stays env c from es t s' (ground arith))
      | inr (f, k) ↦ ground arith
    ]

pub debit_credit-Stays :
    (from to : Address) (x u v : ℤ) (s s' : Token)
    → debit_credit from to x s ≡ ok (u, v, s')
    → Stays s s'
unfolding debit_credit balance set_balance
debit_credit-Stays from to x u v s s' h = ground arith

pub credit-Stays :
    (to : Address) (x n n' : ℤ) (s s' : Token) → credit to x (n, s) ≡ ok (n', s') → Stays s s'
unfolding credit
credit-Stays to x n n' s s' h =
    ground (arith, checked_add-cases n x, checked_add-cases (balance s to) x)

pub mint_entries-Stays :
    (env : Env) (c : Address) (es : List (Address × ℤ)) (n n' : ℤ) (s s' : Token)
    → mint_entries env c es (n, s) ≡ ok (n', s')
    → Stays s s'
unfolding mint_entries mint_entry
mint_entries-Stays env c [] n n' s s' h = ground arith
mint_entries-Stays env c ((to, x) ∷ es) n n' s s' h =
    elim (Result-cases (mint_entry env c (to, x) (n, s))) [
      | inl ((k, t), e) ↦ elim (Result-cases (credit to x (n, s))) [
        | inl ((k', t'), e') ↦
            Stays-trans s t s' (ground (arith, credit-Stays to x n k' s t' e'))
              (mint_entries-Stays env c es k n' t s' (ground arith))
        | inr (f, e') ↦ ground arith
      ]
      | inr (f, e) ↦ ground arith
    ]
