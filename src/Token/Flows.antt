-- ===== src/Token/Flows.antt =====
-- contracts/asset-token/src/lib.rs: which balances the batched transfers and the mints move.
use stellar_rwa_contracts.Base.{◌≡◌, some, true, List, [], ◌∷◌, arith, inl, inr, ◌⊎◌}
use stellar_rwa_contracts.Base.Int.{ℤ, pos, ◌+ℤ◌, ◌≤ℤ◌, -ℤ_parts, +ℤ_parts, checked_add-cases}
use stellar_rwa_contracts.Base.Dict.{lookup-insert}
use stellar_rwa_contracts.Base.Host.{Address, Result-cases, ok}
use stellar_rwa_contracts.Token.State.{Env, Token, balance}
use stellar_rwa_contracts.Token.Transfers.{transfer_entry, transfer_entries}
use stellar_rwa_contracts.Token.Supply.{credit, mint_entry, mint_entries}
use stellar_rwa_contracts.Token.TransferEffect.{settle-balance}

-- From `s` to `s'` the balance of `a` fell only if `a` is `payer`, and rose only if `a` is allowed.
abbrev pub Moves : Env → Address → Address → Address → Token → Token → Type 0
Moves env c payer a s s' =
    ((balance s a ≤ℤ balance s' a) ⊎ (a ≡ payer))
    × ((balance s' a ≤ℤ balance s a) ⊎ (env.is_allowed c a ≡ some true))

Moves-trans :
    (env : Env) (c payer a : Address) (s t u : Token)
    → Moves env c payer a s t
    → Moves env c payer a t u
    → Moves env c payer a s u
Moves-trans env c payer a s t u p q = ground arith

module _ (env : Env) (c a : Address) where
  transfer_entry-Moves :
      (from to : Address) (x : ℤ) (s s' : Token)
      → transfer_entry env c from (to, x) s ≡ ok s'
      → Moves env c from a s s'
  unfolding transfer_entry
  transfer_entry-Moves from to x s s' h =
      ground
        (arith, settle-balance from to a x s s', +ℤ_parts (balance s a) x, -ℤ_parts (balance s a) x)

  pub transfer_entries-Moves :
      (from : Address) (es : List (Address × ℤ)) (s s' : Token)
      → transfer_entries env c from es s ≡ ok s'
      → Moves env c from a s s'
  unfolding transfer_entries
  transfer_entries-Moves from [] s s' h = ground arith
  transfer_entries-Moves from ((to, x) ∷ es) s s' h =
      elim (Result-cases (transfer_entry env c from (to, x) s)) [
        | inl (t, k) ↦
            Moves-trans env c from a s t s' (transfer_entry-Moves from to x s t k)
              (transfer_entries-Moves from es t s' (ground arith))
        | inr (f, k) ↦ ground arith
      ]

  -- A mint lowers no balance.
  pub credit-Moves :
      (to : Address) (x n n' : ℤ) (s s' : Token)
      → pos 0 ≤ℤ x
      → credit to x (n, s) ≡ ok (n', s')
      → (balance s a ≤ℤ balance s' a) × ((balance s' a ≤ℤ balance s a) ⊎ (to ≡ a))
  unfolding credit
  credit-Moves to x n n' s s' p h = ground (
    arith,
    checked_add-cases n x,
    checked_add-cases (balance s to) x,
    lookup-insert a to (balance s to +ℤ x) s.balances,
    +ℤ_parts (balance s to) x,
  )

  abbrev pub Rises : Token → Token → Type 0
  Rises s s' =
      (balance s a ≤ℤ balance s' a)
      × ((balance s' a ≤ℤ balance s a) ⊎ (env.is_allowed c a ≡ some true))

  Rises-trans : (s t u : Token) → Rises s t → Rises t u → Rises s u
  Rises-trans s t u p q = ground arith

  mint_entry-Rises :
      (to : Address) (x n n' : ℤ) (s s' : Token)
      → mint_entry env c (to, x) (n, s) ≡ ok (n', s')
      → Rises s s'
  unfolding mint_entry balance
  mint_entry-Rises to x n n' s s' h = elim (Result-cases (credit to x (n, s))) [
    | inl ((k, t), e) ↦ ground (arith, credit-Moves to x n k s t)
    | inr (f, e) ↦ ground arith
  ]

  pub mint_entries-Rises :
      (es : List (Address × ℤ)) (n n' : ℤ) (s s' : Token)
      → mint_entries env c es (n, s) ≡ ok (n', s')
      → Rises s s'
  unfolding mint_entries
  mint_entries-Rises [] n n' s s' h = ground arith
  mint_entries-Rises ((to, x) ∷ es) n n' s s' h =
      elim (Result-cases (mint_entry env c (to, x) (n, s))) [
        | inl ((k, t), e) ↦
            Rises-trans s t s' (mint_entry-Rises to x n k s t e)
              (mint_entries-Rises es k n' t s' (ground arith))
        | inr (f, e) ↦ ground arith
      ]
