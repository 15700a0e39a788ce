-- ===== src/Token/Batch.antt =====
-- contracts/asset-token/src/lib.rs, `transfer_batch`, beside `transfer` called for each entry.
use stellar_rwa_contracts.Base.{
  ◌≡◌, refl, sym, ap, ◌∙◌, some, true, false, List, [], ◌∷◌, arith, Option-cases, inl, inr, ◌↔◌,
}
use stellar_rwa_contracts.Base.Int.{ℤ}
use stellar_rwa_contracts.Base.Host.{Address, ok, err, ◌>>=◌}
use stellar_rwa_contracts.Token.State.{Env, Token, AssetMetadata, Outcome}
use stellar_rwa_contracts.Token.Transfers.{
  transfer, transfer_entry, transfer_entries, transfer_batch,
}
use stellar_rwa_contracts.Token.TransferEffect.{settle-Moved}

-- `transfer` called for each entry in order, up to the first failure.
pub transfer_each : Env → Address → List (Address × ℤ) → Token → Outcome
transfer_each env from [] s = ok s
transfer_each env from ((to, x) ∷ es) s =
    transfer env from to x s >>= λ s'. transfer_each env from es s'

-- What `transfer_batch` asks for once, before its loop.
record Open (env : Env) (m : AssetMetadata) (from : Address) (s : Token) : Type 0 where
  authorized : env.authorized from ≡ true
  initialized : s.metadata ≡ some m
  unpaused : m.paused ≡ false
  sender_allowed : env.is_allowed m.compliance_contract from ≡ some true

module _ (env : Env) (m : AssetMetadata) (from : Address) where
  transfer-entry :
      (to : Address) (x : ℤ) (s : Token)
      → Open env m from s
      → transfer_entry env m.compliance_contract from (to, x) s ≡ transfer env from to x s
  unfolding transfer transfer_entry
  transfer-entry to x s o = ground arith

  entry-Open :
      (to : Address) (x : ℤ) (s s' : Token)
      → Open env m from s
      → transfer_entry env m.compliance_contract from (to, x) s ≡ ok s'
      → Open env m from s'
  unfolding transfer_entry
  entry-Open to x s s' o h = ground (arith, settle-Moved from to x s s')

  >>=-entries :
      (r : Outcome) (f g : Token → Outcome)
      → ((s' : Token) → r ≡ ok s' → f s' ≡ g s')
      → (r >>= f) ≡ (r >>= g)
  >>=-entries (ok s') f g h = h s' refl
  >>=-entries (err e) f g h = refl

  entries-eq-each :
      (es : List (Address × ℤ)) (s : Token)
      → Open env m from s
      → transfer_entries env m.compliance_contract from es s ≡ transfer_each env from es s
  unfolding transfer_entries transfer_each
  entries-eq-each [] s o = refl
  entries-eq-each ((to, x) ∷ es) s o =
      >>=-entries (transfer_entry env m.compliance_contract from (to, x) s) _ _
        (λ s' h. entries-eq-each es s' (entry-Open to x s s' o h))
      ∙ ap (λ r. r >>= transfer_each env from es) (transfer-entry to x s o)

  batch-eq-entries :
      (es : List (Address × ℤ)) (s : Token)
      → Open env m from s
      → transfer_batch env from es s ≡ transfer_entries env m.compliance_contract from es s
  unfolding transfer_batch
  batch-eq-entries es s o = ground arith

batch-needs-Open :
    (env : Env) (from : Address) (es : List (Address × ℤ)) (s s' : Token)
    → transfer_batch env from es s ≡ ok s'
    → (m : AssetMetadata) × Open env m from s
unfolding transfer_batch
batch-needs-Open env from es s s' h = elim (Option-cases s.metadata) [
  | inl e ↦ ground arith
  | inr (m, e) ↦ (m, ground arith)
]

transfer-needs-Open :
    (env : Env) (from to : Address) (x : ℤ) (s s' : Token)
    → transfer env from to x s ≡ ok s'
    → (m : AssetMetadata) × Open env m from s
unfolding transfer
transfer-needs-Open env from to x s s' h = elim (Option-cases s.metadata) [
  | inl e ↦ ground arith
  | inr (m, e) ↦ (m, ground arith)
]

each-needs-Open :
    (env : Env) (from : Address) (e : Address × ℤ) (es : List (Address × ℤ)) (s s' : Token)
    → transfer_each env from (e ∷ es) s ≡ ok s'
    → (m : AssetMetadata) × Open env m from s
unfolding transfer_each
each-needs-Open env from (to, x) es s s' h =
    let (s1, e) = first (transfer env from to x s) h in transfer-needs-Open env from to x s s1 e
  where
    first : (r : Outcome) → (r >>= transfer_each env from es) ≡ ok s' → (s1 : Token) × (r ≡ ok s1)
    first (ok s1) k = (s1, refl)
    first (err e) k = ground arith

-- A batch that has an entry succeeds with a state exactly when `transfer`, called once for each
-- entry in order, succeeds on all of them with that state, events included.
pub transfer_batch-iff-each :
    (env : Env) (from : Address) (e : Address × ℤ) (es : List (Address × ℤ)) (s s' : Token)
    → (transfer_batch env from (e ∷ es) s ≡ ok s') ↔ (transfer_each env from (e ∷ es) s ≡ ok s')
transfer_batch-iff-each env from e es s s' = (
  λ h. let (m, o) = batch-needs-Open env from (e ∷ es) s s' h in sym (same m o) ∙ h,
  λ h. let (m, o) = each-needs-Open env from e es s s' h in same m o ∙ h,
)
  where
    same :
        (m : AssetMetadata)
        → Open env m from s
        → transfer_batch env from (e ∷ es) s ≡ transfer_each env from (e ∷ es) s
    same m o = batch-eq-entries env m from (e ∷ es) s o ∙ entries-eq-each env m from (e ∷ es) s o
