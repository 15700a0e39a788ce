-- ===== src/Dividend/Dust.antt =====
-- contracts/dividend/src/lib.rs: what is distributed and what can still be claimed.
use stellar_rwa_contracts.Base.{
  ℕ, ◌≡◌, subst, some, false, not, arith, if◌then◌else◌, ◌<◌, ◌≤◌, ◌+◌, length, [], ◌∷◌, inl, inr,
}
use stellar_rwa_contracts.Base.Int.{ℤ, pos, ◌+ℤ◌, ◌≤ℤ◌, ◌<ℤ◌, int_laws, pos_part}
use stellar_rwa_contracts.Base.Dict.{lookup}
use stellar_rwa_contracts.Base.Host.{Address, ok, Result, Result-cases, ◌>>=◌}
use stellar_rwa_contracts.Dividend.State.{
  Error, Dividend, Distribution, Snapshot, load, has_claimed, find_balance,
}
use stellar_rwa_contracts.Dividend.Claims.{claimable}
use stellar_rwa_contracts.Dividend.Shares.{
  shares_of, floor_share, Finds, IsProper-Finds, everyone, shares-le-total, shares-split,
  total-lt-shares,
}
use stellar_rwa_contracts.Dividend.Funding.{Funds, Tracked, entitlement-floor}

-- What `claimable` answers to the holders of a snapshot, in total.
unfoldable pub claimable_by_all : ℕ → Dividend → Snapshot → Result Error ℤ
claimable_by_all id s [] = ok (pos 0)
claimable_by_all id s ((h, _) ∷ es) = do
  x ← claimable id h s
  y ← claimable_by_all id s es
  ok (x +ℤ y)

claimable-share :
    (s : Dividend) (id : ℕ) (h : Address) (d : Distribution) (f : Funds s id d) (x : ℤ)
    → lookup id s.dists ≡ some d
    → claimable id h s ≡ ok x
    → x
      ≡ pos (
          if not (has_claimed id h s)
          then floor_share f.total (pos_part (find_balance h f.snapshot)) f.supply
          else 0)
unfolding claimable load
claimable-share s id h d f x e k = ground (arith, entitlement-floor s id h d f x)

pos_sum : (a b : ℕ) (x y z : ℤ) → x ≡ pos a → y ≡ pos b → z ≡ x +ℤ y → z ≡ pos (a + b)
pos_sum a b x y z p q r = grind int_laws

claimable_by_all-shares :
    (s : Dividend) (id : ℕ) (d : Distribution) (f : Funds s id d) (es : Snapshot) (x : ℤ)
    → lookup id s.dists ≡ some d
    → Finds f.snapshot es
    → claimable_by_all id s es ≡ ok x
    → x ≡ pos (shares_of (λ h. not (has_claimed id h s)) f.total f.supply es)
unfolding claimable_by_all
claimable_by_all-shares s id d f [] x e p k = ground arith
claimable_by_all-shares s id d f ((h, b) ∷ es) x e (p, ps) k =
    elim (Result-cases (claimable id h s)) [
      | inr (g, q) ↦ ground arith
      | inl (y, q) ↦ elim (Result-cases (claimable_by_all id s es)) [
        | inr (g, r) ↦ ground arith
        | inl (z, r) ↦
            pos_sum _ _ y z x
              (subst
                (λ b.
                  y
                  ≡ pos (
                      if not (has_claimed id h s)
                      then floor_share f.total (pos_part b) f.supply
                      else 0))
                p (claimable-share s id h d f y e q))
              (claimable_by_all-shares s id d f es z e ps r) (ground arith)
      ]
    ]

bound :
    (a b c n t : ℕ) (x y z : ℤ)
    → x ≡ pos a
    → y ≡ pos b
    → z ≡ pos t
    → a + b ≡ c
    → c ≤ t
    → t < c + n
    → (x +ℤ y ≤ℤ z) × (z <ℤ x +ℤ y +ℤ pos n)
bound a b c n t x y z p q r h k l = (grind int_laws, grind int_laws)

-- In a state where the open distributions are funded, take one with the frozen snapshot `es` and a
-- positive snapshot supply, and suppose that `claimable` answers for each of its holders: what is
-- distributed together with everything that can still be claimed is at most the total, and falls
-- short of it by less than one unit for each holder of the snapshot.
pub claimable-within-total :
    (s : Dividend) (id : ℕ) (d : Distribution) (es : Snapshot) (supply : ℕ) (x : ℤ)
    → Tracked s
    → lookup id s.dists ≡ some d
    → d.completed ≡ false
    → s.snapshots id ≡ some es
    → s.supplies id ≡ some (pos supply)
    → 0 < supply
    → claimable_by_all id s es ≡ ok x
    → (d.distributed +ℤ x ≤ℤ d.total_amount)
      × (d.total_amount <ℤ d.distributed +ℤ x +ℤ pos (length es))
claimable-within-total s id d es supply x v e c p q lt k =
    let f : Funds s id d = v.funded id d e c in
    let same : f.snapshot ≡ es = ground (arith, f.snapshot_is) in
    let same_supply : f.supply ≡ supply = ground (arith, f.supply_is) in
    let finds = IsProper-Finds f.snapshot f.proper in
    let due = claimable_by_all-shares s id d f f.snapshot x e finds (rw same k) in
    rw (← same) (
      bound _ _ _ (length f.snapshot) f.total d.distributed x d.total_amount f.paid due f.total_is
        (shares-split (λ h. has_claimed id h s) f.total f.supply f.snapshot)
        (shares-le-total everyone f.total f.supply f.snapshot (rw same_supply lt) f.summed)
        (total-lt-shares f.total f.supply f.snapshot (rw same_supply lt) f.nonempty f.summed))
