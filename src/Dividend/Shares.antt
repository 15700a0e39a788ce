-- ===== src/Dividend/Shares.antt =====
-- contracts/dividend/src/lib.rs: the arithmetic of the proportional shares.
use native.Mathlib.Nat.{mul-zero, le_of_mul-le-mul_right, lt_of_mul-lt-mul_right}
use stellar_rwa_contracts.Base.{
  ℕ, ◌≡◌, refl, subst, Bool, true, false, not, List, [], ◌∷◌, arith, inl, inr, Bool-cases, ◌==◌,
  if◌then◌else◌, ◌<◌, ◌≤◌, ◌≢◌, ◌*◌, ◌+◌, ◌/◌, length,
}
use stellar_rwa_contracts.Base.Int.{
  ℤ, pos, ◌+ℤ◌, ◌*ℤ◌, ◌/ℤ◌, ◌≤ℤ◌, int_laws, checked_mul, checked_add-cases, pos_part,
}
use stellar_rwa_contracts.Base.Host.{Address, ok}
use stellar_rwa_contracts.Dividend.State.{Snapshot, find_balance}
use stellar_rwa_contracts.Dividend.Creation.{contains, check_eligible}
use stellar_rwa_contracts.Dividend.Claims.{share}

-- A share in natural numbers, rounded down.
abbrev pub floor_share : ℕ → ℕ → ℕ → ℕ
floor_share total b supply = total * b / supply

-- The sum of the balances of a snapshot.
abbrev pub total_balance : Snapshot → ℕ
total_balance [] = 0
total_balance ((_, b) ∷ es) = pos_part b + total_balance es

-- The shares of the holders that are selected.
abbrev pub shares_of : (Address → Bool) → ℕ → ℕ → Snapshot → ℕ
shares_of chosen total supply [] = 0
shares_of chosen total supply ((h, b) ∷ es) =
    (if chosen h then floor_share total (pos_part b) supply else 0)
    + shares_of chosen total supply es

abbrev pub everyone : Address → Bool
everyone _ = true

floor-mul : (a s : ℕ) → a / s * s ≤ a
floor-mul a s = omega arith

shares-mul :
    (c : Address → Bool) (t s : ℕ) (es : Snapshot) → shares_of c t s es * s ≤ t * total_balance es
shares-mul c t s [] = omega arith
shares-mul c t s ((h, b) ∷ es) = grind (arith, shares-mul c t s es, floor-mul (t * pos_part b) s)

below-share : (a s : ℕ) → 0 < s → a < (a / s + 1) * s
below-share a s p = omega arith

-- Whoever claims, the shares of a snapshot with the sum `s` never exceed the total.
pub shares-le-total :
    (c : Address → Bool) (t s : ℕ) (es : Snapshot)
    → 0 < s
    → total_balance es ≡ s
    → shares_of c t s es ≤ t
shares-le-total c t s es p e =
    le_of_mul-le-mul_right {k = s}
      (subst (λ n. shares_of c t s es * s ≤ t * n) e (shares-mul c t s es)) p

below-shares :
    (t s : ℕ) (es : Snapshot)
    → 0 < s
    → t * total_balance es + length es ≤ (shares_of everyone t s es + length es) * s
below-shares t s [] p = omega arith
below-shares t s ((h, b) ∷ es) p =
    grind (arith, below-shares t s es p, below-share (t * pos_part b) s p)

-- If everyone claims, what is left of the total is less than one unit for each holder.
pub total-lt-shares :
    (t s : ℕ) (es : Snapshot)
    → 0 < s
    → 0 < length es
    → total_balance es ≡ s
    → t < shares_of everyone t s es + length es
total-lt-shares t s es p q e =
    lt_of_mul-lt-mul_right s {m = t} (grind (arith, below-shares t s es p, e))

-- The shares of the chosen holders and of the others make up everyone's.
pub shares-split :
    (c : Address → Bool) (t s : ℕ) (es : Snapshot)
    → shares_of c t s es + shares_of (λ h. not (c h)) t s es ≡ shares_of everyone t s es
shares-split c t s [] = omega arith
shares-split c t s ((h, b) ∷ es) = ground (arith, shares-split c t s es)

-- `share` on amounts that are not negative.
pub share-floor :
    (t b s : ℕ) (r : ℤ) → share (pos t) (pos b) (pos s) ≡ ok r → r ≡ pos (floor_share t b s)
unfolding share checked_mul ◌*ℤ◌ ◌/ℤ◌
share-floor t b s r h = ground arith

-- `h` is not among the holders of a snapshot.
abbrev pub Absent : Address → Snapshot → Type 0
Absent h [] = Unit
Absent h ((k, _) ∷ es) = (h ≢ k) × Absent h es

-- No holder is listed twice, and no balance is negative.
abbrev pub IsProper : Snapshot → Type 0
IsProper [] = Unit
IsProper ((h, b) ∷ es) = (pos 0 ≤ℤ b) × Absent h es × IsProper es

-- Every listed holder's first balance in the snapshot `all` is the listed one.
abbrev pub Finds : Snapshot → Snapshot → Type 0
Finds all [] = Unit
Finds all ((h, b) ∷ es) = (find_balance h all ≡ b) × Finds all es

Finds-cons :
    (k : Address) (c : ℤ) (all es : Snapshot) → Absent k es → Finds all es → Finds ((k, c) ∷ all) es
unfolding find_balance
Finds-cons k c all [] a f = tt
Finds-cons k c all ((h, b) ∷ es) a f = ground (arith, Finds-cons k c all es a.1 f.1)

pub IsProper-Finds : (es : Snapshot) → IsProper es → Finds es es
unfolding find_balance
IsProper-Finds [] p = tt
IsProper-Finds ((h, b) ∷ es) p = ground (arith, Finds-cons h b es es p.1 (IsProper-Finds es p.2))

-- None of the holders has been seen.
abbrev pub Unseen : List Address → Snapshot → Type 0
Unseen seen [] = Unit
Unseen seen ((h, _) ∷ es) = (contains h seen ≡ false) × Unseen seen es

Unseen-Absent :
    (h : Address) (seen : List Address) (es : Snapshot)
    → Unseen (h ∷ seen) es
    → Absent h es × Unseen seen es
unfolding contains
Unseen-Absent h seen [] u = (tt, tt)
Unseen-Absent h seen ((k, b) ∷ es) u = ground (arith, Unseen-Absent h seen es u.1)

add_total :
    (acc b n : ℤ) (k : ℕ) → pos 0 ≤ℤ b → n ≡ acc +ℤ b +ℤ pos k → n ≡ acc +ℤ pos (pos_part b + k)
add_total acc b n k p h = grind int_laws

check-Unseen :
    (seen : List Address) (acc n : ℤ) (es : Snapshot)
    → check_eligible seen acc es ≡ ok n
    → Unseen seen es × IsProper es × (n ≡ acc +ℤ pos (total_balance es))
unfolding check_eligible
check-Unseen seen acc n [] h = grind int_laws
check-Unseen seen acc n ((k, b) ∷ es) h =
    let rest : check_eligible (k ∷ seen) (acc +ℤ b) es ≡ ok n =
      ground (arith, checked_add-cases acc b) in
    let nonneg : pos 0 ≤ℤ b = ground arith in
    let unseen : contains k seen ≡ false = ground arith in
    let (u, p, q) = check-Unseen (k ∷ seen) (acc +ℤ b) n es rest in
    let (a, v) = Unseen-Absent k seen es u in
    ((unseen, v), (nonneg, a, p), add_total acc b n (total_balance es) nonneg q)

-- The loop over the eligible holders accepts proper snapshots only, and computes their sum.
pub check_eligible-IsProper :
    (n : ℤ) (es : Snapshot)
    → check_eligible [] (pos 0) es ≡ ok n
    → IsProper es × (n ≡ pos (total_balance es))
check_eligible-IsProper n es h =
    let (u, p, q) = check-Unseen [] (pos 0) n es h in (p, grind int_laws)

pub shares-cong :
    (c c' : Address → Bool) (t s : ℕ) (es : Snapshot)
    → ((h : Address) → c' h ≡ c h)
    → shares_of c' t s es ≡ shares_of c t s es
shares-cong c c' t s [] e = refl
shares-cong c c' t s ((h, b) ∷ es) e = rw (e h) (rw (shares-cong c c' t s es e))

shares-Absent :
    (c c' : Address → Bool) (holder : Address) (t s : ℕ) (es : Snapshot)
    → Absent holder es
    → ((h : Address) → c' h ≡ (if h == holder then true else c h))
    → shares_of c' t s es ≡ shares_of c t s es
shares-Absent c c' holder t s [] a e = refl
shares-Absent c c' holder t s ((h, b) ∷ es) a e =
    ground (arith, e h, shares-Absent c c' holder t s es a.1 e)

-- One more claim adds that holder's share.
pub shares-claim :
    (c c' : Address → Bool) (holder : Address) (t s : ℕ) (es : Snapshot)
    → IsProper es
    → c holder ≡ false
    → ((h : Address) → c' h ≡ (if h == holder then true else c h))
    → shares_of c' t s es ≡ shares_of c t s es + floor_share t (pos_part (find_balance holder es)) s
unfolding find_balance
shares-claim c c' holder t s [] p n e = rw mul-zero (omega arith)
shares-claim c c' holder t s ((h, b) ∷ es) p n e = elim (Bool-cases (h == holder)) [
  | inl k ↦ ground (arith, e h, shares-Absent c c' holder t s es)
  | inr k ↦ ground (arith, e h, shares-claim c c' holder t s es p.2 n e)
]
