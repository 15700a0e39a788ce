-- ===== src/Compliance/Codes.antt =====
-- contracts/compliance/src/lib.rs, `normalize_jurisdiction`: the texts it accepts, and its results.
use stellar_rwa_contracts.Base.{
  ℕ, ◌≡◌, refl, sym, ap, ◌∙◌, true, not, [], ◌∷◌, ◌++◌, arith, inl, inr, Bool-cases, ◌==◌,
  if◌then◌else◌, ◌↔◌, ◌||◌, leb, length,
}
use stellar_rwa_contracts.Base.Text.{Text}
use stellar_rwa_contracts.Base.Host.{Result, ok, ◌>>◌, panic_if}
use stellar_rwa_contracts.Compliance.State.{Error}
use stellar_rwa_contracts.Compliance.Jurisdictions.{
  is_ascii_uppercase, is_ascii_alphabetic, to_ascii_uppercase, normalize_bytes,
  normalize_jurisdiction,
}

-- A text without its spaces.
abbrev pub despaced : Text → Text
despaced [] = []
despaced (b ∷ raw) = if b == 32 then despaced raw else b ∷ despaced raw

-- Two ASCII capitals.
abbrev pub IsCode : Text → Type 0
IsCode u =
    (a : ℕ) × (b : ℕ) × (u ≡ a ∷ b ∷ [])
    × (is_ascii_uppercase a ≡ true)
    × (is_ascii_uppercase b ≡ true)

-- `t` is, spaces apart, two ASCII letters, and `u` is these as capitals.
abbrev Spells : Text → Text → Type 0
Spells t u =
    (a : ℕ) × (b : ℕ) × (despaced t ≡ a ∷ b ∷ [])
    × (is_ascii_alphabetic a ≡ true)
    × (is_ascii_alphabetic b ≡ true)
    × (u ≡ to_ascii_uppercase a ∷ to_ascii_uppercase b ∷ [])

-- The loop on a text without spaces.
letters : Text → Text → Result Error Text
letters [] out = panic_if (not (length out == 2)) Error.invalid_jurisdiction >> ok out
letters (b ∷ raw) out =
    panic_if (leb 2 (length out) || not (is_ascii_alphabetic b)) Error.invalid_jurisdiction
    >> letters raw (out ++ to_ascii_uppercase b ∷ [])

normalize_bytes-letters : (raw out : Text) → normalize_bytes raw out ≡ letters (despaced raw) out
unfolding normalize_bytes letters
normalize_bytes-letters [] out = refl
normalize_bytes-letters (b ∷ raw) out = elim (Bool-cases (b == 32)) [
  | inl q ↦ rw q (normalize_bytes-letters raw out)
  | inr q ↦ rw q (
      ap
        (λ r.
          panic_if (leb 2 (length out) || not (is_ascii_alphabetic b)) Error.invalid_jurisdiction
          >> r)
        (normalize_bytes-letters raw (out ++ to_ascii_uppercase b ∷ [])))
]

letters-Spells :
    (t u : Text)
    → letters t [] ≡ ok u
    → (a : ℕ) × (b : ℕ) × (t ≡ a ∷ b ∷ [])
      × (is_ascii_alphabetic a ≡ true)
      × (is_ascii_alphabetic b ≡ true)
      × (u ≡ to_ascii_uppercase a ∷ to_ascii_uppercase b ∷ [])
unfolding letters
letters-Spells [] u h = absurd (ground arith)
letters-Spells (a ∷ []) u h = absurd (ground arith)
letters-Spells (a ∷ b ∷ []) u h = (a, b, refl, ground arith, ground arith, ground arith)
letters-Spells (a ∷ b ∷ c ∷ t) u h = absurd (ground arith)

-- A jurisdiction is accepted exactly if it is two ASCII letters, spaces apart, and then the result
-- is these letters as capitals.
normalize_jurisdiction-Spells : (t u : Text) → (normalize_jurisdiction t ≡ ok u) ↔ Spells t u
unfolding normalize_jurisdiction letters
normalize_jurisdiction-Spells t u = (
  λ h. letters-Spells (despaced t) u (sym (normalize_bytes-letters t []) ∙ h),
  λ (a, b, e, p, q, r). normalize_bytes-letters t [] ∙ rw e (rw r (ground arith)),
)

Spells-IsCode : (t u : Text) → Spells t u → IsCode u
Spells-IsCode t u (a, b, e, p, q, r) =
    (to_ascii_uppercase a, to_ascii_uppercase b, r, ground arith, ground arith)

-- Normalizing again changes nothing.
pub normalize-IsCode : (u : Text) → IsCode u → normalize_jurisdiction u ≡ ok u
normalize-IsCode u (a, b, e, p, q) =
    (normalize_jurisdiction-Spells u u).1
      (a, b, rw e (ground arith), ground arith, ground arith, rw e (ground arith))

-- The result of a normalization is two ASCII capitals, and normalizing it again returns it.
pub normalize_twice :
    (t u : Text) → normalize_jurisdiction t ≡ ok u → IsCode u × (normalize_jurisdiction u ≡ ok u)
normalize_twice t u h =
    let code = Spells-IsCode t u ((normalize_jurisdiction-Spells t u).0 h) in
    (code, normalize-IsCode u code)
