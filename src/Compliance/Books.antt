-- ===== src/Compliance/Books.antt =====
-- contracts/compliance/src/lib.rs: the records and the blocked jurisdictions over histories of calls.
use stellar_rwa_contracts.Base.{
  ℕ, ◌≡◌, refl, sym, ap, subst, ◌∙◌, Option, none, some, true, false, List, [], ◌∷◌, ◌++◌, arith,
  inl, inr, Bool-cases, if◌then◌else◌, ◌⊎◌, unwrap_or, ◌+◌,
}
use stellar_rwa_contracts.Base.Text.{Text, eq_text, eq_of_eq_text}
use stellar_rwa_contracts.Base.Occurs.{one_if}
use stellar_rwa_contracts.Base.Host.{Address}
use stellar_rwa_contracts.Compliance.State.{Compliance, KycRecord, blocked_list}
use stellar_rwa_contracts.Compliance.Jurisdictions.{unlisted}
use stellar_rwa_contracts.Compliance.Codes.{IsCode}

-- How often a text stands in a list.
unfoldable pub occurs_text : Text → List Text → ℕ
occurs_text u [] = 0
occurs_text u (t ∷ ts) = (if eq_text u t then 1 else 0) + occurs_text u ts

-- Each record is under its address and has the code of a jurisdiction, only such codes are
-- blocked, and the blocked ones are listed once and no others.
pub record Sound (s : Compliance) : Type 0 where
  pub keyed :
      (a : Address) (r : KycRecord) → s.records a ≡ some r → (r.address ≡ a) × IsCode r.jurisdiction
  pub coded : (j : Text) → unwrap_or (s.blocked j) false ≡ true → IsCode j
  pub listed : (j : Text) → occurs_text j (blocked_list s) ≡ one_if (unwrap_or (s.blocked j) false)

-- What `Sound` reads of a record.
abbrev pub origin : Option KycRecord → Option (Address × Text)
origin none = none
origin (some r) = some (r.address, r.jurisdiction)

-- No record is new, or from elsewhere, and the blocked jurisdictions have not changed.
pub record SameBooks (s s' : Compliance) : Type 0 where
  pub origins :
      (a : Address) → (s'.records a ≡ none) ⊎ (origin (s'.records a) ≡ origin (s.records a))
  pub blocked_is : s'.blocked ≡ s.blocked
  pub list_is : s'.blocked_list ≡ s.blocked_list

from_origin :
    (a : Address) (r : KycRecord) (o : Option KycRecord)
    → ((q : KycRecord) → o ≡ some q → (q.address ≡ a) × IsCode q.jurisdiction)
    → origin (some r) ≡ origin o
    → (r.address ≡ a) × IsCode r.jurisdiction
from_origin a r none k h = absurd (ground arith)
from_origin a r (some q) k h =
    let (at, code) = k q refl in
    let same : r.jurisdiction ≡ q.jurisdiction = ground arith in
    (ground arith, subst IsCode (sym same) code)

pub SameBooks-Sound : (s s' : Compliance) → SameBooks s s' → Sound s → Sound s'
unfolding blocked_list
SameBooks-Sound s s' w v = record {
  keyed = λ a r h. elim (w.origins a) [
    | inl q ↦ absurd (ground arith)
    | inr q ↦ from_origin a r (s.records a) (v.keyed a) (ap origin (sym h) ∙ q)
  ];
  coded = λ j h. v.coded j (ground (arith, ap (λ f. f j) w.blocked_is));
  listed = λ j. rw (w.list_is) (rw (w.blocked_is) (v.listed j));
}

pub eq_text_comm : (t u : Text) → eq_text t u ≡ eq_text u t
unfolding eq_text
eq_text_comm [] [] = refl
eq_text_comm [] (b ∷ u) = refl
eq_text_comm (a ∷ t) [] = refl
eq_text_comm (a ∷ t) (b ∷ u) = ground (arith, eq_text_comm t u)

pub occurs_text-append :
    (u j : Text) (ts : List Text)
    → occurs_text u (ts ++ j ∷ []) ≡ occurs_text u ts + one_if (eq_text u j)
unfolding occurs_text
occurs_text-append u j [] = ground arith
occurs_text-append u j (t ∷ ts) = ground (arith, occurs_text-append u j ts)

pub occurs_text-unlisted :
    (u j : Text) (ts : List Text)
    → occurs_text u (unlisted j ts) ≡ (if eq_text u j then 0 else occurs_text u ts)
unfolding occurs_text unlisted
occurs_text-unlisted u j [] = ground arith
occurs_text-unlisted u j (t ∷ ts) = elim (Bool-cases (eq_text t j)) [
  | inl q ↦
      let same = ap (eq_text u) (eq_of_eq_text t j q) in
      ground (arith, occurs_text-unlisted u j ts, same)
  | inr q ↦ elim (Bool-cases (eq_text u j)) [
    | inl k ↦
        let other : eq_text u t ≡ false =
          ap (λ (x : Text). eq_text x t) (eq_of_eq_text u j k) ∙ eq_text_comm j t ∙ q in
        ground (arith, occurs_text-unlisted u j ts, other)
    | inr k ↦ ground (arith, occurs_text-unlisted u j ts)
  ]
]
