-- ===== src/Fuzz/BatchEntries.antt =====
-- fuzz/fuzz_targets/compliance_batch_allowlist.rs: what a batch of its entries does.
use stellar_rwa_contracts.Base.{
  ℕ, zero, suc, ◌≡◌, ◌≢◌, refl, ap, subst, ◌∙◌, Bool, true, false, not, ◌&&◌, none, some, List, [],
  ◌∷◌, arith, inl, inr, Bool-cases, leb, ◌==◌, ◌<◌, ◌≤◌, ◌⊎◌, ◌+◌, ◌%◌, unwrap_or, if◌then◌else◌,
  length,
}
use stellar_rwa_contracts.Base.Text.{Text}
use stellar_rwa_contracts.Base.Host.{Address, Result-cases, Failure, ok, err, succeeds}
use stellar_rwa_contracts.Compliance.State.{
  Compliance, ComplianceStatus, AllowlistEntry, KycRecord, Error, append_to_allowlist, next_slot,
  allowlist_meta,
}
use stellar_rwa_contracts.Compliance.Jurisdictions.{normalize_jurisdiction, normalize_bytes}
use stellar_rwa_contracts.Compliance.Records.{approve_entry, approve_entries}
use stellar_rwa_contracts.Fuzz.Harness.{mock, nth}
use stellar_rwa_contracts.Fuzz.Batch.{
  FuzzEntry, jurisdictions, now, jur_str, expires_at, all_alphabetic, valid_jur, has_invalid, build,
}

-- A text on which the target's test and the contract agree.
abbrev Judged : Text → Type 0
Judged t =
    ((valid_jur t ≡ true) × ((u : Text) × (normalize_jurisdiction t ≡ ok u)))
    ⊎ ((valid_jur t ≡ false) × ((f : Failure Error) × (normalize_jurisdiction t ≡ err f)))

abbrev AllJudged : List Text → Type 0
AllJudged [] = Unit
AllJudged (t ∷ ts) = Judged t × AllJudged ts

jurisdictions-AllJudged : AllJudged jurisdictions
unfolding valid_jur all_alphabetic normalize_jurisdiction normalize_bytes
jurisdictions-AllJudged = (
  inl (refl, (_, refl)),
  (
    inl (refl, (_, refl)),
    (
      inl (refl, (_, refl)),
      (
        inl (refl, (_, refl)),
        (
          inl (refl, (_, refl)),
          (
            inr (refl, (_, refl)),
            (
              inr (refl, (_, refl)),
              (inr (refl, (_, refl)), (inr (refl, (_, refl)), (inl (refl, (_, refl)), tt))),
            ),
          ),
        ),
      ),
    ),
  ),
)

nth-Judged : (ts : List Text) (i : ℕ) → AllJudged ts → Judged [] → Judged (nth [] ts i)
unfolding nth
nth-Judged [] i v d = d
nth-Judged (t ∷ ts) zero (v, vs) d = v
nth-Judged (t ∷ ts) (suc i) (v, vs) d = nth-Judged ts i vs d

jur_str-Judged : (e : FuzzEntry) → Judged (jur_str e)
unfolding nth valid_jur all_alphabetic normalize_jurisdiction normalize_bytes
jur_str-Judged e =
    nth-Judged jurisdictions (e.jurisdiction_idx % 10) jurisdictions-AllJudged
      (inr (refl, (_, refl)))

abbrev entry_at : (ℕ → Address) → ℕ → FuzzEntry → AllowlistEntry
entry_at addrs i e = record {
  address = addrs i;
  jurisdiction = jur_str e;
  expires_at = expires_at e;
}

-- Whether the entry is in the past.
abbrev pub is_past : FuzzEntry → Bool
is_past e = not (expires_at e == 0) && leb (expires_at e) now

-- The contract accepts only entries that the target holds valid.
accepted_valid :
    (addrs : ℕ → Address) (i : ℕ) (e : FuzzEntry) (s t : Compliance)
    → approve_entry (mock now) (entry_at addrs i e) s ≡ ok t
    → (is_past e ≡ false) × (valid_jur (jur_str e) ≡ true)
unfolding approve_entry
accepted_valid addrs i e s t h = elim (jur_str-Judged e) [
  | inl (v, (u, n)) ↦ (ground (arith, n), v)
  | inr (v, (f, n)) ↦ absurd (ground (arith, n))
]

-- An invalid entry fails the batch, whatever is stored.
pub invalid_fails :
    (addrs : ℕ → Address) (i : ℕ) (es : List FuzzEntry) (s : Compliance)
    → has_invalid es ≡ true
    → succeeds (approve_entries (mock now) (build i addrs es) s) ≡ false
unfolding has_invalid approve_entries build
invalid_fails addrs i [] s h = absurd (ground arith)
invalid_fails addrs i (e ∷ es) s h =
    let x = entry_at addrs i e in
    elim (Result-cases (approve_entry (mock now) x s)) [
      | inr (f, q) ↦ rw q refl
      | inl (t, q) ↦
          let (p, v) = accepted_valid addrs i e s t q in
          rw q (invalid_fails addrs (suc i) es t (ground (arith, p, v)))
    ]

-- After `k` approvals on a new contract, of the addresses of the first `k` indices.
pub record Admits (addrs : ℕ → Address) (k : ℕ) (s : Compliance) : Type 0 where
  pub cursor : allowlist_meta s ≡ (0, k)
  pub counter : unwrap_or s.count 0 ≡ k
  pub unblocked : (t : Text) → unwrap_or (s.blocked t) false ≡ false
  pub no_holding : (a : Address) → s.min_holding a ≡ none
  pub later : (i : ℕ) → k ≤ i → s.records (addrs i) ≡ none
  pub admitted :
      (i : ℕ)
      → i < k
      → (r : KycRecord) × (s.records (addrs i) ≡ some r)
        × (r.status ≡ ComplianceStatus.approved)
        × ((r.expires_at ≡ 0) ⊎ (now < r.expires_at))

module _ (addrs : ℕ → Address) (distinct : (i j : ℕ) → addrs i ≡ addrs j → i ≡ j) where
  new_record : ℕ → FuzzEntry → Text → KycRecord
  new_record k e u = record {
    address = addrs k;
    status = ComplianceStatus.approved;
    jurisdiction = u;
    verified_at = now;
    expires_at = expires_at e;
  }

  approve-records :
      (k : ℕ) (e : FuzzEntry) (u : Text) (s t : Compliance)
      → normalize_jurisdiction (jur_str e) ≡ ok u
      → s.records (addrs k) ≡ none
      → allowlist_meta s ≡ (0, k)
      → k < 200
      → approve_entry (mock now) (entry_at addrs k e) s ≡ ok t
      → (allowlist_meta t ≡ (0, suc k))
        × (unwrap_or t.count 0 ≡ suc (unwrap_or s.count 0))
        × (t.blocked ≡ s.blocked)
        × (t.min_holding ≡ s.min_holding)
        × ((b : Address)
            → t.records b ≡ (if b == addrs k then some (new_record k e u) else s.records b))
  unfolding approve_entry append_to_allowlist next_slot new_record
  approve-records k e u s t n h c lt q = (
    ground (arith, n, h, c),
    ground (arith, n, h, c),
    ground (arith, n, h, c),
    ground (arith, n, h, c),
    λ b. ground (arith, n, h, c),
  )

  approve_entry-Admits :
      (k : ℕ) (e : FuzzEntry) (s t : Compliance)
      → k < 200
      → approve_entry (mock now) (entry_at addrs k e) s ≡ ok t
      → Admits addrs k s
      → Admits addrs (suc k) t
  unfolding new_record
  approve_entry-Admits k e s t lt q v = elim (jur_str-Judged e) [
    | inr (w, (f, n)) ↦ absurd (ground (arith, (accepted_valid addrs k e s t q).1, w))
    | inl (w, (u, n)) ↦
        let (c, x, b, m, r) = approve-records k e u s t n (v.later k (omega arith)) v.cursor lt q in
        let live = (accepted_valid addrs k e s t q).0 in
        record {
          cursor = c;
          counter = omega (arith, x, v.counter);
          unblocked = λ z. ap (λ g. unwrap_or (g z) false) b ∙ v.unblocked z;
          no_holding = λ a. ap (λ g. g a) m ∙ v.no_holding a;
          later = λ i le. r (addrs i) ∙ ground (arith, v.later i, distinct i k);
          admitted = λ i lt'. elim (Bool-cases (addrs i == addrs k)) [
            | inl y ↦ (new_record k e u, r (addrs i) ∙ rw y refl, refl, ground (arith, live))
            | inr y ↦
                let other : i ≢ k = λ z. ground (arith, ap addrs z) in
                let (o, p, a, l) = v.admitted i (omega (arith, other)) in
                (o, r (addrs i) ∙ rw y p, a, l)
          ];
        }
  ]

  entry_succeeds :
      (k : ℕ) (e : FuzzEntry) (s : Compliance) (f : Failure Error)
      → k < 200
      → is_past e ≡ false
      → valid_jur (jur_str e) ≡ true
      → Admits addrs k s
      → approve_entry (mock now) (entry_at addrs k e) s ≡ err f
      → ⊥
  unfolding approve_entry append_to_allowlist next_slot
  entry_succeeds k e s f lt p j v q = elim (jur_str-Judged e) [
    | inr (w, (g, n)) ↦ ground (arith, j, w)
    | inl (w, (u, n)) ↦ ground (arith, n, p, v.cursor, v.counter, v.later k)
  ]

  -- A batch without an invalid entry succeeds.
  pub batch-Admits :
      (es : List FuzzEntry) (k m : ℕ) (s : Compliance)
      → has_invalid es ≡ false
      → k + length es ≡ m
      → m ≤ 200
      → Admits addrs k s
      → (s' : Compliance) × (approve_entries (mock now) (build k addrs es) s ≡ ok s')
        × Admits addrs m s'
  unfolding has_invalid approve_entries build
  batch-Admits [] k m s h e le v = (s, refl, subst (λ j. Admits addrs j s) (omega (arith, e)) v)
  batch-Admits (x ∷ es) k m s h e le v =
      elim (Result-cases (approve_entry (mock now) (entry_at addrs k x) s)) [
        | inr (f, q) ↦
            absurd (entry_succeeds k x s f (omega (arith, e)) (ground arith) (ground arith) v q)
        | inl (t, q) ↦
            let (s', g, w) =
              batch-Admits es (suc k) m t (ground arith) (omega (arith, e)) le
                (approve_entry-Admits k x s t (omega (arith, e)) q v) in
            (s', rw q g, w)
      ]
