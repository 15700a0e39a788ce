-- ===== src/Compliance/Allowed.antt =====
-- contracts/compliance/src/lib.rs, `is_allowed`: what an address needs to be allowed.
use stellar_rwa_contracts.Base.{
  ℕ, ◌≡◌, refl, subst, ◌∙◌, some, Bool, true, false, List, arith, Option-cases, inl, inr,
  Bool-cases, ◌<◌, ◌≤◌, ◌⊎◌, ◌↔◌, unwrap_or, ◌+◌, ◌^◌,
}
use stellar_rwa_contracts.Base.Host.{Address, ok}
use stellar_rwa_contracts.Compliance.State.{
  Env, Compliance, ComplianceStatus, KycRecord, Event, empty, publish, is_approved,
}
use stellar_rwa_contracts.Compliance.Jurisdictions.{normalize_jurisdiction, is_jurisdiction_blocked}
use stellar_rwa_contracts.Compliance.Checks.{
  has_lapsed, check_unlocked, check_holding, check_record, is_allowed,
}
use stellar_rwa_contracts.Compliance.Calls.{Call, run}
use stellar_rwa_contracts.Compliance.Codes.{normalize-IsCode}
use stellar_rwa_contracts.Compliance.Books.{Sound}
use stellar_rwa_contracts.Compliance.BookHistories.{run-empty-Sound}

-- The minimum holding period of the address, if it has one and has acquired, is over.
abbrev pub HoldingIsOver : Env → Address → Compliance → Type 0
HoldingIsOver env a s =
    (n f : ℕ)
    → s.min_holding a ≡ some n
    → s.first_acquired a ≡ some f
    → (n ≡ 0) ⊎ (f + n ≤ env.sequence)

-- The address has an approved record that never expires or expires later, its jurisdiction is not
-- blocked, and its minimum holding period is over.
pub record Allowed (env : Env) (a : Address) (s : Compliance) : Type 0 where
  pub kyc : KycRecord
  pub kyc_is : s.records a ≡ some kyc
  pub approved : kyc.status ≡ ComplianceStatus.approved
  pub lasts : (kyc.expires_at ≡ 0) ⊎ (env.sequence < kyc.expires_at)
  pub open_jurisdiction : unwrap_or (s.blocked kyc.jurisdiction) false ≡ false
  pub held : HoldingIsOver env a s

-- Nothing but the events differs.
abbrev pub SameStorage : Compliance → Compliance → Type 0
SameStorage s s' = record s' { events = s.events } ≡ s

-- The answer says whether `P`, and the storage is left as it is.
abbrev pub Answers : Compliance → Bool × Compliance → Type 0 → Type 0
Answers s (answer, s') P = ((answer ≡ true) ↔ P) × SameStorage s s'

module _ (env : Env) (a : Address) (s : Compliance) where
  check_holding-Answers :
      env.sequence < 2 ^ 32 → Answers s (check_holding env a s) (HoldingIsOver env a s)
  unfolding check_holding check_unlocked
  check_holding-Answers h = (
    (
      λ k n f p q. ground arith,
      λ w. elim (Option-cases (s.min_holding a)) [
        | inl p ↦ ground arith
        | inr (n, p) ↦ elim (Option-cases (s.first_acquired a)) [
          | inl q ↦ ground arith
          | inr (f, q) ↦ ground (arith, w n f p q)
        ]
      ],
    ),
    ground arith,
  )

  pub kyc_unique : (r : KycRecord) (w : Allowed env a s) → s.records a ≡ some r → w.kyc ≡ r
  kyc_unique r w q = ground (arith, w.kyc_is)

  is_allowed-recorded :
      (r : KycRecord) → s.records a ≡ some r → is_allowed env a s ≡ check_record env a r s
  unfolding is_allowed
  is_allowed-recorded r q = rw (is_allowed, q) refl

  check_record-Answers :
      (r : KycRecord)
      → env.sequence < 2 ^ 32
      → s.records a ≡ some r
      → normalize_jurisdiction r.jurisdiction ≡ ok r.jurisdiction
      → (x : Bool × Compliance) × (check_record env a r s ≡ ok x) × Answers s x (Allowed env a s)
  unfolding check_record is_jurisdiction_blocked
  check_record-Answers r h q norm = elim (Bool-cases (is_approved r.status)) [
    | inr st ↦ (
      (false, s),
      ground arith,
      (
        (
          λ k. absurd (ground arith),
          λ w. ground (
            arith,
            subst (λ (k : KycRecord). k.status ≡ ComplianceStatus.approved) (kyc_unique r w q)
                w.approved,
          ),
        ),
        refl,
      ),
    )
    | inl st ↦ elim (Bool-cases (has_lapsed env r)) [
      | inl l ↦ (
        (false, publish (Event.expired a r.expires_at) s),
        ground arith,
        (
          (
            λ k. absurd (ground arith),
            λ w. ground (
              arith,
              subst (λ (k : KycRecord). (k.expires_at ≡ 0) ⊎ (env.sequence < k.expires_at))
                  (kyc_unique r w q) w.lasts,
            ),
          ),
          refl,
        ),
      )
      | inr l ↦ elim (Bool-cases (unwrap_or (s.blocked r.jurisdiction) false)) [
        | inl b ↦ (
          (false, s),
          rw norm (ground arith),
          (
            (
              λ k. absurd (ground arith),
              λ w. ground (
                arith,
                subst (λ (k : KycRecord). unwrap_or (s.blocked k.jurisdiction) false ≡ false)
                    (kyc_unique r w q) w.open_jurisdiction,
              ),
            ),
            refl,
          ),
        )
        | inr b ↦
            let ((to, from), same) = check_holding-Answers h in
            (
              check_holding env a s,
              rw norm (ground arith),
              (
                (
                  λ k. record {
                    kyc = r;
                    kyc_is = q;
                    approved = ground arith;
                    lasts = ground arith;
                    open_jurisdiction = b;
                    held = to k;
                  },
                  λ w. from w.held,
                ),
                same,
              ),
            )
      ]
    ]
  ]

  pub is_allowed-Answers :
      env.sequence < 2 ^ 32
      → Sound s
      → (x : Bool × Compliance) × (is_allowed env a s ≡ ok x) × Answers s x (Allowed env a s)
  unfolding is_allowed
  is_allowed-Answers h v = elim (Option-cases (s.records a)) [
    | inl q ↦ (
      (false, s),
      ground arith,
      ((λ k. absurd (ground arith), λ w. absurd (ground (arith, w.kyc_is))), refl),
    )
    | inr (r, q) ↦
        let (x, is, ans) =
          check_record-Answers r h q (normalize-IsCode r.jurisdiction (v.keyed a r q).1) in
        (x, is_allowed-recorded r q ∙ is, ans)
  ]

-- After any history of calls of a new contract, where the ledger sequence is a `u32`: `is_allowed`
-- does not fail, it answers true exactly if the address has an approved record that has not
-- expired, in a jurisdiction that is not blocked, and its minimum holding period, if it has one and
-- has acquired, is over, and it changes nothing but the events.
pub is_allowed-Allowed :
    (env : Env) (a : Address) (cs : List (Env × Call))
    → env.sequence < 2 ^ 32
    → (x : Bool × Compliance) × (is_allowed env a (run empty cs) ≡ ok x)
      × ((x.0 ≡ true) ↔ Allowed env a (run empty cs))
      × SameStorage (run empty cs) x.1
is_allowed-Allowed env a cs h =
    let (x, is, (says, same)) = is_allowed-Answers env a (run empty cs) h (run-empty-Sound cs) in
    (x, is, says, same)
