-- ===== src/Fuzz/Oracle.antt =====
-- fuzz/fuzz_targets: what `is_allowed` answers, by the entries of the storage that it reads.
use stellar_rwa_contracts.Base.{
  ℕ, ◌≡◌, refl, ap, ◌∙◌, Bool, true, false, not, ◌&&◌, ◌||◌, Option, none, some, arith, inl, inr,
  Bool-cases, ltb, unwrap_or,
}
use stellar_rwa_contracts.Base.Text.{Text}
use stellar_rwa_contracts.Base.Host.{Address, ok}
use stellar_rwa_contracts.Compliance.State.{Env, Compliance, KycRecord, Event, publish, is_approved}
use stellar_rwa_contracts.Compliance.Jurisdictions.{normalize_jurisdiction, is_jurisdiction_blocked}
use stellar_rwa_contracts.Compliance.Checks.{
  unlock_at, has_lapsed, check_unlocked, check_holding, check_record, is_allowed,
}

abbrev pub held : Env → Option ℕ → Option ℕ → Bool
held env (some n) (some f) = not (ltb 0 n) || not (ltb env.sequence (unlock_at f n))
held env _ _ = true

abbrev pub verdict : Env → Option KycRecord → Bool → Option ℕ → Option ℕ → Bool
verdict env none blocked n f = false
verdict env (some r) blocked n f =
    is_approved r.status && not (has_lapsed env r) && not blocked && held env n f

-- What the answer leaves as it was.
pub record SameReads (s s' : Compliance) : Type 0 where
  pub records_are : s'.records ≡ s.records
  pub blocked_is : s'.blocked ≡ s.blocked
  pub min_holding_is : s'.min_holding ≡ s.min_holding
  pub first_acquired_is : s'.first_acquired ≡ s.first_acquired

module _ (env : Env) (a : Address) (s : Compliance) where
  check_holding-held :
      ((check_holding env a s).0 ≡ held env (s.min_holding a) (s.first_acquired a))
      × SameReads s (check_holding env a s).1
  unfolding check_holding check_unlocked
  check_holding-held = (ground arith, ground arith)

  blocked-at :
      (j k : Text)
      → k ≡ j
      → normalize_jurisdiction j ≡ ok j
      → is_jurisdiction_blocked k s ≡ ok (unwrap_or (s.blocked j) false)
  unfolding is_jurisdiction_blocked
  blocked-at j k e n = ap (λ (t : Text). is_jurisdiction_blocked t s) e ∙ rw n refl

  check_record-verdict :
      (j : Text) (r : KycRecord)
      → r.jurisdiction ≡ j
      → normalize_jurisdiction j ≡ ok j
      → (s' : Compliance) × (check_record env a r s
          ≡ ok (
            verdict env
                (some r)
                (unwrap_or (s.blocked j) false)
                (s.min_holding a)
                (s.first_acquired a),
            s',
          ))
        × SameReads s s'
  unfolding check_record
  check_record-verdict j r e n = elim (Bool-cases (is_approved r.status)) [
    | inr p ↦ (s, rw p refl, ground arith)
    | inl p ↦ elim (Bool-cases (has_lapsed env r)) [
      | inl l ↦ (publish (Event.expired a r.expires_at) s, rw p (rw l refl), ground arith)
      | inr l ↦ elim (Bool-cases (unwrap_or (s.blocked j) false)) [
        | inl b ↦ (s, rw p (rw l (rw (blocked-at j r.jurisdiction e n) (rw b refl))), ground arith)
        | inr b ↦ (
          (check_holding env a s).1,
          rw p (
              rw l (
                rw (blocked-at j r.jurisdiction e n) (
                  rw b
                    (ap (λ (x : Bool). ok (x, (check_holding env a s).1)) check_holding-held.0)))),
          check_holding-held.1,
        )
      ]
    ]
  ]

  -- For an address without a record, or one whose record has the normal jurisdiction `j`.
  pub is_allowed-verdict :
      (j : Text) (o : Option KycRecord)
      → s.records a ≡ o
      → ((r : KycRecord) → o ≡ some r → r.jurisdiction ≡ j)
      → normalize_jurisdiction j ≡ ok j
      → (s' : Compliance) × (is_allowed env a s
          ≡ ok (
            verdict env o (unwrap_or (s.blocked j) false) (s.min_holding a) (s.first_acquired a),
            s',
          ))
        × SameReads s s'
  unfolding is_allowed
  is_allowed-verdict j none h q n = (s, rw (is_allowed, h) refl, ground arith)
  is_allowed-verdict j (some r) h q n =
      let (s', e, k) = check_record-verdict j r (q r refl) n in (s', rw (is_allowed, h) e, k)
