-- ===== src/Fuzz/BatchRuns.antt =====
-- fuzz/fuzz_targets/compliance_batch_allowlist.rs: whether its assertions hold.
use stellar_rwa_contracts.Base.{
  ℕ, zero, suc, ◌≡◌, refl, ap, ◌∙◌, true, false, some, List, [], arith, inl, inr, Bool-cases, ◌==◌,
  ◌<◌, ◌≤◌, ◌+◌, unwrap_or, length,
}
use stellar_rwa_contracts.Base.Host.{Address, Result, Result-cases, ok, succeeds}
use stellar_rwa_contracts.Compliance.State.{Compliance, Error, empty, require_admin, allowlist_meta}
use stellar_rwa_contracts.Compliance.Records.{add_to_allowlist_batch, approve_entries}
use stellar_rwa_contracts.Compliance.Listing.{get_allowlist, get_allowlist_count}
use stellar_rwa_contracts.Compliance.Admin.{initialize}
use stellar_rwa_contracts.Compliance.Calls.{Call, execute, run}
use stellar_rwa_contracts.Compliance.Allowed.{Allowed, is_allowed-Answers, SameStorage}
use stellar_rwa_contracts.Compliance.Histories.{empty-Indexed}
use stellar_rwa_contracts.Compliance.BookHistories.{run-empty-Sound}
use stellar_rwa_contracts.Fuzz.Harness.{mock, client}
use stellar_rwa_contracts.Fuzz.IsAllowedRuns.{fresh}
use stellar_rwa_contracts.Fuzz.RaceRuns.{Good, execute-Good}
use stellar_rwa_contracts.Fuzz.Batch.{
  FuzzEntry, now, has_invalid, build, check_admitted, check_failed, check_succeeded, fuzz_one,
}
use stellar_rwa_contracts.Fuzz.BatchEntries.{Admits, invalid_fails, batch-Admits}

module _ (addrs : ℕ → Address) where
  same-Admits :
      (k : ℕ) (s s' : Compliance) → SameStorage s s' → Admits addrs k s → Admits addrs k s'
  same-Admits k s s' e v = record {
    cursor = ap (λ (t : Compliance). allowlist_meta t) e ∙ v.cursor;
    counter = ap (λ (t : Compliance). unwrap_or t.count 0) e ∙ v.counter;
    unblocked = λ z. ap (λ (t : Compliance). unwrap_or (t.blocked z) false) e ∙ v.unblocked z;
    no_holding = λ a. ap (λ (t : Compliance). t.min_holding a) e ∙ v.no_holding a;
    later = λ i le. ap (λ (t : Compliance). t.records (addrs i)) e ∙ v.later i le;
    admitted = λ i lt.
        let (r, p, a, l) = v.admitted i lt in
        (r, ap (λ (t : Compliance). t.records (addrs i)) e ∙ p, a, l);
  }

  admitted-Allowed :
      (k i : ℕ) (s : Compliance) → i < k → Admits addrs k s → Allowed (mock now) (addrs i) s
  admitted-Allowed k i s lt v =
      let (r, p, a, l) = v.admitted i lt in
      record {
        kyc = r;
        kyc_is = p;
        approved = a;
        lasts = l;
        open_jurisdiction = v.unblocked r.jurisdiction;
        held = λ n f m g. absurd (ground (arith, v.no_holding (addrs i)));
      }

  check_admitted-passes :
      (n i k : ℕ) (s : Compliance)
      → i + n ≡ k
      → Admits addrs k s
      → Good s
      → (s' : Compliance) × (check_admitted n i addrs s ≡ some s') × Good s'
  unfolding check_admitted execute
  check_admitted-passes zero i k s e v w = (s, refl, w)
  check_admitted-passes (suc n) i k s e v w =
      let (x, is, ((to, from), same)) =
        is_allowed-Answers (mock now) (addrs i) s (omega arith) w.1 in
      let allowed : x.0 ≡ true = from (admitted-Allowed k i s (omega (arith, e)) v) in
      let good = execute-Good (mock now) (Call.is_allowed (addrs i)) s x.1 refl (rw is refl) w in
      let (s', f, z) =
        check_admitted-passes n (suc i) k x.1 (omega (arith, e)) (same-Admits k s x.1 same v)
          good in
      (s', rw is (rw allowed f), z)

  fresh-Admits : (admin : Address) → Admits addrs 0 (fresh admin)
  fresh-Admits admin = record {
    cursor = refl;
    counter = refl;
    unblocked = λ z. refl;
    no_holding = λ a. refl;
    later = λ i le. refl;
    admitted = λ i lt. absurd (omega arith);
  }

-- The result of the batch.
batch_is :
    (addrs : ℕ → Address) (admin : Address) (es : List FuzzEntry)
    → execute (mock now) (Call.add_to_allowlist_batch admin (build 0 addrs es)) (fresh admin)
      ≡ approve_entries (mock now) (build 0 addrs es) (fresh admin)
unfolding execute add_to_allowlist_batch require_admin
batch_is addrs admin es = ground arith

fresh-Good : (admin : Address) → Good (fresh admin)
unfolding execute initialize run
fresh-Good admin =
    execute-Good (mock 0) (Call.initialize admin) empty (fresh admin) refl refl
      (empty-Indexed, run-empty-Sound [])

counted : (s : Compliance) → Good s → get_allowlist_count s == length (get_allowlist s) ≡ true
unfolding get_allowlist_count
counted s v = ground (arith, v.0.counted)

failed-passes :
    (s : Compliance) (r : Result Error Compliance)
    → succeeds r ≡ false
    → check_failed (get_allowlist_count s) r s ≡ some s
unfolding check_failed
failed-passes s r q = elim (Result-cases r) [
  | inl (t, p) ↦ absurd (ground (arith, p, q))
  | inr (f, p) ↦ rw p (ground arith)
]

succeeded-passes :
    (addrs : ℕ → Address) (n : ℕ) (s : Compliance)
    → Admits addrs n s
    → Good s
    → (s' : Compliance) × (check_succeeded 0 n addrs (ok s) ≡ some s') × Good s'
unfolding check_succeeded
succeeded-passes addrs n s v w =
    let (s', e, z) = check_admitted-passes addrs n 0 n s (omega arith) v w in
    let all_in : get_allowlist_count s == 0 + n ≡ true = ground (arith, v.counter) in
    (s', rw all_in e, z)

-- The loop over the entries and the branches after it pass, whatever is drawn: a batch with an
-- entry whose expiry is not later than the ledger, or whose jurisdiction is not two letters, fails
-- and leaves the count as it was; any other batch succeeds, raises the count by its length and
-- makes each of its addresses pass `is_allowed`; and the count is the length of the listing. The
-- addresses of the entries are different and there are at most 200 of them.
pub batch-passes :
    (start : ℕ) (admin : Address) (addrs : ℕ → Address) (es : List FuzzEntry)
    → ((i j : ℕ) → addrs i ≡ addrs j → i ≡ j)
    → length es ≤ 200
    → (s : Compliance) × (fuzz_one start admin addrs es ≡ some s)
unfolding fuzz_one client execute initialize
batch-passes start admin addrs es distinct le =
    let v0 = fresh-Good admin in
    elim (Bool-cases (has_invalid es)) [
      | inl q ↦
          let fails =
            failed-passes (fresh admin)
              (execute (mock now) (Call.add_to_allowlist_batch admin (build 0 addrs es))
                (fresh admin))
              (ap succeeds (batch_is addrs admin es) ∙ invalid_fails addrs 0 es (fresh admin) q) in
          (fresh admin, rw q (rw fails refl))
      | inr q ↦
          let (t, e, v) =
            batch-Admits addrs distinct es 0 (length es) (fresh admin) q (omega arith) le
              (fresh-Admits addrs admin) in
          let is = batch_is addrs admin es ∙ e in
          let w =
            execute-Good (mock now) (Call.add_to_allowlist_batch admin (build 0 addrs es))
              (fresh admin) t refl is v0 in
          let (s', f, z) = succeeded-passes addrs (length es) t v w in
          (s', rw q (rw is (rw f (rw (counted s' z) refl))))
    ]
