-- ===== src/Compliance/ScanSteps.antt =====
-- contracts/compliance/src/lib.rs, `prune_expired`: the body of its inner loop, case by case.
use stellar_rwa_contracts.Base.{ℕ, ◌≡◌, some, true, false, [], ◌∷◌, ◌++◌, arith, ◌+◌}
use stellar_rwa_contracts.Base.Host.{Address}
use stellar_rwa_contracts.Compliance.State.{Env, Compliance, KycRecord}
use stellar_rwa_contracts.Compliance.Checks.{has_lapsed}
use stellar_rwa_contracts.Compliance.Pruning.{Scan, drop_record, examine, is_full, scan_entry}

-- The variables of the loops at the start of a page.
abbrev pub start : ℕ → Compliance → Scan
start examined s = record {
  state = s;
  examined = examined;
  next = [];
  changed = false;
  unexamined = 0;
}

module _ (env : Env) (max_records : ℕ) (a : Address) (c : Scan) where
  pub scan_entry-full :
      is_full max_records c.examined ≡ true
      → scan_entry env max_records a c
        ≡ record c { next = c.next ++ a ∷ []; unexamined = c.unexamined + 1 }
  unfolding scan_entry
  scan_entry-full q = ground arith

  pub scan_entry-lapsed :
      (r : KycRecord)
      → is_full max_records c.examined ≡ false
      → c.state.records a ≡ some r
      → has_lapsed env r ≡ true
      → scan_entry env max_records a c
        ≡ record c { state = drop_record a r c.state; changed = true; examined = c.examined + 1 }
  unfolding scan_entry examine
  scan_entry-lapsed r q h l = ground arith

  pub scan_entry-live :
      (r : KycRecord)
      → is_full max_records c.examined ≡ false
      → c.state.records a ≡ some r
      → has_lapsed env r ≡ false
      → scan_entry env max_records a c
        ≡ record c { next = c.next ++ a ∷ []; examined = c.examined + 1 }
  unfolding scan_entry examine
  scan_entry-live r q h l = ground arith
