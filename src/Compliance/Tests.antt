-- ===== src/Compliance/Tests.antt =====
-- contracts/compliance/src/lib.rs: the contract on a concrete history.
use stellar_rwa_contracts.Base.{
  ℕ, ◌≡◌, refl, none, some, Bool, true, false, List, [], ◌∷◌, arith, ◌==◌, if◌then◌else◌, ◌<◌, ◌⊎◌,
  ◌↔◌, ◌+◌, length,
}
use stellar_rwa_contracts.Base.Text.{eq_text}
use stellar_rwa_contracts.Base.Occurs.{one_if, occurs}
use stellar_rwa_contracts.Base.Slices.{drop, take}
use stellar_rwa_contracts.Base.Host.{Address, ok, err}
use stellar_rwa_contracts.Compliance.State.{
  Env, Compliance, ComplianceStatus, KycRecord, empty, is_some, require_admin, load_record,
  blocked_list, next_slot, append_to_allowlist,
}
use stellar_rwa_contracts.Compliance.Jurisdictions.{
  normalize_bytes, normalize_jurisdiction, block_jurisdiction, is_jurisdiction_blocked,
}
use stellar_rwa_contracts.Compliance.Records.{
  approve_entry, add_to_allowlist, suspend, set_min_holding_period, record_acquisition,
}
use stellar_rwa_contracts.Compliance.Checks.{
  check_unlocked, check_holding, check_record, is_allowed,
}
use stellar_rwa_contracts.Compliance.Listing.{
  page_indices, entries_of, get_allowlist, get_allowlist_count, walk_page, walk_pages,
  get_allowlist_page,
}
use stellar_rwa_contracts.Compliance.Pruning.{
  drop_record, examine, scan_entry, scan_page, prune_pages, prune_expired,
}
use stellar_rwa_contracts.Compliance.Admin.{initialize, propose_admin}
use stellar_rwa_contracts.Compliance.Calls.{Call, execute, step, run}
use stellar_rwa_contracts.Compliance.Index.{Indexed}
use stellar_rwa_contracts.Compliance.Books.{Sound}
use stellar_rwa_contracts.Compliance.Histories.{run-empty-listing}
use stellar_rwa_contracts.Compliance.BookHistories.{run-empty-Indexed-Sound}
use stellar_rwa_contracts.Compliance.Allowed.{Allowed, SameStorage, is_allowed-Allowed}
use stellar_rwa_contracts.Compliance.Paging.{get_allowlist_page-slice}
use stellar_rwa_contracts.Compliance.PruneRuns.{unlapsed, prune_expired-all}
use stellar_rwa_contracts.Compliance.PruneStuck.{prune_expired-stuck}
use stellar_rwa_contracts.Compliance.Authority.{Accepts, step-needs_admin}

-- Everybody has authorized the call.
abbrev env : Env
env = record { authorized = λ _. true; sequence = 10 }

-- The same, some ledgers later.
abbrev env_later : Env
env_later = record { authorized = λ _. true; sequence = 30 }

-- Only 2 has authorized the call.
abbrev env_two : Env
env_two = record { authorized = λ a. a == 2; sequence = 10 }

-- 1 approves 5, 6 and 7, in "US", "GB" and "US", where 6 expires at 20; 5 has a holding period;
-- "GB" is blocked, and 7 is suspended.
abbrev history : List (Env × Call)
history =
    (env, Call.initialize 1)
    ∷ (env, Call.add_to_allowlist 1 5 (117 ∷ 32 ∷ 115 ∷ []) 0)
    ∷ (env, Call.add_to_allowlist 1 6 (71 ∷ 66 ∷ []) 20)
    ∷ (env, Call.add_to_allowlist 1 7 (85 ∷ 83 ∷ []) 0)
    ∷ (env, Call.set_min_holding_period 1 5 3)
    ∷ (env, Call.record_acquisition 1 5)
    ∷ (env, Call.block_jurisdiction 1 (103 ∷ 98 ∷ []))
    ∷ (env, Call.suspend 1 7)
    ∷ (env, Call.propose_admin 1 2)
    ∷ []

abbrev reached : Compliance
reached = run empty history

allows : Env → Address → Bool
unfolding is_allowed
allows e a = elim (is_allowed e a reached) [ ok (b, _) ↦ b | err _ ↦ false ]

allows_tests :
    (allows env 5 ≡ false)
    × (allows env_later 5 ≡ true)
    × (allows env 6 ≡ false)
    × (allows env_later 7 ≡ false)
    × (get_allowlist reached ≡ 5 ∷ 6 ∷ 7 ∷ [])
    × (get_allowlist_page 1 1 reached ≡ 6 ∷ [])
unfolding allows run step execute initialize add_to_allowlist approve_entry normalize_jurisdiction
    normalize_bytes append_to_allowlist next_slot set_min_holding_period record_acquisition
    block_jurisdiction blocked_list suspend load_record propose_admin require_admin eq_text
    is_allowed check_record check_holding check_unlocked is_jurisdiction_blocked get_allowlist
    entries_of get_allowlist_page walk_pages walk_page
allows_tests = (refl, refl, refl, refl, refl, refl)

run-empty-Indexed-Sound_example : (e : ℕ) × Indexed e reached × Sound reached
run-empty-Indexed-Sound_example = run-empty-Indexed-Sound history

run-empty-listing_example :
    ((a : Address) → occurs a (get_allowlist reached) ≡ one_if (is_some (reached.records a)))
    × (get_allowlist_count reached ≡ length (get_allowlist reached))
run-empty-listing_example = run-empty-listing history refl

is_allowed-Allowed_example :
    (x : Bool × Compliance) × (is_allowed env_later 5 reached ≡ ok x)
    × ((x.0 ≡ true) ↔ Allowed env_later 5 reached)
    × SameStorage reached x.1
is_allowed-Allowed_example = is_allowed-Allowed env_later 5 history (omega arith)

get_allowlist_page-slice_example :
    get_allowlist_page 1 0 reached ≡ take 200 (drop 1 (get_allowlist reached))
get_allowlist_page-slice_example = get_allowlist_page-slice 1 0 reached

abbrev pruned : Compliance
unfolding prune_pages
pruned = (prune_pages env_later 0 (page_indices reached) 0 reached).1

prune_expired-all_example :
    ◌≡◌ {A = ℕ} 0 0
    × ((b : Address) → pruned.records b ≡ unlapsed env_later (reached.records b))
    × ((b : Address) → occurs b (get_allowlist pruned) ≡ one_if (is_some (pruned.records b)))
    × (get_allowlist_count pruned ≡ get_allowlist_count reached)
unfolding run step execute initialize add_to_allowlist approve_entry normalize_jurisdiction
    normalize_bytes append_to_allowlist next_slot set_min_holding_period record_acquisition
    block_jurisdiction blocked_list suspend load_record propose_admin require_admin eq_text
    prune_expired prune_pages scan_page scan_entry examine drop_record entries_of
prune_expired-all_example = prune_expired-all env_later 1 0 history pruned refl

-- The count of the pruned state is that of three addresses, and two are listed.
pruned_tests : (get_allowlist_count pruned ≡ 3) × (get_allowlist pruned ≡ 5 ∷ 7 ∷ [])
unfolding run step execute initialize add_to_allowlist approve_entry normalize_jurisdiction
    normalize_bytes append_to_allowlist next_slot set_min_holding_period record_acquisition
    block_jurisdiction blocked_list suspend load_record propose_admin require_admin eq_text
    prune_expired prune_pages scan_page scan_entry examine drop_record entries_of get_allowlist
    get_allowlist_count
pruned_tests = (refl, refl)

abbrev forever : Address → KycRecord
forever a = record {
  address = a;
  status = ComplianceStatus.approved;
  jurisdiction = 85 ∷ 83 ∷ [];
  verified_at = 1;
  expires_at = 0;
}

-- 5, 6 and 7 never expire.
abbrev crowded : Compliance
crowded = record empty {
  admin = some 1;
  meta = some (0, 3);
  pages = λ i. if i == 0 then some (5 ∷ 6 ∷ 7 ∷ []) else none;
  records = λ a. some (forever a);
}

prune_expired-stuck_example :
    (n : ℕ) × (prune_expired env 1 2 crowded ≡ ok (n, crowded))
    × (n + 2 ≡ length (get_allowlist crowded))
    × (0 < n)
unfolding require_admin
prune_expired-stuck_example =
    prune_expired-stuck env 1 2 (5 ∷ 6 ∷ []) [] 7 crowded refl refl
      ((forever 5, refl, refl), ((forever 6, refl, refl), tt)) refl (omega arith)

step-needs_admin_example :
    SameStorage reached (step reached (env_two, Call.accept_admin 2))
    ⊎ ((b : Address) × Accepts env_two
          (Call.accept_admin 2)
          b
          reached
          (step reached (env_two, Call.accept_admin 2)))
unfolding run step execute initialize add_to_allowlist approve_entry normalize_jurisdiction
    normalize_bytes append_to_allowlist next_slot set_min_holding_period record_acquisition
    block_jurisdiction blocked_list suspend load_record propose_admin require_admin eq_text
step-needs_admin_example = step-needs_admin env_two 1 (Call.accept_admin 2) reached refl refl
