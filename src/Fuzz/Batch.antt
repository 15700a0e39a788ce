-- ===== src/Fuzz/Batch.antt =====
-- fuzz/fuzz_targets/compliance_batch_allowlist.rs
use stellar_rwa_contracts.Base.{
  ℕ, zero, suc, ◌+◌, ◌-◌, ◌%◌, Bool, true, false, not, ◌&&◌, ◌||◌, Option, some, List, [], ◌∷◌, leb,
  ◌==◌, if◌then◌else◌, length,
}
use stellar_rwa_contracts.Base.Int.{ℤ, pos, negsuc}
use stellar_rwa_contracts.Base.Text.{Text}
use stellar_rwa_contracts.Base.Host.{Address, Result, succeeds, after}
use stellar_rwa_contracts.Compliance.State.{Compliance, AllowlistEntry, Error, empty}
use stellar_rwa_contracts.Compliance.Jurisdictions.{is_ascii_alphabetic}
use stellar_rwa_contracts.Compliance.Checks.{is_allowed}
use stellar_rwa_contracts.Compliance.Listing.{get_allowlist, get_allowlist_count}
use stellar_rwa_contracts.Compliance.Calls.{Call, execute}
use stellar_rwa_contracts.Fuzz.Harness.{
  ◌>>=◌, ◌>>◌, assert, mock, expect, client, saturating_add, nth,
}

-- `expires_offset` is an `i32`.
pub record FuzzEntry : Type 0 where
  pub jurisdiction_idx : ℕ
  pub expires_offset : ℤ

-- US, KE, DE, us, ke, the empty text, USA, U1, two spaces, and ZZ.
abbrev pub jurisdictions : List Text
jurisdictions =
    (85 ∷ 83 ∷ [])
    ∷ (75 ∷ 69 ∷ [])
    ∷ (68 ∷ 69 ∷ [])
    ∷ (117 ∷ 115 ∷ [])
    ∷ (107 ∷ 101 ∷ [])
    ∷ []
    ∷ (85 ∷ 83 ∷ 65 ∷ [])
    ∷ (85 ∷ 49 ∷ [])
    ∷ (32 ∷ 32 ∷ [])
    ∷ (90 ∷ 90 ∷ [])
    ∷ []

abbrev pub now : ℕ
now = 1000

abbrev pub jur_str : FuzzEntry → Text
unfolding nth
jur_str e = nth [] jurisdictions (e.jurisdiction_idx % 10)

abbrev pub expires_at : FuzzEntry → ℕ
expires_at e = elim e.expires_offset [
  | pos n ↦ if n == 0 then 0 else saturating_add now n
  | negsuc n ↦ if now - suc n == 0 then 1 else now - suc n
]

-- `chars().all(|c| c.is_ascii_alphabetic())`
unfoldable pub all_alphabetic : Text → Bool
all_alphabetic [] = true
all_alphabetic (b ∷ t) = is_ascii_alphabetic b && all_alphabetic t

unfoldable pub valid_jur : Text → Bool
unfolding all_alphabetic
valid_jur t = length t == 2 && all_alphabetic t

-- The flag after the loop.
unfoldable pub has_invalid : List FuzzEntry → Bool
unfolding valid_jur
has_invalid [] = false
has_invalid (e ∷ es) =
    (not (expires_at e == 0) && leb (expires_at e) now)
    || not (valid_jur (jur_str e))
    || has_invalid es

-- The batch that the loop builds, from the index `i` on.
unfoldable pub build : ℕ → (ℕ → Address) → List FuzzEntry → List AllowlistEntry
build i addrs [] = []
build i addrs (e ∷ es) =
    record { address = addrs i; jurisdiction = jur_str e; expires_at = expires_at e }
    ∷ build (suc i) addrs es

-- The loop over the admitted addresses: `n` from the index `i` on.
unfoldable pub check_admitted : ℕ → ℕ → (ℕ → Address) → Compliance → Option Compliance
unfolding is_allowed
check_admitted zero i addrs s = some s
check_admitted (suc n) i addrs s = do
  answer ← expect (is_allowed (mock now) (addrs i) s)
  assert answer.0
  check_admitted n (suc i) addrs answer.1

-- The branch of a batch with an invalid entry.
unfoldable pub check_failed : ℕ → Result Error Compliance → Compliance → Option Compliance
unfolding get_allowlist_count
check_failed count_before result s = do
  assert (not (succeeds result))
  assert (get_allowlist_count (after s result) == count_before)
  some (after s result)

-- The branch of a batch without one.
unfoldable pub check_succeeded : ℕ → ℕ → (ℕ → Address) → Result Error Compliance → Option Compliance
unfolding get_allowlist_count check_admitted
check_succeeded count_before len addrs result = do
  s ← expect result
  assert (get_allowlist_count s == count_before + len)
  check_admitted len 0 addrs s

-- `start` is the ledger sequence of a new test host.
unfoldable pub fuzz_one : ℕ → Address → (ℕ → Address) → List FuzzEntry → Option Compliance
unfolding client execute get_allowlist_count get_allowlist has_invalid build check_failed
    check_succeeded
fuzz_one start admin addrs entries = do
  s ← client start (Call.initialize admin) empty
  let count_before = get_allowlist_count s
  let result = execute (mock now) (Call.add_to_allowlist_batch admin (build 0 addrs entries)) s
  s ←
      (if has_invalid entries
        then check_failed count_before result s
        else check_succeeded count_before (length entries) addrs result)
  assert (get_allowlist_count s == length (get_allowlist s))
  some s
