-- ===== src/Compliance/Checks.antt =====
-- contracts/compliance/src/lib.rs, `is_allowed`: the check that the asset token asks for.
use stellar_rwa_contracts.Base.{
  ℕ, ◌+◌, ◌-◌, ◌^◌, min, Bool, true, false, not, ◌&&◌, none, some, ltb, leb, ◌==◌, if◌then◌else◌,
}
use stellar_rwa_contracts.Base.Host.{Address, Result, ◌>>=◌, ok}
use stellar_rwa_contracts.Compliance.State.{
  Env, Compliance, KycRecord, Error, Event, publish, is_approved,
}
use stellar_rwa_contracts.Compliance.Jurisdictions.{is_jurisdiction_blocked}

-- `first_acquired.saturating_add(min_ledgers)` on `u64`.
abbrev pub unlock_at : ℕ → ℕ → ℕ
unlock_at first_acquired min_ledgers = min (first_acquired + min_ledgers) (2 ^ 64 - 1)

-- Whether the record has lapsed: `expires_at` is exclusive, and 0 means never.
abbrev pub has_lapsed : Env → KycRecord → Bool
has_lapsed env r = not (r.expires_at == 0) && leb r.expires_at env.sequence

-- The holding period of an address that has one and whose acquisition is recorded.
unfoldable pub check_unlocked : Env → Address → ℕ → ℕ → Compliance → Bool × Compliance
check_unlocked env address first_acquired min_ledgers s =
    if ltb env.sequence (unlock_at first_acquired min_ledgers)
    then (false, publish (Event.hldfail address first_acquired min_ledgers env.sequence) s)
    else (true, s)

-- The last check: the minimum holding period.
unfoldable pub check_holding : Env → Address → Compliance → Bool × Compliance
unfolding check_unlocked
check_holding env address s = elim (s.min_holding address) [
  | none ↦ (true, s)
  | some min_ledgers ↦
      if ltb 0 min_ledgers
      then elim (s.first_acquired address) [
        | none ↦ (true, s)
        | some first_acquired ↦ check_unlocked env address first_acquired min_ledgers s
      ]
      else (true, s)
]

-- The checks of an address that has a record.
unfoldable pub check_record :
    Env → Address → KycRecord → Compliance → Result Error (Bool × Compliance)
unfolding is_jurisdiction_blocked check_holding
check_record env address r s =
    if not (is_approved r.status)
    then ok (false, s)
    else if has_lapsed env r
    then ok (false, publish (Event.expired address r.expires_at) s)
    else do
      blocked ← is_jurisdiction_blocked r.jurisdiction s
      ok (if blocked then (false, s) else check_holding env address s)

unfoldable pub is_allowed : Env → Address → Compliance → Result Error (Bool × Compliance)
unfolding check_record
is_allowed env address s = elim (s.records address) [
  | none ↦ ok (false, s)
  | some r ↦ check_record env address r s
]
