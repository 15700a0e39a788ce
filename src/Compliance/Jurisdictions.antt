-- ===== src/Compliance/Jurisdictions.antt =====
-- contracts/compliance/src/lib.rs, `normalize_jurisdiction` and the blocked jurisdictions.
use stellar_rwa_contracts.Base.{
  ℕ, ◌-◌, Bool, true, false, not, ◌||◌, ◌&&◌, none, some, List, [], ◌∷◌, ◌++◌, leb, ◌==◌,
  if◌then◌else◌, unwrap_or, length,
}
use stellar_rwa_contracts.Base.Text.{Text, eq_text, update_text}
use stellar_rwa_contracts.Base.Host.{Address, Result, ◌>>=◌, ◌>>◌, ok, panic_if}
use stellar_rwa_contracts.Compliance.State.{
  Env, Compliance, Error, Event, Outcome, publish, require_admin, blocked_list,
  invalid_jurisdiction,
}

abbrev pub is_ascii_uppercase : ℕ → Bool
is_ascii_uppercase b = leb 65 b && leb b 90

abbrev pub is_ascii_lowercase : ℕ → Bool
is_ascii_lowercase b = leb 97 b && leb b 122

abbrev pub is_ascii_alphabetic : ℕ → Bool
is_ascii_alphabetic b = is_ascii_uppercase b || is_ascii_lowercase b

abbrev pub to_ascii_uppercase : ℕ → ℕ
to_ascii_uppercase b = if is_ascii_lowercase b then b - 32 else b

-- The loop over the bytes: `out` is what is in the buffer so far.
unfoldable pub normalize_bytes : Text → Text → Result Error Text
normalize_bytes [] out = panic_if (not (length out == 2)) invalid_jurisdiction >> ok out
normalize_bytes (b ∷ raw) out =
    if b == 32
    then normalize_bytes raw out
    else (panic_if (leb 2 (length out) || not (is_ascii_alphabetic b)) invalid_jurisdiction
        >> normalize_bytes raw (out ++ to_ascii_uppercase b ∷ []))

unfoldable pub normalize_jurisdiction : Text → Result Error Text
unfolding normalize_bytes
normalize_jurisdiction jurisdiction = normalize_bytes jurisdiction []

unfoldable pub block_jurisdiction : Env → Address → Text → Compliance → Outcome
unfolding require_admin normalize_jurisdiction blocked_list
block_jurisdiction env admin jurisdiction s = do
  require_admin env admin s
  jurisdiction ← normalize_jurisdiction jurisdiction
  let already_blocked = unwrap_or (s.blocked jurisdiction) false
  let s = record s { blocked = update_text jurisdiction (some true) s.blocked }
  let s =
      if not already_blocked
      then record s { blocked_list = some (blocked_list s ++ jurisdiction ∷ []) }
      else s
  ok (publish (Event.blockjur jurisdiction) s)

-- The listed jurisdictions that are not `jurisdiction`.
unfoldable pub unlisted : Text → List Text → List Text
unlisted jurisdiction [] = []
unlisted jurisdiction (j ∷ list) =
    let next = unlisted jurisdiction list in if not (eq_text j jurisdiction) then j ∷ next else next

unfoldable pub unblock_jurisdiction : Env → Address → Text → Compliance → Outcome
unfolding require_admin normalize_jurisdiction blocked_list unlisted
unblock_jurisdiction env admin jurisdiction s = do
  require_admin env admin s
  jurisdiction ← normalize_jurisdiction jurisdiction
  let s = record s {
    blocked = update_text jurisdiction none s.blocked;
    blocked_list = some (unlisted jurisdiction (blocked_list s));
  }
  ok (publish (Event.unblkjur jurisdiction) s)

unfoldable pub is_jurisdiction_blocked : Text → Compliance → Result Error Bool
unfolding normalize_jurisdiction
is_jurisdiction_blocked jurisdiction s = do
  jurisdiction ← normalize_jurisdiction jurisdiction
  ok (unwrap_or (s.blocked jurisdiction) false)

unfoldable pub get_blocked_jurisdictions : Compliance → List Text
unfolding blocked_list
get_blocked_jurisdictions s = blocked_list s
