-- ===== src/Registry/Pages.antt =====
-- contracts/registry/src/lib.rs: the reads, page by page.
use stellar_rwa_contracts.Base.{
  ℕ, zero, suc, ◌+◌, ◌-◌, ◌*◌, ◌%◌, ◌^◌, min, max, Bool, true, false, ◌||◌, not, Option, none, some,
  List, [], ◌∷◌, ltb, leb, ◌==◌, if◌then◌else◌, unwrap_or, length,
}
use stellar_rwa_contracts.Base.Int.{ℤ, pos}
use stellar_rwa_contracts.Base.Dict.{Dict, lookup}
use stellar_rwa_contracts.Base.Host.{Address, Result, ◌>>=◌, ok, or_trap}
use stellar_rwa_contracts.Base.Slices.{drop, take}
use stellar_rwa_contracts.Base.Text.{Text}
use stellar_rwa_contracts.Registry.State.{AssetEntry, Error, Registry, load, max_page_size}

unfoldable pub get_asset : ℕ → Registry → Result Error AssetEntry
unfolding load
get_asset asset_id s = load asset_id s

unfoldable pub index_ids : Option (List ℕ) → List ℕ
index_ids ids = unwrap_or ids []

-- An entry, if it is stored, before the others.
abbrev pub push_front : Option AssetEntry → List AssetEntry → List AssetEntry
push_front none out = out
push_front (some entry) out = entry ∷ out

-- The stored entries of the ids, in their order.
unfoldable pub fetch : Dict AssetEntry → List ℕ → List AssetEntry
fetch assets [] = []
fetch assets (id ∷ ids) = push_front (lookup id assets) (fetch assets ids)

-- `saturating_add` and `saturating_mul` at a width of `w` bits.
abbrev pub saturating : ℕ → ℕ → ℕ
saturating w n = min n (2 ^ w - 1)

-- The loop over the positions from `offset` up to `end`.
unfoldable pub fetch_assets_page : Dict AssetEntry → List ℕ → ℕ → ℕ → List AssetEntry
unfolding fetch drop take
fetch_assets_page assets ids offset limit =
    if leb (length ids) offset || limit == 0
    then []
    else let end = min (length ids) (saturating 32 (offset + limit)) in
      fetch assets (take (end - offset) (drop offset ids))

unfoldable pub get_page : Dict AssetEntry → List ℕ → ℕ → ℕ → List AssetEntry
unfolding fetch_assets_page
get_page assets ids page page_size =
    let capped = min page_size max_page_size in
    fetch_assets_page assets ids (saturating 32 (page * capped)) capped

unfoldable pub get_assets_by_issuer : Address → Registry → List AssetEntry
unfolding index_ids fetch_assets_page
get_assets_by_issuer issuer s =
    fetch_assets_page s.assets (index_ids (s.issuer_index issuer)) 0 max_page_size

unfoldable pub get_assets_by_issuer_page : Address → ℕ → ℕ → Registry → List AssetEntry
unfolding index_ids get_page
get_assets_by_issuer_page issuer page page_size s =
    get_page s.assets (index_ids (s.issuer_index issuer)) page page_size

unfoldable pub get_assets_by_type : Text → Registry → List AssetEntry
unfolding index_ids fetch_assets_page
get_assets_by_type asset_type s =
    fetch_assets_page s.assets (index_ids (s.type_index asset_type)) 0 max_page_size

unfoldable pub get_assets_by_type_page : Text → ℕ → ℕ → Registry → List AssetEntry
unfolding index_ids get_page
get_assets_by_type_page asset_type page page_size s =
    get_page s.assets (index_ids (s.type_index asset_type)) page page_size

-- The loop over `n` ids from `id` on.
unfoldable pub fetch_range : Dict AssetEntry → ℕ → ℕ → List AssetEntry
fetch_range assets id zero = []
fetch_range assets id (suc n) = push_front (lookup id assets) (fetch_range assets (id + 1) n)

-- `counter + 1` panics beyond `u64`.
unfoldable pub get_all_assets : ℕ → ℕ → Registry → Result Error (List AssetEntry)
unfolding fetch_range
get_all_assets start_id limit s = do
  let start = max start_id 1
  let capped_limit = min limit max_page_size
  let last = unwrap_or s.counter 0 + 1
  stop ← or_trap (if ltb last (2 ^ 64) then some last else none)
  let end = min (saturating 64 (start + capped_limit)) stop
  ok (fetch_range s.assets start (end - start))

-- The page size that 0 and anything beyond the maximum stand for.
abbrev pub cap_page_size : ℕ → ℕ
cap_page_size page_size =
    if page_size == 0 || ltb max_page_size page_size then max_page_size else page_size

unfoldable pub get_assets_page : ℕ → ℕ → Registry → List AssetEntry
unfolding fetch_range
get_assets_page start_index page_size s =
    let counter = unwrap_or s.counter 0 in
    let start_id = saturating 64 (start_index + 1) in
    if counter == 0 || ltb counter start_id
    then []
    else let end_id =
        min (saturating 64 (start_id + cap_page_size page_size)) (saturating 64 (counter + 1)) in
      fetch_range s.assets start_id (end_id - start_id)

abbrev eq_bool : Bool → Bool → Bool
eq_bool a b = if a then b else not b

-- The loop over `n` ids from `id` on: `skip` entries are still to be passed over, and `room` to be
-- returned.
unfoldable pub collect_active : Dict AssetEntry → Bool → ℕ → ℕ → ℕ → ℕ → List AssetEntry
collect_active assets wanted id skip room zero = []
collect_active assets wanted id skip zero (suc n) = []
collect_active assets wanted id skip (suc room) (suc n) = elim (lookup id assets) [
  | none ↦ collect_active assets wanted (id + 1) skip (suc room) n
  | some entry ↦ elim (eq_bool entry.active wanted) [
    | false ↦ collect_active assets wanted (id + 1) skip (suc room) n
    | true ↦ elim skip [
      | zero ↦ entry ∷ collect_active assets wanted (id + 1) zero room n
      | suc k ↦ collect_active assets wanted (id + 1) k (suc room) n
    ]
  ]
]

unfoldable pub get_active_assets_page : ℕ → ℕ → Bool → Registry → List AssetEntry
unfolding collect_active
get_active_assets_page start_index page_size active_only s =
    let counter = unwrap_or s.counter 0 in
    if counter == 0
    then []
    else collect_active s.assets active_only 1 start_index (cap_page_size page_size) counter

unfoldable pub total_value_locked : Registry → ℤ
total_value_locked s = unwrap_or s.total_valuation (pos 0)

unfoldable pub asset_count : Registry → ℕ
asset_count s = unwrap_or s.counter 0

unfoldable pub active_count : Registry → ℕ
active_count s = unwrap_or s.active 0

-- `as u32` drops the high bits.
unfoldable pub get_total_asset_count : Registry → ℕ
get_total_asset_count s = unwrap_or s.counter 0 % 2 ^ 32
