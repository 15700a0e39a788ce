-- ===== src/Registry/Totals.antt =====
-- contracts/registry/src/lib.rs: the total valuation, the number of active assets and the stored
-- entries.
use stellar_rwa_contracts.Base.{
  ℕ, ◌≡◌, sym, ◌∙◌, none, some, [], arith, if◌then◌else◌, ◌<◌, ◌≢◌, unwrap_or,
}
use stellar_rwa_contracts.Base.Int.{ℤ, pos, ◌+ℤ◌, ◌-ℤ◌, ◌≤ℤ◌, int_laws}
use stellar_rwa_contracts.Base.Dict.{lookup, insert, lookup-insert, sum_by, sum_by-insert}
use stellar_rwa_contracts.Registry.State.{Registry, AssetEntry}

-- What an entry adds to the total valuation, and to the number of active assets.
abbrev pub worth : AssetEntry → ℤ
worth e = if e.active then e.valuation else pos 0

abbrev pub counts : AssetEntry → ℤ
counts e = if e.active then pos 1 else pos 0

-- Ids above the counter are unused, before `initialize` nothing is stored, no valuation is
-- negative, and the two totals are what the active entries add up to.
pub record Totalled (s : Registry) : Type 0 where
  pub fresh : (id : ℕ) → unwrap_or s.counter 0 < id → lookup id s.assets ≡ none
  pub unused : s.admin ≡ none → s.assets ≡ []
  pub nonneg : (id : ℕ) (e : AssetEntry) → lookup id s.assets ≡ some e → pos 0 ≤ℤ e.valuation
  pub valued : unwrap_or s.total_valuation (pos 0) ≡ sum_by worth s.assets
  pub counted : pos (unwrap_or s.active 0) ≡ sum_by counts s.assets

pub counts_nonneg : (e : AssetEntry) → pos 0 ≤ℤ counts e
counts_nonneg e = ground arith

-- One entry is written, and the totals follow it.
pub record Follows (id : ℕ) (e : AssetEntry) (s s' : Registry) : Type 0 where
  pub assets_are : s'.assets ≡ insert id e s.assets
  pub admin_is : s'.admin ≡ s.admin
  pub initialized : s.admin ≢ none
  pub counter_le : (k : ℕ) → unwrap_or s'.counter 0 < k → (unwrap_or s.counter 0 < k) × (k ≢ id)
  pub value_ok : pos 0 ≤ℤ e.valuation
  pub valued : unwrap_or s'.total_valuation (pos 0) ≡ sum_by worth (insert id e s.assets)
  pub counted : pos (unwrap_or s'.active 0) ≡ sum_by counts (insert id e s.assets)

pub Follows-Totalled :
    (id : ℕ) (e : AssetEntry) (s s' : Registry) → Follows id e s s' → Totalled s → Totalled s'
Follows-Totalled id e s s' w v = record {
  fresh = λ k lt.
      let (lt', ne) = w.counter_le k lt in
      rw (w.assets_are) (ground (arith, lookup-insert k id e s.assets, v.fresh k lt'));
  unused = λ a. absurd (w.initialized (sym w.admin_is ∙ a));
  nonneg = λ k c h.
      ground (arith, w.value_ok, w.assets_are, lookup-insert k id e s.assets, v.nonneg k c);
  valued = rw (w.assets_are) w.valued;
  counted = rw (w.assets_are) w.counted;
}

-- A write over the entry `c` changes a total by the difference of the two.
total_after : (a b c d t : ℤ) → t ≡ b → a +ℤ c ≡ b +ℤ d → t -ℤ c +ℤ d ≡ a
total_after a b c d t p q = grind int_laws

pub total_new : (a b d t : ℤ) → t ≡ b → a ≡ b +ℤ d → t +ℤ d ≡ a
total_new a b d t p q = grind int_laws

module _ (id : ℕ) (s s' : Registry) (v : Totalled s) where
  pub stored-Totalled :
      (c e : AssetEntry)
      → lookup id s.assets ≡ some c
      → s'.assets ≡ insert id e s.assets
      → s'.admin ≡ s.admin
      → s'.counter ≡ s.counter
      → s.admin ≢ none
      → pos 0 ≤ℤ e.valuation
      → unwrap_or s'.total_valuation (pos 0)
        ≡ unwrap_or s.total_valuation (pos 0) -ℤ worth c +ℤ worth e
      → pos (unwrap_or s'.active 0) ≡ pos (unwrap_or s.active 0) -ℤ counts c +ℤ counts e
      → Totalled s'
  stored-Totalled c e h a ad co i n t u =
      Follows-Totalled id e s s'
        (record {
          assets_are = a;
          admin_is = ad;
          initialized = i;
          counter_le = λ k lt. (ground arith, λ p. ground (arith, v.fresh k, p));
          value_ok = n;
          valued =
              t
              ∙ total_after (sum_by worth (insert id e s.assets)) (sum_by worth s.assets) (worth c)
                  (worth e) (unwrap_or s.total_valuation (pos 0)) v.valued
                  (sum_by-insert worth id e c s.assets h);
          counted =
              u
              ∙ total_after (sum_by counts (insert id e s.assets)) (sum_by counts s.assets)
                  (counts c) (counts e) (pos (unwrap_or s.active 0)) v.counted
                  (sum_by-insert counts id e c s.assets h);
        })
        v
