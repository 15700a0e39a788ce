-- ===== src/Registry/CatalogChanges.antt =====
-- contracts/registry/src/lib.rs: the indexes and the calls that register nothing.
use stellar_rwa_contracts.Base.{
  ℕ, ◌≡◌, refl, subst, none, some, true, false, arith, Option-cases, inl, inr, Bool-cases, ◌⊎◌,
  unwrap_or,
}
use stellar_rwa_contracts.Base.Int.{ℤ, pos, checked_add-cases, checked_sub-cases, ◌-ℤ◌}
use stellar_rwa_contracts.Base.Dict.{lookup}
use stellar_rwa_contracts.Base.Host.{Address, ok}
use stellar_rwa_contracts.Registry.State.{Env, Registry, AssetEntry, increment}
use stellar_rwa_contracts.Registry.Assets.{
  raise_total, lower_total, replace_total, close_asset, deactivate_asset, reopen_asset,
  reactivate_asset, update_valuation,
}
use stellar_rwa_contracts.Registry.Admin.{
  initialize, propose_admin, cancel_admin_proposal, accept_admin,
}
use stellar_rwa_contracts.Registry.Catalog.{SameCatalog, written-SameCatalog}

module _ (env : Env) (s s' : Registry) where
  close-SameCatalog :
      (id : ℕ) (c : AssetEntry)
      → lookup id s.assets ≡ some c
      → close_asset id c s ≡ ok s'
      → SameCatalog s s'
  unfolding close_asset lower_total
  close-SameCatalog id c e h =
      let k = checked_sub-cases (unwrap_or s.total_valuation (pos 0)) c.valuation in
      written-SameCatalog id c (record c { active = false }) s s' e refl (ground (arith, k))
        (
          ground (arith, k),
          ground (arith, k),
          ground (arith, k),
          ground (arith, k),
          ground (arith, k),
        )

  reopen-SameCatalog :
      (id : ℕ) (c : AssetEntry)
      → lookup id s.assets ≡ some c
      → reopen_asset id c s ≡ ok s'
      → SameCatalog s s'
  unfolding reopen_asset raise_total increment
  reopen-SameCatalog id c e h =
      let k = checked_add-cases (unwrap_or s.total_valuation (pos 0)) c.valuation in
      written-SameCatalog id c (record c { active = true }) s s' e refl (ground (arith, k))
        (
          ground (arith, k),
          ground (arith, k),
          ground (arith, k),
          ground (arith, k),
          ground (arith, k),
        )

  same-SameCatalog : s ≡ s' → SameCatalog s s'
  same-SameCatalog h = subst (SameCatalog s) h (record {
    identities = λ k. refl;
    counter_is = refl;
    still_blank = λ e. e;
    tokens = refl;
    issuers = refl;
    types = refl;
  })

  pub deactivate-SameCatalog :
      (a : Address) (id : ℕ) → deactivate_asset env a id s ≡ ok s' → SameCatalog s s'
  unfolding deactivate_asset
  deactivate-SameCatalog a id h = elim (Option-cases (lookup id s.assets)) [
    | inl e ↦ absurd (ground arith)
    | inr (c, e) ↦ elim (Bool-cases c.active) [
      | inl o ↦ close-SameCatalog id c e (ground arith)
      | inr o ↦ same-SameCatalog (ground arith)
    ]
  ]

  pub reactivate-SameCatalog :
      (a : Address) (id : ℕ) → reactivate_asset env a id s ≡ ok s' → SameCatalog s s'
  unfolding reactivate_asset
  reactivate-SameCatalog a id h = elim (Option-cases (lookup id s.assets)) [
    | inl e ↦ absurd (ground arith)
    | inr (c, e) ↦ elim (Bool-cases c.active) [
      | inl o ↦ same-SameCatalog (ground arith)
      | inr o ↦ reopen-SameCatalog id c e (ground arith)
    ]
  ]

  pub update-SameCatalog :
      (a : Address) (id : ℕ) (x : ℤ) → update_valuation env a id x s ≡ ok s' → SameCatalog s s'
  unfolding update_valuation replace_total
  update-SameCatalog a id x h = elim (Option-cases (lookup id s.assets)) [
    | inl e ↦ absurd (ground arith)
    | inr (c, e) ↦
        let t = unwrap_or s.total_valuation (pos 0) in
        let k = checked_sub-cases t c.valuation in
        let l = checked_add-cases (t -ℤ c.valuation) x in
        written-SameCatalog id c (record c { valuation = x }) s s' e refl (ground (arith, k, l))
          (
            ground (arith, k, l),
            ground (arith, k, l),
            ground (arith, k, l),
            ground (arith, k, l),
            ground (arith, k, l),
          )
  ]

  pub admin-SameCatalog :
      (a b : Address)
      → (s.admin ≡ none → unwrap_or s.counter 0 ≡ 0)
      → (initialize env a s ≡ ok s')
        ⊎ (accept_admin env a s ≡ ok s')
        ⊎ (cancel_admin_proposal env a s ≡ ok s')
        ⊎ (propose_admin env a b s ≡ ok s')
      → SameCatalog s s'
  unfolding initialize accept_admin cancel_admin_proposal propose_admin
  admin-SameCatalog a b z h = ground (arith, z)
