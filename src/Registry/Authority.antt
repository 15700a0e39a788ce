-- ===== src/Registry/Authority.antt =====
-- contracts/registry/src/lib.rs: who may change a registered asset.
use stellar_rwa_contracts.Base.{
  ℕ, ◌≡◌, refl, ap, subst, ◌∙◌, none, some, Bool, true, false, arith, Option-cases, inl, inr,
  Bool-cases, ◌==◌, ◌⊎◌, unwrap_or, ◌+◌,
}
use stellar_rwa_contracts.Base.Int.{ℤ, pos, ◌-ℤ◌, checked_add-cases, checked_sub-cases}
use stellar_rwa_contracts.Base.Dict.{lookup, insert, lookup-insert}
use stellar_rwa_contracts.Base.Host.{Address, Result-cases, ok, err, after, state_of}
use stellar_rwa_contracts.Base.Text.{Text}
use stellar_rwa_contracts.Registry.State.{
  Env, Registry, AssetEntry, Outcome, require_admin_or_asset_admin, increment,
}
use stellar_rwa_contracts.Registry.Assets.{
  raise_total, lower_total, replace_total, store_asset, register_asset, close_asset,
  deactivate_asset, reopen_asset, reactivate_asset, update_valuation,
}
use stellar_rwa_contracts.Registry.Admin.{
  initialize, propose_admin, cancel_admin_proposal, accept_admin,
}
use stellar_rwa_contracts.Registry.Calls.{Call, execute, step}
use stellar_rwa_contracts.Registry.Totals.{Totalled}

-- What the caller of a change has shown to be: the admin, or the admin of the asset's token.
abbrev pub ByAdmin : Env → Registry → Type 0
ByAdmin env s = (a : Address) × (s.admin ≡ some a) × (env.authorized a ≡ true)

abbrev pub ByAssetAdmin : Env → AssetEntry → Type 0
ByAssetAdmin env e =
    (a : Address) × (env.asset_admin e.token_contract ≡ some a) × (env.authorized a ≡ true)

-- The fields that never change are the same, and the others change with authorization only.
pub record Kept (env : Env) (s : Registry) (e e' : AssetEntry) : Type 0 where
  pub same_id : e'.id ≡ e.id
  pub same_token : e'.token_contract ≡ e.token_contract
  pub same_issuer : e'.issuer ≡ e.issuer
  pub same_name : e'.name ≡ e.name
  pub same_type : e'.asset_type ≡ e.asset_type
  pub same_creation : e'.created_at ≡ e.created_at
  pub valuation : (e'.valuation ≡ e.valuation) ⊎ ByAdmin env s
  pub active : (e'.active ≡ e.active) ⊎ ByAdmin env s ⊎ ByAssetAdmin env e

-- The entry under an id is still there, and kept.
abbrev pub KeepsEntry : Env → ℕ → AssetEntry → Registry → Registry → Type 0
KeepsEntry env id e s s' = (e' : AssetEntry) × (lookup id s'.assets ≡ some e') × Kept env s e e'

Kept-same : (env : Env) (s : Registry) (e : AssetEntry) → Kept env s e e
Kept-same env s e = record {
  same_id = refl;
  same_token = refl;
  same_issuer = refl;
  same_name = refl;
  same_type = refl;
  same_creation = refl;
  valuation = inl refl;
  active = inl refl;
}

Kept-active :
    (env : Env) (s : Registry) (e : AssetEntry) (b : Bool)
    → ByAdmin env s ⊎ ByAssetAdmin env e
    → Kept env s e (record e { active = b })
Kept-active env s e b by = record {
  same_id = refl;
  same_token = refl;
  same_issuer = refl;
  same_name = refl;
  same_type = refl;
  same_creation = refl;
  valuation = inl refl;
  active = inr by;
}

Kept-valued :
    (env : Env) (s : Registry) (e : AssetEntry) (x : ℤ)
    → ByAdmin env s
    → Kept env s e (record e { valuation = x })
Kept-valued env s e x by = record {
  same_id = refl;
  same_token = refl;
  same_issuer = refl;
  same_name = refl;
  same_type = refl;
  same_creation = refl;
  valuation = inr by;
  active = inl refl;
}

authority :
    (env : Env) (s : Registry) (a : Address) (c : AssetEntry)
    → require_admin_or_asset_admin env a c.token_contract s ≡ ok tt
    → ByAdmin env s ⊎ ByAssetAdmin env c
unfolding require_admin_or_asset_admin
authority env s a c p = elim (Option-cases s.admin) [
  | inl q ↦ ground arith
  | inr (stored, q) ↦ elim (Bool-cases (a == stored)) [
    | inl r ↦ inl (stored, q, ground arith)
    | inr r ↦ inr (a, ground arith, ground arith)
  ]
]

module _ (env : Env) (id : ℕ) (e : AssetEntry) (s s' : Registry)
    (h : lookup id s.assets ≡ some e) where
  untouched : lookup id s'.assets ≡ lookup id s.assets → KeepsEntry env id e s s'
  untouched p = (e, p ∙ h, Kept-same env s e)

  -- A write over the entry under `k`.
  written :
      (k : ℕ) (c c' : AssetEntry)
      → lookup k s.assets ≡ some c
      → s'.assets ≡ insert k c' s.assets
      → Kept env s c c'
      → KeepsEntry env id e s s'
  written k c c' p w q = elim (Bool-cases (k == id)) [
    | inl r ↦
        let same : c ≡ e = ground arith in
        (
          c',
          rw w (ground (arith, lookup-insert id k c' s.assets)),
          subst (λ x. Kept env s x c') same q,
        )
    | inr r ↦ untouched (rw w (ground (arith, lookup-insert id k c' s.assets)))
  ]

  deactivate-Keeps :
      (a : Address) (k : ℕ) → deactivate_asset env a k s ≡ ok s' → KeepsEntry env id e s s'
  unfolding deactivate_asset close_asset lower_total
  deactivate-Keeps a k p = elim (Option-cases (lookup k s.assets)) [
    | inl q ↦ ground arith
    | inr (c, q) ↦
        let n = checked_sub-cases (unwrap_or s.total_valuation (pos 0)) c.valuation in
        let by =
          authority env s a c (
            ground (arith, Result-cases (require_admin_or_asset_admin env a c.token_contract s))) in
        elim (Bool-cases c.active) [
          | inr o ↦
              let same : s' ≡ s = ground arith in
              untouched (ap (λ (t : Registry). lookup id t.assets) same)
          | inl o ↦
              written k c (record c { active = false }) q (ground (arith, n))
                (Kept-active env s c false by)
        ]
  ]

  reactivate-Keeps :
      (a : Address) (k : ℕ) → reactivate_asset env a k s ≡ ok s' → KeepsEntry env id e s s'
  unfolding reactivate_asset reopen_asset raise_total increment
  reactivate-Keeps a k p = elim (Option-cases (lookup k s.assets)) [
    | inl q ↦ ground arith
    | inr (c, q) ↦
        let n = checked_add-cases (unwrap_or s.total_valuation (pos 0)) c.valuation in
        let by =
          authority env s a c (
            ground (arith, Result-cases (require_admin_or_asset_admin env a c.token_contract s))) in
        elim (Bool-cases c.active) [
          | inl o ↦
              let same : s' ≡ s = ground arith in
              untouched (ap (λ (t : Registry). lookup id t.assets) same)
          | inr o ↦
              written k c (record c { active = true }) q (ground (arith, n))
                (Kept-active env s c true by)
        ]
  ]

  update-Keeps :
      (a : Address) (k : ℕ) (x : ℤ)
      → update_valuation env a k x s ≡ ok s'
      → KeepsEntry env id e s s'
  unfolding update_valuation replace_total
  update-Keeps a k x p = elim (Option-cases (lookup k s.assets)) [
    | inl q ↦ ground arith
    | inr (c, q) ↦
        let t = unwrap_or s.total_valuation (pos 0) in
        let n = checked_sub-cases t c.valuation in
        let m = checked_add-cases (t -ℤ c.valuation) x in
        written k c (record c { valuation = x }) q (ground (arith, n, m))
          (Kept-valued env s c x (a, ground arith, ground arith))
  ]

  store-Keeps :
      (c : AssetEntry)
      → lookup c.id s.assets ≡ none
      → store_asset c s ≡ ok s'
      → KeepsEntry env id e s s'
  unfolding store_asset raise_total increment
  store-Keeps c q p =
      let n = checked_add-cases (unwrap_or s.total_valuation (pos 0)) c.valuation in
      let w : s'.assets ≡ insert c.id c s.assets = ground (arith, n) in
      untouched (rw w (ground (arith, lookup-insert id c.id c s.assets)))

  register-Keeps :
      (issuer token : Address) (name kind : Text) (x : ℤ)
      → Totalled s
      → state_of (register_asset env issuer token name kind x s) ≡ ok s'
      → KeepsEntry env id e s s'
  unfolding register_asset increment
  register-Keeps issuer token name kind x v p =
      let c : AssetEntry = record {
        id = unwrap_or s.counter 0 + 1;
        token_contract = token;
        issuer = issuer;
        name = name;
        asset_type = kind;
        valuation = x;
        created_at = env.sequence;
        active = true;
      } in
      elim (Result-cases (store_asset c s)) [
        | inl (t, k) ↦
            store-Keeps c (v.fresh (unwrap_or s.counter 0 + 1) (omega arith)) (ground arith)
        | inr (f, k) ↦ absurd (ground arith)
      ]

  execute-Keeps : (c : Call) → Totalled s → execute env c s ≡ ok s' → KeepsEntry env id e s s'
  unfolding execute initialize accept_admin cancel_admin_proposal propose_admin
  execute-Keeps (Call.initialize a) v p = untouched (ground arith)
  execute-Keeps (Call.accept_admin a) v p = untouched (ground arith)
  execute-Keeps (Call.cancel_admin_proposal a) v p = untouched (ground arith)
  execute-Keeps (Call.propose_admin a b) v p = untouched (ground arith)
  execute-Keeps (Call.register_asset i t n y x) v p = register-Keeps i t n y x v p
  execute-Keeps (Call.deactivate_asset a k) v p = deactivate-Keeps a k p
  execute-Keeps (Call.reactivate_asset a k) v p = reactivate-Keeps a k p
  execute-Keeps (Call.update_valuation a k x) v p = update-Keeps a k x p

after-Keeps :
    (env : Env) (id : ℕ) (e : AssetEntry) (s : Registry) (r : Outcome)
    → lookup id s.assets ≡ some e
    → ((s' : Registry) → r ≡ ok s' → KeepsEntry env id e s s')
    → KeepsEntry env id e s (after s r)
after-Keeps env id e s (ok s') h f = f s' refl
after-Keeps env id e s (err _) h f = (e, h, Kept-same env s e)

-- In a state where the totals are right and ids above the counter unused: whatever the call, a
-- registered asset is still there after it, with the same id, token, issuer, name, type and
-- creation ledger. Its valuation is the same or the admin has authorized the call; whether it is
-- active is the same or the admin, or the admin of the asset's token, has authorized the call.
pub step-Keeps :
    (env : Env) (c : Call) (id : ℕ) (e : AssetEntry) (s : Registry)
    → Totalled s
    → lookup id s.assets ≡ some e
    → KeepsEntry env id e s (step s (env, c))
unfolding step
step-Keeps env c id e s v h =
    after-Keeps env id e s (execute env c s) h (λ s'. execute-Keeps env id e s s' h c v)
