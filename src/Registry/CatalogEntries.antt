-- ===== src/Registry/CatalogEntries.antt =====
-- contracts/registry/src/lib.rs, `register_asset`: the indexes.
use stellar_rwa_contracts.Base.{
  ℕ, ◌≡◌, refl, sym, ap, subst, ◌∙◌, Option, none, some, Bool, true, false, List, [], ◌∷◌, ◌++◌,
  arith, inl, inr, Bool-cases, ◌==◌, if◌then◌else◌, ◌≢◌, unwrap_or, ◌+◌,
}
use stellar_rwa_contracts.Base.Int.{ℤ, pos, checked_add-cases}
use stellar_rwa_contracts.Base.Dict.{lookup, insert, lookup-insert}
use stellar_rwa_contracts.Base.Occurs.{one_if, occurs, occurs-++}
use stellar_rwa_contracts.Base.Tables.{update}
use stellar_rwa_contracts.Base.Text.{Text, eq_text, update_text, eq_of_eq_text}
use stellar_rwa_contracts.Base.Host.{Address, Result-cases, ok, state_of}
use stellar_rwa_contracts.Registry.State.{Env, Registry, AssetEntry, increment}
use stellar_rwa_contracts.Registry.Assets.{raise_total, store_asset, register_asset}
use stellar_rwa_contracts.Registry.Catalog.{issued_by, has_type, Catalogued}

-- An index, with a new id at its end if it is one of its own.
abbrev listed_if : Bool → ℕ → List ℕ → List ℕ
listed_if mine id ids = if mine then ids ++ id ∷ [] else ids

-- What a registration leaves in the storage.
record Enters (e : AssetEntry) (s s' : Registry) : Type 0 where
  is_new : s.token_index e.token_contract ≡ none
  id_is : e.id ≡ unwrap_or s.counter 0 + 1
  set_up : s'.admin ≢ none
  assets_are : s'.assets ≡ insert e.id e s.assets
  counter_is : s'.counter ≡ some e.id
  tokens : s'.token_index ≡ update e.token_contract (some e.id) s.token_index
  issuers :
      (a : Address)
      → unwrap_or (s'.issuer_index a) []
        ≡ listed_if (issued_by a (some e)) e.id (unwrap_or (s.issuer_index a) [])
  types :
      (t : Text)
      → unwrap_or (s'.type_index t) []
        ≡ listed_if (has_type t (some e)) e.id (unwrap_or (s.type_index t) [])

entry_at :
    (e : AssetEntry) (s s' : Registry)
    → Enters e s s'
    → (k : ℕ) → lookup k s'.assets ≡ (if e.id == k then some e else lookup k s.assets)
entry_at e s s' w k = ap (λ d. lookup k d) w.assets_are ∙ lookup-insert k e.id e s.assets

Enters-filed :
    (e : AssetEntry) (s s' : Registry)
    → Enters e s s'
    → Catalogued s
    → (k : ℕ) (f : AssetEntry) → lookup k s'.assets ≡ some f
    → (f.id ≡ k) × (s'.token_index f.token_contract ≡ some k)
Enters-filed e s s' w v k f h = elim (Bool-cases (e.id == k)) [
  | inl q ↦
      let same : e ≡ f = ground (arith, entry_at e s s' w k) in
      let token = ap (λ (x : AssetEntry). x.token_contract) same in
      (
        sym (ap (λ (x : AssetEntry). x.id) same) ∙ ground arith,
        ground (arith, ap (λ f. f e.token_contract) w.tokens, ap s'.token_index token),
      )
  | inr q ↦
      let (at, known) = v.filed k f (ground (arith, entry_at e s s' w k)) in
      (at, ground (arith, known, w.is_new, ap (λ g. g f.token_contract) w.tokens))
]

occurs-one : (k j : ℕ) (xs : List ℕ) → occurs k (xs ++ j ∷ []) ≡ occurs k xs + one_if (j == k)
unfolding occurs
occurs-one k j xs = ground (arith, occurs-++ k xs (j ∷ []))

-- An index stays that of the entries with the property `mine`.
occurs-listed_if :
    (mine : Option AssetEntry → Bool) (e : AssetEntry) (o : Option AssetEntry) (k : ℕ)
    (ids : List ℕ)
    → mine none ≡ false
    → (e.id ≡ k → o ≡ none)
    → occurs k ids ≡ one_if (mine o)
    → occurs k (listed_if (mine (some e)) e.id ids)
      ≡ one_if (mine (if e.id == k then some e else o))
occurs-listed_if mine e o k ids n f h = elim (Bool-cases (e.id == k)) [
  | inl q ↦
      let gone : o ≡ none = f (ground arith) in
      let before : mine o ≡ false = ap mine gone ∙ n in
      rw q (ground (arith, before, occurs-one k e.id ids))
  | inr q ↦ rw q (ground (arith, occurs-one k e.id ids))
]

Enters-Catalogued :
    (e : AssetEntry) (s s' : Registry) → Enters e s s' → Catalogued s → Catalogued s'
Enters-Catalogued e s s' w v =
    let new : (k : ℕ) → e.id ≡ k → lookup k s.assets ≡ none =
      λ k q. v.fresh k (omega (arith, w.id_is)) in
    record {
      fresh = λ k lt. entry_at e s s' w k ∙ ground (arith, w.counter_is, w.id_is, v.fresh k);
      blank = λ q. absurd (w.set_up q);
      filed = Enters-filed e s s' w v;
      by_issuer = λ a k.
          ap (occurs k) (w.issuers a)
          ∙ occurs-listed_if (issued_by a) e (lookup k s.assets) k (unwrap_or (s.issuer_index a) [])
              refl (new k) (v.by_issuer a k)
          ∙ ap (λ o. one_if (issued_by a o)) (sym (entry_at e s s' w k));
      by_type = λ t k.
          ap (occurs k) (w.types t)
          ∙ occurs-listed_if (has_type t) e (lookup k s.assets) k (unwrap_or (s.type_index t) [])
              refl (new k) (v.by_type t k)
          ∙ ap (λ o. one_if (has_type t o)) (sym (entry_at e s s' w k));
    }

update_text-listed_if :
    (t u : Text) (id : ℕ) (index : Text → Option (List ℕ))
    → unwrap_or (update_text u (some (unwrap_or (index u) [] ++ id ∷ [])) index t) []
      ≡ listed_if (eq_text t u) id (unwrap_or (index t) [])
update_text-listed_if t u id index = elim (Bool-cases (eq_text t u)) [
  | inl q ↦ rw q (ap (λ (x : Text). unwrap_or (index x) [] ++ id ∷ []) (sym (eq_of_eq_text t u q)))
  | inr q ↦ rw q refl
]

update-listed_if :
    (a b : Address) (id : ℕ) (index : Address → Option (List ℕ))
    → unwrap_or (update b (some (unwrap_or (index b) [] ++ id ∷ [])) index a) []
      ≡ listed_if (b == a) id (unwrap_or (index a) [])
update-listed_if a b id index = ground arith

store-Enters :
    (e : AssetEntry) (s s' : Registry)
    → s.token_index e.token_contract ≡ none
    → e.id ≡ unwrap_or s.counter 0 + 1
    → s.admin ≢ none
    → store_asset e s ≡ ok s'
    → Enters e s s'
unfolding store_asset raise_total increment
store-Enters e s s' n i u h =
    let k = checked_add-cases (unwrap_or s.total_valuation (pos 0)) e.valuation in
    record {
      is_new = n;
      id_is = i;
      set_up = ground (arith, k);
      assets_are = ground (arith, k);
      counter_is = ground (arith, k);
      tokens = ground (arith, k);
      issuers = λ a. ground (arith, k, update-listed_if a e.issuer e.id s.issuer_index);
      types = λ t. ground (arith, k, update_text-listed_if t e.asset_type e.id s.type_index);
    }

pub register-Catalogued :
    (env : Env) (issuer token : Address) (name kind : Text) (x : ℤ) (s s' : Registry)
    → state_of (register_asset env issuer token name kind x s) ≡ ok s'
    → Catalogued s
    → Catalogued s'
unfolding register_asset increment
register-Catalogued env issuer token name kind x s s' h v =
    let e : AssetEntry = record {
      id = unwrap_or s.counter 0 + 1;
      token_contract = token;
      issuer = issuer;
      name = name;
      asset_type = kind;
      valuation = x;
      created_at = env.sequence;
      active = true;
    } in
    elim (Result-cases (store_asset e s)) [
      | inl (t, k) ↦
          let same : t ≡ s' = ground arith in
          let free : s.token_index token ≡ none = ground arith in
          subst Catalogued same
            (Enters-Catalogued e s t (store-Enters e s t free refl (ground arith) k) v)
      | inr (f, k) ↦ absurd (ground arith)
    ]
