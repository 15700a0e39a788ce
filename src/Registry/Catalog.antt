-- ===== src/Registry/Catalog.antt =====
-- contracts/registry/src/lib.rs: the indexes by token, by issuer and by type, and the entries.
use stellar_rwa_contracts.Base.{
  ℕ, ◌≡◌, refl, sym, ap, ◌∙◌, Option, none, some, Bool, false, List, [], arith, inl, inr,
  Bool-cases, ◌==◌, ◌<◌, unwrap_or,
}
use stellar_rwa_contracts.Base.Dict.{lookup, insert, lookup-insert}
use stellar_rwa_contracts.Base.Occurs.{one_if, occurs}
use stellar_rwa_contracts.Base.Text.{Text, eq_text}
use stellar_rwa_contracts.Base.Host.{Address}
use stellar_rwa_contracts.Registry.State.{Registry, AssetEntry}

-- Whether there is an entry, and `a` is its issuer.
abbrev pub issued_by : Address → Option AssetEntry → Bool
issued_by a none = false
issued_by a (some e) = e.issuer == a

-- Whether there is an entry, and `t` is its type.
abbrev pub has_type : Text → Option AssetEntry → Bool
has_type t none = false
has_type t (some e) = eq_text t e.asset_type

-- Ids above the counter are unused, and it is 0 before `initialize`; each entry has its own id, and
-- the token's index names it; the index of an issuer, and that of a type, has the ids of its
-- entries once each, and no other.
pub record Catalogued (s : Registry) : Type 0 where
  pub fresh : (k : ℕ) → unwrap_or s.counter 0 < k → lookup k s.assets ≡ none
  pub blank : s.admin ≡ none → unwrap_or s.counter 0 ≡ 0
  pub filed :
      (k : ℕ) (e : AssetEntry)
      → lookup k s.assets ≡ some e
      → (e.id ≡ k) × (s.token_index e.token_contract ≡ some k)
  pub by_issuer :
      (a : Address) (k : ℕ)
      → occurs k (unwrap_or (s.issuer_index a) []) ≡ one_if (issued_by a (lookup k s.assets))
  pub by_type :
      (t : Text) (k : ℕ)
      → occurs k (unwrap_or (s.type_index t) []) ≡ one_if (has_type t (lookup k s.assets))

-- The fields of an entry that no call changes.
abbrev pub identity : Option AssetEntry → Option (ℕ × Address × Address × Text)
identity none = none
identity (some e) = some (e.id, e.token_contract, e.issuer, e.asset_type)

-- No entry is new, and the indexes have not changed.
pub record SameCatalog (s s' : Registry) : Type 0 where
  pub identities : (k : ℕ) → identity (lookup k s'.assets) ≡ identity (lookup k s.assets)
  pub counter_is : unwrap_or s'.counter 0 ≡ unwrap_or s.counter 0
  pub still_blank : s'.admin ≡ none → s.admin ≡ none
  pub tokens : s'.token_index ≡ s.token_index
  pub issuers : s'.issuer_index ≡ s.issuer_index
  pub types : s'.type_index ≡ s.type_index

identity-none : (o : Option AssetEntry) → identity o ≡ none → o ≡ none
identity-none none h = refl
identity-none (some e) h = absurd (ground arith)

identity-issued_by :
    (a : Address) (o p : Option AssetEntry)
    → identity o ≡ identity p
    → issued_by a o ≡ issued_by a p
identity-issued_by a none none h = refl
identity-issued_by a none (some e) h = absurd (ground arith)
identity-issued_by a (some e) none h = absurd (ground arith)
identity-issued_by a (some e) (some f) h = ground arith

identity-has_type :
    (t : Text) (o p : Option AssetEntry) → identity o ≡ identity p → has_type t o ≡ has_type t p
identity-has_type t none none h = refl
identity-has_type t none (some e) h = absurd (ground arith)
identity-has_type t (some e) none h = absurd (ground arith)
identity-has_type t (some e) (some f) h =
    let same : e.asset_type ≡ f.asset_type = ground arith in ap (eq_text t) same

identity-filed :
    (k : ℕ) (e : AssetEntry) (p : Option AssetEntry) (index : Address → Option ℕ)
    → identity (some e) ≡ identity p
    → ((f : AssetEntry) → p ≡ some f → (f.id ≡ k) × (index f.token_contract ≡ some k))
    → (e.id ≡ k) × (index e.token_contract ≡ some k)
identity-filed k e none index h v = absurd (ground arith)
identity-filed k e (some f) index h v =
    let (at, known) = v f refl in
    let token : e.token_contract ≡ f.token_contract = ground arith in
    (ground arith, ap index token ∙ known)

pub SameCatalog-Catalogued : (s s' : Registry) → SameCatalog s s' → Catalogued s → Catalogued s'
SameCatalog-Catalogued s s' w v = record {
  fresh = λ k lt.
      identity-none (lookup k s'.assets)
        (w.identities k ∙ ap identity (v.fresh k (ground (arith, w.counter_is))));
  blank = λ e. w.counter_is ∙ v.blank (w.still_blank e);
  filed = λ k e h.
      let (at, known) =
        identity-filed k e (lookup k s.assets) s.token_index (ap identity (sym h) ∙ w.identities k)
          (v.filed k) in
      (at, ap (λ (f : Address → Option ℕ). f e.token_contract) w.tokens ∙ known);
  by_issuer = λ a k.
      ap (λ (f : Address → Option (List ℕ)). occurs k (unwrap_or (f a) [])) w.issuers
      ∙ v.by_issuer a k
      ∙ ap one_if
          (identity-issued_by a (lookup k s.assets) (lookup k s'.assets) (sym (w.identities k)));
  by_type = λ t k.
      ap (λ (f : Text → Option (List ℕ)). occurs k (unwrap_or (f t) [])) w.types
      ∙ v.by_type t k
      ∙ ap one_if
          (identity-has_type t (lookup k s.assets) (lookup k s'.assets) (sym (w.identities k)));
}

-- One entry is written over another with the same identity.
pub written-SameCatalog :
    (id : ℕ) (c e : AssetEntry) (s s' : Registry)
    → lookup id s.assets ≡ some c
    → identity (some e) ≡ identity (some c)
    → s'.assets ≡ insert id e s.assets
    → (unwrap_or s'.counter 0 ≡ unwrap_or s.counter 0)
      × (s'.admin ≡ s.admin)
      × (s'.token_index ≡ s.token_index)
      × (s'.issuer_index ≡ s.issuer_index)
      × (s'.type_index ≡ s.type_index)
    → SameCatalog s s'
written-SameCatalog id c e s s' h i a (n, b, t, x, y) = record {
  identities = λ k.
      ap (λ d. identity (lookup k d)) a
      ∙ ap identity (lookup-insert k id e s.assets)
      ∙ elim (Bool-cases (id == k)) [
        | inl q ↦
            let here : lookup id s.assets ≡ lookup k s.assets =
              ap (λ (j : ℕ). lookup j s.assets) (ground arith) in
            rw q (i ∙ ap identity (sym h ∙ here))
        | inr q ↦ rw q refl
      ];
  counter_is = n;
  still_blank = λ e. sym b ∙ e;
  tokens = t;
  issuers = x;
  types = y;
}
