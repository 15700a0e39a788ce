-- ===== src/Registry/Histories.antt =====
-- contracts/registry/src/lib.rs: the totals, over histories of calls.
use stellar_rwa_contracts.Base.{
  ℕ, ◌≡◌, refl, subst, none, some, true, false, List, [], ◌∷◌, arith, Option-cases, inl, inr,
  Bool-cases, if◌then◌else◌, ◌≢◌, ◌⊎◌, unwrap_or, ◌+◌, ◌-◌,
}
use stellar_rwa_contracts.Base.Int.{
  ℤ, pos, ◌+ℤ◌, ◌-ℤ◌, ◌≤ℤ◌, int_laws, checked_add-cases, checked_sub-cases,
}
use stellar_rwa_contracts.Base.Dict.{lookup, insert, sum_by, sum_by-insert_new, le-sum_by}
use stellar_rwa_contracts.Base.Host.{Address, Result-cases, ok, err, after, state_of}
use stellar_rwa_contracts.Base.Text.{Text}
use stellar_rwa_contracts.Registry.State.{Env, Registry, AssetEntry, Outcome, empty}
use stellar_rwa_contracts.Registry.Assets.{
  raise_total, lower_total, replace_total, store_asset, register_asset, close_asset,
  deactivate_asset, reopen_asset, reactivate_asset, update_valuation,
}
use stellar_rwa_contracts.Registry.Admin.{
  initialize, propose_admin, cancel_admin_proposal, accept_admin,
}
use stellar_rwa_contracts.Registry.Calls.{Call, execute, step, run}
use stellar_rwa_contracts.Registry.State.{increment}
use stellar_rwa_contracts.Registry.Totals.{
  worth, counts, Totalled, Follows-Totalled, total_new, counts_nonneg, stored-Totalled,
}

drop_one : (n : ℕ) (b : ℤ) → pos n ≡ b → pos 1 ≤ℤ b → pos (n - 1) ≡ pos n -ℤ pos 1 +ℤ pos 0
drop_one n b p q = grind int_laws

less : (t v : ℤ) → t -ℤ v ≡ t -ℤ v +ℤ pos 0
less t v = grind int_laws

more : (t v : ℤ) → t +ℤ v ≡ t -ℤ pos 0 +ℤ v
more t v = grind int_laws

one_more : (n : ℕ) → pos (n + 1) ≡ pos n -ℤ pos 0 +ℤ pos 1
one_more n = grind int_laws

same_count : (n : ℕ) (c : ℤ) → pos n ≡ pos n -ℤ c +ℤ c
same_count n c = grind int_laws

same_total : (t : ℤ) → t ≡ t -ℤ pos 0 +ℤ pos 0
same_total t = grind int_laws

succ_pos : (n : ℕ) → pos (n + 1) ≡ pos n +ℤ pos 1
succ_pos n = grind int_laws

module _ (env : Env) (s s' : Registry) (v : Totalled s) where
  admin_there : (id : ℕ) (c : AssetEntry) → lookup id s.assets ≡ some c → s.admin ≢ none
  unfolding lookup
  admin_there id c e a = ground (arith, v.unused a)

  close-Totalled :
      (id : ℕ) (c : AssetEntry)
      → lookup id s.assets ≡ some c
      → c.active ≡ true
      → close_asset id c s ≡ ok s'
      → Totalled s'
  unfolding close_asset lower_total
  close-Totalled id c e a h =
      let k = checked_sub-cases (unwrap_or s.total_valuation (pos 0)) c.valuation in
      let one : pos 1 ≤ℤ sum_by counts s.assets =
        subst (λ b. (if b then pos 1 else pos 0) ≤ℤ sum_by counts s.assets) a
          (le-sum_by counts id c s.assets counts_nonneg e) in
      stored-Totalled id s s' v c (record c { active = false }) e (ground (arith, k))
        (ground (arith, k)) (ground (arith, k)) (admin_there id c e) (v.nonneg id c e)
        (ground (arith, k, less (unwrap_or s.total_valuation (pos 0)) c.valuation))
        (ground (arith, k, drop_one (unwrap_or s.active 0) (sum_by counts s.assets) v.counted one))

  reopen-Totalled :
      (id : ℕ) (c : AssetEntry)
      → lookup id s.assets ≡ some c
      → c.active ≡ false
      → reopen_asset id c s ≡ ok s'
      → Totalled s'
  unfolding reopen_asset raise_total increment
  reopen-Totalled id c e a h =
      let k = checked_add-cases (unwrap_or s.total_valuation (pos 0)) c.valuation in
      stored-Totalled id s s' v c (record c { active = true }) e (ground (arith, k))
        (ground (arith, k)) (ground (arith, k)) (admin_there id c e) (v.nonneg id c e)
        (ground (arith, k, more (unwrap_or s.total_valuation (pos 0)) c.valuation))
        (ground (arith, k, one_more (unwrap_or s.active 0)))

  deactivate-Totalled : (a : Address) (id : ℕ) → deactivate_asset env a id s ≡ ok s' → Totalled s'
  unfolding deactivate_asset
  deactivate-Totalled a id h = elim (Option-cases (lookup id s.assets)) [
    | inl e ↦ ground arith
    | inr (c, e) ↦ elim (Bool-cases c.active) [
      | inl o ↦ close-Totalled id c e o (ground arith)
      | inr o ↦ subst Totalled (ground arith) v
    ]
  ]

  reactivate-Totalled : (a : Address) (id : ℕ) → reactivate_asset env a id s ≡ ok s' → Totalled s'
  unfolding reactivate_asset
  reactivate-Totalled a id h = elim (Option-cases (lookup id s.assets)) [
    | inl e ↦ ground arith
    | inr (c, e) ↦ elim (Bool-cases c.active) [
      | inl o ↦ subst Totalled (ground arith) v
      | inr o ↦ reopen-Totalled id c e o (ground arith)
    ]
  ]

  update-Totalled :
      (a : Address) (id : ℕ) (x : ℤ) → update_valuation env a id x s ≡ ok s' → Totalled s'
  unfolding update_valuation replace_total
  update-Totalled a id x h = elim (Option-cases (lookup id s.assets)) [
    | inl e ↦ ground arith
    | inr (c, e) ↦
        let t = unwrap_or s.total_valuation (pos 0) in
        let k = checked_sub-cases t c.valuation in
        let l = checked_add-cases (t -ℤ c.valuation) x in
        stored-Totalled id s s' v c (record c { valuation = x }) e (ground (arith, k, l))
          (ground (arith, k, l)) (ground (arith, k, l)) (admin_there id c e) (ground (arith, k, l))
          (ground (arith, k, l, same_total t))
          (ground (arith, k, l, same_count (unwrap_or s.active 0) (counts c)))
  ]

  store-Totalled :
      (e : AssetEntry)
      → e.id ≡ unwrap_or s.counter 0 + 1
      → e.active ≡ true
      → pos 0 ≤ℤ e.valuation
      → s.admin ≢ none
      → store_asset e s ≡ ok s'
      → Totalled s'
  unfolding store_asset raise_total increment
  store-Totalled e i a n ad h =
      let k = checked_add-cases (unwrap_or s.total_valuation (pos 0)) e.valuation in
      let new = v.fresh e.id (omega (arith, i)) in
      Follows-Totalled e.id e s s'
        (record {
          assets_are = ground (arith, k);
          admin_is = ground (arith, k);
          initialized = ad;
          counter_le = λ j lt. (ground (arith, k, i), ground (arith, k));
          value_ok = n;
          valued = ground (
            arith,
            k,
            a,
            total_new (sum_by worth (insert e.id e s.assets)) (sum_by worth s.assets) (worth e)
                (unwrap_or s.total_valuation (pos 0)) v.valued
                (sum_by-insert_new worth e.id e s.assets new),
          );
          counted = ground (
            arith,
            k,
            a,
            succ_pos (unwrap_or s.active 0),
            total_new (sum_by counts (insert e.id e s.assets)) (sum_by counts s.assets) (counts e)
                (pos (unwrap_or s.active 0)) v.counted
                (sum_by-insert_new counts e.id e s.assets new),
          );
        })
        v

  register-Totalled :
      (issuer token : Address) (name kind : Text) (x : ℤ)
      → state_of (register_asset env issuer token name kind x s) ≡ ok s'
      → Totalled s'
  unfolding register_asset increment
  register-Totalled issuer token name kind x h =
      let e : AssetEntry = record {
        id = unwrap_or s.counter 0 + 1;
        token_contract = token;
        issuer = issuer;
        name = name;
        asset_type = kind;
        valuation = x;
        created_at = env.sequence;
        active = true;
      } in
      elim (Result-cases (store_asset e s)) [
        | inl (t, k) ↦ store-Totalled e refl refl (ground arith) (ground arith) (ground arith)
        | inr (f, k) ↦ ground arith
      ]

  admin-Totalled :
      (a b : Address)
      → (initialize env a s ≡ ok s')
        ⊎ (accept_admin env a s ≡ ok s')
        ⊎ (cancel_admin_proposal env a s ≡ ok s')
        ⊎ (propose_admin env a b s ≡ ok s')
      → Totalled s'
  unfolding initialize accept_admin cancel_admin_proposal propose_admin lookup sum_by
  admin-Totalled a b h = record {
    fresh = λ k lt. ground (arith, v.fresh k, λ (e : s.admin ≡ none). v.unused e);
    unused = λ e. ground arith;
    nonneg = λ k e q. ground (arith, v.nonneg k e);
    valued = ground (arith, v.valued, λ (e : s.admin ≡ none). v.unused e);
    counted = ground (arith, v.counted, λ (e : s.admin ≡ none). v.unused e);
  }

  execute-Totalled : (c : Call) → execute env c s ≡ ok s' → Totalled s'
  unfolding execute
  execute-Totalled (Call.initialize a) h = admin-Totalled a a (inl h)
  execute-Totalled (Call.accept_admin a) h = admin-Totalled a a (inr (inl h))
  execute-Totalled (Call.cancel_admin_proposal a) h = admin-Totalled a a (inr (inr (inl h)))
  execute-Totalled (Call.propose_admin a b) h = admin-Totalled a b (inr (inr (inr h)))
  execute-Totalled (Call.register_asset i t n y x) h = register-Totalled i t n y x h
  execute-Totalled (Call.deactivate_asset a id) h = deactivate-Totalled a id h
  execute-Totalled (Call.reactivate_asset a id) h = reactivate-Totalled a id h
  execute-Totalled (Call.update_valuation a id x) h = update-Totalled a id x h

after-Totalled :
    (s : Registry) (r : Outcome)
    → ((s' : Registry) → r ≡ ok s' → Totalled s')
    → Totalled s
    → Totalled (after s r)
after-Totalled s (ok s') f v = f s' refl
after-Totalled s (err _) f v = v

run-Totalled : (s : Registry) (cs : List (Env × Call)) → Totalled s → Totalled (run s cs)
unfolding run step
run-Totalled s [] v = v
run-Totalled s ((env, c) ∷ cs) v =
    run-Totalled (step s (env, c)) cs
      (after-Totalled s (execute env c s) (λ s'. execute-Totalled env s s' v c) v)

-- After any history of calls on a new registry: the total value locked is the sum of the valuations
-- of the active assets, the active count is their number, no valuation is negative, and ids above
-- the counter are unused.
pub run-empty-Totalled : (cs : List (Env × Call)) → Totalled (run empty cs)
unfolding lookup sum_by
run-empty-Totalled cs = run-Totalled empty cs (record {
  fresh = λ k lt. refl;
  unused = λ e. refl;
  nonneg = λ k e q. cc;
  valued = refl;
  counted = refl;
})
