-- ===== src/Registry/CatalogHistories.antt =====
-- contracts/registry/src/lib.rs: the totals and the indexes by token, by issuer and by type, over histories of
-- calls.
use stellar_rwa_contracts.Base.{◌≡◌, refl, List, [], ◌∷◌, arith, inl, inr}
use stellar_rwa_contracts.Base.Dict.{lookup}
use stellar_rwa_contracts.Base.Occurs.{occurs}
use stellar_rwa_contracts.Base.Host.{Result-cases, ok}
use stellar_rwa_contracts.Registry.State.{Env, Registry, empty}
use stellar_rwa_contracts.Registry.Calls.{Call, execute, step, run}
use stellar_rwa_contracts.Registry.Histories.{run-empty-Totalled}
use stellar_rwa_contracts.Registry.Totals.{Totalled}
use stellar_rwa_contracts.Registry.Catalog.{Catalogued, SameCatalog-Catalogued}
use stellar_rwa_contracts.Registry.CatalogChanges.{
  deactivate-SameCatalog, reactivate-SameCatalog, update-SameCatalog, admin-SameCatalog,
}
use stellar_rwa_contracts.Registry.CatalogEntries.{register-Catalogued}

execute-Catalogued :
    (env : Env) (c : Call) (s s' : Registry)
    → execute env c s ≡ ok s'
    → Catalogued s
    → Catalogued s'
unfolding execute
execute-Catalogued env (Call.initialize a) s s' h v =
    SameCatalog-Catalogued s s' (admin-SameCatalog env s s' a a v.blank (inl h)) v
execute-Catalogued env (Call.accept_admin a) s s' h v =
    SameCatalog-Catalogued s s' (admin-SameCatalog env s s' a a v.blank (inr (inl h))) v
execute-Catalogued env (Call.cancel_admin_proposal a) s s' h v =
    SameCatalog-Catalogued s s' (admin-SameCatalog env s s' a a v.blank (inr (inr (inl h)))) v
execute-Catalogued env (Call.propose_admin a b) s s' h v =
    SameCatalog-Catalogued s s' (admin-SameCatalog env s s' a b v.blank (inr (inr (inr h)))) v
execute-Catalogued env (Call.register_asset i t n y x) s s' h v =
    register-Catalogued env i t n y x s s' h v
execute-Catalogued env (Call.deactivate_asset a id) s s' h v =
    SameCatalog-Catalogued s s' (deactivate-SameCatalog env s s' a id h) v
execute-Catalogued env (Call.reactivate_asset a id) s s' h v =
    SameCatalog-Catalogued s s' (reactivate-SameCatalog env s s' a id h) v
execute-Catalogued env (Call.update_valuation a id x) s s' h v =
    SameCatalog-Catalogued s s' (update-SameCatalog env s s' a id x h) v

run-Catalogued : (cs : List (Env × Call)) (s : Registry) → Catalogued s → Catalogued (run s cs)
unfolding run step
run-Catalogued [] s v = v
run-Catalogued ((env, c) ∷ cs) s v =
    run-Catalogued cs (step s (env, c)) (elim (Result-cases (execute env c s)) [
      | inl (t, h) ↦ rw h (execute-Catalogued env c s t h v)
      | inr (f, h) ↦ rw h v
    ])

run-empty-Catalogued : (cs : List (Env × Call)) → Catalogued (run empty cs)
unfolding lookup occurs
run-empty-Catalogued cs = run-Catalogued cs empty (record {
  fresh = λ k lt. refl;
  blank = λ q. refl;
  filed = λ k e h. absurd (ground arith);
  by_issuer = λ a k. refl;
  by_type = λ t k. refl;
})

-- After any history of calls on a new registry: the total value locked is the sum of the valuations
-- of the active assets, the active count is their number, no valuation is negative, ids above the
-- counter are unused, and it is 0 before `initialize`; each entry is under its own id, which the
-- index of tokens names for its token; and the index of each issuer, and of each type, has the ids
-- of its entries once each and no other id.
pub run-empty-Totalled-Catalogued :
    (cs : List (Env × Call)) → Totalled (run empty cs) × Catalogued (run empty cs)
run-empty-Totalled-Catalogued cs = (run-empty-Totalled cs, run-empty-Catalogued cs)
