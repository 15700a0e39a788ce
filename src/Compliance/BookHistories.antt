-- ===== src/Compliance/BookHistories.antt =====
-- contracts/compliance/src/lib.rs: the records and the blocked jurisdictions over histories of
-- calls.
use stellar_rwa_contracts.Base.{
  ℕ, ◌≡◌, refl, ap, subst, Bool, true, false, List, [], ◌∷◌, arith, inl, inr,
}
use stellar_rwa_contracts.Base.Host.{Address, Result-cases, ok, state_of}
use stellar_rwa_contracts.Compliance.State.{
  Env, Compliance, empty, load_record, blocked_list, remove_from_allowlist,
}
use stellar_rwa_contracts.Compliance.Records.{
  add_to_allowlist, add_to_allowlist_batch, suspend, reinstate, remove, set_min_holding_period,
  record_acquisition,
}
use stellar_rwa_contracts.Compliance.Checks.{
  check_unlocked, check_holding, check_record, is_allowed,
}
use stellar_rwa_contracts.Compliance.Pruning.{prune_expired}
use stellar_rwa_contracts.Compliance.Admin.{
  initialize, propose_admin, cancel_admin_proposal, accept_admin,
}
use stellar_rwa_contracts.Compliance.Calls.{Call, execute, step, run}
use stellar_rwa_contracts.Compliance.Thinning.{prune_expired-Thins}
use stellar_rwa_contracts.Compliance.Index.{Indexed}
use stellar_rwa_contracts.Compliance.Histories.{run-empty-Indexed}
use stellar_rwa_contracts.Compliance.Books.{occurs_text, origin, Sound, SameBooks, SameBooks-Sound}
use stellar_rwa_contracts.Compliance.BookEntries.{
  approve_entry-Sound, approve_entries-Sound, block-Sound, unblock-Sound,
}

-- Whether a call is one that approves an address, or blocks or unblocks a jurisdiction.
abbrev enters : Call → Bool
enters (Call.add_to_allowlist _ _ _ _) = true
enters (Call.add_to_allowlist_batch _ _) = true
enters (Call.block_jurisdiction _ _) = true
enters (Call.unblock_jurisdiction _ _) = true
enters _ = false

prune-SameBooks :
    (env : Env) (a : Address) (n : ℕ) (s s' : Compliance)
    → state_of (prune_expired env a n s) ≡ ok s'
    → SameBooks s s'
prune-SameBooks env a n s s' h = elim (Result-cases (prune_expired env a n s)) [
  | inr (f, q) ↦ absurd (ground arith)
  | inl ((m, t), q) ↦
      let w = prune_expired-Thins env a n m s t q in
      let same : t ≡ s' = ground arith in
      subst (SameBooks s) same (record {
        origins =
            λ b. elim (w.removed b) [ inl e ↦ inr (ap origin e) | inr (r, e, l, gone) ↦ inl gone ];
        blocked_is = w.blocked_is;
        list_is = w.blocked_list_is;
      })
]

module _ (env : Env) (s s' : Compliance) where
  execute-SameBooks : (c : Call) → enters c ≡ false → execute env c s ≡ ok s' → SameBooks s s'
  unfolding execute initialize accept_admin cancel_admin_proposal propose_admin suspend reinstate
      load_record set_min_holding_period record_acquisition remove remove_from_allowlist is_allowed
      check_record check_holding check_unlocked
  execute-SameBooks (Call.initialize a) q h = ground arith
  execute-SameBooks (Call.accept_admin a) q h = ground arith
  execute-SameBooks (Call.cancel_admin_proposal a) q h = ground arith
  execute-SameBooks (Call.is_allowed a) q h = ground arith
  execute-SameBooks (Call.propose_admin a b) q h = ground arith
  execute-SameBooks (Call.suspend a b) q h = ground arith
  execute-SameBooks (Call.reinstate a b) q h = ground arith
  execute-SameBooks (Call.remove a b) q h = ground arith
  execute-SameBooks (Call.record_acquisition a b) q h = ground arith
  execute-SameBooks (Call.set_min_holding_period a b n) q h = ground arith
  execute-SameBooks (Call.prune_expired a n) q h = prune-SameBooks env a n s s' h
  execute-SameBooks c q h = absurd (ground arith)

  pub execute-Sound : (c : Call) → execute env c s ≡ ok s' → Sound s → Sound s'
  unfolding execute add_to_allowlist add_to_allowlist_batch
  execute-Sound (Call.add_to_allowlist a b j x) h v =
      approve_entry-Sound env (record { address = b; jurisdiction = j; expires_at = x }) s s'
        (ground arith) v
  execute-Sound (Call.add_to_allowlist_batch a es) h v =
      approve_entries-Sound env es s s' (ground arith) v
  execute-Sound (Call.block_jurisdiction a j) h v = block-Sound env a j s s' h v
  execute-Sound (Call.unblock_jurisdiction a j) h v = unblock-Sound env a j s s' h v
  execute-Sound c h v = SameBooks-Sound s s' (execute-SameBooks c refl h) v

run-Sound : (cs : List (Env × Call)) (s : Compliance) → Sound s → Sound (run s cs)
unfolding run step
run-Sound [] s v = v
run-Sound ((env, c) ∷ cs) s v =
    run-Sound cs (step s (env, c)) (elim (Result-cases (execute env c s)) [
      | inl (t, h) ↦ rw h (execute-Sound env s t c h v)
      | inr (f, h) ↦ rw h v
    ])

-- After any history of calls, successful or not, of a new contract: each record is stored under its
-- own address and has a jurisdiction of two ASCII capitals, only such jurisdictions are blocked, and
-- the list of the blocked ones has each of them once and no other.
pub run-empty-Sound : (cs : List (Env × Call)) → Sound (run empty cs)
unfolding occurs_text blocked_list
run-empty-Sound cs = run-Sound cs empty (record {
  keyed = λ a r h. absurd (ground arith);
  coded = λ j h. absurd (ground arith);
  listed = λ j. refl;
})

-- After any history of calls, successful or not, of a new contract: the addresses with a record are
-- those with a page number; each stands once on the page of that number and on no other; no page
-- beyond the current one is used; the current page has at most as many addresses as are recorded
-- for it, and neither these nor any page are more than 200; and the count is a `u32`, that of the
-- listed addresses and `e` more, for some `e`. Each record is stored under its own address and has
-- a jurisdiction of two ASCII capitals, only such jurisdictions are blocked, and the list of the
-- blocked ones has each of them once and no other.
pub run-empty-Indexed-Sound :
    (cs : List (Env × Call)) → (e : ℕ) × Indexed e (run empty cs) × Sound (run empty cs)
run-empty-Indexed-Sound cs = let (e, v) = run-empty-Indexed cs in (e, v, run-empty-Sound cs)
