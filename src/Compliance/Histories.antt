-- ===== src/Compliance/Histories.antt =====
-- contracts/compliance/src/lib.rs: the pages of the allowlist over histories of calls.
use stellar_rwa_contracts.Base.{
  ℕ, ◌≡◌, refl, Bool, true, false, not, List, [], ◌∷◌, arith, inl, inr, ◌&&◌, length,
}
use stellar_rwa_contracts.Base.Occurs.{one_if, occurs}
use stellar_rwa_contracts.Base.Host.{Address, Result-cases, ok}
use stellar_rwa_contracts.Compliance.State.{Env, Compliance, empty, is_some, load_record}
use stellar_rwa_contracts.Compliance.Jurisdictions.{block_jurisdiction, unblock_jurisdiction}
use stellar_rwa_contracts.Compliance.Records.{
  add_to_allowlist_batch, suspend, reinstate, set_min_holding_period, record_acquisition,
}
use stellar_rwa_contracts.Compliance.Checks.{
  check_unlocked, check_holding, check_record, is_allowed,
}
use stellar_rwa_contracts.Compliance.Listing.{entries_of, get_allowlist, get_allowlist_count}
use stellar_rwa_contracts.Compliance.Admin.{
  initialize, propose_admin, cancel_admin_proposal, accept_admin,
}
use stellar_rwa_contracts.Compliance.Calls.{Call, execute, step, run}
use stellar_rwa_contracts.Compliance.Index.{Indexed, SameIndex, SameIndex-Indexed, Indexed-occurs}
use stellar_rwa_contracts.Compliance.IndexDrop.{remove-Indexed}
use stellar_rwa_contracts.Compliance.IndexApprove.{
  add_to_allowlist-Indexed, approve_entries-Indexed,
}
use stellar_rwa_contracts.Compliance.IndexPrune.{prune_expired-Indexed}

-- Whether a call is one of `prune_expired`.
abbrev pub is_prune : Call → Bool
is_prune (Call.prune_expired _ _) = true
is_prune _ = false

-- Whether a call may add or remove a record.
abbrev relists : Call → Bool
relists (Call.prune_expired _ _) = true
relists (Call.remove _ _) = true
relists (Call.add_to_allowlist _ _ _ _) = true
relists (Call.add_to_allowlist_batch _ _) = true
relists _ = false

module _ (env : Env) (s s' : Compliance) where
  execute-SameIndex : (c : Call) → relists c ≡ false → execute env c s ≡ ok s' → SameIndex s s'
  unfolding execute initialize accept_admin cancel_admin_proposal propose_admin suspend reinstate
      load_record set_min_holding_period record_acquisition block_jurisdiction unblock_jurisdiction
      is_allowed check_record check_holding check_unlocked
  execute-SameIndex (Call.initialize a) q h = ground arith
  execute-SameIndex (Call.accept_admin a) q h = ground arith
  execute-SameIndex (Call.cancel_admin_proposal a) q h = ground arith
  execute-SameIndex (Call.is_allowed a) q h = ground arith
  execute-SameIndex (Call.propose_admin a b) q h = ground arith
  execute-SameIndex (Call.suspend a b) q h = ground arith
  execute-SameIndex (Call.reinstate a b) q h = ground arith
  execute-SameIndex (Call.record_acquisition a b) q h = ground arith
  execute-SameIndex (Call.block_jurisdiction a j) q h = ground arith
  execute-SameIndex (Call.unblock_jurisdiction a j) q h = ground arith
  execute-SameIndex (Call.set_min_holding_period a b n) q h = ground arith
  execute-SameIndex (Call.remove a b) q h = absurd (ground arith)
  execute-SameIndex (Call.add_to_allowlist a b j x) q h = absurd (ground arith)
  execute-SameIndex (Call.add_to_allowlist_batch a es) q h = absurd (ground arith)
  execute-SameIndex (Call.prune_expired a n) q h = absurd (ground arith)

  pub execute-Indexed :
      (c : Call) (e : ℕ) → is_prune c ≡ false → execute env c s ≡ ok s' → Indexed e s → Indexed e s'
  unfolding execute add_to_allowlist_batch
  execute-Indexed (Call.remove a b) e q h v = remove-Indexed env a b e s s' h v
  execute-Indexed (Call.add_to_allowlist a b j x) e q h v =
      add_to_allowlist-Indexed env a b j x e s s' h v
  execute-Indexed (Call.add_to_allowlist_batch a es) e q h v =
      approve_entries-Indexed env es e s s' (ground arith) v
  execute-Indexed (Call.prune_expired a n) e q h v = absurd (ground arith)
  execute-Indexed c e q h v = SameIndex-Indexed e s s' (execute-SameIndex c refl h) v

execute_any-Indexed :
    (env : Env) (c : Call) (e : ℕ) (s s' : Compliance)
    → execute env c s ≡ ok s'
    → Indexed e s
    → (e' : ℕ) × Indexed e' s'
unfolding execute
execute_any-Indexed env (Call.prune_expired a n) e s s' h v =
    prune_expired-Indexed env a n e s s' h v
execute_any-Indexed env c e s s' h v = (e, execute-Indexed env s s' c e refl h v)

step-Indexed :
    (env : Env) (c : Call) (e : ℕ) (s : Compliance)
    → Indexed e s
    → (e' : ℕ) × Indexed e' (step s (env, c))
unfolding step
step-Indexed env c e s v = elim (Result-cases (execute env c s)) [
  | inl (t, h) ↦ rw h (execute_any-Indexed env c e s t h v)
  | inr (f, h) ↦ rw h (e, v)
]

pub step-Indexed_exact :
    (env : Env) (c : Call) (e : ℕ) (s : Compliance)
    → is_prune c ≡ false
    → Indexed e s
    → Indexed e (step s (env, c))
unfolding step
step-Indexed_exact env c e s q v = elim (Result-cases (execute env c s)) [
  | inl (t, h) ↦ rw h (execute-Indexed env s t c e q h v)
  | inr (f, h) ↦ rw h v
]

run-Indexed :
    (cs : List (Env × Call)) (e : ℕ) (s : Compliance)
    → Indexed e s
    → (e' : ℕ) × Indexed e' (run s cs)
unfolding run
run-Indexed [] e s v = (e, v)
run-Indexed ((env, c) ∷ cs) e s v =
    let (e', v') = step-Indexed env c e s v in run-Indexed cs e' (step s (env, c)) v'

-- Whether a history has no call of `prune_expired`.
abbrev pub prune_free : List (Env × Call) → Bool
prune_free [] = true
prune_free ((_, c) ∷ cs) = not (is_prune c) && prune_free cs

run-Indexed_exact :
    (cs : List (Env × Call)) (e : ℕ) (s : Compliance)
    → prune_free cs ≡ true
    → Indexed e s
    → Indexed e (run s cs)
unfolding run
run-Indexed_exact [] e s q v = v
run-Indexed_exact ((env, c) ∷ cs) e s q v =
    run-Indexed_exact cs e (step s (env, c)) (ground arith)
      (step-Indexed_exact env c e s (ground arith) v)

pub empty-Indexed : Indexed 0 empty
unfolding occurs get_allowlist entries_of
empty-Indexed = record {
  listed = λ i a. refl;
  recorded = λ a. refl;
  within = λ i a h. ground arith;
  room = omega arith;
  short = omega arith;
  small = λ i. omega arith;
  counted = refl;
  fits = omega arith;
}

-- After any history of calls, successful or not, of a new contract: the addresses with a record are
-- those with a page number; each stands once on the page of that number and on no other; no page
-- beyond the current one is used; the current page has at most as many addresses as are recorded
-- for it, and neither these nor any page are more than 200; and the count is a `u32`, that of the
-- listed addresses and `e` more, for some `e`.
pub run-empty-Indexed : (cs : List (Env × Call)) → (e : ℕ) × Indexed e (run empty cs)
run-empty-Indexed cs = run-Indexed cs 0 empty empty-Indexed

-- After any history without a call of `prune_expired` of a new contract, `get_allowlist` lists each
-- address that has a record once and no other address, and `get_allowlist_count` is its length.
pub run-empty-listing :
    (cs : List (Env × Call))
    → prune_free cs ≡ true
    → ((a : Address)
        → occurs a (get_allowlist (run empty cs)) ≡ one_if (is_some ((run empty cs).records a)))
      × (get_allowlist_count (run empty cs) ≡ length (get_allowlist (run empty cs)))
unfolding get_allowlist_count
run-empty-listing cs q =
    let v = run-Indexed_exact cs 0 empty q empty-Indexed in
    (λ a. Indexed-occurs 0 (run empty cs) a v, omega (arith, v.counted))
