-- ===== src/Compliance/IndexApprove.antt =====
-- contracts/compliance/src/lib.rs: the pages of the allowlist when addresses are approved.
use stellar_rwa_contracts.Base.{
  ℕ, ◌≡◌, refl, ap, subst, none, some, List, [], ◌∷◌, arith, Option-cases, inl, inr, Bool-cases,
  ◌<◌, ◌≤◌, ◌⊎◌, ◌+◌, leb, length,
}
use stellar_rwa_contracts.Base.Text.{Text}
use stellar_rwa_contracts.Base.Host.{Address, Result-cases, ok}
use stellar_rwa_contracts.Compliance.State.{
  Env, Compliance, ComplianceStatus, AllowlistEntry, KycRecord, publish, set_record, allowlist_meta,
  page_entries, next_slot, append_to_allowlist, allowlist_page_size,
}
use stellar_rwa_contracts.Compliance.Jurisdictions.{normalize_jurisdiction}
use stellar_rwa_contracts.Compliance.Records.{
  approval, slot_for, approve_entry, add_to_allowlist, approve_entries,
}
use stellar_rwa_contracts.Compliance.Index.{Indexed, SameIndex-Indexed}
use stellar_rwa_contracts.Compliance.IndexEnter.{Entered, Entered-Indexed, unused_page}

next_slot-room :
    (e i n : ℕ) (s : Compliance)
    → Indexed e s
    → next_slot (allowlist_meta s) ≡ ok (i, n)
    → ((i ≡ (allowlist_meta s).0) ⊎ (i ≡ (allowlist_meta s).0 + 1))
      × (n < allowlist_page_size)
      × (length (page_entries i s) ≤ n)
unfolding next_slot
next_slot-room e i n s v h = elim (Bool-cases (leb allowlist_page_size (allowlist_meta s).1)) [
  | inl q ↦
      let next : i ≡ (allowlist_meta s).0 + 1 = ground arith in
      let unused : length (page_entries i s) ≡ 0 =
        ap length (unused_page e i s v (omega (arith, next))) in
      (inr next, ground arith, omega (arith, unused))
  | inr q ↦
      let same : i ≡ (allowlist_meta s).0 = ground arith in
      (inl same, ground arith, ground (arith, v.room, same))
]

append-Entered :
    (e : ℕ) (a : Address) (r : KycRecord) (s s' : Compliance)
    → Indexed e s
    → s.records a ≡ none
    → append_to_allowlist a (set_record a (some r) s) ≡ ok s'
    → (i : ℕ) × (n : ℕ) × Entered i n a s s'
unfolding append_to_allowlist
append-Entered e a r s s' v new h = elim (Result-cases (next_slot (allowlist_meta s))) [
  | inr (f, q) ↦ absurd (ground arith)
  | inl ((i, n), q) ↦
      let (place, space, filled) = next_slot-room e i n s v q in
      (
        i,
        n,
        record {
          was_new = new;
          next_page = place;
          space = space;
          filled = filled;
          pages_are = λ k. ground arith;
          page_of_is = λ b. ground arith;
          has_record = λ b. ground arith;
          meta_is = ground arith;
          count_is = ground arith;
          fits = ground arith;
        },
      )
]

approve_slot-Indexed :
    (e : ℕ) (a : Address) (r : KycRecord) (s s' : Compliance)
    → slot_for (s.records a) a (set_record a (some r) s) ≡ ok s'
    → Indexed e s
    → Indexed e s'
approve_slot-Indexed e a r s s' h v = elim (Option-cases (s.records a)) [
  | inl new ↦
      let (i, n, w) = append-Entered e a r s s' v new (ground arith) in
      Entered-Indexed e i n a s s' w v
  | inr (old, q) ↦
      SameIndex-Indexed e s s'
        (record {
          pages_are = λ k. ground arith;
          page_of_is = ground arith;
          meta_is = ground arith;
          count_is = ground arith;
          has_record = λ b. ground arith;
        })
        v
]

approve_entry-Indexed :
    (env : Env) (entry : AllowlistEntry) (e : ℕ) (s s' : Compliance)
    → approve_entry env entry s ≡ ok s'
    → Indexed e s
    → Indexed e s'
unfolding approve_entry
approve_entry-Indexed env entry e s s' h v =
    elim (Result-cases (normalize_jurisdiction entry.jurisdiction)) [
      | inr (f, q) ↦ absurd (ground arith)
      | inl (j, q) ↦
          let new : KycRecord = record {
            address = entry.address;
            status = ComplianceStatus.approved;
            jurisdiction = j;
            verified_at = env.sequence;
            expires_at = entry.expires_at;
          } in
          elim (Result-cases (
            slot_for (s.records entry.address) entry.address
              (set_record entry.address (some new) s))) [
                | inr (f, k) ↦ absurd (ground arith)
                | inl (t, k) ↦
                    let same : publish
                          (approval entry.address j entry.expires_at (s.records entry.address)) t
                        ≡ s' =
                      ground arith in
                    subst (Indexed e) same (
                      SameIndex-Indexed e t _
                        (record {
                          pages_are = λ k. refl;
                          page_of_is = refl;
                          meta_is = refl;
                          count_is = refl;
                          has_record = λ b. refl;
                        })
                        (approve_slot-Indexed e entry.address new s t k v))
              ]
    ]

pub approve_entries-Indexed :
    (env : Env) (es : List AllowlistEntry) (e : ℕ) (s s' : Compliance)
    → approve_entries env es s ≡ ok s'
    → Indexed e s
    → Indexed e s'
unfolding approve_entries
approve_entries-Indexed env [] e s s' h v = subst (Indexed e) (ground arith) v
approve_entries-Indexed env (x ∷ es) e s s' h v = elim (Result-cases (approve_entry env x s)) [
  | inr (f, q) ↦ absurd (ground arith)
  | inl (t, q) ↦
      approve_entries-Indexed env es e t s' (ground arith) (approve_entry-Indexed env x e s t q v)
]

pub add_to_allowlist-Indexed :
    (env : Env) (admin a : Address) (j : Text) (x e : ℕ) (s s' : Compliance)
    → add_to_allowlist env admin a j x s ≡ ok s'
    → Indexed e s
    → Indexed e s'
unfolding add_to_allowlist
add_to_allowlist-Indexed env admin a j x e s s' h v =
    approve_entry-Indexed env (record { address = a; jurisdiction = j; expires_at = x }) e s s'
      (ground arith) v
