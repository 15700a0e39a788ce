-- ===== src/Compliance/BookEntries.antt =====
-- contracts/compliance/src/lib.rs: the calls that enter records and blocked jurisdictions.
use stellar_rwa_contracts.Base.{
  ◌≡◌, refl, sym, ap, subst, ◌∙◌, Option, none, some, List, [], ◌∷◌, arith, inl, inr, Bool-cases,
  ◌==◌, if◌then◌else◌,
}
use stellar_rwa_contracts.Base.Text.{Text, eq_text, eq_of_eq_text}
use stellar_rwa_contracts.Base.Host.{Address, Result-cases, ok}
use stellar_rwa_contracts.Compliance.State.{
  Env, Compliance, ComplianceStatus, AllowlistEntry, KycRecord, set_record, blocked_list,
  allowlist_meta, next_slot, append_to_allowlist,
}
use stellar_rwa_contracts.Compliance.Jurisdictions.{
  normalize_jurisdiction, block_jurisdiction, unblock_jurisdiction,
}
use stellar_rwa_contracts.Compliance.Records.{slot_for, approve_entry, approve_entries}
use stellar_rwa_contracts.Compliance.Codes.{IsCode, normalize_twice}
use stellar_rwa_contracts.Compliance.Books.{Sound, occurs_text-append, occurs_text-unlisted}

-- What an approval leaves in the storage.
record Approves (a : Address) (j : Text) (r : KycRecord) (s s' : Compliance) : Type 0 where
  code : IsCode j
  record_is : (r.address ≡ a) × (r.jurisdiction ≡ j)
  records_are : (b : Address) → s'.records b ≡ (if b == a then some r else s.records b)
  blocked_is : s'.blocked ≡ s.blocked
  list_is : s'.blocked_list ≡ s.blocked_list

Approves-Sound :
    (a : Address) (j : Text) (r : KycRecord) (s s' : Compliance)
    → Approves a j r s s'
    → Sound s
    → Sound s'
unfolding blocked_list
Approves-Sound a j r s s' w v = record {
  keyed = λ b q h. elim (Bool-cases (b == a)) [
    | inl e ↦
        let same : r ≡ q = ground (arith, w.records_are b) in
        (
          ap (λ (x : KycRecord). x.address) (sym same) ∙ w.record_is.0 ∙ ground arith,
          subst IsCode (sym w.record_is.1 ∙ ap (λ (x : KycRecord). x.jurisdiction) same) w.code,
        )
    | inr e ↦ v.keyed b q (ground (arith, w.records_are b))
  ];
  coded = λ u h. v.coded u (ground (arith, ap (λ f. f u) w.blocked_is));
  listed = λ u. rw (w.list_is) (rw (w.blocked_is) (v.listed u));
}

slot_for-keeps :
    (o : Option KycRecord) (a : Address) (s s' : Compliance)
    → slot_for o a s ≡ ok s'
    → (s'.records ≡ s.records) × (s'.blocked ≡ s.blocked) × (s'.blocked_list ≡ s.blocked_list)
unfolding append_to_allowlist
slot_for-keeps none a s s' h = elim (Result-cases (next_slot (allowlist_meta s))) [
  | inr (f, q) ↦ absurd (ground arith)
  | inl ((i, n), q) ↦ (ground arith, ground arith, ground arith)
]
slot_for-keeps (some r) a s s' h = (ground arith, ground arith, ground arith)

pub approve_entry-Sound :
    (env : Env) (entry : AllowlistEntry) (s s' : Compliance)
    → approve_entry env entry s ≡ ok s'
    → Sound s
    → Sound s'
unfolding approve_entry
approve_entry-Sound env entry s s' h v =
    elim (Result-cases (normalize_jurisdiction entry.jurisdiction)) [
      | inr (f, q) ↦ absurd (ground arith)
      | inl (j, q) ↦
          let a = entry.address in
          let new : KycRecord = record {
            address = a;
            status = ComplianceStatus.approved;
            jurisdiction = j;
            verified_at = env.sequence;
            expires_at = entry.expires_at;
          } in
          elim (Result-cases (slot_for (s.records a) a (set_record a (some new) s))) [
            | inr (f, k) ↦ absurd (ground arith)
            | inl (t, k) ↦
                let (records, blocked, list) =
                  slot_for-keeps (s.records a) a (set_record a (some new) s) t k in
                Approves-Sound a j new s s'
                  (record {
                    code = (normalize_twice entry.jurisdiction j q).0;
                    record_is = (refl, refl);
                    records_are = λ b. ground (arith, ap (λ f. f b) records);
                    blocked_is = ground (arith, blocked);
                    list_is = ground (arith, list);
                  })
                  v
          ]
    ]

pub approve_entries-Sound :
    (env : Env) (es : List AllowlistEntry) (s s' : Compliance)
    → approve_entries env es s ≡ ok s'
    → Sound s
    → Sound s'
unfolding approve_entries
approve_entries-Sound env [] s s' h v = subst Sound (ground arith) v
approve_entries-Sound env (x ∷ es) s s' h v = elim (Result-cases (approve_entry env x s)) [
  | inr (f, q) ↦ absurd (ground arith)
  | inl (t, q) ↦
      approve_entries-Sound env es t s' (ground arith) (approve_entry-Sound env x s t q v)
]

pub block-Sound :
    (env : Env) (a : Address) (t : Text) (s s' : Compliance)
    → block_jurisdiction env a t s ≡ ok s'
    → Sound s
    → Sound s'
unfolding block_jurisdiction blocked_list
block-Sound env a t s s' h v = elim (Result-cases (normalize_jurisdiction t)) [
  | inr (f, q) ↦ absurd (ground arith)
  | inl (j, q) ↦ record {
    keyed = λ b r k. v.keyed b r (ground arith);
    coded = λ u k. elim (Bool-cases (eq_text u j)) [
      | inl e ↦ subst IsCode (sym (eq_of_eq_text u j e)) (normalize_twice t j q).0
      | inr e ↦ v.coded u (ground arith)
    ];
    listed = λ u. elim (Bool-cases (eq_text u j)) [
      | inl e ↦
          let same = ap s.blocked (eq_of_eq_text u j e) in
          ground (arith, occurs_text-append u j (blocked_list s), v.listed u, same)
      | inr e ↦ ground (arith, occurs_text-append u j (blocked_list s), v.listed u)
    ];
  }
]

pub unblock-Sound :
    (env : Env) (a : Address) (t : Text) (s s' : Compliance)
    → unblock_jurisdiction env a t s ≡ ok s'
    → Sound s
    → Sound s'
unfolding unblock_jurisdiction blocked_list
unblock-Sound env a t s s' h v = elim (Result-cases (normalize_jurisdiction t)) [
  | inr (f, q) ↦ absurd (ground arith)
  | inl (j, q) ↦ record {
    keyed = λ b r k. v.keyed b r (ground arith);
    coded = λ u k. v.coded u (ground arith);
    listed = λ u. ground (arith, occurs_text-unlisted u j (blocked_list s), v.listed u);
  }
]
