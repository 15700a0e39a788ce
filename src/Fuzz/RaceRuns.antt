-- ===== src/Fuzz/RaceRuns.antt =====
-- fuzz/fuzz_targets/compliance_jurisdiction_race.rs: whether its assertions hold.
use stellar_rwa_contracts.Base.{
  ℕ, ◌≡◌, refl, ap, subst, ◌∙◌, some, true, false, not, List, [], ◌∷◌, arith, inl, inr, Bool-cases,
  Option-cases, ◌==◌, ◌<◌, ◌^◌, ltb, unwrap_or, length, ◌&&◌, ◌%◌,
}
use stellar_rwa_contracts.Base.Text.{Text}
use stellar_rwa_contracts.Base.Host.{Address, Result-cases, ok}
use stellar_rwa_contracts.Compliance.State.{Env, Compliance, KycRecord, Event, empty, blocked_list}
use stellar_rwa_contracts.Compliance.Jurisdictions.{
  normalize_jurisdiction, normalize_bytes, is_jurisdiction_blocked, get_blocked_jurisdictions,
}
use stellar_rwa_contracts.Compliance.Records.{get_record}
use stellar_rwa_contracts.Compliance.Listing.{get_allowlist, get_allowlist_count}
use stellar_rwa_contracts.Compliance.Admin.{initialize}
use stellar_rwa_contracts.Compliance.Calls.{Call, execute, step, run}
use stellar_rwa_contracts.Compliance.Index.{Indexed}
use stellar_rwa_contracts.Compliance.Books.{occurs_text, eq_text_comm, Sound}
use stellar_rwa_contracts.Compliance.Codes.{normalize-IsCode}
use stellar_rwa_contracts.Compliance.Histories.{is_prune, execute-Indexed, empty-Indexed}
use stellar_rwa_contracts.Compliance.BookHistories.{execute-Sound, run-empty-Sound}
use stellar_rwa_contracts.Compliance.Allowed.{is_allowed-Answers, kyc_unique}
use stellar_rwa_contracts.Fuzz.Harness.{mock, client}
use stellar_rwa_contracts.Fuzz.Race.{
  Op, Race, jurs, jur_at, apply, any_eq, check_jurs, check_refused, check_record, check_user,
  check_users, check_invariants, run_ops, fuzz_one,
}

-- What every call that the target makes keeps.
abbrev pub Good : Compliance → Type 0
Good s = Indexed 0 s × Sound s

pub execute-Good :
    (env : Env) (c : Call) (s s' : Compliance)
    → is_prune c ≡ false
    → execute env c s ≡ ok s'
    → Good s
    → Good s'
execute-Good env c s s' p h (v, w) =
    (execute-Indexed env s s' c 0 p h v, execute-Sound env s s' c h w)

step-Good :
    (env : Env) (c : Call) (s : Compliance) → is_prune c ≡ false → Good s → Good (step s (env, c))
unfolding step
step-Good env c s p v = elim (Result-cases (execute env c s)) [
  | inl (t, h) ↦ rw h (execute-Good env c s t p h v)
  | inr (f, h) ↦ rw h v
]

-- `any` finds what occurs.
any_eq-occurs : (j : Text) (ts : List Text) → any_eq j ts ≡ ltb 0 (occurs_text j ts)
unfolding any_eq occurs_text
any_eq-occurs j [] = refl
any_eq-occurs j (t ∷ ts) = ground (arith, any_eq-occurs j ts, eq_text_comm t j)

blocked-answer :
    (j : Text) (s : Compliance)
    → normalize_jurisdiction j ≡ ok j
    → is_jurisdiction_blocked j s ≡ ok (unwrap_or (s.blocked j) false)
unfolding is_jurisdiction_blocked
blocked-answer j s n = rw n refl

listed-blocked :
    (j : Text) (s : Compliance)
    → Sound s
    → any_eq j (get_blocked_jurisdictions s) ≡ unwrap_or (s.blocked j) false
unfolding get_blocked_jurisdictions
listed-blocked j s w = any_eq-occurs j (blocked_list s) ∙ ap (ltb 0) (w.listed j) ∙ ground arith

-- Each text is in normal form.
abbrev AllNormal : List Text → Type 0
AllNormal [] = Unit
AllNormal (j ∷ js) = (normalize_jurisdiction j ≡ ok j) × AllNormal js

check_jurs-passes :
    (js : List Text) (s : Compliance) → Sound s → AllNormal js → check_jurs js s ≡ some tt
unfolding check_jurs
check_jurs-passes [] s w n = refl
check_jurs-passes (j ∷ js) s w (n, ns) =
    rw (blocked-answer j s n) (ground (arith, listed-blocked j s w, check_jurs-passes js s w ns))

jurs-AllNormal : AllNormal jurs
unfolding normalize_jurisdiction normalize_bytes
jurs-AllNormal = (refl, (refl, (refl, (refl, (refl, (refl, tt))))))

-- A user whose jurisdiction is blocked is refused.
check_refused-passes :
    (now : ℕ) (a : Address) (r : KycRecord) (s : Compliance)
    → now < 2 ^ 32
    → Good s
    → s.records a ≡ some r
    → unwrap_or (s.blocked r.jurisdiction) false ≡ true
    → (s' : Compliance) × (check_refused now a s ≡ some s') × Good s'
unfolding check_refused execute
check_refused-passes now a r s lt v q b =
    let (x, is, ((to, from), rest)) = is_allowed-Answers (mock now) a s lt v.1 in
    elim (Bool-cases x.0) [
      | inr refused ↦ (
        x.1,
        rw is (rw refused refl),
        execute-Good (mock now) (Call.is_allowed a) s x.1 refl (rw is refl) v,
      )
      | inl allowed ↦
          let w = to allowed in
          let open_ =
            subst (λ (k : KycRecord). unwrap_or (s.blocked k.jurisdiction) false ≡ false)
              (kyc_unique (mock now) a s r w q) w.open_jurisdiction in
          absurd (ground (arith, open_, b))
    ]

check_user-passes :
    (now : ℕ) (a : Address) (s : Compliance)
    → now < 2 ^ 32
    → Good s
    → (s' : Compliance) × (check_user now a s ≡ some s') × Good s'
unfolding check_user check_record get_record
check_user-passes now a s lt v = elim (Option-cases (s.records a)) [
  | inl q ↦ (s, rw (check_user, q) refl, v)
  | inr (r, q) ↦
      let answer =
        blocked-answer r.jurisdiction s (normalize-IsCode r.jurisdiction (v.1.keyed a r q).1) in
      elim (Bool-cases (unwrap_or (s.blocked r.jurisdiction) false)) [
        | inl b ↦
            let (s', e, w) = check_refused-passes now a r s lt v q b in
            (s', rw (check_user, q) (rw answer (rw b e)), w)
        | inr b ↦ (s, rw (check_user, q) (rw answer (rw b refl)), v)
      ]
]

check_users-passes :
    (now : ℕ) (users : List Address) (s : Compliance)
    → now < 2 ^ 32
    → Good s
    → (s' : Compliance) × (check_users now users s ≡ some s') × Good s'
unfolding check_users
check_users-passes now [] s lt v = (s, refl, v)
check_users-passes now (a ∷ users) s lt v =
    let (t, e, w) = check_user-passes now a s lt v in
    let (u, f, z) = check_users-passes now users t lt w in (u, rw e f, z)

check_invariants-passes :
    (now : ℕ) (users : ℕ → Address) (s : Compliance)
    → now < 2 ^ 32
    → Good s
    → (s' : Compliance) × (check_invariants now users s ≡ some s') × Good s'
unfolding check_invariants get_allowlist_count
check_invariants-passes now users s lt v =
    let counter : unwrap_or s.count 0 == length (get_allowlist s) ≡ true =
      ground (arith, v.0.counted) in
    let (s', e, w) = check_users-passes now (users 0 ∷ users 1 ∷ users 2 ∷ users 3 ∷ []) s lt v in
    (s', rw counter (rw (check_jurs-passes jurs s v.1 jurs-AllNormal) e), w)

apply-Good :
    (admin : Address) (users : ℕ → Address) (op : Op) (c : Race)
    → Good c.state
    → Good (apply admin users op c).state
unfolding apply
apply-Good admin users (Op.approve u j) c v =
    step-Good (mock c.now) (Call.add_to_allowlist admin (users (u % 4)) (jur_at j) 0) c.state refl v
apply-Good admin users (Op.suspend u) c v =
    elim (Bool-cases (c.approved (u % 4) && not (c.suspended (u % 4)))) [
      | inl q ↦ rw q (step-Good (mock c.now) (Call.suspend admin (users (u % 4))) c.state refl v)
      | inr q ↦ rw q v
    ]
apply-Good admin users (Op.reinstate u) c v = elim (Bool-cases (c.suspended (u % 4))) [
  | inl q ↦ rw q (step-Good (mock c.now) (Call.reinstate admin (users (u % 4))) c.state refl v)
  | inr q ↦ rw q v
]
apply-Good admin users (Op.block_jur j) c v =
    step-Good (mock c.now) (Call.block_jurisdiction admin (jur_at j)) c.state refl v
apply-Good admin users (Op.unblock_jur j) c v =
    step-Good (mock c.now) (Call.unblock_jurisdiction admin (jur_at j)) c.state refl v
apply-Good admin users (Op.advance_ledger d) c v = v
apply-Good admin users Op.check c v = v

apply-now :
    (admin : Address) (users : ℕ → Address) (op : Op) (c : Race)
    → c.now < 2 ^ 32
    → (apply admin users op c).now < 2 ^ 32
unfolding apply
apply-now admin users (Op.approve u j) c lt = lt
apply-now admin users (Op.suspend u) c lt = ground arith
apply-now admin users (Op.reinstate u) c lt = ground arith
apply-now admin users (Op.block_jur j) c lt = lt
apply-now admin users (Op.unblock_jur j) c lt = lt
apply-now admin users (Op.advance_ledger d) c lt = omega arith
apply-now admin users Op.check c lt = lt

run_ops-passes :
    (admin : Address) (users : ℕ → Address) (ops : List Op) (c : Race)
    → c.now < 2 ^ 32
    → Good c.state
    → (c' : Race) × (run_ops admin users ops c ≡ some c')
unfolding run_ops
run_ops-passes admin users [] c lt v = (c, refl)
run_ops-passes admin users (op ∷ ops) c lt v =
    let d = apply admin users op c in
    let lt' = apply-now admin users op c lt in
    let (s, e, w) =
      check_invariants-passes d.now users d.state lt' (apply-Good admin users op c v) in
    let (c', f) = run_ops-passes admin users ops (record d { state = s }) lt' w in (c', rw e f)

pub started-Good :
    (start : ℕ) (admin : Address)
    → (s : Compliance) × (client start (Call.initialize admin) empty ≡ some s) × Good s
unfolding client execute initialize run
started-Good start admin =
    let s : Compliance = record empty { admin = some admin; events = Event.init admin ∷ [] } in
    (
      s,
      refl,
      execute-Good (mock start) (Call.initialize admin) empty s refl refl
          (empty-Indexed, run-empty-Sound []),
    )

-- Whatever operations the target draws, and whatever the addresses of its users are, no assertion
-- of it fails and no call of its client panics.
pub fuzz_one-passes :
    (start : ℕ) (admin : Address) (users : ℕ → Address) (ops : List Op)
    → (c : Race) × (fuzz_one start admin users ops ≡ some c)
unfolding fuzz_one
fuzz_one-passes start admin users ops =
    let (s, e, v) = started-Good start admin in
    let c : Race = record { state = s; approved = λ _. false; suspended = λ _. false; now = 100 } in
    let (c', f) = run_ops-passes admin users ops c (omega arith) v in (c', rw e f)
