-- ===== src/Runtime/Approvals/Changes.antt =====
-- Every transaction on approvals keeps them, adds one or settles one.
use jarvis_development.Prelude.{
  ℕ, Bool, true, false, not, ◌&&◌, ◌||◌, none, some, [], ◌∷◌, Dict, get, String, string_eq, nat_eq,
  ◌==◌, ==-refl, ◌≡◌, refl, sym, ◌∙◌, subst, ap, inl, inr, Bool-cases, Option-cases, and-true,
  arith,
}
use mathlib.Core.List.{append-nil}
use jarvis_development.Runtime.Approvals.{
  ApprovalDecision, pending, expired, Parameters, Approval, approval_wait, Rows, Wait, no_wait,
  other_wait, EventData, Requested, approval_requested, Decided, approval_decided, approval_expired,
  approval_resumed, run_blocked, awaits_decision, has_expired, requested_of, validate_request_event,
}
use jarvis_development.Runtime.Approvals.Requests.{
  Asking, new_approval, ensure_requested, request_approval, resume_approval, is_real, append_event,
}
use jarvis_development.Runtime.Approvals.Decisions.{
  DecisionRequest, Principal, DecisionLookups, Clock, begin, requested_decision, is_decidable,
  decide_fresh, answer_begun, decide, expire_waiting, expire_wait, expire_approvals, is_awaiting,
  fresh, replayed, reused,
}
use jarvis_development.Runtime.Approvals.Steps.{
  concerns, Step, requests, resumes, decides, expires, others, Change, keeps, adds, settles,
}

-- Every approval is stored under its own id.
abbrev pub IsKeyed : Dict ℕ Approval → Type 0
IsKeyed approvals = (id : ℕ) (a : Approval) → get approvals id ≡ some a → a.id ≡ id

awaits_decision-eq : (d : ApprovalDecision) → awaits_decision d ≡ true → d ≡ pending
awaits_decision-eq d h = ground (arith, h)

requested_decision-settles : (b : Bool) → awaits_decision (requested_decision b) ≡ false
requested_decision-settles true = refl
requested_decision-settles false = refl

concerns-decided :
    (run_id j : ℕ) (d : Decided)
    → concerns run_id j (record { run_id = run_id; payload = approval_decided d })
      ≡ (d.approval_id == j)
unfolding concerns
concerns-decided run_id j d = ground (arith, ==-refl run_id)

pub concerns-requested :
    (run_id j : ℕ) (r : Requested)
    → concerns run_id j (record { run_id = run_id; payload = approval_requested r })
      ≡ (r.approval_id == j)
unfolding concerns
concerns-requested run_id j r = ground (arith, ==-refl run_id)

concerns-expired :
    (run_id j id : ℕ) (digest : String)
    → concerns run_id j (record { run_id = run_id; payload = approval_expired id digest })
      ≡ (id == j)
unfolding concerns
concerns-expired run_id j id digest = ground (arith, ==-refl run_id)

requested_of-decided :
    (run_id j : ℕ) (d : Decided)
    → requested_of run_id j (record { run_id = run_id; payload = approval_decided d }) ≡ none
unfolding requested_of
requested_of-decided run_id j d = refl

requested_of-expired :
    (run_id j id : ℕ) (digest : String)
    → requested_of run_id j (record { run_id = run_id; payload = approval_expired id digest })
      ≡ none
unfolding requested_of
requested_of-expired run_id j id digest = refl

module _ (canonical_json : Parameters → String) (sha256 : String → String) where
  abbrev Changed : Rows → Rows → Type 0
  Changed = Change canonical_json sha256

  same-Change : (s : Rows) → Changed s s
  same-Change s = keeps [] refl refl (sym (append-nil s.events)) tt

  ensure-Change :
      (asking : Asking) (current : Parameters) (s : Rows) (wait : Wait)
      → Changed s
          (record (ensure_requested canonical_json sha256 asking current s).0 { wait = wait })
  unfolding ensure_requested
  ensure-Change asking current s wait = elim (Option-cases (get s.approvals asking.id)) [
    | inl e ↦
        rw (e, ensure_requested)
          (adds (new_approval canonical_json sha256 asking current s.run) e refl refl refl refl refl
            refl)
    | inr (a, e) ↦ rw (e, ensure_requested) (keeps [] refl refl (sym (append-nil s.events)) tt)
  ]

  request-wait :
      (asking : Asking) (current : Parameters) (s : Rows) {t : Rows}
      → request_approval canonical_json sha256 asking current s ≡ some t
      → record (ensure_requested canonical_json sha256 asking current s).0 {
        wait = approval_wait asking.id;
      }
        ≡ t
  unfolding request_approval
  request-wait asking current s {t} h = ground (arith, h)

  request-Change :
      (asking : Asking) (current : Parameters) (s : Rows) {t : Rows}
      → request_approval canonical_json sha256 asking current s ≡ some t
      → Changed s t
  request-Change asking current s h =
      subst (Changed s) (request-wait asking current s h)
        (ensure-Change asking current s (approval_wait asking.id))

  event-keeps :
      (s t : Rows) (payload : EventData)
      → t.approvals ≡ s.approvals
      → t.run.id ≡ s.run.id
      → t.events ≡ append_event s payload
      → ((id : ℕ) → concerns s.run.id id (record { run_id = s.run.id; payload = payload }) ≡ false)
      → Changed s t
  event-keeps s t payload same mine log elsewhere =
      keeps (record { run_id = s.run.id; payload = payload } ∷ []) same mine log (elsewhere, tt)

  resumed : ℕ → ApprovalDecision → Approval → Rows → Rows
  resumed id decision a s = record s {
    wait = no_wait;
    events = append_event s (approval_resumed id decision a.request_digest);
  }

  resumed-Change :
      (id : ℕ) (decision : ApprovalDecision) (a : Approval) (s : Rows)
      → Changed s (resumed id decision a s)
  unfolding resumed concerns
  resumed-Change id decision a s =
      event-keeps s _ (approval_resumed id decision a.request_digest) refl refl refl (λ j. refl)

  resume-Change :
      (id : ℕ) (answer : Wait) (now : ℕ) (s : Rows) {t : Rows} {decision : ApprovalDecision}
      → resume_approval canonical_json sha256 id answer now s ≡ some (t, decision)
      → Changed s t
  unfolding resume_approval resumed
  resume-Change id answer now s {t} {decision} h = elim (Option-cases (get s.approvals id)) [
    | inl e ↦ absurd (ground (arith, h, e))
    | inr (a, e) ↦
        let wrote : resumed id decision a s ≡ t = ground (arith, h, e) in
        subst (Changed s) wrote (resumed-Change id decision a s)
  ]

  decidable-pending :
      (id : ℕ) (body : DecisionRequest) (look : DecisionLookups) (s : Rows) (a : Approval)
      → is_decidable id body look s a ≡ true
      → a.decision ≡ pending
  unfolding is_decidable
  decidable-pending id body look s a h =
      let (mine, rest) = and-true (a.run_id == s.run.id) _ h in
      awaits_decision-eq a.decision (and-true (awaits_decision a.decision) _ rest).0

  decide_fresh-Change :
      (body_digest : DecisionRequest → String) (id : ℕ) (body : DecisionRequest)
      (principal : Principal) (look : DecisionLookups) (a : Approval) (s : Rows)
      → get s.approvals id ≡ some a
      → Changed s (decide_fresh canonical_json sha256 body_digest id body principal look a s).0
  unfolding decide_fresh
  decide_fresh-Change body_digest id body principal look a s e =
      elim (Bool-cases (validate_request_event canonical_json sha256 s.events a)) [
        | inl v ↦ elim (Bool-cases (is_decidable id body look s a)) [
          | inl d ↦
              rw (v, d, decide_fresh)
                (settles id a (requested_decision body.approves) (some principal.user_id)
                  (some look.now) _ e (decidable-pending id body look s a d)
                  (requested_decision-settles body.approves) refl refl refl
                  (λ j. concerns-decided s.run.id j _) refl
                  (λ j. requested_of-decided s.run.id j _))
          | inr d ↦ rw (v, d, decide_fresh) (same-Change s)
        ]
        | inr v ↦ rw (v, decide_fresh) (same-Change s)
      ]

  module _ (body_digest : DecisionRequest → String) where
    begin-Change :
        (id : ℕ) (body : DecisionRequest) (principal : Principal) (look : DecisionLookups)
        (s : Rows) (a : Approval)
        → get s.approvals id ≡ some a
        → Changed s
            (answer_begun canonical_json sha256 body_digest id body principal look a s
              (begin principal.user_id id body.idempotency_key (body_digest body) s.records)).0
    unfolding answer_begun
    begin-Change id body principal look s a e =
        elim (begin principal.user_id id body.idempotency_key (body_digest body) s.records)
          as (λ begun.
            Changed s
              (answer_begun canonical_json sha256 body_digest id body principal look a s begun).0) [
                | reused ↦ same-Change s
                | replayed r ↦ same-Change s
                | fresh ↦ decide_fresh-Change body_digest id body principal look a s e
              ]

    decide-Change :
        (id : ℕ) (body : DecisionRequest) (principal : Principal) (look : DecisionLookups)
        (s : Rows)
        → Changed s (decide canonical_json sha256 body_digest id body principal look s).0
    unfolding decide
    decide-Change id body principal look s =
        elim (Bool-cases
          (not (look.owner_user_id == principal.user_id) || not (is_real s.run.mode))) [
            | inl e ↦ rw (e, decide) (same-Change s)
            | inr e ↦ elim (Option-cases (get s.approvals id)) [
              | inl f ↦ rw (e, f, decide) (same-Change s)
              | inr (a, f) ↦ rw (e, f, decide) (begin-Change id body principal look s a f)
            ]
          ]

  expire_waiting-Change :
      (clock : Clock) (a : Approval) (s : Rows)
      → get s.approvals a.id ≡ some a
      → Changed s (expire_waiting canonical_json sha256 clock a s)
  unfolding expire_waiting concerns
  expire_waiting-Change clock a s e =
      elim (Bool-cases (validate_request_event canonical_json sha256 s.events a)) [
        | inl v ↦
            elim (Bool-cases
              (awaits_decision a.decision && has_expired a.expires_at clock.tested)) [
                | inl d ↦
                    rw (v, d, expire_waiting)
                      (settles a.id a expired a.actor_id (some clock.decided) _ e
                        (awaits_decision-eq a.decision
                          (and-true (awaits_decision a.decision) _ d).0)
                        refl refl refl refl (λ j. concerns-expired s.run.id j a.id a.request_digest)
                        refl (λ j. requested_of-expired s.run.id j a.id a.request_digest))
                | inr d ↦ rw (v, d, expire_waiting) (same-Change s)
              ]
        | inr v ↦
            rw (v, expire_waiting)
              (event-keeps s _ (run_blocked "approval.invalid") refl refl refl (λ j. refl))
      ]

  expire_wait-Change :
      (clock : Clock) (s : Rows) (wait : Wait)
      → IsKeyed s.approvals
      → Changed s (expire_wait canonical_json sha256 clock s wait)
  unfolding expire_wait
  expire_wait-Change clock s no_wait keyed = same-Change s
  expire_wait-Change clock s other_wait keyed = same-Change s
  expire_wait-Change clock s (approval_wait id) keyed = elim (Option-cases (get s.approvals id)) [
    | inl e ↦ rw (e, expire_wait) (same-Change s)
    | inr (a, e) ↦
        rw (e, expire_wait)
          (expire_waiting-Change clock a s (ap (get s.approvals) (keyed id a e) ∙ e))
  ]

  expire-Change :
      (clock : Clock) (s : Rows)
      → IsKeyed s.approvals
      → Changed s (expire_approvals canonical_json sha256 clock s)
  unfolding expire_approvals
  expire-Change clock s keyed = elim (Bool-cases (is_real s.run.mode && is_awaiting s.run.status)) [
    | inl e ↦ rw (e, expire_approvals) (expire_wait-Change clock s s.wait keyed)
    | inr e ↦ rw (e, expire_approvals) (same-Change s)
  ]

  module _ (body_digest : DecisionRequest → String) where
    pub Step-Change :
        {s t : Rows}
        → Step canonical_json sha256 body_digest s t
        → IsKeyed s.approvals
        → Change canonical_json sha256 s t
    Step-Change {s} (requests asking current h) keyed = request-Change asking current s h
    Step-Change {s} (resumes id answer now decision h) keyed = resume-Change id answer now s h
    Step-Change {s} (decides id body principal look) keyed =
        decide-Change body_digest id body principal look s
    Step-Change {s} (expires clock) keyed = expire-Change clock s keyed
    Step-Change (others extra same mine log elsewhere) keyed = keeps extra same mine log elsewhere
