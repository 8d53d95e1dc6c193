-- ===== src/Runtime/Approvals/Steps.antt =====
-- The transactions of runtime/approvals.py and api/approvals.py on a run, in any order, and the
-- changes that they make.
use jarvis_development.Prelude.{
  ℕ, Bool, true, false, Option, none, some, List, [], ◌∷◌, ◌++◌, Dict, get, put, String, nat_eq,
  ◌==◌, ◌≡◌, All, if◌then◌else◌,
}
use jarvis_development.Runtime.Approvals.{
  ApprovalDecision, pending, expired, Parameters, Approval, EventData, approval_requested,
  approval_decided, approval_expired, Event, Wait, Rows, awaits_decision, requested_of,
  sha256_digest,
}
use jarvis_development.Runtime.Approvals.Requests.{
  Asking, event_of, append_event, request_approval, resume_approval,
}
use jarvis_development.Runtime.Approvals.Decisions.{
  DecisionRequest, Principal, DecisionLookups, Clock, decide, expire_approvals,
}

-- Whether an event is about an approval of a run: its request or its decision.
unfoldable pub concerns : ℕ → ℕ → Event → Bool
concerns run_id id event = elim event.payload [
  | approval_requested r ↦ elim (event.run_id == run_id) [
    | true ↦ r.approval_id == id
    | false ↦ false
  ]
  | approval_decided d ↦ elim (event.run_id == run_id) [
    | true ↦ d.approval_id == id
    | false ↦ false
  ]
  | approval_expired i digest ↦ elim (event.run_id == run_id) [ true ↦ i == id | false ↦ false ]
  | _ ↦ false
]

-- What an event that is about an approval makes of it.
abbrev pub decision_in : EventData → ApprovalDecision
decision_in (approval_decided d) = d.decision
decision_in (approval_expired i digest) = expired
decision_in _ = pending

-- The decision of an approval according to the event log alone.
unfoldable pub replay_events :
    ℕ → ℕ → List Event → Option ApprovalDecision → Option ApprovalDecision
replay_events run_id id [] before = before
replay_events run_id id (event ∷ events) before =
    replay_events run_id id events
      (if concerns run_id id event then some (decision_in event.payload) else before)

-- The decision of an approval according to the run's row.
abbrev pub decision_at : Dict ℕ Approval → ℕ → Option ApprovalDecision
decision_at approvals id = elim (get approvals id) [ none ↦ none | some a ↦ some a.decision ]

-- No event of the list is about an approval of the run.
abbrev pub Elsewhere : ℕ → List Event → Type 0
Elsewhere run_id = All (λ event. (id : ℕ) → concerns run_id id event ≡ false)

abbrev pub settled : ApprovalDecision → Option ℕ → Option ℕ → Approval → Approval
settled decision actor_id decided_at a = record a {
  decision = decision;
  actor_id = actor_id;
  decided_at = decided_at;
}

module _ (canonical_json : Parameters → String) (sha256 : String → String) where
  module _ (body_digest : DecisionRequest → String) where
    -- One transaction. `others` is any other: it changes neither the approvals nor the run's id, and
    -- appends no event about an approval of the run.
    pub data Step : Rows → Rows → Type 0 where
      requests :
          {s t : Rows} (asking : Asking) (current : Parameters)
          → request_approval canonical_json sha256 asking current s ≡ some t
          → Step s t
      resumes :
          {s t : Rows} (id : ℕ) (answer : Wait) (now : ℕ) (decision : ApprovalDecision)
          → resume_approval canonical_json sha256 id answer now s ≡ some (t, decision)
          → Step s t
      decides :
          {s : Rows} (id : ℕ) (body : DecisionRequest) (principal : Principal)
          (look : DecisionLookups)
          → Step s (decide canonical_json sha256 body_digest id body principal look s).0
      expires : {s : Rows} (clock : Clock) → Step s (expire_approvals canonical_json sha256 clock s)
      others :
          {s t : Rows} (extra : List Event)
          → t.approvals ≡ s.approvals
          → t.run.id ≡ s.run.id
          → t.events ≡ s.events ++ extra
          → Elsewhere s.run.id extra
          → Step s t

    pub data Reach (s : Rows) : Rows → Type 0 where
      here : Reach s s
      next : {t u : Rows} → Reach s t → Step t u → Reach s u

  -- The changes that a transaction can make to the approvals and the log.
  pub data Change (s t : Rows) : Type 0 where
    keeps :
        (extra : List Event)
        → t.approvals ≡ s.approvals
        → t.run.id ≡ s.run.id
        → t.events ≡ s.events ++ extra
        → Elsewhere s.run.id extra
        → Change s t
    adds :
        (a : Approval)
        → get s.approvals a.id ≡ none
        → a.run_id ≡ s.run.id
        → a.decision ≡ pending
        → a.request_digest ≡ sha256_digest canonical_json sha256 a.parameters
        → t.approvals ≡ put s.approvals a.id a
        → t.run.id ≡ s.run.id
        → t.events ≡ append_event s (approval_requested (event_of a))
        → Change s t
    settles :
        (id : ℕ) (a : Approval) (decision : ApprovalDecision) (actor_id decided_at : Option ℕ)
        (payload : EventData)
        → get s.approvals id ≡ some a
        → a.decision ≡ pending
        → awaits_decision decision ≡ false
        → t.approvals ≡ put s.approvals id (settled decision actor_id decided_at a)
        → t.run.id ≡ s.run.id
        → t.events ≡ append_event s payload
        → ((j : ℕ)
            → concerns s.run.id j (record { run_id = s.run.id; payload = payload }) ≡ (id == j))
        → decision_in payload ≡ decision
        → ((j : ℕ)
            → requested_of s.run.id j (record { run_id = s.run.id; payload = payload }) ≡ none)
        → Change s t
