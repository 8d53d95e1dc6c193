-- ===== src/Runtime/Approvals/Decisions.antt =====
-- The endpoint `decide` of api/app/jarvis_api/approvals.py and `expire_approvals` of
-- runtime/approvals.py.
use jarvis_development.Prelude.{
  ℕ, ◌+◌, Bool, true, false, not, ◌&&◌, ◌||◌, none, some, List, ◌∷◌, get, put, find?, String,
  string_eq, nat_eq, ◌==◌, if◌then◌else◌,
}
use jarvis_development.Runtime.Store.{
  RunStatus, queued, approval_required, blocked, DesiredState, want_running, Run,
}
use jarvis_development.Runtime.Approvals.{
  ApprovalDecision, approved, rejected, expired, Parameters, Approval, approval_decided,
  approval_expired, run_blocked, Wait, approval_wait, DecisionRecord, Rows, awaits_decision,
  has_expired, validate_request_event,
}
use jarvis_development.Runtime.Approvals.Requests.{is_real, append_event, same_wait}

-- `ApprovalDecisionRequest`; `approves` tells its two decisions apart.
pub record DecisionRequest : Type 0 where
  pub idempotency_key : String
  pub expected_run_version : ℕ
  pub request_digest : String
  pub approves : Bool

abbrev pub requested_decision : Bool → ApprovalDecision
requested_decision true = approved
requested_decision false = rejected

-- `CsrfPrincipal`
pub record Principal : Type 0 where
  pub user_id : ℕ
  pub session_id : ℕ

-- What the endpoint reads from other tables and the clock: the owner of the run's project, whether
-- a command of the run is pending, and the time.
pub record DecisionLookups : Type 0 where
  pub owner_user_id : ℕ
  pub has_pending_command : Bool
  pub now : ℕ

-- How the endpoint answers: with a view, or with the code of a problem.
pub data Answer : Type 0 where
  answered : Approval → Answer
  missing conflict invalid stale : Answer

-- `IdempotencyRepository.begin`: a new record, the one that was completed, or a conflict.
pub data Begin : Type 0 where
  fresh : Begin
  replayed : DecisionRecord → Begin
  reused : Begin

abbrev pub is_record : ℕ → ℕ → String → DecisionRecord → Bool
is_record user_id approval_id key r =
    r.user_id == user_id && (r.approval_id == approval_id && r.key == key)

unfoldable pub begin : ℕ → ℕ → String → String → List DecisionRecord → Begin
begin user_id approval_id key digest records =
    elim (find? (is_record user_id approval_id key) records) [
      | none ↦ fresh
      | some r ↦ elim (r.request_digest == digest) [ true ↦ replayed r | false ↦ reused ]
    ]

abbrev pub is_awaiting : RunStatus → Bool
is_awaiting approval_required = true
is_awaiting _ = false

abbrev pub wants_running : DesiredState → Bool
wants_running want_running = true
wants_running _ = false

-- The condition of `approval.stale`, negated.
unfoldable pub is_decidable : ℕ → DecisionRequest → DecisionLookups → Rows → Approval → Bool
is_decidable id body look s a =
    a.run_id == s.run.id
    && (awaits_decision a.decision
        && (a.request_digest == body.request_digest
            && (is_awaiting s.run.status
                && (wants_running s.run.desired_state
                    && (s.run.version == body.expected_run_version
                        && (not look.has_pending_command
                            && (same_wait s.wait (approval_wait id)
                                && not (has_expired a.expires_at look.now))))))))

abbrev pub decided_view : DecisionRequest → Principal → ℕ → Approval → Approval
decided_view body principal now a = record a {
  decision = requested_decision body.approves;
  actor_id = some principal.user_id;
  decided_at = some now;
}

-- The run is queued again.
abbrev pub requeue : ℕ → Run → Run
requeue now run = record run { status = queued; claimable_at = now; version = run.version + 1 }

-- The rows after a decision, without its idempotency record.
abbrev pub write_decision : ℕ → DecisionRequest → Principal → ℕ → Approval → Rows → Rows
write_decision id body principal now a s = record s {
  run = requeue now s.run;
  approvals = put s.approvals id (decided_view body principal now a);
  events = append_event s (
      approval_decided (record {
        approval_id = id;
        decision = requested_decision body.approves;
        request_digest = a.request_digest;
        actor_id = principal.user_id;
        session_id = principal.session_id;
      }));
}

-- The readings of the clock for one run: where the expiry is tested, where it is noted, and where
-- the run is queued.
pub record Clock : Type 0 where
  pub tested : ℕ
  pub decided : ℕ
  pub claimable : ℕ

module _ (canonical_json : Parameters → String) (sha256 : String → String) where
  module _ (body_digest : DecisionRequest → String) where
    -- `decide` from a fresh idempotency record on.
    unfoldable pub decide_fresh :
        ℕ → DecisionRequest → Principal → DecisionLookups → Approval → Rows → Rows × Answer
    unfolding is_decidable
    decide_fresh id body principal look a s =
        if not (validate_request_event canonical_json sha256 s.events a)
        then (s, invalid)
        else if not (is_decidable id body look s a)
        then (s, stale)
        else let view = decided_view body principal look.now a in
          let saved : DecisionRecord = record {
            user_id = principal.user_id;
            approval_id = id;
            key = body.idempotency_key;
            request_digest = body_digest body;
            response = view;
          } in
          (
            record (write_decision id body principal look.now a s) { records = saved ∷ s.records },
            answered view,
          )

    -- `decide` after the idempotency record was looked up; a problem leaves the rows as they were.
    unfoldable pub answer_begun :
        ℕ → DecisionRequest → Principal → DecisionLookups → Approval → Rows → Begin → Rows × Answer
    unfolding decide_fresh
    answer_begun id body principal look a s fresh = decide_fresh id body principal look a s
    answer_begun id body principal look a s (replayed r) = (s, answered r.response)
    answer_begun id body principal look a s reused = (s, conflict)

    unfoldable pub decide : ℕ → DecisionRequest → Principal → DecisionLookups → Rows → Rows × Answer
    unfolding answer_begun begin
    decide id body principal look s =
        if not (look.owner_user_id == principal.user_id) || not (is_real s.run.mode)
        then (s, missing)
        else elim (get s.approvals id) [
          | none ↦ (s, missing)
          | some a ↦
              answer_begun id body principal look a s
                (begin principal.user_id id body.idempotency_key (body_digest body) s.records)
        ]

  abbrev pub expired_view : ℕ → Approval → Approval
  expired_view now a = record a { decision = expired; decided_at = some now }

  -- The loop body of `expire_approvals` for an approval that the run waits for.
  unfoldable pub expire_waiting : Clock → Approval → Rows → Rows
  expire_waiting clock a s =
      if not (validate_request_event canonical_json sha256 s.events a)
      then record s {
        run = record s.run { status = blocked; version = s.run.version + 1 };
        events = append_event s (run_blocked "approval.invalid");
      }
      else if awaits_decision a.decision && has_expired a.expires_at clock.tested
      then record s {
        run = requeue clock.claimable s.run;
        approvals = put s.approvals a.id (expired_view clock.decided a);
        events = append_event s (approval_expired a.id a.request_digest);
      }
      else s

  unfoldable pub expire_wait : Clock → Rows → Wait → Rows
  unfolding expire_waiting
  expire_wait clock s (approval_wait id) = elim (get s.approvals id) [
    | none ↦ s
    | some a ↦ expire_waiting clock a s
  ]
  expire_wait clock s wait = s

  -- `expire_approvals` for one run; a run that it does not select is left as it is.
  unfoldable pub expire_approvals : Clock → Rows → Rows
  unfolding expire_wait
  expire_approvals clock s =
      if is_real s.run.mode && is_awaiting s.run.status then expire_wait clock s s.wait else s
