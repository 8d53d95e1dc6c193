-- ===== src/Runtime/Approvals/Requests.antt =====
-- runtime/approvals.py: `parameters`, the two transactions of `approval_handler`, and the check of
-- `ProtectedEffect.dispatch`.
use jarvis_development.Prelude.{
  ℕ, ◌+◌, ◌*◌, Bool, true, false, not, ◌&&◌, Option, none, some, List, [], ◌∷◌, ◌++◌, get, put,
  filter, any, String, string_eq, nat_eq, ◌==◌, option_is, ◌>>=◌, if◌then◌else◌,
}
use jarvis_development.Contracts.Workflow.{ActionType, ApprovalPolicy, WorkflowNode, WorkflowSpec}
use jarvis_development.Validation.Policy.{effective_policy}
use jarvis_development.Runtime.Store.{DesiredState, want_cancelled, Mode, real, demo, Run}
use jarvis_development.Runtime.Approvals.{
  ApprovalDecision, pending, expired, cancelled, IntegrationHead, Parameters, Approval, Requested,
  EventData, approval_requested, approval_decided, approval_resumed, Event, Wait, no_wait,
  other_wait, approval_wait, Rows, same_action, awaits_decision, is_approved, has_expired,
  sha256_digest, validate_request_event,
}

-- What `parameters` reads beside the run: the configuration of the target, the channels of the
-- workflow state and the integration heads of the run.
pub record Context : Type 0 where
  pub target_configuration : String
  pub current_task : String
  pub verification : String
  pub review : String
  pub integration_heads : List IntegrationHead

abbrev pub parameters : Run → ActionType → String → Context → Parameters
parameters run action target context = record {
  run_id = run.id;
  workflow_version_id = run.workflow_version_id;
  config_snapshot_id = run.config_snapshot_id;
  action_type = action;
  target_node_id = target;
  target_configuration = context.target_configuration;
  current_task = context.current_task;
  verification = context.verification;
  review = context.review;
  integration_heads = context.integration_heads;
}

-- The nodes whose approval policy requires the grant of a node.
abbrev pub protected_targets : WorkflowSpec → String → List WorkflowNode
protected_targets spec id =
    filter
      (λ node. elim (effective_policy spec node).approval_policy [
        | none ↦ false
        | some policy ↦ option_is policy.required_grant_from id
      ])
      spec.nodes

-- The one protected node; `none` is the `ValueError`.
unfoldable pub protected_target : WorkflowSpec → String → Option WorkflowNode
protected_target spec id = elim (protected_targets spec id) [
  | [] ↦ none
  | node ∷ rest ↦ elim rest [ [] ↦ some node | other ∷ more ↦ none ]
]

-- `now + timedelta(seconds=expiry) if expiry else None`, in microseconds
abbrev pub expiry_of : Option ℕ → ℕ → Option ℕ
expiry_of none now = none
expiry_of (some seconds) now = if seconds == 0 then none else some (now + seconds * 1000000)

abbrev pub is_real : Mode → Bool
is_real real = true
is_real demo = false

abbrev pub wants_cancel : DesiredState → Bool
wants_cancel want_cancelled = true
wants_cancel _ = false

abbrev pub append_event : Rows → EventData → List Event
append_event s payload = s.events ++ (record { run_id = s.run.id; payload = payload } ∷ [])

-- What the approval node gives the first transaction: the approval's id, which is derived from the
-- execution, the node, its action and expiry, and two readings of the clock.
pub record Asking : Type 0 where
  pub id : ℕ
  pub node_id : String
  pub action_type : ActionType
  pub expires_in_seconds : Option ℕ
  pub created : ℕ
  pub expires_from : ℕ

abbrev pub event_of : Approval → Requested
event_of a = record {
  approval_id = a.id;
  workflow_node_id = a.node_id;
  request_digest = a.request_digest;
  action_type = a.action_type;
  parameters = a.parameters;
  created_at = a.created_at;
  expires_at = a.expires_at;
}

-- What `dispatch` is called with: the approval that the channel of the workflow state names, the
-- node and its context.
pub record Dispatch : Type 0 where
  pub channel : Option ℕ
  pub node_id : String
  pub context : Context

-- The decision that the second transaction acts on.
abbrev pub effective_decision : Approval → Run → ℕ → ApprovalDecision
effective_decision a run now =
    if wants_cancel run.desired_state
    then cancelled
    else if has_expired a.expires_at now
    then expired
    else a.decision

abbrev pub same_wait : Wait → Wait → Bool
same_wait no_wait no_wait = true
same_wait other_wait other_wait = true
same_wait (approval_wait a) (approval_wait b) = a == b
same_wait _ _ = false

-- Whether an event records the decision to grant an approval of a run with a digest.
abbrev pub is_grant : ℕ → ℕ → String → Event → Bool
is_grant run_id id digest event = elim event.payload [
  | approval_decided d ↦
      event.run_id == run_id
      && (d.approval_id == id && (is_approved d.decision && d.request_digest == digest))
  | _ ↦ false
]

module _ (canonical_json : Parameters → String) (sha256 : String → String) where
  abbrev pub new_approval : Asking → Parameters → Run → Approval
  new_approval asking current run = record {
    id = asking.id;
    run_id = run.id;
    node_id = asking.node_id;
    action_type = asking.action_type;
    request_digest = sha256_digest canonical_json sha256 current;
    parameters = current;
    created_at = asking.created;
    expires_at = expiry_of asking.expires_in_seconds asking.expires_from;
    decision = pending;
    actor_id = none;
    decided_at = none;
  }

  -- The approval is added, with its event, unless it is there.
  unfoldable pub ensure_requested : Asking → Parameters → Rows → Rows × Approval
  ensure_requested asking current s = elim (get s.approvals asking.id) [
    | some a ↦ (s, a)
    | none ↦
        let a = new_approval asking current s.run in
        (
          record s {
            approvals = put s.approvals asking.id a;
            events = append_event s (approval_requested (event_of a));
          },
          a,
        )
  ]

  -- The first transaction of `approval_handler`; `none` is a `ValueError`, which rolls back.
  unfoldable pub request_approval : Asking → Parameters → Rows → Option Rows
  unfolding ensure_requested
  request_approval asking current s =
      if not (is_real s.run.mode)
      then none
      else let (next, a) = ensure_requested asking current s in
        if validate_request_event canonical_json sha256 next.events a
          && a.request_digest == sha256_digest canonical_json sha256 current
        then some (record next { wait = approval_wait asking.id })
        else none

  -- The second transaction, after the interrupt was answered; `none` is a raise.
  unfoldable pub resume_approval : ℕ → Wait → ℕ → Rows → Option (Rows × ApprovalDecision)
  resume_approval id answer now s =
      if not (same_wait answer (approval_wait id)) then none else elim (get s.approvals id) [
        | none ↦ none
        | some a ↦
            let decision = effective_decision a s.run now in
            if validate_request_event canonical_json sha256 s.events a
              && not (awaits_decision decision)
            then some (
              record s {
                wait = no_wait;
                events = append_event s (approval_resumed id decision a.request_digest);
              },
              decision,
            )
            else none
      ]

  -- The condition under which a stored approval does not grant the effect, negated.
  unfoldable pub is_granting : String → ActionType → Parameters → ℕ → Run → Approval → Bool
  is_granting grantor action current now run a =
      not (wants_cancel run.desired_state)
      && (is_approved a.decision
          && (a.node_id == grantor
              && (same_action a.action_type action
                  && (a.request_digest == sha256_digest canonical_json sha256 current
                      && not (has_expired a.expires_at now)))))

  -- The block of `dispatch` under the fence, for a policy that names a grantor and an action.
  unfoldable pub check_grant : String → ActionType → Dispatch → ℕ → Rows → Bool
  unfolding is_granting
  check_grant grantor action d now s = elim (d.channel >>= get s.approvals) [
    | none ↦ false
    | some a ↦
        validate_request_event canonical_json sha256 s.events a
        && (is_granting grantor action (parameters s.run action d.node_id d.context) now s.run a
            && any (is_grant s.run.id a.id a.request_digest) s.events)
  ]

  -- `ProtectedEffect.dispatch` goes on to the adapter, and does not raise.
  unfoldable pub protect : Option ApprovalPolicy → Dispatch → ℕ → Rows → Bool
  unfolding check_grant
  protect none d now s = true
  protect (some policy) d now s = elim policy.required_grant_from [
    | none ↦ true
    | some grantor ↦ if grantor == "" then true else elim policy.action_type [
      | none ↦ false
      | some action ↦ check_grant grantor action d now s
    ]
  ]
