-- ===== src/Runtime/Approvals.antt =====
-- orchestrator/app/jarvis_orchestrator/runtime/approvals.py, the endpoint `decide` of
-- api/app/jarvis_api/approvals.py, and packages/contracts/src/jarvis_contracts/approvals.py, for
-- one run. Each operation is the body of one transaction; those of an executor run under the
-- fence of `Runtime.Ownership`. A clock reading is an argument.
pub mod Requests
pub mod Decisions
pub mod Steps
mod Events
mod Changes
mod Log
mod Authentic
mod Final
mod Granted
mod Tests
use jarvis_development.Prelude.{
  ℕ, Bool, true, false, ◌&&◌, Option, none, some, List, [], ◌∷◌, Dict, String, string_eq, nat_eq,
  ◌==◌, leb,
}
use jarvis_development.Contracts.Workflow.{
  ActionType, github_push_and_pr, git_integrate, worker_execute,
}
use jarvis_development.Runtime.Store.{Run}

-- `ApprovalView.decision`
pub data ApprovalDecision : Type 0 where
  pending approved rejected expired cancelled : ApprovalDecision

-- `IntegrationHeadModel`, as `parameters` reads it.
pub record IntegrationHead : Type 0 where
  pub repository_id : ℕ
  pub head_sha : String
  pub branch : String
  pub snapshot_artifact_id : ℕ

-- What an approval is for; JSON values are kept as their canonical texts.
pub record Parameters : Type 0 where
  pub run_id : ℕ
  pub workflow_version_id : ℕ
  pub config_snapshot_id : ℕ
  pub action_type : ActionType
  pub target_node_id : String
  pub target_configuration : String
  pub current_task : String
  pub verification : String
  pub review : String
  pub integration_heads : List IntegrationHead

-- `ApprovalView`
pub record Approval : Type 0 where
  pub id : ℕ
  pub run_id : ℕ
  pub node_id : String
  pub action_type : ActionType
  pub request_digest : String
  pub parameters : Parameters
  pub created_at : ℕ
  pub expires_at : Option ℕ
  pub decision : ApprovalDecision
  pub actor_id : Option ℕ
  pub decided_at : Option ℕ

-- The payload of an `approval.requested` event.
pub record Requested : Type 0 where
  pub approval_id : ℕ
  pub workflow_node_id : String
  pub request_digest : String
  pub action_type : ActionType
  pub parameters : Parameters
  pub created_at : ℕ
  pub expires_at : Option ℕ

-- The payload of an `approval.decided` event.
pub record Decided : Type 0 where
  pub approval_id : ℕ
  pub decision : ApprovalDecision
  pub request_digest : String
  pub actor_id : ℕ
  pub session_id : ℕ

-- `EventModel`: its type and payload. `approval.expired` and `approval.resumed` carry the id of the
-- approval and the digest; any other event is its type.
pub data EventData : Type 0 where
  approval_requested : Requested → EventData
  approval_decided : Decided → EventData
  approval_expired : ℕ → String → EventData
  approval_resumed : ℕ → ApprovalDecision → String → EventData
  run_blocked : String → EventData
  other_event : String → EventData

pub record Event : Type 0 where
  pub run_id : ℕ
  pub payload : EventData

-- `run.runtime_json["wait"]`
pub data Wait : Type 0 where
  no_wait other_wait : Wait
  approval_wait : ℕ → Wait

-- `IdempotencyRecordModel` of a completed decision; its scope is the user and the approval.
pub record DecisionRecord : Type 0 where
  pub user_id : ℕ
  pub approval_id : ℕ
  pub key : String
  pub request_digest : String
  pub response : Approval

-- A run with the keys `approvals` and `wait` of its `runtime_json`, the event log, oldest first,
-- and the idempotency records.
pub record Rows : Type 0 where
  pub run : Run
  pub approvals : Dict ℕ Approval
  pub wait : Wait
  pub events : List Event
  pub records : List DecisionRecord

abbrev pub same_action : ActionType → ActionType → Bool
same_action github_push_and_pr github_push_and_pr = true
same_action git_integrate git_integrate = true
same_action worker_execute worker_execute = true
same_action _ _ = false

abbrev pub same_time : Option ℕ → Option ℕ → Bool
same_time none none = true
same_time (some a) (some b) = a == b
same_time _ _ = false

abbrev pub awaits_decision : ApprovalDecision → Bool
awaits_decision pending = true
awaits_decision _ = false

abbrev pub is_approved : ApprovalDecision → Bool
is_approved approved = true
is_approved _ = false

-- `expires_at is not None and expires_at <= now`
abbrev pub has_expired : Option ℕ → ℕ → Bool
has_expired none now = false
has_expired (some expires_at) now = leb expires_at now

-- The payload if the event is the request of an approval of a run.
unfoldable pub requested_of : ℕ → ℕ → Event → Option Requested
requested_of run_id id event = elim event.payload [
  | approval_requested r ↦ elim (event.run_id == run_id && r.approval_id == id) [
    | true ↦ some r
    | false ↦ none
  ]
  | _ ↦ none
]

-- The `select` of the request event.
unfoldable pub find_request : ℕ → ℕ → List Event → Option Requested
find_request run_id id [] = none
find_request run_id id (event ∷ events) = elim (requested_of run_id id event) [
  | some r ↦ some r
  | none ↦ find_request run_id id events
]

module _ (canonical_json : Parameters → String) (sha256 : String → String) where
  abbrev pub sha256_digest : Parameters → String
  sha256_digest p = sha256 (canonical_json p)

  -- Whether a request event says what the approval says.
  unfoldable pub matches_request : Approval → Requested → Bool
  matches_request a r =
      r.request_digest == a.request_digest
      && (sha256_digest a.parameters == a.request_digest
          && (canonical_json r.parameters == canonical_json a.parameters
              && (r.workflow_node_id == a.node_id
                  && (same_action r.action_type a.action_type
                      && (r.created_at == a.created_at && same_time r.expires_at a.expires_at)))))

  -- `validate_request_event` returns, and does not raise.
  unfoldable pub validate_request_event : List Event → Approval → Bool
  validate_request_event events a = elim (find_request a.run_id a.id events) [
    | none ↦ false
    | some r ↦ matches_request a r
  ]
