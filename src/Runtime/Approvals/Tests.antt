-- ===== src/Runtime/Approvals/Tests.antt =====
-- An approval of run 8 that is requested, approved and resumed, and one that expires.
use jarvis_development.Prelude.{
  true, false, Option, none, some, [], get, ◌≡◌, refl, String, nat_eq, string_eq,
}
use jarvis_development.Contracts.Workflow.{ActionType, git_integrate, ApprovalPolicy}
use jarvis_development.Runtime.Store.{running, approval_required, want_running, real}
use jarvis_development.Runtime.Approvals.{
  approved, expired, Parameters, Approval, Rows, no_wait, validate_request_event, find_request,
  requested_of, matches_request,
}
use jarvis_development.Runtime.Approvals.Requests.{
  Context, parameters, Asking, ensure_requested, request_approval, Dispatch, is_granting,
  check_grant, protect,
}
use jarvis_development.Runtime.Approvals.Decisions.{
  DecisionRequest, Principal, DecisionLookups, Clock, begin, is_decidable, decide_fresh,
  answer_begun, decide, expire_waiting, expire_wait, expire_approvals,
}
use jarvis_development.Runtime.Approvals.Steps.{
  replay_events, decision_at, Reach, here, next, requests, decides, expires, others,
}
use jarvis_development.Runtime.Approvals.Log.{IsOwn}
use jarvis_development.Runtime.Approvals.Final.{
  IsUntouched, Reach-IsOwn, projection-replays, settled-stays,
}
use jarvis_development.Runtime.Approvals.Granted.{IsGranted, protect-IsGranted}

abbrev json : Parameters → String
json p = p.review

abbrev hash : String → String
hash text = text

abbrev body_digest : DecisionRequest → String
body_digest body = body.idempotency_key

abbrev rows : Rows
rows = record {
  run = record {
    id = 8;
    job_id = 1;
    run_number = 1;
    parent_run_id = none;
    workflow_version_id = 1;
    config_snapshot_id = 1;
    status = running;
    desired_state = want_running;
    mode = real;
    priority = 100;
    claimable_at = 5;
    created_at = 5;
    version = 1;
    recovering = false;
    retry_at = none;
    instructions = [];
    demo_fixture = none;
  };
  approvals = [];
  wait = no_wait;
  events = [];
  records = [];
}

abbrev context : Context
context = record {
  target_configuration = "{}";
  current_task = "null";
  verification = "{}";
  review = "passed";
  integration_heads = [];
}

abbrev asking : Asking
asking = record {
  id = 5;
  node_id = "ok";
  action_type = git_integrate;
  expires_in_seconds = some 60;
  created = 10;
  expires_from = 11;
}

abbrev current : Parameters
current = parameters rows.run git_integrate "merge" context

abbrev body : DecisionRequest
body = record {
  idempotency_key = "k";
  expected_run_version = 1;
  request_digest = "passed";
  approves = true;
}

abbrev owner : Principal
owner = record { user_id = 2; session_id = 3 }

abbrev look : DecisionLookups
look = record { owner_user_id = 2; has_pending_command = false; now = 20 }

abbrev or_rows : Option Rows → Rows
or_rows none = rows
or_rows (some s) = s

abbrev asked : Rows
unfolding request_approval
asked = or_rows (request_approval json hash asking current rows)

-- The executor yields the run, which now waits.
abbrev waiting : Rows
waiting = record asked { run = record asked.run { status = approval_required } }

abbrev decided : Rows
unfolding decide
decided = (decide json hash body_digest 5 body owner look waiting).0

abbrev late : Clock
late = record { tested = 60000011; decided = 60000012; claimable = 60000013 }

asked-rows : request_approval json hash asking current rows ≡ some asked
unfolding asked request_approval ensure_requested validate_request_event find_request requested_of
    matches_request
asked-rows = refl

decided_view : decision_at decided.approvals 5 ≡ some approved
unfolding asked request_approval ensure_requested validate_request_event find_request requested_of
    matches_request decided decide answer_begun begin decide_fresh is_decidable
decided_view = refl

expires_in_time : decision_at (expire_approvals json hash late waiting).approvals 5 ≡ some expired
unfolding asked request_approval ensure_requested validate_request_event find_request requested_of
    matches_request expire_approvals expire_wait expire_waiting
expires_in_time = refl

abbrev approval_5 : Approval
approval_5 = record {
  id = 5;
  run_id = 8;
  node_id = "ok";
  action_type = git_integrate;
  request_digest = "passed";
  parameters = current;
  created_at = 10;
  expires_at = some 60000011;
  decision = approved;
  actor_id = some 2;
  decided_at = some 20;
}

decided_approval : get decided.approvals 5 ≡ some approval_5
unfolding asked request_approval ensure_requested validate_request_event find_request requested_of
    matches_request decided decide answer_begun begin decide_fresh is_decidable
decided_approval = refl

decided_steps : Reach json hash body_digest rows decided
unfolding asked request_approval ensure_requested validate_request_event find_request requested_of
    matches_request decided decide answer_begun begin decide_fresh is_decidable
decided_steps =
    next
      (next (next here (requests asking current asked-rows))
        (others {t = waiting} [] refl refl refl tt))
      (decides 5 body owner look)

untouched : IsUntouched rows
untouched = record { empty = refl; silent = tt }

projection-replays_example :
    (decision_at decided.approvals 5 ≡ replay_events 8 5 decided.events none)
    × ((a : Approval)
        → get decided.approvals 5 ≡ some a
        → validate_request_event json hash decided.events a ≡ true)
unfolding decided asked replay_events validate_request_event find_request requested_of
    matches_request
projection-replays_example = projection-replays json hash body_digest decided_steps untouched 5

policy : ApprovalPolicy
policy = record { required_grant_from = some "ok"; action_type = some git_integrate }

abbrev merge : Dispatch
merge = record { channel = some 5; node_id = "merge"; context = context }

granted : protect json hash (some policy) merge 30 decided ≡ true
unfolding asked request_approval ensure_requested validate_request_event find_request requested_of
    matches_request decided decide answer_begun begin decide_fresh is_decidable protect check_grant
    is_granting policy
granted = refl

not_after_expiry : protect json hash (some policy) merge 60000011 decided ≡ false
unfolding asked request_approval ensure_requested validate_request_event find_request requested_of
    matches_request decided decide answer_begun begin decide_fresh is_decidable protect check_grant
    is_granting policy
not_after_expiry = refl

protect-IsGranted_example :
    (action : ActionType) × (policy.action_type ≡ some action)
    × IsGranted json hash "ok" action merge 30 decided
unfolding policy
protect-IsGranted_example =
    protect-IsGranted json hash body_digest policy "ok" merge 30 decided_steps untouched refl refl
      granted

decided_IsOwn : IsOwn decided.run.id decided.approvals
decided_IsOwn = Reach-IsOwn json hash body_digest decided_steps (λ id a h. cc)

settled-stays_example : get (expire_approvals json hash late decided).approvals 5 ≡ some approval_5
settled-stays_example =
    settled-stays json hash body_digest 5 approval_5 (next here (expires late)) decided_IsOwn
      decided_approval refl
