-- ===== src/Validation/Policy.antt =====
-- validation.py: the node type sets and `effective_policy`.
use jarvis_development.Prelude.{Bool, true, false, Option, none, some, ◌||◌}
use jarvis_development.Contracts.Workflow.{
  WorkflowNodeType, organizer, architect, worker, verify, reviewer, integrate, github_publish,
  NodePolicy, WorkflowNode, WorkflowSpec, ActionType, github_push_and_pr, git_integrate,
  worker_execute,
}

-- `_MODEL_NODES`
abbrev pub is_model_node : WorkflowNodeType → Bool
is_model_node organizer = true
is_model_node architect = true
is_model_node reviewer = true
is_model_node _ = false

abbrev pub is_worker : WorkflowNodeType → Bool
is_worker worker = true
is_worker _ = false

abbrev pub is_verify : WorkflowNodeType → Bool
is_verify verify = true
is_verify _ = false

abbrev pub is_reviewer : WorkflowNodeType → Bool
is_reviewer reviewer = true
is_reviewer _ = false

-- `_WORKER_NODES`
abbrev pub is_worker_node : WorkflowNodeType → Bool
is_worker_node t = is_worker t || is_verify t

-- `_ACTION_TYPES.get(type)`
abbrev pub action_of : WorkflowNodeType → Option ActionType
action_of worker = some worker_execute
action_of integrate = some git_integrate
action_of github_publish = some github_push_and_pr
action_of _ = none

-- `values.update(...)` at one field: a value that the node sets replaces the default.
abbrev pub overlay {ℓ} : {A : Type ℓ} → Option A → Option A → Option A
overlay none default = default
overlay (some a) default = some a

abbrev pub keep_if {ℓ} : {A : Type ℓ} → Bool → Option A → Option A
keep_if true o = o
keep_if false o = none

abbrev is_action_node : WorkflowNodeType → Bool
is_action_node t = elim (action_of t) [ none ↦ false | some a ↦ true ]

unfoldable pub effective_policy : WorkflowSpec → WorkflowNode → NodePolicy
effective_policy spec node = record {
  worker_selector =
      overlay p.worker_selector (keep_if (is_worker_node node.type) d.worker_selector);
  model_route_ref =
      overlay p.model_route_ref
        (keep_if (is_model_node node.type || is_worker node.type) d.model_route_ref);
  retry_policy_ref = overlay p.retry_policy_ref d.retry_policy_ref;
  permission_policy_ref = overlay p.permission_policy_ref d.permission_policy_ref;
  verification = overlay p.verification (keep_if (is_worker_node node.type) d.verification);
  approval_policy =
      overlay p.approval_policy (keep_if (is_action_node node.type) d.approval_policy);
  timeout_seconds = overlay p.timeout_seconds d.timeout_seconds;
  max_concurrency = overlay p.max_concurrency d.max_concurrency;
  accepts_instructions =
      overlay p.accepts_instructions (overlay d.accepts_instructions (some false));
}
  where
    open spec use {defaults as d}
    open node use {policy as p}
