-- ===== src/Validation/Sample.antt =====
-- A small workflow for the tests: a worker, its verification and review, an approval and a
-- publication; a second version goes from the worker straight to the approval.
use jarvis_development.Prelude.{true, false, none, some, List, [], ◌∷◌, String}
use jarvis_development.Contracts.Json.{pos}
use jarvis_development.Contracts.Workflow.{
  WorkflowNodeType, worker, verify, reviewer, approval, github_publish, finalize, always,
  github_push_and_pr, derive, NodePolicy, NodeConfig, WorkflowNode, WorkflowEdge, WorkflowSpec,
}

abbrev pub bare_policy : NodePolicy
bare_policy = record {
  worker_selector = none;
  model_route_ref = none;
  retry_policy_ref = none;
  permission_policy_ref = none;
  verification = some (record { required = true; profile_revision_ids = [] });
  approval_policy = none;
  timeout_seconds = none;
  max_concurrency = none;
  accepts_instructions = none;
}

abbrev pub bare_config : NodeConfig
bare_config = record {
  max_tasks = 1;
  children = [];
  join_id = "join";
  max_fanout = 8;
  fanout_id = "fanout";
  granted_action = github_push_and_pr;
  outcome = derive;
}

abbrev pub node : String → WorkflowNodeType → WorkflowNode
node id type = record { id = id; type = type; config = bare_config; policy = bare_policy }

abbrev pub publish_policy : NodePolicy
publish_policy = record bare_policy {
  verification = none;
  approval_policy =
      some (record { required_grant_from = some "ok"; action_type = some github_push_and_pr });
}

abbrev pub edge : String → String → String → WorkflowEdge
edge id source target = record {
  id = id;
  source = source;
  target = target;
  kind = always;
  when = none;
  priority = pos 0;
  fallback = false;
  retry_class = none;
  iteration_key = none;
  progress_path = none;
  max_iterations = none;
}

abbrev pub sample_nodes : List WorkflowNode
sample_nodes =
    node "w" worker
    ∷ node "v" verify
    ∷ node "r" reviewer
    ∷ node "ok" approval
    ∷ record (node "p" github_publish) { policy = publish_policy }
    ∷ node "end" finalize
    ∷ []

abbrev pub sample_edges : List WorkflowEdge
sample_edges =
    edge "e1" "w" "v"
    ∷ edge "e2" "v" "r"
    ∷ edge "e3" "r" "ok"
    ∷ edge "e4" "ok" "p"
    ∷ edge "e5" "p" "end"
    ∷ []

abbrev pub sample : WorkflowSpec
sample = record {
  entrypoint = "w";
  defaults = bare_policy;
  nodes = sample_nodes;
  edges = sample_edges;
}

-- With an edge from the worker straight to the approval.
abbrev pub shortcut : WorkflowSpec
shortcut = record sample { edges = edge "e0" "w" "ok" ∷ sample_edges }
