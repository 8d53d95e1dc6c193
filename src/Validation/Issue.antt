-- ===== src/Validation/Issue.antt =====
-- `WorkflowIssue` of packages/contracts/src/jarvis_contracts/workflow_api.py: the code that a
-- check reports and the node or edge that it is addressed to; messages are left out.
use jarvis_development.Prelude.{Option, some, none, String}

pub data IssueCode : Type 0 where
  security_verification_bypass security_review_bypass : IssueCode
  security_approval_bypass security_stale_approval : IssueCode
  graph_terminal_edges graph_unreachable graph_no_terminal graph_unbounded_cycle : IssueCode
  resource_graph_depth routing_fallback routing_priority routing_fallback_condition : IssueCode
  routing_unconditional_overlap routing_condition routing_unused_bound : IssueCode
  predicate_limit predicate_path predicate_value : IssueCode
  fanout_children fanout_join fanout_edges fanout_child fanout_overlap fanout_cycle : IssueCode
  fanout_nested fanout_scalar_write fanout_verification fanout_escape : IssueCode
  fanout_external_entry fanout_reentry fanout_join_entry fanout_orphan_join : IssueCode
  cycle_progress cycle_iteration_key cycle_nonprogressing cycle_task_bound : IssueCode
  -- Not a code of the source: it marks the `KeyError` of `nodes[id]` on an unknown id.
  key_error : IssueCode

pub record Issue : Type 0 where
  pub code : IssueCode
  pub node_id : Option String
  pub edge_id : Option String

abbrev pub node_issue : IssueCode → String → Issue
node_issue code node = record { code = code; node_id = some node; edge_id = none }

abbrev pub edge_issue : IssueCode → String → Issue
edge_issue code edge = record { code = code; node_id = none; edge_id = some edge }
