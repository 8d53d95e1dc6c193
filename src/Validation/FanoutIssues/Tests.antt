-- ===== src/Validation/FanoutIssues/Tests.antt =====
-- Two parallel workers between a fanout and its join.
use jarvis_development.Prelude.{none, [], ◌∷◌, ◌≡◌, refl, string_eq}
use jarvis_development.Contracts.Workflow.{
  fanout, join, worker, finalize, WorkflowNode, WorkflowSpec,
}
use jarvis_development.Worklist.{walk, round, start}
use jarvis_development.Worklist.Termination.{budget}
use jarvis_development.Graph.{adjacency_of, reachable}
use jarvis_development.Validation.Policy.{effective_policy}
use jarvis_development.Validation.Sample.{bare_policy, bare_config, node, edge}
use jarvis_development.Validation.Cycles.{acyclic_nodes}
use jarvis_development.Validation.FanoutIssues.{fanout_issues, regions_of}
use jarvis_development.Validation.FanoutIssues.Disjoint.{IsDisjoint, fanout_issues-IsDisjoint}

abbrev splitting : WorkflowNode
splitting = record (node "split" fanout) {
  config = record bare_config { children = "a" ∷ "b" ∷ []; join_id = "join" };
}

abbrev joining : WorkflowNode
joining = record (node "join" join) { config = record bare_config { fanout_id = "split" } }

abbrev parallel : WorkflowSpec
parallel = record {
  entrypoint = "split";
  defaults = record bare_policy { verification = none };
  nodes =
      splitting
      ∷ record (node "a" worker) { policy = record bare_policy { verification = none } }
      ∷ record (node "b" worker) { policy = record bare_policy { verification = none } }
      ∷ joining
      ∷ node "end" finalize
      ∷ [];
  edges =
      edge "e1" "split" "a"
      ∷ edge "e2" "split" "b"
      ∷ edge "e3" "a" "join"
      ∷ edge "e4" "b" "join"
      ∷ edge "e5" "join" "end"
      ∷ [];
}

parallel_quiet : fanout_issues parallel ≡ []
unfolding fanout_issues reachable walk budget start adjacency_of round acyclic_nodes
    effective_policy
parallel_quiet = refl

fanout_issues-IsDisjoint_example : IsDisjoint (regions_of parallel splitting)
fanout_issues-IsDisjoint_example =
    fanout_issues-IsDisjoint parallel "split" parallel_quiet refl refl
