-- ===== src/Validation/GraphIssues/Tests.antt =====
-- A workflow with a retried worker, and one with a cycle that no bound ends.
use jarvis_development.Prelude.{
  true, none, some, [], ◌∷◌, ◌≡◌, refl, string_eq, option_is, ◌↔◌, leb, ◌&&◌,
}
use jarvis_development.Contracts.Failures.{code_test_failure}
use jarvis_development.Contracts.Json.{pos, null, int, str, end}
use jarvis_development.Contracts.Workflow.{
  worker, verify, finalize, retry, WorkflowSpec, Predicate, predicate, Arguments, and_all, eq, lt,
}
use jarvis_development.Worklist.{walk, round, start}
use jarvis_development.Worklist.Termination.{budget}
use jarvis_development.Worklist.Reach.{Reaches}
use jarvis_development.Graph.{adjacency_of, targets, reachable}
use jarvis_development.Routing.Dispatch.{invoke_route}
use jarvis_development.Validation.Issue.{
  node_issue, edge_issue, graph_unbounded_cycle, predicate_path,
}
use jarvis_development.Validation.Sample.{bare_policy, node, edge}
use jarvis_development.Validation.Expression.{predicate_issues}
use jarvis_development.Validation.Expression.Limits.{fits, size, predicate_issues-silent_iff}
use jarvis_development.Validation.Cycles.{acyclic_nodes}
use jarvis_development.Validation.Cycles.Order.{Leads}
use jarvis_development.Validation.Cycles.Ends.{acyclic_nodes-ends}
use jarvis_development.Validation.GraphIssues.{
  graph_issues, unbounded, conditional_issues, edge_route_issues,
}
use jarvis_development.Validation.GraphIssues.Sound.{
  Terminal, graph_issues-connected, graph_issues-acyclic,
}
use jarvis_development.Validation.GraphIssues.Routes.{goes_on, graph_issues-goes_on}

abbrev retried : WorkflowSpec
retried = record {
  entrypoint = "w";
  defaults = bare_policy;
  nodes = node "w" worker ∷ node "v" verify ∷ node "end" finalize ∷ [];
  edges =
      edge "e1" "w" "v"
      ∷ record (edge "e2" "v" "w") { kind = retry; retry_class = some code_test_failure }
      ∷ record (edge "e3" "v" "end") { fallback = true }
      ∷ [];
}

abbrev endless : WorkflowSpec
endless = record retried {
  edges =
      edge "e1" "w" "v"
      ∷ record (edge "e2" "v" "w") { fallback = true }
      ∷ record (edge "e3" "v" "end") { kind = retry; retry_class = some code_test_failure }
      ∷ [];
}

retried_quiet : graph_issues retried ≡ []
unfolding graph_issues adjacency_of reachable walk budget start round conditional_issues
    edge_route_issues acyclic_nodes
retried_quiet = refl

endless_cycle :
    graph_issues endless
    ≡ node_issue graph_unbounded_cycle "v" ∷ node_issue graph_unbounded_cycle "w" ∷ []
unfolding graph_issues adjacency_of reachable walk budget start round conditional_issues
    edge_route_issues acyclic_nodes
endless_cycle = refl

graph_issues-connected_example :
    Reaches (option_is none) (targets (adjacency_of retried.edges)) "w" "v"
    × Terminal retried.edges retried.nodes "v"
graph_issues-connected_example = graph_issues-connected retried retried_quiet "v" refl

graph_issues-acyclic_example : ¬ Leads (adjacency_of (unbounded retried.edges)) "w" "w"
graph_issues-acyclic_example = graph_issues-acyclic retried retried_quiet "w" refl refl

-- A state in which no test failed, so that the verification falls back to the end.
graph_issues-goes_on_example : goes_on (invoke_route retried [] (node "v" verify) end []) ≡ true
graph_issues-goes_on_example =
    graph_issues-goes_on retried "v" [] end [] retried_quiet (refl, (refl, (refl, tt))) refl

acyclic_nodes-ends_example : (acyclic_nodes ("w" ∷ "v" ∷ "end" ∷ []) retried.edges).pending ≡ []
acyclic_nodes-ends_example = acyclic_nodes-ends ("w" ∷ "v" ∷ "end" ∷ []) retried.edges

abbrev either : Predicate
either = predicate and_all none null (
    Arguments.cons (predicate eq (some "$.outcome.status") (str "failed") Arguments.nil)
      (Arguments.cons (predicate lt (some "$.secret") (int (pos 2)) Arguments.nil) Arguments.nil))

either_issues : predicate_issues either "e1" ≡ edge_issue predicate_path "e1" ∷ []
unfolding predicate_issues
either_issues = refl

predicate_issues-silent_iff_example :
    (predicate_issues either "e1" ≡ []) ↔ ((fits either 1 && leb (size either) 64) ≡ true)
predicate_issues-silent_iff_example = predicate_issues-silent_iff either "e1"
