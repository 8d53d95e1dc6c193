-- ===== src/Validation/GraphIssues.antt =====
-- orchestrator/app/jarvis_orchestrator/workflows/validation.py: `_graph_issues`, the checks of
-- reachability, of routes, of cycles and of iterators. A specification that reaches it has passed
-- `validate_references`, so that every edge joins nodes of the workflow.
pub mod Silent
pub mod Sound
pub mod Routes
mod Tests
use Prim.Native.String.{compare}
use Prim.Native.Nat.{Ordering}
use jarvis_development.Prelude.{
  ℕ, zero, suc, ◌+◌, Bool, true, false, not, ◌&&◌, ◌||◌, Option, none, some, List, [], ◌∷◌, ◌++◌,
  String, string_eq, nat_eq, ◌==◌, ltb, is_some, length, any, filter, contains, option_is,
  if◌then◌else◌, Equal,
}
use jarvis_development.Contracts.Json.{ℤ, int_eq}
use jarvis_development.Contracts.Workflow.{
  WorkflowNodeType, task_dispatch, integrate, architect, fanout, finalize, WorkflowEdgeKind, always,
  on_result, retry, iterate, on_failure, WorkflowNode, WorkflowEdge, WorkflowSpec, node_ids,
  node_at, distinct,
}
use jarvis_development.Graph.{Adjacency, adjacency_of, targets, reachable}
use jarvis_development.Validation.Issue.{
  IssueCode, Issue, node_issue, edge_issue, graph_terminal_edges, graph_unreachable,
  graph_no_terminal, graph_unbounded_cycle, resource_graph_depth, routing_fallback,
  routing_priority, routing_fallback_condition, routing_unconditional_overlap, routing_condition,
  routing_unused_bound, cycle_progress, cycle_iteration_key, cycle_nonprogressing, cycle_task_bound,
}
use jarvis_development.Validation.Expression.{predicate_issues}
use jarvis_development.Validation.Cycles.{acyclic_nodes}
use jarvis_development.Validation.Protected.{report_unless, set_union}

-- `MAX_GRAPH_DEPTH`
abbrev pub max_graph_depth : ℕ
max_graph_depth = 500

-- `_BOUNDED`
abbrev pub is_bounded : WorkflowEdgeKind → Bool
is_bounded retry = true
is_bounded iterate = true
is_bounded kind = false

abbrev pub is_always : WorkflowEdgeKind → Bool
is_always always = true
is_always kind = false

abbrev pub is_finalize : WorkflowNodeType → Bool
is_finalize finalize = true
is_finalize type = false

-- An edge with its ends exchanged; `reverse` is the adjacency of these.
abbrev pub flip_edge : WorkflowEdge → WorkflowEdge
flip_edge e = record e { source = e.target; target = e.source }

abbrev pub flip_edges : List WorkflowEdge → List WorkflowEdge
flip_edges [] = []
flip_edges (e ∷ es) = flip_edge e ∷ flip_edges es

-- The set `terminal_reached`.
unfoldable pub terminal_reached : Adjacency → List WorkflowNode → List String
terminal_reached reverse [] = []
terminal_reached reverse (n ∷ ns) =
    let rest = terminal_reached reverse ns in
    if is_finalize n.type then set_union rest (reachable reverse none n.id) else rest

abbrev pub has_targets : Adjacency → String → Bool
has_targets adjacency id = elim (targets adjacency id) [ [] ↦ false | t ∷ ts ↦ true ]

abbrev pub terminal_edge_issues : Adjacency → List WorkflowNode → List Issue
terminal_edge_issues adjacency [] = []
terminal_edge_issues adjacency (n ∷ ns) =
    report_unless (not (is_finalize n.type && has_targets adjacency n.id))
      (node_issue graph_terminal_edges n.id)
    ++ terminal_edge_issues adjacency ns

abbrev pub outgoing : List WorkflowEdge → String → List WorkflowEdge
outgoing edges id = filter (λ e. e.source == id) edges

abbrev pub is_conditional : List WorkflowEdge → Bool
is_conditional es = ltb 1 (length es) || any (λ e. not (is_always e.kind)) es

abbrev pub priorities : List WorkflowEdge → List ℤ
priorities [] = []
priorities (e ∷ es) = let rest = priorities es in if not e.fallback then e.priority ∷ rest else rest

-- The chain of tests of one edge of a conditional node.
unfoldable pub edge_route_issues : WorkflowEdge → List Issue
edge_route_issues e =
    if e.fallback && (is_some e.when || (is_bounded e.kind || is_some e.retry_class))
    then edge_issue routing_fallback_condition e.id ∷ []
    else if not e.fallback && is_always e.kind
    then edge_issue routing_unconditional_overlap e.id ∷ []
    else if not e.fallback && (elim e.kind [ on_result ↦ true | _ ↦ false ] && not (is_some e.when))
    then edge_issue routing_condition e.id ∷ []
    else []

abbrev pub edges_route_issues : List WorkflowEdge → List Issue
edges_route_issues [] = []
edges_route_issues (e ∷ es) = edge_route_issues e ++ edges_route_issues es

unfoldable pub conditional_issues : String → List WorkflowEdge → List Issue
conditional_issues id es =
    report_unless (length (filter (λ e. e.fallback) es) == 1) (node_issue routing_fallback id)
    ++ report_unless (distinct (priorities es)) (node_issue routing_priority id)
    ++ edges_route_issues es

-- `node.type in {FANOUT, FINALIZE} or not outgoing`, or the node is not conditional
abbrev pub is_routed : WorkflowNodeType → List WorkflowEdge → Bool
is_routed fanout es = false
is_routed finalize es = false
is_routed type [] = false
is_routed type (e ∷ es) = is_conditional (e ∷ es)

-- The body of the second loop over the nodes.
unfoldable pub node_checks :
    List WorkflowEdge → List String → List String → WorkflowNode → List Issue
node_checks edges reached terminal n =
    report_unless (contains reached n.id) (node_issue graph_unreachable n.id)
    ++ report_unless (contains terminal n.id) (node_issue graph_no_terminal n.id)
    ++ (if is_routed n.type (outgoing edges n.id)
        then conditional_issues n.id (outgoing edges n.id)
        else [])

abbrev pub nodes_checks :
    List WorkflowEdge → List String → List String → List WorkflowNode → List Issue
nodes_checks edges reached terminal [] = []
nodes_checks edges reached terminal (n ∷ ns) =
    node_checks edges reached terminal n ++ nodes_checks edges reached terminal ns

-- `sorted(set(nodes) - acyclic)`
abbrev pub comes_first : String → String → Bool
comes_first a b = elim (compare a b) [ Ordering.gt ↦ false | _ ↦ true ]

abbrev pub insert_name : String → List String → List String
insert_name id [] = id ∷ []
insert_name id (x ∷ xs) = if comes_first id x then id ∷ x ∷ xs else x ∷ insert_name id xs

abbrev pub sorted_without : List String → List String → List String
sorted_without acyclic [] = []
sorted_without acyclic (id ∷ ids) =
    let rest = sorted_without acyclic ids in
    if contains acyclic id then rest else insert_name id rest

abbrev pub cycle_issues : List String → List Issue
cycle_issues [] = []
cycle_issues (id ∷ ids) = node_issue graph_unbounded_cycle id ∷ cycle_issues ids

-- The edges without a bound: `edge.kind not in _BOUNDED`.
abbrev pub unbounded : List WorkflowEdge → List WorkflowEdge
unbounded es = filter (λ e. not (is_bounded e.kind)) es

abbrev pub type_is : (WorkflowNodeType → Bool) → List WorkflowNode → String → Bool
type_is p nodes id = elim (node_at nodes id) [ none ↦ false | some n ↦ p n.type ]

abbrev pub is_integrate : WorkflowNodeType → Bool
is_integrate integrate = true
is_integrate type = false

abbrev pub is_dispatch : WorkflowNodeType → Bool
is_dispatch task_dispatch = true
is_dispatch type = false

abbrev pub is_architect : WorkflowNodeType → Bool
is_architect architect = true
is_architect type = false

abbrev pub is_iterate : WorkflowEdgeKind → Bool
is_iterate iterate = true
is_iterate kind = false

-- `without_progress`
abbrev pub without_progress : WorkflowSpec → List WorkflowEdge
without_progress spec =
    filter
      (λ e.
        not (type_is is_integrate spec.nodes e.source)
        && not (type_is is_integrate spec.nodes e.target))
      spec.edges

abbrev pub or_zero : Option ℕ → ℕ
or_zero none = 0
or_zero (some n) = n

abbrev pub task_bound_issues : WorkflowEdge → List WorkflowNode → List Issue
task_bound_issues e [] = []
task_bound_issues e (n ∷ ns) =
    report_unless (not (is_architect n.type && ltb (or_zero e.max_iterations) n.config.max_tasks))
      (record { code = cycle_task_bound; node_id = some n.id; edge_id = some e.id })
    ++ task_bound_issues e ns

-- `edge.iteration_key in iteration_keys`; the set holds texts, so that `None` is never in it.
abbrev pub key_used : Option String → List String → Bool
key_used none used = false
key_used (some key) used = contains used key

abbrev pub text_or_empty : Option String → String
text_or_empty none = ""
text_or_empty (some text) = text

-- The branch of an iterate edge, in the last loop.
unfoldable pub iterate_checks : WorkflowSpec → List String → WorkflowEdge → List Issue
iterate_checks spec used e =
    report_unless
      (type_is is_dispatch spec.nodes e.source
        && option_is e.progress_path "$.tasks.terminal_count")
      (edge_issue cycle_progress e.id)
    ++ report_unless (not (key_used e.iteration_key used)) (edge_issue cycle_iteration_key e.id)
    ++ report_unless
        (not (contains (reachable (adjacency_of (without_progress spec)) none e.target) e.source))
        (edge_issue cycle_nonprogressing e.id)
    ++ task_bound_issues e spec.nodes

abbrev pub when_issues : WorkflowEdge → List Issue
when_issues e = elim e.when [ none ↦ [] | some p ↦ predicate_issues p e.id ]

abbrev pub takes_class : WorkflowEdgeKind → Bool
takes_class retry = true
takes_class on_failure = true
takes_class kind = false

-- `unused_iteration or unused_failure_class`
abbrev pub unused_bound : WorkflowEdge → Bool
unused_bound e =
    (not (is_iterate e.kind)
      && (is_some e.iteration_key || (is_some e.progress_path || is_some e.max_iterations)))
    || (not (takes_class e.kind) && is_some e.retry_class)

-- The last loop, with the set `iteration_keys`.
unfoldable pub edges_checks : WorkflowSpec → List String → List WorkflowEdge → List Issue
unfolding iterate_checks
edges_checks spec used [] = []
edges_checks spec used (e ∷ es) =
    let used' = if is_iterate e.kind then text_or_empty e.iteration_key ∷ used else used in
    when_issues e
    ++ (if is_iterate e.kind then iterate_checks spec used e else [])
    ++ report_unless (not (unused_bound e)) (edge_issue routing_unused_bound e.id)
    ++ edges_checks spec used' es

-- `_graph_issues`
unfoldable pub graph_issues : WorkflowSpec → List Issue
unfolding terminal_reached edges_checks node_checks
graph_issues spec =
    let adjacency = adjacency_of spec.edges in
    let reached = reachable adjacency none spec.entrypoint in
    let terminal = terminal_reached (adjacency_of (flip_edges spec.edges)) spec.nodes in
    let kahn = acyclic_nodes (node_ids spec.nodes) (unbounded spec.edges) in
    terminal_edge_issues adjacency spec.nodes
    ++ nodes_checks spec.edges reached terminal spec.nodes
    ++ cycle_issues (sorted_without kahn.visited (node_ids spec.nodes))
    ++ report_unless (not (ltb max_graph_depth kahn.depth))
        (record { code = resource_graph_depth; node_id = none; edge_id = none })
    ++ edges_checks spec [] spec.edges
