-- ===== src/Validation/GraphIssues/Silent.antt =====
-- What follows for each node and each list when `_graph_issues` reports nothing.
use jarvis_development.Prelude.{
  true, false, ◌&&◌, none, some, List, [], ◌∷◌, ◌≡◌, arith, String, string_eq, contains,
  append-eq_nil, if◌then◌else◌, length, filter, nat_eq,
}
use jarvis_development.Contracts.Workflow.{
  WorkflowNode, WorkflowEdge, WorkflowSpec, node_ids, node_at,
}
use jarvis_development.Graph.{Adjacency, adjacency_of, reachable}
use jarvis_development.Validation.Cycles.{acyclic_nodes}
use jarvis_development.Validation.GraphIssues.{
  node_checks, nodes_checks, terminal_reached, flip_edges, unbounded, cycle_issues, sorted_without,
  insert_name, graph_issues, is_routed, outgoing, conditional_issues, terminal_edge_issues,
  is_finalize, has_targets,
}

module _ (spec : WorkflowSpec) where
  abbrev pub reached : List String
  reached = reachable (adjacency_of spec.edges) none spec.entrypoint

  abbrev pub ending : List String
  ending = terminal_reached (adjacency_of (flip_edges spec.edges)) spec.nodes

  pub silent-nodes : graph_issues spec ≡ [] → nodes_checks spec.edges reached ending spec.nodes ≡ []
  unfolding graph_issues
  silent-nodes h =
      (append-eq_nil _ _ (append-eq_nil _ _ (append-eq_nil _ _ (append-eq_nil _ _ h).0).0).0).1

  pub silent-cycles :
      graph_issues spec ≡ []
      → cycle_issues (
          sorted_without
            (acyclic_nodes (node_ids spec.nodes) (unbounded spec.edges)).visited
            (node_ids spec.nodes))
        ≡ []
  unfolding graph_issues
  silent-cycles h = (append-eq_nil _ _ (append-eq_nil _ _ (append-eq_nil _ _ h).0).0).1

module _ (edges : List WorkflowEdge) (reach terminal : List String) where
  pub nodes_checks-node :
      (ns : List WorkflowNode) (id : String) {n : WorkflowNode}
      → nodes_checks edges reach terminal ns ≡ []
      → node_at ns id ≡ some n
      → (node_checks edges reach terminal n ≡ []) × (n.id ≡ id)
  nodes_checks-node [] id h e = cc
  nodes_checks-node (x ∷ xs) id {n} h e =
      let (own, others) = append-eq_nil (node_checks edges reach terminal x) _ h in
      ground (arith, own, nodes_checks-node xs id {n = n} others, string_eq.same_iff x.id id)

  pub node_checks-reached :
      (n : WorkflowNode) → node_checks edges reach terminal n ≡ [] → contains reach n.id ≡ true
  unfolding node_checks
  node_checks-reached n h = ground arith

  pub node_checks-ending :
      (n : WorkflowNode) → node_checks edges reach terminal n ≡ [] → contains terminal n.id ≡ true
  unfolding node_checks
  node_checks-ending n h = ground arith

  -- A node with conditional routes has a fallback.
  pub node_checks-fallback :
      (n : WorkflowNode)
      → node_checks edges reach terminal n ≡ []
      → is_routed n.type (outgoing edges n.id) ≡ true
      → length (filter (λ e. e.fallback) (outgoing edges n.id)) ≡ 1
  unfolding node_checks conditional_issues
  node_checks-fallback n h routed = conditional_fallback (append-eq_nil _ _ h).1
    where
      conditional_fallback :
          (if is_routed n.type (outgoing edges n.id)
              then conditional_issues n.id (outgoing edges n.id)
              else [])
            ≡ []
          → length (filter (λ e. e.fallback) (outgoing edges n.id)) ≡ 1
      conditional_fallback k = ground (arith, k)

insert_name-nonempty : (id : String) (xs : List String) → cycle_issues (insert_name id xs) ≡ [] → ⊥
insert_name-nonempty id [] h = cc
insert_name-nonempty id (x ∷ xs) h = ground arith

-- Without a cycle issue every node is acyclic.
pub cycle_issues-none :
    (acyclic ids : List String) (id : String)
    → cycle_issues (sorted_without acyclic ids) ≡ []
    → contains ids id ≡ true
    → contains acyclic id ≡ true
cycle_issues-none acyclic [] id h e = ground arith
cycle_issues-none acyclic (x ∷ xs) id h e = ground (
  arith,
  cycle_issues-none acyclic xs id,
  insert_name-nonempty x (sorted_without acyclic xs),
  string_eq.same_iff x id,
)

module _ (spec : WorkflowSpec) where
  pub silent-terminals :
      graph_issues spec ≡ [] → terminal_edge_issues (adjacency_of spec.edges) spec.nodes ≡ []
  unfolding graph_issues
  silent-terminals h =
      (append-eq_nil _ _ (append-eq_nil _ _ (append-eq_nil _ _ (append-eq_nil _ _ h).0).0).0).0

pub terminal_edges-node :
    (adjacency : Adjacency) (ns : List WorkflowNode) (id : String) {n : WorkflowNode}
    → terminal_edge_issues adjacency ns ≡ []
    → node_at ns id ≡ some n
    → (is_finalize n.type && has_targets adjacency id) ≡ false
terminal_edges-node adjacency [] id h e = cc
terminal_edges-node adjacency (x ∷ xs) id {n} h e =
    ground (arith, terminal_edges-node adjacency xs id {n = n}, string_eq.same_iff x.id id)
