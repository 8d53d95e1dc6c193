-- ===== src/Validation/GraphIssues/Sound.antt =====
-- What a workflow is like about which `_graph_issues` reports nothing.
use mathlib.Core.List.{Memᴰ}
use jarvis_development.Prelude.{
  refl, true, ◌||◌, none, some, List, [], ◌∷◌, ◌≡◌, arith, String, string_eq, nat_eq, contains,
  Bool-cases, inl, inr, if◌then◌else◌, subst, sym, ◌∙◌, option_is,
}
use jarvis_development.Contracts.Workflow.{
  WorkflowNode, WorkflowEdge, WorkflowSpec, node_ids, node_at, distinct,
}
use jarvis_development.Worklist.Reach.{Reaches, here, step}
use jarvis_development.Graph.{adjacency_of, targets, reachable}
use jarvis_development.Graph.Laws.{successors, targets-adjacency_of, reachable_iff}
use jarvis_development.Validation.Protected.{set_union}
use jarvis_development.Validation.Protected.Grants.{contains-set_union}
use jarvis_development.Validation.Cycles.{acyclic_nodes}
use jarvis_development.Validation.Cycles.Order.{Leads, acyclic_nodes-acyclic}
use jarvis_development.Validation.GraphIssues.{
  graph_issues, terminal_reached, flip_edges, unbounded, is_finalize,
}
use jarvis_development.Validation.GraphIssues.Silent.{
  reached, ending, silent-nodes, silent-cycles, nodes_checks-node, node_checks-reached,
  node_checks-ending, cycle_issues-none,
}

-- The edges lead from a node to `last`.
pub data LeadsTo (edges : List WorkflowEdge) (last : String) : String → Type 0 where
  arrived : LeadsTo edges last last
  via :
      {u v : String}
      → contains (successors edges u) v ≡ true
      → LeadsTo edges last v
      → LeadsTo edges last u

successors-flip :
    (es : List WorkflowEdge) (u v : String)
    → contains (successors (flip_edges es) v) u ≡ true
    → contains (successors es u) v ≡ true
successors-flip [] u v h = h
successors-flip (e ∷ es) u v h = ground (
  arith,
  successors-flip es u v,
  string_eq.same_iff e.source u,
  string_eq.same_iff e.target v,
  string_eq.same_iff u u,
  string_eq.same_iff v v,
)

-- A walk against the edges is a walk along them, backwards.
walk_back :
    (edges : List WorkflowEdge) (last : String) {v : String}
    → Reaches (option_is none) (targets (adjacency_of (flip_edges edges))) last v
    → LeadsTo edges last v
walk_back edges last (here open_) = arrived
walk_back edges last (step {u = u} {v = v} back e open_) =
    via
      (successors-flip edges v u
        (subst (λ ts. contains ts v ≡ true) (targets-adjacency_of (flip_edges edges) u) e))
      (walk_back edges last back)

-- A finalize node of the workflow that a node leads to.
pub record Terminal (edges : List WorkflowEdge) (nodes : List WorkflowNode) (id : String)
    : Type 0 where
  pub last : WorkflowNode
  pub known : Memᴰ last nodes
  pub finalizes : is_finalize last.type ≡ true
  pub leads : LeadsTo edges last.id id

terminal_reached-Terminal :
    (edges : List WorkflowEdge) (nodes : List WorkflowNode) (id : String)
    → contains (terminal_reached (adjacency_of (flip_edges edges)) nodes) id ≡ true
    → Terminal edges nodes id
unfolding terminal_reached
terminal_reached-Terminal edges [] id h = ground arith
terminal_reached-Terminal edges (n ∷ ns) id h = elim (Bool-cases (is_finalize n.type)) [
  | inr other ↦ later (
      terminal_reached-Terminal edges ns id
        (subst (λ b. contains (if b then set_union rest mine else rest) id ≡ true) other h))
  | inl final ↦
      let both : (contains rest id || contains mine id) ≡ true =
        sym (contains-set_union rest mine id)
        ∙ subst (λ b. contains (if b then set_union rest mine else rest) id ≡ true) final h in
      elim (Bool-cases (contains rest id)) [
        | inl before ↦ later (terminal_reached-Terminal edges ns id before)
        | inr new ↦ record {
          last = n;
          known = Memᴰ.head refl;
          finalizes = final;
          leads = walk_back edges n.id (
              (reachable_iff (adjacency_of (flip_edges edges)) none n.id id).0
                (subst (λ b. (b || contains mine id) ≡ true) new both));
        }
      ]
]
  where
    rest : List String
    rest = terminal_reached (adjacency_of (flip_edges edges)) ns

    mine : List String
    mine = reachable (adjacency_of (flip_edges edges)) none n.id

    later : Terminal edges ns id → Terminal edges (n ∷ ns) id
    later t = record {
      last = t.last;
      known = Memᴰ.tail t.known;
      finalizes = t.finalizes;
      leads = t.leads;
    }

module _ (spec : WorkflowSpec) (quiet : graph_issues spec ≡ []) where
  checked_node :
      (id : String) {n : WorkflowNode}
      → node_at spec.nodes id ≡ some n
      → (contains (reached spec) id ≡ true) × (contains (ending spec) id ≡ true)
  checked_node id {n} found =
      let (own, same) =
        nodes_checks-node spec.edges (reached spec) (ending spec) spec.nodes id
          (silent-nodes spec quiet) found in
      (
        subst (λ x. contains (reached spec) x ≡ true) same
            (node_checks-reached spec.edges (reached spec) (ending spec) n own),
        subst (λ x. contains (ending spec) x ≡ true) same
            (node_checks-ending spec.edges (reached spec) (ending spec) n own),
      )

  -- If `_graph_issues` reports nothing, the entrypoint leads to every node of the workflow, and
  -- every node leads to a finalize node.
  pub graph_issues-connected :
      (id : String) {n : WorkflowNode}
      → node_at spec.nodes id ≡ some n
      → Reaches (option_is none) (targets (adjacency_of spec.edges)) spec.entrypoint id
        × Terminal spec.edges spec.nodes id
  graph_issues-connected id found =
      let (reach, final) = checked_node id found in
      (
        (reachable_iff (adjacency_of spec.edges) none spec.entrypoint id).0 reach,
        terminal_reached-Terminal spec.edges spec.nodes id final,
      )

  -- If `_graph_issues` reports nothing, and the ids of the nodes are distinct, no node leads back to
  -- itself by edges other than retry and iterate edges.
  pub graph_issues-acyclic :
      (id : String)
      → distinct (node_ids spec.nodes) ≡ true
      → contains (node_ids spec.nodes) id ≡ true
      → ¬ Leads (adjacency_of (unbounded spec.edges)) id id
  graph_issues-acyclic id once known =
      acyclic_nodes-acyclic (node_ids spec.nodes) (unbounded spec.edges) id once (
        cycle_issues-none (acyclic_nodes (node_ids spec.nodes) (unbounded spec.edges)).visited
          (node_ids spec.nodes) id (silent-cycles spec quiet) known)
