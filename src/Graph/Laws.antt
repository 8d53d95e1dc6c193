-- ===== src/Graph/Laws.antt =====
-- What `_adjacency` and `_reachable` compute.
use mathlib.Core.List.{append-nil, append_assoc}
use jarvis_development.Prelude.{
  true, List, [], ◌∷◌, ◌++◌, ◌≡◌, ◌↔◌, String, string_eq, ◌==◌, if◌then◌else◌, Option, option_is,
  keys, contains, get_or-missing, get_or-put, Bool-cases, inl, inr,
}
use jarvis_development.Contracts.Workflow.{WorkflowEdge}
use jarvis_development.Worklist.Reach.{Reaches, walk-Handled}
use jarvis_development.Graph.{
  Adjacency, add_edge, adjacency_from, adjacency_of, targets, no_result, reach_walk, reachable,
}

-- The targets of a node's edges, in the order of the edges.
abbrev pub successors : List WorkflowEdge → String → List String
successors [] u = []
successors (e ∷ es) u =
    let rest = successors es u in if e.source == u then e.target ∷ rest else rest

targets-adjacency_from :
    (es : List WorkflowEdge) (adjacency : Adjacency) (u : String)
    → targets (adjacency_from adjacency es) u ≡ targets adjacency u ++ successors es u
unfolding adjacency_from
targets-adjacency_from [] adjacency u = rw append-nil
targets-adjacency_from (e ∷ es) adjacency u =
    rw (targets-adjacency_from es (add_edge adjacency e.source e.target) u)
      (elim (Bool-cases (e.source == u)) [
        | inl same ↦
            rw (get_or-put, same, (string_eq.same_iff e.source u).0 same)
              (append_assoc (targets adjacency u) (e.target ∷ []) (successors es u))
        | inr other ↦ rw (get_or-put, other)
      ])

-- A node's entry of the adjacency map lists the targets of its edges, in order.
pub targets-adjacency_of :
    (es : List WorkflowEdge) (u : String) → targets (adjacency_of es) u ≡ successors es u
unfolding adjacency_of
targets-adjacency_of es u = targets-adjacency_from es [] u

-- `_reachable` returns exactly the nodes that a walk avoiding `stop` leads to.
pub reachable_iff :
    (adjacency : Adjacency) (stop : Option String) (source v : String)
    → (contains (reachable adjacency stop source) v ≡ true)
      ↔ Reaches (option_is stop) (targets adjacency) source v
unfolding reachable reach_walk
reachable_iff adjacency stop source v =
    (walk-Handled (option_is stop) (targets adjacency) no_result source (keys adjacency)
        (λ u missing. get_or-missing adjacency u [] missing)).exact
      v
