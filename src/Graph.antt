-- ===== src/Graph.antt =====
-- orchestrator/app/jarvis_orchestrator/workflows/validation.py: `_adjacency` and `_reachable`,
-- and `_branch_regions` of compiler.py, which repeats the second.
pub mod Laws
use jarvis_development.Prelude.{
  ℕ, Bool, false, Option, none, some, List, [], ◌∷◌, ◌++◌, String, string_eq, ◌==◌, if◌then◌else◌,
  Dict, get, get_or, put, keys, option_is,
}
use jarvis_development.Contracts.Workflow.{WorkflowEdge}
use jarvis_development.Worklist.{Walk, walk, start}
use jarvis_development.Worklist.Termination.{budget}

abbrev pub Adjacency : Type 0
Adjacency = Dict String (List String)

-- `result.setdefault(source, []).append(target)`
abbrev pub add_edge : Adjacency → String → String → Adjacency
add_edge adjacency source target = put adjacency source (get_or adjacency source [] ++ target ∷ [])

unfoldable pub adjacency_from : Adjacency → List WorkflowEdge → Adjacency
adjacency_from result [] = result
adjacency_from result (e ∷ es) = adjacency_from (add_edge result e.source e.target) es

-- `_adjacency`
unfoldable pub adjacency_of : List WorkflowEdge → Adjacency
unfolding adjacency_from
adjacency_of = adjacency_from []

-- `adjacency.get(node, ())`
abbrev pub targets : Adjacency → String → List String
targets adjacency node = get_or adjacency node []

abbrev pub no_result : String → List (Unit {0})
no_result node = []

-- The loop of `_reachable` when it ends. The set `reached` is `seen`; nothing is emitted.
unfoldable pub reach_walk : Adjacency → Option String → String → Walk String (Unit {0})
reach_walk adjacency stop source =
    let succ = targets adjacency in
    let blocked = option_is stop in
    walk blocked succ no_result (budget succ (keys adjacency)) (start blocked succ no_result source)

-- `_reachable(source, adjacency, stop=stop)`
unfoldable pub reachable : Adjacency → Option String → String → List String
unfolding reach_walk
reachable adjacency stop source = (reach_walk adjacency stop source).seen
