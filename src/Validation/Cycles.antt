-- ===== src/Validation/Cycles.antt =====
-- orchestrator/app/jarvis_orchestrator/workflows/validation.py: `_acyclic_nodes`, the nodes that no
-- cycle leads to, by removing nodes without incoming edges.
pub mod Counts
pub mod Order
pub mod Ends
use jarvis_development.Prelude.{
  ℕ, zero, suc, ◌+◌, ◌-◌, Bool, true, false, Option, none, some, List, [], ◌∷◌, ◌++◌, String,
  string_eq, nat_eq, ◌==◌, Dict, get_or, put, max, length, if◌then◌else◌,
}
use jarvis_development.Contracts.Workflow.{WorkflowEdge}
use jarvis_development.Graph.{Adjacency, adjacency_of, targets}

-- The variables of the loop. Counts in `indegree` that Python lets fall below zero stay at zero
-- here: neither kind is ever pushed. `visited` is in reverse order.
pub record Kahn : Type 0 where
  pub pending : List (String × ℕ)
  pub indegree : Dict String ℕ
  pub visited : List String
  pub distances : Dict String ℕ
  pub depth : ℕ

-- `Counter(...)` over one list of targets, and over all of `adjacency.values()`.
abbrev pub count_targets : Dict String ℕ → List String → Dict String ℕ
count_targets counts [] = counts
count_targets counts (t ∷ ts) = count_targets (put counts t (get_or counts t 0 + 1)) ts

abbrev pub indegree_from : Dict String ℕ → Adjacency → Dict String ℕ
indegree_from counts [] = counts
indegree_from counts ((source, ts) ∷ rest) = indegree_from (count_targets counts ts) rest

unfoldable pub indegrees : Adjacency → Dict String ℕ
indegrees = indegree_from []

-- `deque((node, 1) for node in nodes if indegree[node] == 0)`
abbrev pub roots : Dict String ℕ → List String → List (String × ℕ)
roots indegree [] = []
roots indegree (n ∷ ns) =
    let rest = roots indegree ns in if get_or indegree n 0 == 0 then (n, 1) ∷ rest else rest

-- The body of `for target in adjacency.get(node, ())`.
unfoldable pub relax_one : ℕ → String → Kahn → Kahn
relax_one level t w =
    let distance = max (get_or w.distances t 1) (level + 1) in
    record w {
      indegree = put w.indegree t (get_or w.indegree t 0 - 1);
      distances = put w.distances t distance;
      pending = if get_or w.indegree t 0 == 1 then w.pending ++ (t, distance) ∷ [] else w.pending;
    }

unfoldable pub relax : ℕ → List String → Kahn → Kahn
unfolding relax_one
relax level [] w = w
relax level (t ∷ ts) w = relax level ts (relax_one level t w)

-- `while pending:` for at most `fuel` rounds.
unfoldable pub kahn_walk : Adjacency → ℕ → Kahn → Kahn
unfolding relax
kahn_walk adjacency zero w = w
kahn_walk adjacency (suc fuel) w = elim w.pending [
  | [] ↦ w
  | (node, level) ∷ rest ↦ kahn_walk adjacency fuel (
      relax level (targets adjacency node)
        (record w { pending = rest; visited = node ∷ w.visited; depth = max w.depth level }))
]

unfoldable pub kahn_start : Adjacency → List String → Kahn
unfolding indegrees
kahn_start adjacency nodes = record {
  pending = roots (indegrees adjacency) nodes;
  indegree = indegrees adjacency;
  visited = [];
  distances = [];
  depth = 0;
}

abbrev pub sum_counts : Dict String ℕ → ℕ
sum_counts [] = 0
sum_counts ((t, n) ∷ counts) = n + sum_counts counts

-- A round for each node, and one for each edge.
abbrev pub kahn_fuel : Adjacency → List String → ℕ
kahn_fuel adjacency nodes = length nodes + sum_counts (indegrees adjacency)

-- `_acyclic_nodes` when its loop ends; it returns `visited` and `depth`.
unfoldable pub acyclic_nodes : List String → List WorkflowEdge → Kahn
unfolding kahn_walk kahn_start adjacency_of
acyclic_nodes nodes edges =
    let adjacency = adjacency_of edges in
    kahn_walk adjacency (kahn_fuel adjacency nodes) (kahn_start adjacency nodes)
