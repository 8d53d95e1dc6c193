-- ===== src/Validation/Cycles/Ends.antt =====
-- The loop of `_acyclic_nodes` ends.
use jarvis_development.Prelude.{
  ℕ, zero, suc, ◌+◌, ◌-◌, ◌≤◌, List, [], ◌∷◌, ◌≡◌, refl, arith, String, string_eq, nat_eq, Dict,
  get_or, put, max, length, length-append, ap,
}
use jarvis_development.Contracts.Workflow.{WorkflowEdge}
use jarvis_development.Graph.{Adjacency, adjacency_of, targets}
use jarvis_development.Validation.Cycles.{
  Kahn, indegrees, roots, relax_one, relax, kahn_walk, kahn_start, kahn_fuel, acyclic_nodes,
  sum_counts,
}

sum-put :
    (d : Dict String ℕ) (k : String) (v : ℕ)
    → sum_counts (put d k v) + get_or d k 0 ≡ sum_counts d + v
sum-put [] k v = omega arith
sum-put ((j, w) ∷ d) k v = ground (arith, sum-put d k v)

-- The entries that are pending, and the edges that are not relaxed.
abbrev measure : Kahn → ℕ
measure w = length w.pending + sum_counts w.indegree

relax_one-measure : (level : ℕ) (t : String) (w : Kahn) → measure (relax_one level t w) ≤ measure w
unfolding relax_one
relax_one-measure level t w = ground (
  arith,
  sum-put w.indegree t (get_or w.indegree t 0 - 1),
  length-append w.pending ((t, max (get_or w.distances t 1) (level + 1)) ∷ []),
)

relax-measure : (level : ℕ) (ts : List String) (w : Kahn) → measure (relax level ts w) ≤ measure w
unfolding relax
relax-measure level [] w = omega arith
relax-measure level (t ∷ ts) w =
    omega (arith, relax-measure level ts (relax_one level t w), relax_one-measure level t w)

abbrev HasEnded : Kahn → Type 0
HasEnded w = w.pending ≡ []

module _ (adjacency : Adjacency) where
  kahn_walk-pending :
      (fuel : ℕ) (w : Kahn) → measure w ≤ fuel → (kahn_walk adjacency fuel w).pending ≡ []
  unfolding kahn_walk
  kahn_walk-pending zero w h = ground arith
  kahn_walk-pending (suc fuel) w h = by_pending (λ v k. kahn_walk-pending fuel v k) w.pending refl
    where
      by_pending :
          ((v : Kahn) → measure v ≤ fuel → (kahn_walk adjacency fuel v).pending ≡ [])
          → (q : List (String × ℕ)) → w.pending ≡ q
          → HasEnded (elim q [
            | [] ↦ w
            | (node, level) ∷ rest ↦ kahn_walk adjacency fuel (
                relax level (targets adjacency node) (record w {
                  pending = rest;
                  visited = node ∷ w.visited;
                  depth = max w.depth level;
                }))
          ])
      by_pending again [] p = p
      by_pending again ((node, level) ∷ rest) p =
          let popped : Kahn = record w {
            pending = rest;
            visited = node ∷ w.visited;
            depth = max w.depth level;
          } in
          again (relax level (targets adjacency node) popped)
            (omega (arith, relax-measure level (targets adjacency node) popped, ap length p))

length-roots :
    (indegree : Dict String ℕ) (nodes : List String) → length (roots indegree nodes) ≤ length nodes
length-roots indegree [] = omega arith
length-roots indegree (n ∷ ns) = ground (arith, length-roots indegree ns)

-- The loop of `_acyclic_nodes` ends with nothing pending, after at most one round for each node and
-- each edge.
pub acyclic_nodes-ends :
    (nodes : List String) (edges : List WorkflowEdge) → (acyclic_nodes nodes edges).pending ≡ []
unfolding acyclic_nodes kahn_start
acyclic_nodes-ends nodes edges =
    let adjacency = adjacency_of edges in
    kahn_walk-pending adjacency (kahn_fuel adjacency nodes) (kahn_start adjacency nodes)
      (omega (arith, length-roots (indegrees adjacency) nodes))
