-- ===== src/Routing/Targets.antt =====
-- `_choose_route` never leaves the edges of its node.
use jarvis_development.Prelude.{
  Bool, true, Option, none, some, List, [], ◌∷◌, ◌≡◌, inl, inr, String, string_eq, contains, arith,
  find?, Bool-cases, contains-head, contains-tail,
}
use jarvis_development.Contracts.Json.{Fields}
use jarvis_development.Contracts.Workflow.{
  WorkflowEdge, WorkflowEdgeKind, WorkflowNode, WorkflowSpec, retry, iterate,
}
use jarvis_development.Routing.{
  Counters, Revision, Route, routed, failed, iterate_route, retry_route, take_edge, skips,
  route_from, choose_route,
}

abbrev pub edge_targets : List WorkflowEdge → List String
edge_targets [] = []
edge_targets (e ∷ es) = e.target ∷ edge_targets es

-- A route's target is one of the given ones.
abbrev pub StaysIn : List String → Route → Type 0
StaysIn ts (routed t charges) = contains ts t ≡ true
StaysIn ts (failed e) = Unit

-- The fallback, where there is one, leads to one of the given targets.
abbrev FallbackIn : List String → Option WorkflowEdge → Type 0
FallbackIn ts none = Unit
FallbackIn ts (some f) = contains ts f.target ≡ true

find?-FallbackIn :
    (p : WorkflowEdge → Bool) (es : List WorkflowEdge) → FallbackIn (edge_targets es) (find? p es)
find?-FallbackIn p [] = tt
find?-FallbackIn p (e ∷ es) = elim (Bool-cases (p e)) [
  | inl hit ↦ rw hit (contains-head e.target (edge_targets es))
  | inr miss ↦ rw miss (widen (find? p es) (find?-FallbackIn p es))
]
  where
    widen :
        (o : Option WorkflowEdge)
        → FallbackIn (edge_targets es) o
        → FallbackIn (e.target ∷ edge_targets es) o
    widen none h = tt
    widen (some f) h = contains-tail e.target f.target (edge_targets es) h

module _ (spec : WorkflowSpec) (revisions : List Revision) (node : WorkflowNode)
    (fallback : Option WorkflowEdge) (state : Fields) (counters : Counters) (ts : List String)
    (back : FallbackIn ts fallback) where
  take_edge-StaysIn :
      (kind : WorkflowEdgeKind) (e : WorkflowEdge)
      → contains ts e.target ≡ true
      → StaysIn ts (take_edge spec revisions node fallback state counters kind e)
  unfolding take_edge retry_route iterate_route
  take_edge-StaysIn retry e h = ground arith
  take_edge-StaysIn iterate e h = ground arith
  take_edge-StaysIn kind e h = h

  route_from-StaysIn :
      (es : List WorkflowEdge)
      → ((t : String) → contains (edge_targets es) t ≡ true → contains ts t ≡ true)
      → StaysIn ts (route_from spec revisions node fallback state counters es)
  unfolding route_from
  route_from-StaysIn [] within = ground arith
  route_from-StaysIn (e ∷ es) within =
      elim (Bool-cases (skips spec revisions node fallback state counters e)) [
        | inl skip ↦
            rw skip (
              route_from-StaysIn es
                (λ t m. within t (contains-tail e.target t (edge_targets es) m)))
        | inr taken ↦ rw taken (
            take_edge-StaysIn e.kind e (within e.target (contains-head e.target (edge_targets es))))
      ]

-- The target that `_choose_route` returns is the target of one of the node's edges.
pub choose_route-StaysIn :
    (spec : WorkflowSpec) (revisions : List Revision) (node : WorkflowNode)
    (edges : List WorkflowEdge) (state : Fields) (counters : Counters)
    → StaysIn (edge_targets edges) (choose_route spec revisions node edges state counters)
unfolding choose_route
choose_route-StaysIn spec revisions node edges state counters =
    route_from-StaysIn spec revisions node (find? (λ e. e.fallback) edges) state counters
      (edge_targets edges) (find?-FallbackIn (λ e. e.fallback) edges) edges (λ t m. m)
