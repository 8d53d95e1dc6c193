-- ===== src/Routing/Dispatch.antt =====
-- orchestrator/app/jarvis_orchestrator/workflows/compiler.py: the edges that `compile_workflow`
-- gives `_choose_route`, and when its node function calls it.
pub mod Found
use Prim.Native.String.{compare}
use Prim.Native.Nat.{Ordering}
use jarvis_development.Prelude.{
  ℕ, ◌+◌, Bool, true, false, not, ◌&&◌, ◌||◌, Option, none, some, List, [], ◌∷◌, String, string_eq,
  ◌==◌, filter, ltb, if◌then◌else◌,
}
use jarvis_development.Contracts.Json.{Fields, ℤ, pos_part, neg_part}
use jarvis_development.Contracts.Workflow.{
  WorkflowNodeType, fanout, WorkflowNode, WorkflowEdge, WorkflowSpec,
}
use jarvis_development.Routing.{Counters, Revision, Route, choose_route}

-- `<` on integers
abbrev pub int_lt : ℤ → ℤ → Bool
int_lt m n = ltb (pos_part m + neg_part n) (pos_part n + neg_part m)

abbrev pub name_after : String → String → Bool
name_after a b = elim (compare a b) [ Ordering.gt ↦ true | _ ↦ false ]

-- Whether the key `(priority, id)` of the first edge is larger than that of the second.
abbrev pub sorts_after : WorkflowEdge → WorkflowEdge → Bool
sorts_after a b =
    int_lt b.priority a.priority || (not (int_lt a.priority b.priority) && name_after a.id b.id)

abbrev pub insert_edge : WorkflowEdge → List WorkflowEdge → List WorkflowEdge
insert_edge e [] = e ∷ []
insert_edge e (x ∷ xs) = if sorts_after e x then x ∷ insert_edge e xs else e ∷ x ∷ xs

abbrev pub sort_edges : List WorkflowEdge → List WorkflowEdge
sort_edges [] = []
sort_edges (e ∷ es) = insert_edge e (sort_edges es)

-- `outgoing[node.id]`
unfoldable pub sorted_outgoing : WorkflowSpec → String → List WorkflowEdge
sorted_outgoing spec id = sort_edges (filter (λ e. e.source == id) spec.edges)

abbrev pub is_fanout : WorkflowNodeType → Bool
is_fanout fanout = true
is_fanout type = false

-- The routing part of `invoke`: `none` where it does not choose a route. `state` is the state with
-- the node's update merged in, and `counters` are its counters.
unfoldable pub invoke_route :
    WorkflowSpec → List Revision → WorkflowNode → Fields → Counters → Option Route
unfolding sorted_outgoing
invoke_route spec revisions node state counters = elim (sorted_outgoing spec node.id) [
  | [] ↦ none
  | e ∷ es ↦
      if is_fanout node.type
      then none
      else some (choose_route spec revisions node (e ∷ es) state counters)
]
