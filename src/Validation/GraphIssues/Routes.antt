-- ===== src/Validation/GraphIssues/Routes.antt =====
-- The validator and the compiler together: a workflow without graph issues always has a way on.
use jarvis_development.Prelude.{
  Bool, true, false, ◌&&◌, Option, none, some, List, [], ◌∷◌, ◌≡◌, refl, arith, String, string_eq,
  nat_eq, ◌==◌, Bool-cases, inl, inr, if◌then◌else◌, length, filter, any, subst, sym, ◌∙◌, All,
}
use jarvis_development.Contracts.Json.{Fields}
use jarvis_development.Contracts.Workflow.{
  WorkflowNode, WorkflowEdge, WorkflowSpec, WorkflowNodeType, WorkflowEdgeKind, always, fanout,
  finalize, node_at, validate_kind_fields,
}
use jarvis_development.Graph.{adjacency_of, targets}
use jarvis_development.Graph.Laws.{successors, targets-adjacency_of}
use jarvis_development.Routing.{Counters, Revision, Route, choose_route}
use jarvis_development.Routing.Dispatch.{sort_edges, sorted_outgoing, is_fanout, invoke_route}
use jarvis_development.Routing.Dispatch.Found.{
  has_way, any-sort_edges, choose_route-fallback, choose_route-single,
}
use jarvis_development.Validation.GraphIssues.{
  graph_issues, outgoing, is_routed, is_conditional, is_always, is_finalize, has_targets,
}
use jarvis_development.Validation.GraphIssues.Silent.{
  reached, ending, silent-nodes, silent-terminals, nodes_checks-node, node_checks-fallback,
  terminal_edges-node,
}

-- A route with a way on, or no choice of a route at all.
abbrev pub goes_on : Option Route → Bool
goes_on none = true
goes_on (some route) = has_way route

any-filter :
    (es : List WorkflowEdge)
    → length (filter (λ e. e.fallback) es) ≡ 1
    → any (λ e. e.fallback) es ≡ true
any-filter [] h = ground arith
any-filter (e ∷ es) h = ground (arith, any-filter es)

All-filter :
    (p : WorkflowEdge → Bool) (es : List WorkflowEdge)
    → All (λ e. validate_kind_fields e ≡ true) es
    → All (λ e. validate_kind_fields e ≡ true) (filter p es)
All-filter p [] h = tt
All-filter p (e ∷ es) (h, hs) = elim (Bool-cases (p e)) [
  | inl in_ ↦ rw in_ (h, All-filter p es hs)
  | inr out ↦ rw out (All-filter p es hs)
]

successors-none :
    (es : List WorkflowEdge) (id : String) → successors es id ≡ [] → outgoing es id ≡ []
successors-none [] id h = refl
successors-none (e ∷ es) id h = ground (arith, successors-none es id)

always_kind : (kind : WorkflowEdgeKind) → is_always kind ≡ true → kind ≡ always
always_kind kind h = ground arith

finalize_type : (type : WorkflowNodeType) → is_finalize type ≡ true → type ≡ finalize
finalize_type type h = ground arith

module _ (spec : WorkflowSpec) (revisions : List Revision) (n : WorkflowNode) (state : Fields)
    (counters : Counters) where
  -- What `invoke` does with the edges that leave the node.
  abbrev chosen : List WorkflowEdge → Option Route
  chosen es = elim (sort_edges es) [
    | [] ↦ none
    | e ∷ rest ↦
        if is_fanout n.type
        then none
        else some (choose_route spec revisions n (e ∷ rest) state counters)
  ]

  sorted-goes_on :
      (es : List WorkflowEdge)
      → has_way (choose_route spec revisions n es state counters) ≡ true
      → goes_on (elim es [
        | [] ↦ none
        | e ∷ rest ↦
            if is_fanout n.type
            then none
            else some (choose_route spec revisions n (e ∷ rest) state counters)
      ])
        ≡ true
  sorted-goes_on [] h = refl
  sorted-goes_on (e ∷ rest) h = ground arith

  routed-goes_on :
      (es : List WorkflowEdge)
      → length (filter (λ e. e.fallback) es) ≡ 1
      → goes_on (chosen es) ≡ true
  routed-goes_on es one = sorted-goes_on (sort_edges es) (
      choose_route-fallback spec revisions n state counters (sort_edges es)
        (any-sort_edges (λ e. e.fallback) es ∙ any-filter es one))

  plain-goes_on :
      (es : List WorkflowEdge)
      → is_conditional es ≡ false
      → All (λ e. validate_kind_fields e ≡ true) es
      → goes_on (chosen es) ≡ true
  plain-goes_on [] plain valid = refl
  plain-goes_on (e ∷ []) plain (valid, _) = sorted-goes_on (e ∷ []) (
      choose_route-single spec revisions n state counters e (always_kind e.kind (ground arith))
        valid)
  plain-goes_on (e ∷ e' ∷ es) plain valid = ground arith

  fanout-goes_on : (es : List WorkflowEdge) → is_fanout n.type ≡ true → goes_on (chosen es) ≡ true
  fanout-goes_on es fan = by_sorted (sort_edges es)
    where
      by_sorted :
          (xs : List WorkflowEdge)
          → goes_on (elim xs [
            | [] ↦ none
            | e ∷ rest ↦
                if is_fanout n.type
                then none
                else some (choose_route spec revisions n (e ∷ rest) state counters)
          ])
            ≡ true
      by_sorted [] = refl
      by_sorted (e ∷ rest) = rw fan refl

  not_routed-goes_on :
      (type : WorkflowNodeType) (es : List WorkflowEdge)
      → n.type ≡ type
      → (is_finalize type ≡ true → es ≡ [])
      → is_routed type es ≡ false
      → All (λ e. validate_kind_fields e ≡ true) es
      → goes_on (chosen es) ≡ true
  not_routed-goes_on fanout es same no_edges out valid = fanout-goes_on es (ground (arith, same))
  not_routed-goes_on finalize es same no_edges out valid =
      subst (λ xs. goes_on (chosen xs) ≡ true) (sym (no_edges refl)) refl
  not_routed-goes_on type [] same no_edges out valid = refl
  not_routed-goes_on type (e ∷ es) same no_edges out valid = plain-goes_on (e ∷ es) out valid

no_targets :
    (es : List WorkflowEdge) (id : String)
    → has_targets (adjacency_of es) id ≡ false
    → outgoing es id ≡ []
no_targets es id h =
    successors-none es id
      (sym (targets-adjacency_of es id) ∙ empty (targets (adjacency_of es) id) h)
  where
    empty : (ts : List String) → (elim ts [ [] ↦ false | t ∷ rest ↦ true ]) ≡ false → ts ≡ []
    empty [] k = refl
    empty (t ∷ rest) k = ground arith

-- If `_graph_issues` reports nothing and every edge has passed `validate_kind_fields`, no node
-- function of the compiled workflow fails for want of a route: `_choose_route` never raises that no
-- route matches, nor that an exhausted retry has no fallback, whatever the state, the counters and
-- the snapshot are.
pub graph_issues-goes_on :
    (spec : WorkflowSpec) (id : String) {n : WorkflowNode} (revisions : List Revision)
    (state : Fields) (counters : Counters)
    → graph_issues spec ≡ []
    → All (λ e. validate_kind_fields e ≡ true) spec.edges
    → node_at spec.nodes id ≡ some n
    → goes_on (invoke_route spec revisions n state counters) ≡ true
unfolding invoke_route sorted_outgoing
graph_issues-goes_on spec id {n} revisions state counters quiet valid found =
    let (own, same) =
      nodes_checks-node spec.edges (reached spec) (ending spec) spec.nodes id
        (silent-nodes spec quiet) found in
    let es = outgoing spec.edges n.id in
    let ends =
      terminal_edges-node (adjacency_of spec.edges) spec.nodes id (silent-terminals spec quiet)
        found in
    elim (Bool-cases (is_routed n.type es)) [
      | inl conditional ↦
          routed-goes_on spec revisions n state counters es
            (node_checks-fallback spec.edges (reached spec) (ending spec) n own conditional)
      | inr other ↦
          not_routed-goes_on spec revisions n state counters n.type es refl
            (λ final. no_targets spec.edges n.id (
              bare
                (subst
                  (λ x. (is_finalize n.type && has_targets (adjacency_of spec.edges) x) ≡ false)
                  (sym same) ends)
                final))
            other (All-filter (λ e. e.source == n.id) spec.edges valid)
    ]
  where
    bare :
        (is_finalize n.type && has_targets (adjacency_of spec.edges) n.id) ≡ false
        → is_finalize n.type ≡ true
        → has_targets (adjacency_of spec.edges) n.id ≡ false
    bare h k = ground arith
