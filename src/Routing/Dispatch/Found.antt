-- ===== src/Routing/Dispatch/Found.antt =====
-- A route is found wherever there is a fallback, or a single edge without a condition.
use jarvis_development.Prelude.{
  Bool, true, false, ◌||◌, some, List, [], ◌∷◌, ◌≡◌, refl, arith, string_eq, any, find?, is_some,
  Bool-cases, Option-cases, inl, inr,
}
use jarvis_development.Contracts.Json.{Fields}
use jarvis_development.Contracts.Workflow.{
  WorkflowNode, WorkflowEdge, WorkflowSpec, WorkflowEdgeKind, always, on_result, retry, iterate,
  on_failure, validate_kind_fields,
}
use jarvis_development.Routing.{
  Counters, Revision, Route, failed, exhausted_without_fallback, no_matching_route, iterate_route,
  retry_route, skips, take_edge, route_from, choose_route,
}
use jarvis_development.Routing.Dispatch.{insert_edge, sort_edges}

-- Neither of the errors of a node without a way on.
abbrev pub has_way : Route → Bool
has_way (failed no_matching_route) = false
has_way (failed exhausted_without_fallback) = false
has_way route = true

module _ (spec : WorkflowSpec) (revisions : List Revision) (node : WorkflowNode) (f : WorkflowEdge)
    (state : Fields) (counters : Counters) where
  take_edge-has_way :
      (kind : WorkflowEdgeKind) (e : WorkflowEdge)
      → e.kind ≡ kind
      → skips spec revisions node (some f) state counters e ≡ false
      → has_way (take_edge spec revisions node (some f) state counters kind e) ≡ true
  unfolding take_edge retry_route iterate_route skips
  take_edge-has_way always e k s = refl
  take_edge-has_way on_result e k s = refl
  take_edge-has_way on_failure e k s = refl
  take_edge-has_way iterate e k s = ground arith
  take_edge-has_way retry e k s = ground arith

  route_from-has_way :
      (es : List WorkflowEdge)
      → has_way (route_from spec revisions node (some f) state counters es) ≡ true
  unfolding route_from
  route_from-has_way [] = refl
  route_from-has_way (e ∷ es) =
      elim (Bool-cases (skips spec revisions node (some f) state counters e)) [
        | inl skip ↦ rw skip (route_from-has_way es)
        | inr taken ↦ rw taken (take_edge-has_way e.kind e refl taken)
      ]

any-insert_edge :
    (p : WorkflowEdge → Bool) (e : WorkflowEdge) (es : List WorkflowEdge)
    → any p (insert_edge e es) ≡ (p e || any p es)
any-insert_edge p e [] = refl
any-insert_edge p e (x ∷ xs) = ground (arith, any-insert_edge p e xs)

pub any-sort_edges :
    (p : WorkflowEdge → Bool) (es : List WorkflowEdge) → any p (sort_edges es) ≡ any p es
any-sort_edges p [] = refl
any-sort_edges p (e ∷ es) = ground (arith, any-sort_edges p es, any-insert_edge p e (sort_edges es))

find?-any : (p : WorkflowEdge → Bool) (es : List WorkflowEdge) → is_some (find? p es) ≡ any p es
find?-any p [] = refl
find?-any p (e ∷ es) = ground (arith, find?-any p es)

module _ (spec : WorkflowSpec) (revisions : List Revision) (node : WorkflowNode) (state : Fields)
    (counters : Counters) where
  pub choose_route-fallback :
      (es : List WorkflowEdge)
      → any (λ e. e.fallback) es ≡ true
      → has_way (choose_route spec revisions node es state counters) ≡ true
  unfolding choose_route
  choose_route-fallback es h = elim (Option-cases (find? (λ e. e.fallback) es)) [
    | inl missing ↦ ground (arith, missing, find?-any (λ e. e.fallback) es)
    | inr (f, found) ↦
        rw (found, choose_route) (route_from-has_way spec revisions node f state counters es)
  ]

  pub choose_route-single :
      (e : WorkflowEdge)
      → e.kind ≡ always
      → validate_kind_fields e ≡ true
      → has_way (choose_route spec revisions node (e ∷ []) state counters) ≡ true
  unfolding choose_route route_from take_edge skips
  choose_route-single e k valid = ground arith
