-- ===== src/Validation/Protected/Known.antt =====
-- On a specification that `WorkflowSpec.validate_references` accepts, `nodes[node_id]` in
-- `_protected_paths` never raises: what its trails visit are nodes of the workflow.
use jarvis_development.Prelude.{
  true, List, [], ◌∷◌, ◌≡◌, String, string_eq, contains, arith, is_some, subst,
}
use jarvis_development.Contracts.Workflow.{
  WorkflowEdge, WorkflowNode, WorkflowSpec, node_at, node_ids, edges_known, validate_references,
}
use jarvis_development.Graph.Laws.{successors}
use jarvis_development.Validation.Protected.Trails.{Trail, begin, extend}

pub node_at-known :
    (ns : List WorkflowNode) (v : String)
    → contains (node_ids ns) v ≡ true
    → is_some (node_at ns v) ≡ true
node_at-known [] v h = cc
node_at-known (n ∷ ns) v h = ground (arith, node_at-known ns v)

pub successors-known :
    (ids : List String) (es : List WorkflowEdge) (u v : String)
    → edges_known ids es ≡ true
    → contains (successors es u) v ≡ true
    → contains ids v ≡ true
unfolding edges_known
successors-known ids [] u v known h = cc
successors-known ids (e ∷ es) u v known h =
    ground (arith, successors-known ids es u v, string_eq.same_iff e.target v)

references_known :
    (spec : WorkflowSpec)
    → validate_references spec ≡ true
    → (contains (node_ids spec.nodes) spec.entrypoint ≡ true)
      × (edges_known (node_ids spec.nodes) spec.edges ≡ true)
unfolding validate_references
references_known spec h = ground arith

-- If `validate_references` accepts the specification, every trail from the entrypoint ends at a
-- node of the workflow.
pub Trail-known :
    (spec : WorkflowSpec) {v : String} {before : List String}
    → validate_references spec ≡ true
    → Trail spec v before
    → is_some (node_at spec.nodes v) ≡ true
Trail-known spec h (begin e) =
    subst (λ v. is_some (node_at spec.nodes v) ≡ true) e
      (node_at-known spec.nodes spec.entrypoint (references_known spec h).0)
Trail-known spec h (extend {u} {v} t edge) =
    node_at-known spec.nodes v
      (successors-known (node_ids spec.nodes) spec.edges u v (references_known spec h).1 edge)
