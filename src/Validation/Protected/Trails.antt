-- ===== src/Validation/Protected/Trails.antt =====
-- The concrete meaning of the evidence that `_protected_paths` tracks: trails of nodes from the
-- entrypoint, and what has happened on them since the last worker.
use jarvis_development.Prelude.{
  Bool, true, false, none, some, List, [], ◌∷◌, ◌≡◌, String, string_eq, contains,
}
use jarvis_development.Contracts.Workflow.{WorkflowNodeType, WorkflowSpec, node_at}
use jarvis_development.Graph.Laws.{successors}
use jarvis_development.Validation.Policy.{effective_policy, is_worker}
use jarvis_development.Validation.Protected.{requires_verification}

module _ (spec : WorkflowSpec) where
  -- A walk along the edges from the entrypoint: its last node, and the nodes before that one,
  -- the latest first.
  pub data Trail : String → List String → Type 0 where
    begin : {v : String} → spec.entrypoint ≡ v → Trail v []
    extend :
        {u v : String} {before : List String}
        → Trail u before
        → contains (successors spec.edges u) v ≡ true
        → Trail v (u ∷ before)

  abbrev pub has_type : (WorkflowNodeType → Bool) → String → Bool
  has_type test id = elim (node_at spec.nodes id) [ none ↦ false | some n ↦ test n.type ]

  -- Among the nodes visited so far, one of the wanted type stands after the last worker.
  abbrev pub since_worker : (WorkflowNodeType → Bool) → List String → Bool
  since_worker test [] = false
  since_worker test (id ∷ before) = elim (has_type is_worker id) [
    | true ↦ false
    | false ↦ elim (has_type test id) [ true ↦ true | false ↦ since_worker test before ]
  ]

  -- The last worker's policy requires verification.
  abbrev pub last_worker_requires : List String → Bool
  last_worker_requires [] = false
  last_worker_requires (id ∷ before) = elim (node_at spec.nodes id) [
    | none ↦ last_worker_requires before
    | some n ↦ elim (is_worker n.type) [
      | true ↦ requires_verification (effective_policy spec n)
      | false ↦ last_worker_requires before
    ]
  ]
