-- ===== src/Validation/Protected.antt =====
-- validation.py, `_protected_paths`: an abstract interpretation of every path from the
-- entrypoint, which tracks whether the current attempt has been verified and reviewed, and the
-- checks of named approvals.
pub mod States
pub mod Trails
pub mod Paths
pub mod Grants
pub mod Known
use jarvis_development.Prelude.{
  ℕ, Bool, true, false, not, ◌&&◌, ◌||◌, Option, none, some, List, [], ◌∷◌, ◌++◌, String, string_eq,
  ◌==◌, if◌then◌else◌, contains, keys, map,
}
use jarvis_development.Contracts.Workflow.{
  WorkflowNodeType, worker, verify, reviewer, github_publish, finalize, derive, Outcome,
  WorkflowNode, WorkflowSpec, VerificationPolicy, NodePolicy, node_at, ApprovalPolicy,
}
use jarvis_development.Graph.{Adjacency, adjacency_of, targets, reachable}
use jarvis_development.Worklist.{Walk, walk, start}
use jarvis_development.Worklist.Termination.{budget}
use jarvis_development.Validation.Issue.{
  Issue, node_issue, key_error, security_verification_bypass, security_review_bypass,
  security_approval_bypass, security_stale_approval,
}
use jarvis_development.Validation.Policy.{effective_policy, is_worker}
use States.{PathState, PathState-eq, all_states}

abbrev pub is_derive : Outcome → Bool
is_derive derive = true
is_derive _ = false

-- `policy.verification is not None and policy.verification.required`
abbrev pub requires_verification : NodePolicy → Bool
requires_verification policy = elim policy.verification [ none ↦ false | some v ↦ v.required ]

-- The evidence after a node, by its type.
abbrev pub advance : WorkflowNodeType → Bool → PathState → PathState
advance worker required s = record s {
  verified = false;
  reviewed = false;
  verification_required = required;
}
advance verify required s = record s { verified = true }
advance reviewer required s = record s { reviewed = true }
advance _ required s = s

-- `if not ok: issues.append(...)`
abbrev pub report_unless : Bool → Issue → List Issue
report_unless true issue = []
report_unless false issue = issue ∷ []

-- The issues that visiting a node reports, from the evidence before it.
abbrev pub evidence_issues : WorkflowNodeType → Outcome → PathState → List Issue
evidence_issues reviewer outcome s =
    report_unless s.verified (node_issue security_verification_bypass s.node)
evidence_issues github_publish outcome s =
    report_unless s.verified (node_issue security_verification_bypass s.node)
    ++ report_unless s.reviewed (node_issue security_review_bypass s.node)
evidence_issues finalize outcome s =
    report_unless (not (is_derive outcome && (s.verification_required && not s.verified)))
      (node_issue security_verification_bypass s.node)
evidence_issues _ outcome s = []

-- `left | right` on sets.
abbrev pub set_union : List String → List String → List String
set_union [] right = right
set_union (x ∷ xs) right =
    let rest = set_union xs right in if contains rest x then rest else x ∷ rest

abbrev pub never : PathState → Bool
never s = false

module _ (spec : WorkflowSpec) where
  -- The state that the successors are pushed with.
  unfoldable pub after : PathState → PathState
  after s = elim (node_at spec.nodes s.node) [
    | none ↦ s
    | some n ↦ advance n.type (requires_verification (effective_policy spec n)) s
  ]

  -- What a visit reports; `nodes[node_id]` raises on an unknown node.
  unfoldable pub visit_issues : PathState → List Issue
  visit_issues s = elim (node_at spec.nodes s.node) [
    | none ↦ node_issue key_error s.node ∷ []
    | some n ↦ evidence_issues n.type n.config.outcome s
  ]

  unfoldable pub path_successors : PathState → List PathState
  unfolding after
  path_successors s =
      map (λ t. record (after s) { node = t }) (targets (adjacency_of spec.edges) s.node)

  unfoldable pub initial : PathState
  initial = record {
    node = spec.entrypoint;
    verified = false;
    reviewed = false;
    verification_required = false;
  }

  -- The `while pending:` loop of `_protected_paths` when it ends.
  unfoldable pub path_walk : Walk PathState Issue
  unfolding visit_issues path_successors initial
  path_walk =
      walk never path_successors visit_issues
        (budget path_successors (all_states (keys (adjacency_of spec.edges))))
        (start never path_successors visit_issues initial)

  -- `_reachable(source, adjacency, stop=granting_node)`
  unfoldable pub reachable_past : String → String → List String
  reachable_past grant source = reachable (adjacency_of spec.edges) (some grant) source

  -- `approval.required_grant_from`, where it is truthy.
  unfoldable pub grant_of : WorkflowNode → Option String
  grant_of n = elim (effective_policy spec n).approval_policy [
    | none ↦ none
    | some a ↦ elim a.required_grant_from [
      | none ↦ none
      | some grant ↦ if grant == "" then none else some grant
    ]
  ]

  -- `set().union(*(_reachable(target, ...) for target in adjacency.get(granting_node, ())))`
  unfoldable pub union_reachable : String → List String → List String
  unfolding reachable_past
  union_reachable grant [] = []
  union_reachable grant (t ∷ ts) = set_union (reachable_past grant t) (union_reachable grant ts)

  -- The body of `for candidate in after_grant`.
  unfoldable pub stale_issue : String → String → String → List Issue
  unfolding reachable_past
  stale_issue grant node candidate =
      if candidate == node then [] else elim (node_at spec.nodes candidate) [
        | none ↦ node_issue key_error candidate ∷ []
        | some c ↦
            report_unless (not (is_worker c.type && contains (reachable_past grant candidate) node))
              (node_issue security_stale_approval node)
      ]

  unfoldable pub stale_issues : String → String → List String → List Issue
  unfolding stale_issue
  stale_issues grant node [] = []
  stale_issues grant node (c ∷ cs) = stale_issue grant node c ++ stale_issues grant node cs

  -- The body of the final `for node in spec.nodes`.
  unfoldable pub grant_issues : WorkflowNode → List Issue
  unfolding grant_of reachable_past union_reachable stale_issues
  grant_issues n = elim (grant_of n) [
    | none ↦ []
    | some grant ↦
        report_unless (not (contains (reachable_past grant spec.entrypoint) n.id))
          (node_issue security_approval_bypass n.id)
        ++ stale_issues grant n.id (union_reachable grant (targets (adjacency_of spec.edges) grant))
  ]

  unfoldable pub approval_issues : List WorkflowNode → List Issue
  unfolding grant_issues
  approval_issues [] = []
  approval_issues (n ∷ ns) = grant_issues n ++ approval_issues ns

  unfoldable pub protected_paths : List Issue
  unfolding path_walk approval_issues
  protected_paths = path_walk.out ++ approval_issues spec.nodes
