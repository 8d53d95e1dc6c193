-- ===== src/Validation/FanoutIssues.antt =====
-- orchestrator/app/jarvis_orchestrator/workflows/validation.py: `fanout_regions` and
-- `_fanout_issues`, the checks of parallel branches. Every id in a region is a node of the workflow,
-- since edges join nodes; the ids of nodes are distinct, so the dict of regions has one entry for each
-- fanout, in the order of the nodes.
pub mod Disjoint
mod Tests
use jarvis_development.Prelude.{
  ℕ, Bool, true, false, not, ◌&&◌, ◌||◌, Option, none, some, List, [], ◌∷◌, ◌++◌, String, string_eq,
  nat_eq, ◌==◌, ltb, length, any, all, filter, contains, Dict, put, get_or, is_some, if◌then◌else◌,
}
use jarvis_development.Contracts.Workflow.{
  WorkflowNodeType, worker, architect, task_dispatch, verify, reviewer, integrate, approval, fanout,
  join, finalize, WorkflowNode, WorkflowEdge, WorkflowSpec, node_at, distinct,
}
use jarvis_development.Graph.{Adjacency, adjacency_of, targets, reachable}
use jarvis_development.Validation.Policy.{effective_policy, is_worker}
use jarvis_development.Validation.Issue.{
  Issue, node_issue, edge_issue, fanout_children, fanout_join, fanout_edges, fanout_child,
  fanout_overlap, fanout_cycle, fanout_nested, fanout_scalar_write, fanout_verification,
  fanout_escape, fanout_external_entry, fanout_reentry, fanout_join_entry, fanout_orphan_join,
}
use jarvis_development.Validation.Cycles.{acyclic_nodes}
use jarvis_development.Validation.Cycles.Counts.{occ}
use jarvis_development.Validation.Protected.{report_unless, set_union, requires_verification}
use jarvis_development.Validation.GraphIssues.{outgoing, is_always}

abbrev pub is_fanout : WorkflowNodeType → Bool
is_fanout fanout = true
is_fanout type = false

abbrev pub is_join : WorkflowNodeType → Bool
is_join join = true
is_join type = false

-- The types of `NODE_DEFINITIONS` with an output that no reducer merges.
abbrev pub writes_scalar : WorkflowNodeType → Bool
writes_scalar architect = true
writes_scalar task_dispatch = true
writes_scalar verify = true
writes_scalar reviewer = true
writes_scalar integrate = true
writes_scalar approval = true
writes_scalar finalize = true
writes_scalar type = false

abbrev pub Regions : Type 0
Regions = Dict String (List String)

-- The regions of one fanout, a dict by child.
unfoldable pub regions_from : Adjacency → String → List String → Regions → Regions
regions_from adjacency join_id [] regions = regions
regions_from adjacency join_id (child ∷ rest) regions =
    regions_from adjacency join_id rest
      (put regions child (reachable adjacency (some join_id) child))

-- The entry of `fanout_regions` for a fanout node.
unfoldable pub regions_of : WorkflowSpec → WorkflowNode → Regions
unfolding regions_from
regions_of spec n = regions_from (adjacency_of spec.edges) n.config.join_id n.config.children []

abbrev pub intersects : List String → List String → Bool
intersects xs ys = any (contains ys) xs

abbrev pub same_set : List String → List String → Bool
same_set xs ys = all (contains ys) xs && all (contains xs) ys

abbrev pub edge_targets : List WorkflowEdge → List String
edge_targets [] = []
edge_targets (e ∷ es) = e.target ∷ edge_targets es

-- `Counter(xs) == Counter(ys)`
abbrev pub same_counts : List String → List String → Bool
same_counts xs ys = all (λ x. occ x xs == occ x ys) (xs ++ ys)

-- The checks of the fanout node itself.
unfoldable pub own_fanout_issues : WorkflowSpec → List String → WorkflowNode → List Issue
own_fanout_issues spec claimed n =
    let children = n.config.children in
    let out = outgoing spec.edges n.id in
    report_unless
      (ltb 0 (length children)
        && (distinct children && not (ltb n.config.max_fanout (length children))))
      (node_issue fanout_children n.id)
    ++ report_unless
        (elim (node_at spec.nodes n.config.join_id) [
          | none ↦ false
          | some j ↦
              is_join j.type
              && (j.config.fanout_id == n.id && not (contains claimed n.config.join_id))
        ])
        (node_issue fanout_join n.id)
    ++ report_unless
        (same_counts (edge_targets out) children
          && not (any (λ e. not (is_always e.kind) || e.fallback) out))
        (node_issue fanout_edges n.id)

-- The body of `for edge in spec.edges` for a node of a region.
abbrev pub entry_issues :
    WorkflowNode → String → List String → String → List WorkflowEdge → List Issue
entry_issues n child region id [] = []
entry_issues n child region id (e ∷ es) =
    report_unless
      (not (
        e.target == id
        && (not (contains region e.source) && not (e.source == n.id && id == child))))
      (record { code = fanout_external_entry; node_id = some id; edge_id = some e.id })
    ++ entry_issues n child region id es

-- The body of `for node_id in region`.
unfoldable pub region_node_issues :
    WorkflowSpec → WorkflowNode → String → List String → String → WorkflowNode → List Issue
region_node_issues spec n child region id node =
    let next = targets (adjacency_of spec.edges) id in
    report_unless (not (is_fanout node.type || is_join node.type)) (node_issue fanout_nested id)
    ++ report_unless (not (writes_scalar node.type)) (node_issue fanout_scalar_write id)
    ++ report_unless
        (not (is_worker node.type && requires_verification (effective_policy spec node)))
        (node_issue fanout_verification id)
    ++ report_unless
        (ltb 0 (length next) && all (λ t. contains region t || t == n.config.join_id) next)
        (node_issue fanout_escape id)
    ++ entry_issues n child region id spec.edges

abbrev pub region_issues :
    WorkflowSpec → WorkflowNode → String → List String → List String → List Issue
region_issues spec n child region [] = []
region_issues spec n child region (id ∷ ids) =
    (elim (node_at spec.nodes id) [
      | none ↦ []
      | some node ↦ region_node_issues spec n child region id node
    ])
    ++ region_issues spec n child region ids

-- A child that is skipped: unknown, or the join.
abbrev pub is_entry : WorkflowSpec → WorkflowNode → String → Bool
is_entry spec n child = is_some (node_at spec.nodes child) && not (child == n.config.join_id)

-- The body of `for child, region in children.items()`, for an entry.
unfoldable pub branch_issues :
    WorkflowSpec → List String → List String → WorkflowNode → String → List String → List Issue
unfolding region_node_issues
branch_issues spec all_owned owned n child region =
    let inside = filter (λ e. contains region e.source && contains region e.target) spec.edges in
    report_unless (not (intersects region owned || intersects region all_owned))
      (node_issue fanout_overlap n.id)
    ++ report_unless (same_set (acyclic_nodes region inside).visited region)
        (node_issue fanout_cycle n.id)
    ++ region_issues spec n child region region
    ++ report_unless
        (not (contains (reachable (adjacency_of spec.edges) none n.config.join_id) n.id))
        (node_issue fanout_reentry n.id)

-- The loop over the children, and the set `owned` after it.
unfoldable pub branches_issues :
    WorkflowSpec → List String → WorkflowNode → List String → Regions → List Issue × List String
unfolding branch_issues
branches_issues spec all_owned n owned [] = ([], owned)
branches_issues spec all_owned n owned ((child, region) ∷ rest) =
    let skipped = branches_issues spec all_owned n owned rest in
    let after = branches_issues spec all_owned n (set_union owned region) rest in
    if is_entry spec n child
    then (branch_issues spec all_owned owned n child region ++ after.0, after.1)
    else (node_issue fanout_child n.id ∷ skipped.0, skipped.1)

abbrev pub join_entry_issues : String → List String → List WorkflowEdge → List Issue
join_entry_issues join_id owned [] = []
join_entry_issues join_id owned (e ∷ es) =
    report_unless (not (e.target == join_id && not (contains owned e.source)))
      (edge_issue fanout_join_entry e.id)
    ++ join_entry_issues join_id owned es

-- The loop over the fanouts, with the sets `claimed_joins` and `all_owned`.
unfoldable pub fanouts_issues :
    WorkflowSpec → List String → List String → List WorkflowNode → List Issue × List String
unfolding own_fanout_issues branches_issues regions_of
fanouts_issues spec claimed all_owned [] = ([], claimed)
fanouts_issues spec claimed all_owned (n ∷ ns) =
    let branches = branches_issues spec all_owned n [] (regions_of spec n) in
    let skipped = fanouts_issues spec claimed all_owned ns in
    let after =
      fanouts_issues spec (n.config.join_id ∷ claimed) (set_union all_owned branches.1) ns in
    if is_fanout n.type
    then (
      own_fanout_issues spec claimed n
          ++ branches.0
          ++ join_entry_issues n.config.join_id branches.1 spec.edges
          ++ after.0,
      after.1,
    )
    else skipped

abbrev pub orphan_issues : List String → List WorkflowNode → List Issue
orphan_issues claimed [] = []
orphan_issues claimed (n ∷ ns) =
    report_unless (not (is_join n.type && not (contains claimed n.id)))
      (node_issue fanout_orphan_join n.id)
    ++ orphan_issues claimed ns

-- `_fanout_issues`
unfoldable pub fanout_issues : WorkflowSpec → List Issue
unfolding fanouts_issues
fanout_issues spec =
    let result = fanouts_issues spec [] [] spec.nodes in
    result.0 ++ orphan_issues result.1 spec.nodes
