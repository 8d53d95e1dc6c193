-- ===== src/Validation/Protected/Grants.antt =====
-- Named approvals: without an issue, every trail to a protected node has passed its granting
-- node since the last other worker.
use jarvis_development.Prelude.{
  Bool, true, false, not, ◌&&◌, ◌||◌, some, List, [], ◌∷◌, ◌≡◌, ◌↔◌, ◌⊎◌, inl, inr, refl, String,
  string_eq, ◌==◌, contains, arith, Bool-cases, Option-cases, subst, sym, append-eq_nil, option_is,
}
use jarvis_development.Contracts.Workflow.{WorkflowNode, WorkflowSpec, node_at}
use jarvis_development.Graph.{adjacency_of, targets}
use jarvis_development.Graph.Laws.{successors, targets-adjacency_of, reachable_iff}
use jarvis_development.Worklist.Reach.{Reaches, here, step}
use jarvis_development.Validation.Policy.{is_worker}
use jarvis_development.Validation.Protected.{
  set_union, reachable_past, grant_of, union_reachable, stale_issue, stale_issues, grant_issues,
  approval_issues,
}
use jarvis_development.Validation.Protected.Trails.{Trail, begin, extend, has_type}

pub contains-set_union :
    (xs ys : List String) (v : String)
    → contains (set_union xs ys) v ≡ (contains xs v || contains ys v)
contains-set_union [] ys v = refl
contains-set_union (x ∷ xs) ys v =
    ground (arith, contains-set_union xs ys v, contains-set_union xs ys x, string_eq.same_iff x v)

module _ (spec : WorkflowSpec) (grant : String) where
  -- A walk that avoids the granting node.
  abbrev pub Avoids : String → String → Type 0
  Avoids = Reaches (option_is (some grant)) (targets (adjacency_of spec.edges))

  Avoids-iff :
      (source v : String) → (contains (reachable_past spec grant source) v ≡ true) ↔ Avoids source v
  unfolding reachable_past
  Avoids-iff source v = reachable_iff (adjacency_of spec.edges) (some grant) source v

  -- An edge before a walk.
  prepend :
      {u v w : String}
      → (grant == u) ≡ false
      → contains (successors spec.edges u) v ≡ true
      → Avoids v w
      → Avoids u w
  prepend {u} {v} free edge (here open_v) =
      step (here free) (rw (targets-adjacency_of spec.edges u) edge) open_v
  prepend free edge (step r s open_w) = step (prepend free edge r) s open_w

  -- A trail to a node from which a walk avoids the grant starts at the entrypoint or at a
  -- successor of the granting node, avoiding it.
  origin_of :
      {u c : String} {before : List String}
      → Trail spec u before
      → Avoids u c
      → Avoids spec.entrypoint c
        ⊎ ((t : String) × (contains (successors spec.edges grant) t ≡ true) × Avoids t c)
  origin_of {c} (begin e) r = inl (subst (λ u. Avoids u c) (sym e) r)
  origin_of {c} (extend {u} {v} t edge) r = elim (Bool-cases (grant == u)) [
    | inl same ↦ inr (
      v,
      subst (λ g. contains (successors spec.edges g) v ≡ true)
          (sym ((string_eq.same_iff grant u).0 same)) edge,
      r,
    )
    | inr free ↦ origin_of t (prepend free edge r)
  ]

  -- Going back from a node: the granting node is met before any other worker than the node.
  abbrev pub granted : String → List String → Bool
  granted node [] = false
  granted node (id ∷ before) =
      grant == id || (not (has_type spec is_worker id && not (id == node)) && granted node before)

  module _ (node : String) (direct : Avoids spec.entrypoint node → ⊥)
      (fresh : (t c : String)
        → contains (successors spec.edges grant) t ≡ true
        → Avoids t c
        → (c == node) ≡ false
        → has_type spec is_worker c ≡ true
        → Avoids c node
        → ⊥) where
    no_worker :
        {u : String} {before : List String}
        → Trail spec u before
        → (grant == u) ≡ false
        → Avoids u node
        → (u == node) ≡ false
        → has_type spec is_worker u ≡ true
        → ⊥
    no_worker {u} trail free r other isw = elim (origin_of trail (here free)) [
      | inl from_entry ↦ direct (joined from_entry r)
      | inr (t, edge, reach) ↦ fresh t u edge reach other isw r
    ]
      where
        joined : {a b c : String} → Avoids a b → Avoids b c → Avoids a c
        joined p (here free_b) = p
        joined p (step q s free_c) = step (joined p q) s free_c

    granted-Trail :
        {u : String} {before : List String}
        → Trail spec u before
        → Avoids u node
        → granted node before ≡ true
    granted-Trail {u} (begin e) r = absurd (direct (subst (λ x. Avoids x node) (sym e) r))
    granted-Trail (extend {u} {v} {before} t edge) r = elim (Bool-cases (grant == u)) [
      | inl same ↦ ground arith
      | inr free ↦
          let r' = prepend free edge r in ground (arith, granted-Trail t r', no_worker t free r')
    ]

module _ (spec : WorkflowSpec) where
  silent_node :
      (ns : List WorkflowNode) {v : String} {n : WorkflowNode}
      → approval_issues spec ns ≡ []
      → node_at ns v ≡ some n
      → (grant_issues spec n ≡ []) × (n.id ≡ v)
  unfolding approval_issues
  silent_node [] quiet p = cc
  silent_node (m ∷ ns) {v} {n} quiet p =
      let (first, rest) = append-eq_nil (grant_issues spec m) (approval_issues spec ns) quiet in
      elim (Option-cases (node_at ns v)) [
        | inl missing ↦ ground (arith, string_eq.same_iff m.id v)
        | inr (n', found) ↦ silent_node ns rest (ground (arith, found))
      ]

  silent_candidate :
      (grant node : String) (cs : List String) (c : String)
      → stale_issues spec grant node cs ≡ []
      → contains cs c ≡ true
      → stale_issue spec grant node c ≡ []
  unfolding stale_issues
  silent_candidate grant node [] c quiet m = cc
  silent_candidate grant node (d ∷ cs) c quiet m =
      let (first, rest) =
        append-eq_nil (stale_issue spec grant node d) (stale_issues spec grant node cs) quiet in
      elim (Bool-cases (d == c)) [
        | inl same ↦
            subst (λ x. stale_issue spec grant node x ≡ []) ((string_eq.same_iff d c).0 same) first
        | inr other ↦ silent_candidate grant node cs c rest (ground arith)
      ]

  contains-union_reachable :
      (grant : String) (ts : List String) (t c : String)
      → contains ts t ≡ true
      → Avoids spec grant t c
      → contains (union_reachable spec grant ts) c ≡ true
  unfolding union_reachable
  contains-union_reachable grant [] t c m r = cc
  contains-union_reachable grant (s ∷ ts) t c m r =
      rw (contains-set_union (reachable_past spec grant s) (union_reachable spec grant ts) c)
        (elim (Bool-cases (s == t)) [
          | inl same ↦
              let p = (string_eq.same_iff s t).0 same in
              ground (
                arith,
                (Avoids-iff spec grant s c).1 (subst (λ x. Avoids spec grant x c) (sym p) r),
              )
          | inr other ↦ ground (arith, contains-union_reachable grant ts t c (ground arith) r)
        ])

  stale_issue-fresh :
      (grant node c : String)
      → stale_issue spec grant node c ≡ []
      → (c == node) ≡ false
      → has_type spec is_worker c ≡ true
      → Avoids spec grant c node
      → ⊥
  unfolding stale_issue
  stale_issue-fresh grant node c quiet other isw r =
      ground (arith, (Avoids-iff spec grant c node).1 r)

  silent_grant :
      (grant : String) (n : WorkflowNode)
      → grant_issues spec n ≡ []
      → grant_of spec n ≡ some grant
      → (contains (reachable_past spec grant spec.entrypoint) n.id ≡ false)
        × (stale_issues spec grant n.id
              (union_reachable spec grant (targets (adjacency_of spec.edges) grant))
            ≡ [])
  unfolding grant_issues
  silent_grant grant n quiet named =
      let issues = rw (named, grant_issues) at quiet in
      elim (Bool-cases (contains (reachable_past spec grant spec.entrypoint) n.id)) [
        | inl reached ↦ cc (rw reached at issues)
        | inr avoided ↦ (avoided, rw avoided at issues)
      ]

  granted_at :
      (grant : String) (n : WorkflowNode) (before : List String)
      → grant_issues spec n ≡ []
      → grant_of spec n ≡ some grant
      → (grant == n.id) ≡ false
      → Trail spec n.id before
      → granted spec grant n.id before ≡ true
  granted_at grant n before quiet named other trail =
      let (avoided, stale) = silent_grant grant n quiet named in
      granted-Trail spec grant n.id
        (λ r. ground (arith, avoided, (Avoids-iff spec grant spec.entrypoint n.id).1 r))
        (λ t c edge r. stale_issue-fresh grant n.id c (
          silent_candidate grant n.id
            (union_reachable spec grant (targets (adjacency_of spec.edges) grant)) c stale
            (contains-union_reachable grant (targets (adjacency_of spec.edges) grant) t c
              (rw (targets-adjacency_of spec.edges grant) edge) r)))
        trail (here other)

  -- If the last loop of `_protected_paths` reports nothing, then on every trail from the
  -- entrypoint to a node whose policy names a granting node (another one), that granting node
  -- was visited, and no worker other than the node itself since then.
  pub granted_of_silent :
      (grant v : String) (n : WorkflowNode) (before : List String)
      → approval_issues spec spec.nodes ≡ []
      → node_at spec.nodes v ≡ some n
      → grant_of spec n ≡ some grant
      → (grant == v) ≡ false
      → Trail spec v before
      → granted spec grant v before ≡ true
  granted_of_silent grant v n before quiet found named other trail =
      let (silent, same) = silent_node spec.nodes quiet found in
      subst (λ x. granted spec grant x before ≡ true) same
        (granted_at grant n before silent named (rw same other)
          (subst (λ x. Trail spec x before) (sym same) trail))
