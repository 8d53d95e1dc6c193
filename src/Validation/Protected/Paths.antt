-- ===== src/Validation/Protected/Paths.antt =====
-- `_protected_paths` reports a bypass exactly if some trail from the entrypoint has one.
use jarvis_development.Prelude.{
  true, false, some, List, [], ◌∷◌, ◌≡◌, ◌↔◌, inl, inr, refl, String, string_eq, contains, arith,
  map, keys, get_or-missing, Option-cases, subst, ap, ◌∙◌,
}
use jarvis_development.Contracts.Workflow.{
  WorkflowNodeType, reviewer, github_publish, finalize, WorkflowNode, WorkflowSpec, Outcome, derive,
  node_at,
}
use jarvis_development.Graph.{adjacency_of, targets}
use jarvis_development.Graph.Laws.{successors, targets-adjacency_of}
use jarvis_development.Worklist.Reach.{Reaches, here, step, Handled, walk-Handled}
use jarvis_development.Worklist.Termination.{walk-budget}
use jarvis_development.Validation.Policy.{is_verify, is_reviewer}
use jarvis_development.Validation.Protected.{
  never, after, visit_issues, path_successors, initial, path_walk, evidence_issues,
}
use jarvis_development.Validation.Protected.States.{
  PathState, PathState-eq, all_states, contains-all_states,
}
use jarvis_development.Validation.Protected.Trails.{
  Trail, begin, extend, since_worker, last_worker_requires,
}

-- Targets with a common state: the pushed entries.
map-contains :
    (s : PathState) (ts : List String) (v : String)
    → contains ts v ≡ true
    → contains (map (λ t. record s { node = t }) ts) (record s { node = v }) ≡ true
map-contains s [] v h = cc
map-contains s (t ∷ ts) v h = ground (arith, map-contains s ts v)

contains-map :
    (s r : PathState) (ts : List String)
    → contains (map (λ t. record s { node = t }) ts) r ≡ true
    → (contains ts r.node ≡ true) × (r ≡ record s { node = r.node })
contains-map s r [] h = cc
contains-map s r (t ∷ ts) h = ground (
  arith,
  contains-map s r ts,
  PathState-eq.same_iff (record s { node = t }) r,
  string_eq.same_iff t r.node,
)

module _ (spec : WorkflowSpec) where
  -- What has happened before the last node of a trail.
  abbrev pub evidence : String → List String → PathState
  evidence id before = record {
    node = id;
    verified = since_worker spec is_verify before;
    reviewed = since_worker spec is_reviewer before;
    verification_required = last_worker_requires spec before;
  }

  after-evidence :
      (id v : String) (before : List String)
      → record (after spec (evidence id before)) { node = v } ≡ evidence v (id ∷ before)
  unfolding after
  after-evidence id v before = elim (Option-cases (node_at spec.nodes id)) [
    | inl unknown ↦ ground arith
    | inr (n, p) ↦ ground arith
  ]

  abbrev ReachesState : PathState → Type 0
  ReachesState = Reaches never (path_successors spec) (initial spec)

  pushed :
      (s : PathState) (v : String)
      → contains (successors spec.edges s.node) v ≡ true
      → contains (path_successors spec s) (record (after spec s) { node = v }) ≡ true
  unfolding path_successors
  pushed s v h =
      map-contains (after spec s) (targets (adjacency_of spec.edges) s.node) v
        (rw (targets-adjacency_of spec.edges s.node) h)

  Trail-reaches :
      {v : String} {before : List String} → Trail spec v before → ReachesState (evidence v before)
  unfolding initial
  Trail-reaches (begin e) = subst (λ v. ReachesState (evidence v [])) e (here refl)
  Trail-reaches (extend {u} {v} {before} t s) =
      step (Trail-reaches t)
        (subst (λ r. contains (path_successors spec (evidence u before)) r ≡ true)
          (after-evidence u v before) (pushed (evidence u before) v s))
        refl

  -- A trail whose evidence a state of the loop is.
  TrailOf : PathState → Type 0
  TrailOf s = (before : List String) × Trail spec s.node before × (s ≡ evidence s.node before)

  Reaches-Trail : {s : PathState} → ReachesState s → TrailOf s
  unfolding initial TrailOf path_successors
  Reaches-Trail (here free) = ([], begin refl, refl)
  Reaches-Trail (step {u} {v} r s free) =
      let (before, t, e) = Reaches-Trail r in
      let (edge, same) =
        contains-map (after spec u) v (targets (adjacency_of spec.edges) u.node) s in
      (
        u.node ∷ before,
        extend t (rw (targets-adjacency_of spec.edges u.node) at edge),
        same
            ∙ ap (λ x. record (after spec x) { node = v.node }) e
            ∙ after-evidence u.node v.node before,
      )

  -- The state space bounds what the loop pushes, so it ends by its own test.
  outside :
      (s : PathState)
      → contains (all_states (keys (adjacency_of spec.edges))) s ≡ false
      → path_successors spec s ≡ []
  unfolding path_successors
  outside s h =
      rw
        (get_or-missing (adjacency_of spec.edges) s.node []
          (rw (contains-all_states (keys (adjacency_of spec.edges)) s) at h))
        refl

  pub path_walk-Handled :
      Handled never (path_successors spec) (visit_issues spec) (initial spec) (path_walk spec)
  unfolding path_walk
  path_walk-Handled =
      walk-Handled never (path_successors spec) (visit_issues spec) (initial spec)
        (all_states (keys (adjacency_of spec.edges))) outside

  -- The `while pending:` loop of `_protected_paths` ends with nothing pending.
  pub path_walk-ends : (path_walk spec).pending ≡ []
  unfolding path_walk
  path_walk-ends =
      walk-budget never (path_successors spec) (visit_issues spec)
        (all_states (keys (adjacency_of spec.edges))) outside (initial spec)

  -- What a trail must have done before it ends at a node of the given type.
  abbrev pub IsSafeEnd : WorkflowNodeType → Outcome → List String → Type 0
  IsSafeEnd reviewer outcome before = since_worker spec is_verify before ≡ true
  IsSafeEnd github_publish outcome before =
      (since_worker spec is_verify before ≡ true) × (since_worker spec is_reviewer before ≡ true)
  IsSafeEnd finalize outcome before =
      outcome ≡ derive
      → last_worker_requires spec before ≡ true
      → since_worker spec is_verify before ≡ true
  IsSafeEnd _ outcome before = Unit

  abbrev pub IsSafe : String → List String → Type 0
  IsSafe v before =
      (n : WorkflowNode) × (node_at spec.nodes v ≡ some n)
      × IsSafeEnd n.type n.config.outcome before

  evidence_issues_iff :
      (type : WorkflowNodeType) (outcome : Outcome) (v : String) (before : List String)
      → (evidence_issues type outcome (evidence v before) ≡ []) ↔ IsSafeEnd type outcome before
  evidence_issues_iff reviewer outcome v before = ground arith
  evidence_issues_iff github_publish outcome v before = ground arith
  evidence_issues_iff finalize outcome v before = ground arith
  evidence_issues_iff _ outcome v before = (λ _. tt, λ _. refl)

  IsSafe-of_silent :
      (v : String) (before : List String)
      → visit_issues spec (evidence v before) ≡ []
      → IsSafe v before
  unfolding visit_issues
  IsSafe-of_silent v before h = elim (Option-cases (node_at spec.nodes v)) [
    | inl unknown ↦ ground arith
    | inr (n, p) ↦
        (n, p, (evidence_issues_iff n.type n.config.outcome v before).0 (rw (p, visit_issues) at h))
  ]

  silent_of_IsSafe :
      (v : String) (before : List String)
      → IsSafe v before
      → visit_issues spec (evidence v before) ≡ []
  unfolding visit_issues
  silent_of_IsSafe v before (n, p, safe) =
      rw (p, visit_issues) ((evidence_issues_iff n.type n.config.outcome v before).1 safe)

  silent-Trail :
      (s : PathState)
      → TrailOf s
      → ((v : String) (before : List String) → Trail spec v before → IsSafe v before)
      → visit_issues spec s ≡ []
  unfolding TrailOf
  silent-Trail s (before, t, e) safe = rw e (silent_of_IsSafe s.node before (safe s.node before t))

  -- The loop of `_protected_paths` reports nothing exactly if every trail from the entrypoint is
  -- safe at its end: it ends at a node of the workflow; at a reviewer something was verified
  -- since the last worker; at a publication something was verified and reviewed since the last
  -- worker; at a finalize node that derives success, something was verified since the last
  -- worker, if that worker's policy requires it.
  pub path_walk-silent_iff :
      ((path_walk spec).out ≡ [])
      ↔ ((v : String) (before : List String) → Trail spec v before → IsSafe v before)
  path_walk-silent_iff = (
    λ none v before t. IsSafe-of_silent v before (
        path_walk-Handled.silent.0 none (evidence v before)
          ((path_walk-Handled.exact (evidence v before)).1 (Trail-reaches t))),
    λ safe.
        path_walk-Handled.silent.1
          (λ s m. silent-Trail s (Reaches-Trail ((path_walk-Handled.exact s).0 m)) safe),
  )
