-- ===== src/Routing/Bounds.antt =====
-- `_choose_route` stays on the node's edges, and charges every bounded edge within its budget.
use mathlib.Core.Option.{some-injective}
use jarvis_development.Prelude.{
  ℕ, suc, ◌≤◌, Bool, true, Option, none, some, List, [], ◌∷◌, ◌≡◌, refl, ◌⊎◌, inl, inr, String,
  string_eq, nat_eq, ◌==◌, arith, get_or, find?, Bool-cases, Option-cases, All, subst, option_is,
}
use jarvis_development.Contracts.Failures.{FailureClass, class_eq, RetryRule}
use jarvis_development.Contracts.Json.{Fields}
use jarvis_development.Contracts.Workflow.{
  WorkflowEdge, WorkflowEdgeKind, WorkflowNode, WorkflowSpec, retry, iterate,
}
use jarvis_development.Validation.Policy.{effective_policy}
use jarvis_development.Routing.{
  Counters, Revision, RevisionSpec, retry_rules, other_spec, Route, routed, failed, iterate_route,
  retry_route, take_edge, skips, route_from, choose_route, progress_key, advanced, find_revision,
  find_rule,
}
use jarvis_development.Routing.MaxMap.{max_map, max_map-grows, max_map-head}

-- What may stand beside a charge: nothing, or the progress of the same iterator, which has advanced.
abbrev pub IsProgressOf : String → Counters → Counters → Type 0
IsProgressOf k counters [] = Unit
IsProgressOf k counters ((j, p) ∷ []) =
    (j ≡ progress_key k) × (advanced counters (progress_key k) p ≡ true)
IsProgressOf k counters (a ∷ b ∷ rest) = ⊥

-- A charge: the first entry raises its counter by one, to at most `limit`, and no other entry is a
-- charge.
abbrev pub ChargedWithin : ℕ → Counters → Route → Type 0
ChargedWithin limit counters (failed e) = Unit
ChargedWithin limit counters (routed t []) = Unit
ChargedWithin limit counters (routed t ((k, v) ∷ rest)) =
    (v ≡ suc (get_or counters k 0)) × (v ≤ limit) × IsProgressOf k counters rest

-- Every retry rule, and every iteration bound, is at most `limit`.
abbrev pub RulesWithin : ℕ → Revision → Type 0
RulesWithin limit revision = elim revision.spec [
  | retry_rules rules ↦ All (λ rule. rule.max_retries ≤ limit) rules
  | other_spec ↦ Unit
]

abbrev pub EdgeWithin : ℕ → WorkflowEdge → Type 0
EdgeWithin limit e = elim e.max_iterations [ none ↦ Unit | some n ↦ n ≤ limit ]

All-find? :
    {A : Type 0} (P : A → Type 0) (p : A → Bool) (xs : List A) {x : A}
    → All P xs
    → find? p xs ≡ some x
    → P x
All-find? P p [] all e = cc
All-find? P p (y ∷ ys) {x} all e = elim (Bool-cases (p y)) [
  | inl hit ↦ subst P (some-injective y x (rw hit at e)) all.0
  | inr miss ↦ All-find? P p ys all.1 (rw miss at e)
]

RevisionSpec-cases :
    (s : RevisionSpec) → (s ≡ other_spec) ⊎ ((rules : List RetryRule) × (s ≡ retry_rules rules))
RevisionSpec-cases (retry_rules rules) = inr (rules, refl)
RevisionSpec-cases other_spec = inl refl

module _ (limit : ℕ) (counters : Counters) where
  iterate_route-ChargedWithin :
      (e : WorkflowEdge) (state : Fields)
      → EdgeWithin limit e
      → ChargedWithin limit counters (iterate_route e state counters)
  unfolding iterate_route
  iterate_route-ChargedWithin e state within = ground arith

  module _ (spec : WorkflowSpec) (revisions : List Revision) (node : WorkflowNode)
      (fallback : Option WorkflowEdge) (state : Fields)
      (rules : All (RulesWithin limit) revisions) where
    rule_within :
        (policy_id : Option ℕ) {revision : Revision} {listed : List RetryRule}
        → find_revision revisions policy_id ≡ some revision
        → revision.spec ≡ retry_rules listed
        → (c : FailureClass) {rule : RetryRule} → find_rule listed c ≡ some rule
        → rule.max_retries ≤ limit
    rule_within policy_id {revision} {listed} found is_retry c hit =
        All-find? (λ rule. rule.max_retries ≤ limit) (λ rule. rule.failure_class == c) listed
          (rw is_retry at (
            All-find? (RulesWithin limit) (λ r. option_is policy_id r.revision_id) revisions rules
              found))
          hit

    retry_route-ChargedWithin :
        (e : WorkflowEdge) (c : FailureClass)
        → ChargedWithin limit counters (retry_route spec revisions node fallback state counters e c)
    unfolding retry_route
    retry_route-ChargedWithin e c =
        let policy_id = (effective_policy spec node).retry_policy_ref in
        elim (Option-cases (find_revision revisions policy_id)) [
          | inl missing ↦ ground arith
          | inr (revision, found) ↦ elim (RevisionSpec-cases revision.spec) [
            | inl other ↦ ground arith
            | inr (listed, is_retry) ↦ elim (Option-cases (find_rule listed c)) [
              | inl unlisted ↦ ground arith
              | inr (rule, hit) ↦ ground (arith, rule_within policy_id found is_retry c hit)
            ]
          ]
        ]

    take_edge-ChargedWithin :
        (kind : WorkflowEdgeKind) (e : WorkflowEdge)
        → EdgeWithin limit e
        → ChargedWithin limit counters
            (take_edge spec revisions node fallback state counters kind e)
    unfolding take_edge
    take_edge-ChargedWithin retry e within = elim (Option-cases e.retry_class) [
      | inl unclassed ↦ rw (unclassed, take_edge) tt
      | inr (c, p) ↦ rw (p, take_edge) (retry_route-ChargedWithin e c)
    ]
    take_edge-ChargedWithin iterate e within = iterate_route-ChargedWithin e state within
    take_edge-ChargedWithin kind e within = tt

    route_from-ChargedWithin :
        (es : List WorkflowEdge)
        → All (EdgeWithin limit) es
        → ChargedWithin limit counters (route_from spec revisions node fallback state counters es)
    unfolding route_from
    route_from-ChargedWithin [] within = ground arith
    route_from-ChargedWithin (e ∷ es) within =
        elim (Bool-cases (skips spec revisions node fallback state counters e)) [
          | inl skip ↦ rw skip (route_from-ChargedWithin es within.1)
          | inr taken ↦ rw taken (take_edge-ChargedWithin e.kind e within.0)
        ]

-- `_choose_route` charges at most one counter at a time: the first entry of what it writes raises a
-- counter by exactly one, and never above a limit that all retry rules of the snapshot and all
-- iteration bounds of the node's edges respect; it writes at most one more entry, which is the
-- progress recorded for that counter and has advanced.
pub choose_route-ChargedWithin :
    (limit : ℕ) (spec : WorkflowSpec) (revisions : List Revision) (node : WorkflowNode)
    (edges : List WorkflowEdge) (state : Fields) (counters : Counters)
    → All (RulesWithin limit) revisions
    → All (EdgeWithin limit) edges
    → ChargedWithin limit counters (choose_route spec revisions node edges state counters)
unfolding choose_route
choose_route-ChargedWithin limit spec revisions node edges state counters rules within =
    route_from-ChargedWithin limit counters spec revisions node (find? (λ e. e.fallback) edges)
      state rules edges within

-- A history of a workflow: each step either merges any counters, or charges what
-- `_choose_route` returned; `n` counts the charges of the counter `key`.
module _ (limit : ℕ) (spec : WorkflowSpec) (revisions : List Revision) (key : String) where
  pub data History : ℕ → Counters → Type 0 where
    fresh : (counters : Counters) → History 0 counters
    merged :
        {n : ℕ} {before : Counters}
        → History n before
        → (update : Counters) → History n (max_map before update)
    charged :
        {n : ℕ} {before : Counters}
        → History n before
        → (node : WorkflowNode) (edges : List WorkflowEdge) (state : Fields)
        → All (EdgeWithin limit) edges
        → (target : String) (v : ℕ) (rest : Counters)
        → choose_route spec revisions node edges state before ≡ routed target ((key, v) ∷ rest)
        → History (suc n) (max_map before ((key, v) ∷ rest))

module _ (limit : ℕ) (spec : WorkflowSpec) (revisions : List Revision) (key : String)
    (rules : All (RulesWithin limit) revisions) where
  charged_exactly :
      (node : WorkflowNode) (edges : List WorkflowEdge) (state : Fields) (before : Counters)
      → All (EdgeWithin limit) edges
      → (target : String) (v : ℕ) (rest : Counters)
      → choose_route spec revisions node edges state before ≡ routed target ((key, v) ∷ rest)
      → (v ≡ suc (get_or before key 0)) × (v ≤ limit) × IsProgressOf key before rest
  charged_exactly node edges state before within target v rest p =
      subst (ChargedWithin limit before) p
        (choose_route-ChargedWithin limit spec revisions node edges state before rules within)

  History-counted :
      {n : ℕ} {counters : Counters}
      → History limit spec revisions key n counters
      → n ≤ get_or counters key 0
  History-counted (fresh counters) = omega arith
  History-counted (merged {before = before} h update) =
      omega (arith, History-counted h, max_map-grows before update key)
  History-counted (charged {before = before} h node edges state within target v rest p) = omega (
    arith,
    History-counted h,
    max_map-head before rest key v,
    charged_exactly node edges state before within target v rest p,
  )

  -- Over any history of a workflow, with counters merged in between in any way, one counter is
  -- charged at most as often as the limit: the retry and iteration budgets hold globally.
  pub History-bounded :
      {n : ℕ} {counters : Counters} → History limit spec revisions key n counters → n ≤ limit
  History-bounded (fresh counters) = omega arith
  History-bounded (merged h update) = History-bounded h
  History-bounded (charged {before = before} h node edges state within target v rest p) =
      omega
        (arith, History-counted h, charged_exactly node edges state before within target v rest p)
