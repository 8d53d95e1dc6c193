-- ===== src/Routing.antt =====
-- orchestrator/app/jarvis_orchestrator/workflows/compiler.py: `_failure_class` and
-- `_choose_route`, which picks a node's next target and charges its counters.
pub mod MaxMap
pub mod Merging
pub mod Bounds
pub mod Targets
pub mod Keys
pub mod Dispatch
mod Tests
use Prim.Native.String.{◌++◌ as join_text}
use jarvis_development.Prelude.{
  ℕ, suc, ◌+◌, Bool, true, false, not, ◌&&◌, ◌||◌, Option, none, some, List, [], ◌∷◌, String,
  string_eq, nat_eq, ◌==◌, leb, ltb, Dict, get_or, find?, option_is, is_some, if◌then◌else◌,
}
use jarvis_development.Contracts.Failures.{FailureClass, class_eq, class_value, RetryRule}
use jarvis_development.Contracts.Json.{
  Json, null, bool, int, float, str, arr, obj, Items, nil, Fields, end, pos, negsuc, lookup_field,
  py_eq,
}
use jarvis_development.Contracts.Workflow.{
  WorkflowEdge, WorkflowEdgeKind, always, on_result, retry, iterate, on_failure, WorkflowNode,
  WorkflowSpec, NodePolicy,
}
use jarvis_development.Predicates.{evaluate, get_path}
use jarvis_development.Validation.Policy.{effective_policy}

-- `state["counters"]`: counters are nonnegative, as `max_map` enforces.
abbrev pub Counters : Type 0
Counters = Dict String ℕ

-- The specification of a resolved revision: a retry policy's rules, or one of another kind.
pub data RevisionSpec : Type 0 where
  retry_rules : List RetryRule → RevisionSpec
  other_spec : RevisionSpec

pub record Revision : Type 0 where
  pub revision_id : ℕ
  pub spec : RevisionSpec

-- What the function raises.
pub data RouteError : Type 0 where
  missing_revision incompatible_policy missing_rule exhausted_without_fallback : RouteError
  no_progress iterations_exceeded no_matching_route : RouteError

pub data Route : Type 0 where
  routed : String → Counters → Route
  failed : RouteError → Route

-- `state.get(key, {}).get("failure_class")`; a `none` is a missing key.
abbrev failure_field : Fields → String → Option Json
failure_field state key = elim (lookup_field state key) [
  | none ↦ none
  | some v ↦ elim v [ obj fields ↦ lookup_field fields "failure_class" | _ ↦ none ]
]

-- `_failure_class`
unfoldable pub failure_class_of : Fields → Json
failure_class_of state = elim (failure_field state "outcome") [
  | some v ↦ v
  | none ↦ elim (failure_field state "node") [ some v ↦ v | none ↦ null ]
]

-- Python's truth value of JSON data.
abbrev pub truthy : Json → Bool
truthy null = false
truthy (bool b) = b
truthy (int n) = elim n [ pos k ↦ not (k == 0) | negsuc k ↦ true ]
truthy (float n k) = elim n [ pos m ↦ not (m == 0) | negsuc m ↦ true ]
truthy (str s) = not (s == "")
truthy (arr items) = elim items [ nil ↦ false | _ ↦ true ]
truthy (obj fields) = elim fields [ end ↦ false | _ ↦ true ]

-- `failure_class == retry_class.value`
abbrev pub is_class : Json → FailureClass → Bool
is_class v c = elim v [ str s ↦ s == class_value c | _ ↦ false ]

-- f"retry:{node.id}:{edge.retry_class.value}"
abbrev pub retry_key : String → FailureClass → String
retry_key node c = join_text (join_text "retry:" node) (join_text ":" (class_value c))

-- f"iterate:{edge.iteration_key}"
abbrev pub iterate_key : String → String
iterate_key key = join_text "iterate:" key

-- f"{key}:progress"
abbrev pub progress_key : String → String
progress_key key = join_text key ":progress"

-- Formatting an optional text: Python writes `None`.
abbrev pub shown : Option String → String
shown none = "None"
shown (some s) = s

-- `progress <= previous`, where a missing previous value is -1 and `progress` is nonnegative.
abbrev pub has : Counters → String → Bool
has [] key = false
has ((k, v) ∷ counters) key = k == key || has counters key

-- The iterator's progress: a nonnegative `int`, larger than the recorded one.
abbrev pub progress_of : Json → Option ℕ
progress_of (int (pos n)) = some n
progress_of _ = none

abbrev pub advanced : Counters → String → ℕ → Bool
advanced counters key progress = not (has counters key) || ltb (get_or counters key 0) progress

-- The branch of an iterate edge.
unfoldable pub iterate_route : WorkflowEdge → Fields → Counters → Route
iterate_route e state counters =
    let key = iterate_key (shown e.iteration_key) in
    let count = get_or counters key 0 in
    elim (progress_of (get_path state (shown e.progress_path))) [
      | none ↦ failed no_progress
      | some progress ↦
          if not (advanced counters (progress_key key) progress)
          then failed no_progress
          else elim e.max_iterations [
            | none ↦ failed iterations_exceeded
            | some limit ↦
                if leb limit count
                then failed iterations_exceeded
                else routed e.target ((key, count + 1) ∷ (progress_key key, progress) ∷ [])
          ]
    ]

abbrev pub find_revision : List Revision → Option ℕ → Option Revision
find_revision revisions policy_id = find? (λ r. option_is policy_id r.revision_id) revisions

abbrev pub find_rule : List RetryRule → FailureClass → Option RetryRule
find_rule rules c = find? (λ rule. rule.failure_class == c) rules

module _ (spec : WorkflowSpec) (revisions : List Revision) (node : WorkflowNode)
    (fallback : Option WorkflowEdge) (state : Fields) (counters : Counters) where
  -- The branch of a retry edge whose class matches the failure.
  unfoldable pub retry_route : WorkflowEdge → FailureClass → Route
  retry_route e c = elim (find_revision revisions (effective_policy spec node).retry_policy_ref) [
    | none ↦ failed missing_revision
    | some revision ↦ elim revision.spec [
      | other_spec ↦ failed incompatible_policy
      | retry_rules rules ↦ elim (find_rule rules c) [
        | none ↦ failed missing_rule
        | some rule ↦
            let consumed = get_or counters (retry_key node.id c) 0 in
            if leb rule.max_retries consumed
            then elim fallback [
              | none ↦ failed exhausted_without_fallback
              | some f ↦ routed f.target []
            ]
            else routed e.target ((retry_key node.id c, consumed + 1) ∷ [])
      ]
    ]
  ]

  -- The tests that `continue` the loop: the edge is not taken.
  unfoldable pub skips : WorkflowEdge → Bool
  skips e =
      e.fallback
      || (elim e.when [ none ↦ false | some p ↦ not (evaluate p state) ] || elim e.kind [
        | on_failure ↦ not (truthy (failure_class_of state)) || elim e.retry_class [
          | none ↦ false
          | some c ↦ not (is_class (failure_class_of state) c)
        ]
        | retry ↦ elim e.retry_class [
          | none ↦ true
          | some c ↦ not (is_class (failure_class_of state) c)
        ]
        | _ ↦ false
      ])

  -- The rest of the loop's body, for an edge of a kind that is taken.
  unfoldable pub take_edge : WorkflowEdgeKind → WorkflowEdge → Route
  take_edge retry e = elim e.retry_class [
    | none ↦ failed no_matching_route
    | some c ↦ retry_route e c
  ]
  take_edge iterate e = iterate_route e state counters
  take_edge kind e = routed e.target []

  -- `for edge in edges:`, and the fallback behind it.
  unfoldable pub route_from : List WorkflowEdge → Route
  unfolding skips take_edge
  route_from [] = elim fallback [ none ↦ failed no_matching_route | some f ↦ routed f.target [] ]
  route_from (e ∷ es) = let rest = route_from es in if skips e then rest else take_edge e.kind e

-- `_choose_route`
unfoldable pub choose_route :
    WorkflowSpec → List Revision → WorkflowNode → List WorkflowEdge → Fields → Counters → Route
unfolding route_from
choose_route spec revisions node edges state counters =
    route_from spec revisions node (find? (λ e. e.fallback) edges) state counters edges
