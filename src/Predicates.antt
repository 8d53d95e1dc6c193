-- ===== src/Predicates.antt =====
-- orchestrator/app/jarvis_orchestrator/workflows/predicates.py: bounded predicates over the
-- observable state of a workflow, which is a JSON object.
pub mod Laws
mod Tests
use jarvis_development.Prelude.{
  Bool, true, false, not, ◌&&◌, ◌||◌, Option, none, some, List, [], ◌∷◌, String, string_eq, ◌==◌,
  get, Dict, if◌then◌else◌,
}
use jarvis_development.Contracts.Json.{
  Json, null, bool, int, float, str, arr, obj, Items, Fields, nil, cons, Dyadic, dyadic_lt,
  as_number, lookup_field, py_eq,
}
use jarvis_development.Contracts.Workflow.{
  Predicate, predicate, Arguments, PredicateOperator, eq, neq, in_list, exists, lt, lte, gt, gte,
  and_all, or_any, not_one,
}

-- `ALLOWED_PATHS`, each with `path[2:].split(".")`.
abbrev pub allowed_paths : Dict String (List String)
allowed_paths =
    ("$.outcome.status", "outcome" ∷ "status" ∷ [])
    ∷ ("$.outcome.failure_class", "outcome" ∷ "failure_class" ∷ [])
    ∷ ("$.node.result", "node" ∷ "result" ∷ [])
    ∷ ("$.node.status", "node" ∷ "status" ∷ [])
    ∷ ("$.node.failure_class", "node" ∷ "failure_class" ∷ [])
    ∷ ("$.tasks.terminal_count", "tasks" ∷ "terminal_count" ∷ [])
    ∷ ("$.tasks.total_count", "tasks" ∷ "total_count" ∷ [])
    ∷ ("$.tasks.current_task", "tasks" ∷ "current_task" ∷ [])
    ∷ ("$.verification.passed", "verification" ∷ "passed" ∷ [])
    ∷ ("$.review.passed", "review" ∷ "passed" ∷ [])
    ∷ ("$.approval.decision", "approval" ∷ "decision" ∷ [])
    ∷ ("$.approval.action_type", "approval" ∷ "action_type" ∷ [])
    ∷ ("$.approval.granted_by", "approval" ∷ "granted_by" ∷ [])
    ∷ ("$.final.status", "final" ∷ "status" ∷ [])
    ∷ ("$.cancelled", "cancelled" ∷ [])
    ∷ []

-- The loop of `_lookup`; `none` is `_MISSING`.
unfoldable pub walk_path : Json → List String → Option Json
walk_path value [] = some value
walk_path value (part ∷ parts) = elim value [
  | obj fields ↦ elim (lookup_field fields part) [ none ↦ none | some v ↦ walk_path v parts ]
  | _ ↦ none
]

-- `_lookup`
unfoldable pub lookup_path : Fields → String → Option Json
unfolding walk_path
lookup_path state path = elim (get allowed_paths path) [
  | none ↦ none
  | some parts ↦ walk_path (obj state) parts
]

-- `get_path`: a missing value is `None`, as a JSON null is.
unfoldable pub get_path : Fields → String → Json
unfolding lookup_path
get_path state path = elim (lookup_path state path) [ none ↦ null | some v ↦ v ]

abbrev is_bool : Json → Bool
is_bool (bool b) = true
is_bool _ = false

-- `_equal`
unfoldable pub equal : Json → Json → Bool
unfolding py_eq
equal left right = elim (is_bool left) [
  | true ↦ elim (is_bool right) [ true ↦ py_eq left right | false ↦ false ]
  | false ↦ elim (is_bool right) [ true ↦ false | false ↦ py_eq left right ]
]

-- `any(_equal(actual, item) for item in expected)`
unfoldable pub equal_any : Json → Items → Bool
unfolding equal
equal_any actual nil = false
equal_any actual (cons item items) = equal actual item || equal_any actual items

-- The numbers that an ordering accepts: `int` or `float`, and not a `bool`.
abbrev pub ordered_number : Json → Option Dyadic
ordered_number (bool b) = none
ordered_number v = as_number v

abbrev pub order : PredicateOperator → Dyadic → Dyadic → Bool
order lt a b = dyadic_lt a b
order lte a b = not (dyadic_lt b a)
order gt a b = dyadic_lt b a
order _ a b = not (dyadic_lt a b)

-- The last part of `evaluate_predicate`: an ordering fails unless both values are numbers.
abbrev pub compare_numbers : PredicateOperator → Option Dyadic → Option Dyadic → Bool
compare_numbers op none expected = false
compare_numbers op (some a) none = false
compare_numbers op (some a) (some b) = order op a b

abbrev pub compare_order : PredicateOperator → Json → Json → Bool
compare_order op actual expected =
    compare_numbers op (ordered_number actual) (ordered_number expected)

-- The comparisons, where a value was found.
unfoldable pub compare_value : PredicateOperator → Json → Json → Bool
unfolding equal equal_any
compare_value eq actual expected = equal actual expected
compare_value neq actual expected = not (equal actual expected)
compare_value in_list actual expected = elim expected [
  | arr items ↦ equal_any actual items
  | _ ↦ false
]
compare_value op actual expected = compare_order op actual expected

-- An operator at a path: `exists`, or a comparison that fails on a missing value.
unfoldable pub compare_path : PredicateOperator → Option Json → Json → Bool
unfolding compare_value
compare_path op none expected = false
compare_path exists (some actual) expected = true
compare_path op (some actual) expected = compare_value op actual expected

abbrev pub path_or_empty : Option String → String
path_or_empty none = ""
path_or_empty (some path) = path

-- `evaluate_predicate`; `predicate.args[0]` of `not` exists by `Predicate.validate_shape`.
unfoldable mutual
  pub evaluate : Predicate → Fields → Bool
  evaluate (predicate and_all path value args) state = evaluate_all args state
  evaluate (predicate or_any path value args) state = evaluate_any args state
  evaluate (predicate not_one path value args) state = not (evaluate_first args state)
  evaluate (predicate op path value args) state =
      compare_path op (lookup_path state (path_or_empty path)) value

  pub evaluate_all : Arguments → Fields → Bool
  evaluate_all Arguments.nil state = true
  evaluate_all (Arguments.cons p ps) state = evaluate p state && evaluate_all ps state

  pub evaluate_any : Arguments → Fields → Bool
  evaluate_any Arguments.nil state = false
  evaluate_any (Arguments.cons p ps) state = evaluate p state || evaluate_any ps state

  pub evaluate_first : Arguments → Fields → Bool
  evaluate_first Arguments.nil state = false
  evaluate_first (Arguments.cons p ps) state = evaluate p state
