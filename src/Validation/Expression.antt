-- ===== src/Validation/Expression.antt =====
-- orchestrator/app/jarvis_orchestrator/workflows/validation.py: `_predicate_issues`, the limits of
-- a predicate's syntax tree.
pub mod Limits
use jarvis_development.Prelude.{
  ℕ, zero, suc, ◌+◌, Bool, true, false, not, ◌&&◌, ◌||◌, Option, none, some, List, [], ◌∷◌, ◌++◌,
  String, string_eq, ltb, is_some, get, if◌then◌else◌,
}
use jarvis_development.Worklist.{push_all}
use jarvis_development.Contracts.Json.{Json, null, bool, int, float, arr, Items, nil, cons}
use jarvis_development.Contracts.Workflow.{
  Predicate, predicate, Arguments, PredicateOperator, in_list, lt, lte, gt, gte,
}
use jarvis_development.Predicates.{allowed_paths, ordered_number}
use jarvis_development.Validation.Issue.{
  Issue, predicate_limit, predicate_path, predicate_value, edge_issue,
}
use jarvis_development.Validation.Protected.{report_unless}

-- `MAX_PREDICATE_DEPTH` and `MAX_PREDICATE_COUNT`
abbrev pub max_predicate_depth : ℕ
max_predicate_depth = 8

abbrev pub max_predicate_count : ℕ
max_predicate_count = 64

-- `current.path is None or current.path in ALLOWED_PATHS`
abbrev pub path_approved : Option String → Bool
path_approved none = true
path_approved (some path) = is_some (get allowed_paths path)

abbrev pub count_items : Items → ℕ
count_items nil = 0
count_items (cons v vs) = suc (count_items vs)

-- The operand of `in` is a list of at most 64 values.
abbrev pub list_fits : PredicateOperator → Json → Bool
list_fits in_list (arr items) = not (ltb 64 (count_items items))
list_fits in_list value = false
list_fits op value = true

abbrev pub is_ordering : PredicateOperator → Bool
is_ordering lt = true
is_ordering lte = true
is_ordering gt = true
is_ordering gte = true
is_ordering op = false

abbrev pub is_null : Json → Bool
is_null null = true
is_null value = false

abbrev pub has_args : Arguments → Bool
has_args Arguments.nil = false
has_args (Arguments.cons p ps) = true

-- What the loop's body reports of one predicate.
unfoldable pub own_issues : String → Predicate → List Issue
own_issues edge (predicate op path value args) =
    report_unless (path_approved path) (edge_issue predicate_path edge)
    ++ report_unless (list_fits op value) (edge_issue predicate_value edge)
    ++ report_unless (not (is_ordering op) || is_some (ordered_number value))
        (edge_issue predicate_value edge)
    ++ report_unless (not (has_args args) || is_null value) (edge_issue predicate_value edge)

-- `((child, depth + 1) for child in current.args)`
abbrev pub children : Arguments → ℕ → List (Predicate × ℕ)
children Arguments.nil depth = []
children (Arguments.cons p ps) depth = (p, depth) ∷ children ps depth

abbrev pub args_of : Predicate → Arguments
args_of (predicate op path value args) = args

-- `while pending:`; the fuel is one more than the rounds that the count allows.
unfoldable pub predicate_walk : String → ℕ → List (Predicate × ℕ) → ℕ → List Issue
unfolding own_issues
predicate_walk edge zero pending count = []
predicate_walk edge (suc fuel) [] count = []
predicate_walk edge (suc fuel) ((p, depth) ∷ pending) count =
    let rest =
      predicate_walk edge fuel (push_all (children (args_of p) (depth + 1)) pending) (count + 1) in
    if ltb max_predicate_depth depth || ltb max_predicate_count (count + 1)
    then edge_issue predicate_limit edge ∷ []
    else own_issues edge p ++ rest

-- `_predicate_issues`
unfoldable pub predicate_issues : Predicate → String → List Issue
unfolding predicate_walk
predicate_issues p edge = predicate_walk edge (suc max_predicate_count) ((p, 1) ∷ []) 0
