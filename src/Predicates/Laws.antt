-- ===== src/Predicates/Laws.antt =====
-- What a predicate can observe, and how its comparisons relate.
use mathlib.Core.Path.{ap₂}
use jarvis_development.Prelude.{
  Bool, true, false, not, ◌&&◌, ◌||◌, Option, none, some, [], ◌∷◌, ◌≡◌, refl, String, string_eq,
  get, arith, is_some, Option-cases, Bool-cases, inl, inr, ap, ◌∙◌, sym, subst, All, Dict, ◌==◌,
}
use jarvis_development.Contracts.Json.{Json, Fields, Dyadic, dyadic_lt}
use jarvis_development.Contracts.Workflow.{
  Predicate, predicate, Arguments, lt, lte, gt, gte, and_all, or_any, not_one,
}
use jarvis_development.Predicates.{
  allowed_paths, lookup_path, ordered_number, compare_path, compare_numbers, evaluate, evaluate_all,
  evaluate_any, evaluate_first, path_or_empty,
}

abbrev pub is_number : Option Json → Bool
is_number none = false
is_number (some v) = is_some (ordered_number v)

-- The two states agree wherever an approved path leads.
abbrev pub SameObservations : Fields → Fields → Type 0
SameObservations s t = All (λ entry. lookup_path s entry.0 ≡ lookup_path t entry.0) allowed_paths

get-All :
    {B : Type 0} (P : String → Type 0) (d : Dict String B) (k : String) {v : B}
    → All (λ entry. P entry.0) d
    → get d k ≡ some v
    → P k
get-All P [] k h e = cc
get-All P ((k', v') ∷ d) k {v} (p, ps) e = elim (Bool-cases (k' == k)) [
  | inl hit ↦ subst P ((string_eq.same_iff k' k).0 hit) p
  | inr miss ↦ get-All P d k {v = v} ps (ground (arith, miss))
]

lookup_path-other :
    (u : Fields) (path : String) → get allowed_paths path ≡ none → lookup_path u path ≡ none
unfolding lookup_path
lookup_path-other u path other = rw (other, lookup_path)

lookup_path-same :
    (s t : Fields) (path : String) → SameObservations s t → lookup_path s path ≡ lookup_path t path
lookup_path-same s t path h = elim (Option-cases (get allowed_paths path)) [
  | inl other ↦ lookup_path-other s path other ∙ sym (lookup_path-other t path other)
  | inr (parts, known) ↦ get-All (λ p. lookup_path s p ≡ lookup_path t p) allowed_paths path h known
]

mutual
  unfolding evaluate evaluate_all evaluate_any evaluate_first

  evaluate-same :
      (p : Predicate) (s t : Fields) → SameObservations s t → evaluate p s ≡ evaluate p t
  evaluate-same (predicate and_all path value args) s t h = evaluate_all-same args s t h
  evaluate-same (predicate or_any path value args) s t h = evaluate_any-same args s t h
  evaluate-same (predicate not_one path value args) s t h = ap not (evaluate_first-same args s t h)
  evaluate-same (predicate op path value args) s t h =
      ap (λ found. compare_path op found value) (lookup_path-same s t (path_or_empty path) h)

  evaluate_all-same :
      (ps : Arguments) (s t : Fields) → SameObservations s t → evaluate_all ps s ≡ evaluate_all ps t
  evaluate_all-same Arguments.nil s t h = refl
  evaluate_all-same (Arguments.cons p ps) s t h =
      ap₂ ◌&&◌ (evaluate-same p s t h) (evaluate_all-same ps s t h)

  evaluate_any-same :
      (ps : Arguments) (s t : Fields) → SameObservations s t → evaluate_any ps s ≡ evaluate_any ps t
  evaluate_any-same Arguments.nil s t h = refl
  evaluate_any-same (Arguments.cons p ps) s t h =
      ap₂ ◌||◌ (evaluate-same p s t h) (evaluate_any-same ps s t h)

  evaluate_first-same :
      (ps : Arguments) (s t : Fields)
      → SameObservations s t
      → evaluate_first ps s ≡ evaluate_first ps t
  evaluate_first-same Arguments.nil s t h = refl
  evaluate_first-same (Arguments.cons p ps) s t h = evaluate-same p s t h

-- A predicate has one value at two states in which every approved path leads to the same value:
-- it observes nothing else.
pub evaluate_observes :
    (p : Predicate) (s t : Fields) → SameObservations s t → evaluate p s ≡ evaluate p t
evaluate_observes p s t h = evaluate-same p s t h

-- Of two numbers, not both are below the other.
dyadic_lt-asym : (a b : Dyadic) → dyadic_lt b a ≡ true → dyadic_lt a b ≡ false
dyadic_lt-asym a b h = ground arith

-- The facts about two values, where each may be no number.
abbrev OrderFacts : Option Dyadic → Option Dyadic → Type 0
OrderFacts a b =
    ((compare_numbers lt a b || compare_numbers gte a b) ≡ (is_some a && is_some b))
    × ((compare_numbers lt a b && compare_numbers gte a b) ≡ false)
    × (compare_numbers gt a b ≡ (compare_numbers gte a b && not (compare_numbers lte a b)))

order_facts : (a b : Option Dyadic) → OrderFacts a b
order_facts none b = (refl, refl, refl)
order_facts (some a) none = (refl, refl, refl)
order_facts (some a) (some b) = ground (arith, dyadic_lt-asym a b, dyadic_lt-asym b a)

-- At every path and value exactly one of three things holds: `lt`, `gte`, or the path or the
-- value is no number; booleans are none. `gt` holds exactly if `gte` does and `lte` does not.
pub order_trichotomy :
    (path : Option String) (value : Json) (args : Arguments) (state : Fields)
    → let found = lookup_path state (path_or_empty path) in
      let less = evaluate (predicate lt path value args) state in
      let more = evaluate (predicate gte path value args) state in
      ((less || more) ≡ (is_number found && is_some (ordered_number value)))
      × ((less && more) ≡ false)
      × (evaluate (predicate gt path value args) state
          ≡ (more && not (evaluate (predicate lte path value args) state)))
unfolding evaluate compare_path
order_trichotomy path value args state =
    elim (Option-cases (lookup_path state (path_or_empty path))) [
      | inl missing ↦ rw missing (refl, refl, refl)
      | inr (v, e) ↦ rw e (order_facts (ordered_number v) (ordered_number value))
    ]
