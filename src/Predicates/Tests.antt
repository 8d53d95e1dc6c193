-- ===== src/Predicates/Tests.antt =====
-- Tests of the predicate language, and its theorems at concrete states.
use jarvis_development.Prelude.{true, false, not, ◌&&◌, ◌||◌, none, some, ◌≡◌, refl, String}
use jarvis_development.Contracts.Json.{
  null, bool, int, pos, str, arr, obj, cons, nil, field, end, Fields,
}
use jarvis_development.Contracts.Workflow.{
  Predicate, predicate, Arguments, eq, lt, lte, gt, gte, and_all,
}
use jarvis_development.Predicates.{equal, evaluate, lookup_path, compare_path}
use jarvis_development.Predicates.Laws.{SameObservations, evaluate_observes, order_trichotomy}

-- A boolean is no number at the top, but Python compares it as one inside a list.
equal-bool_number : equal (bool true) (int (pos 1)) ≡ false
unfolding equal
equal-bool_number = refl

equal-nested : equal (arr (cons (bool true) nil)) (arr (cons (int (pos 1)) nil)) ≡ true
unfolding equal
equal-nested = refl

-- Two states that differ in a field that no approved path leads to.
abbrev state_of : String → Fields
state_of secret =
    field "outcome" (obj (field "status" (str "failed") (field "log" (str secret) end)))
      (field "tasks" (obj (field "total_count" (int (pos 3)) end)) end)

abbrev too_many : Predicate
too_many = predicate and_all none null (
    Arguments.cons (predicate gte (some "$.tasks.total_count") (int (pos 2)) Arguments.nil) (
      Arguments.cons (predicate eq (some "$.outcome.status") (str "failed") Arguments.nil)
        Arguments.nil))

too_many_holds : evaluate too_many (state_of "a") ≡ true
unfolding evaluate compare_path lookup_path
too_many_holds = refl

same_observations : SameObservations (state_of "a") (state_of "b")
unfolding lookup_path
same_observations = (
  refl,
  (
    refl,
    (
      refl,
      (
        refl,
        (refl, (refl, (refl, (refl, (refl, (refl, (refl, (refl, (refl, (refl, (refl, tt))))))))))),
      ),
    ),
  ),
)

evaluate_observes_example : evaluate too_many (state_of "a") ≡ evaluate too_many (state_of "b")
evaluate_observes_example =
    evaluate_observes too_many (state_of "a") (state_of "b") same_observations

order_trichotomy_example :
    let less =
      evaluate
        (predicate lt (some "$.tasks.total_count") (int (pos 3)) Arguments.nil)
        (state_of "a") in
    let more =
      evaluate
        (predicate gte (some "$.tasks.total_count") (int (pos 3)) Arguments.nil)
        (state_of "a") in
    ((less || more) ≡ true)
    × ((less && more) ≡ false)
    × (evaluate
          (predicate gt (some "$.tasks.total_count") (int (pos 3)) Arguments.nil)
          (state_of "a")
        ≡ (more
            && not (
                evaluate
                  (predicate lte (some "$.tasks.total_count") (int (pos 3)) Arguments.nil)
                  (state_of "a"))))
unfolding lookup_path
order_trichotomy_example =
    order_trichotomy (some "$.tasks.total_count") (int (pos 3)) Arguments.nil (state_of "a")
