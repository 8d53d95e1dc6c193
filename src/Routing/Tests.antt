-- ===== src/Routing/Tests.antt =====
-- Tests of the route choice, and its theorems at a worker that retries a failed test once.
use jarvis_development.Prelude.{true, some, List, [], ◌∷◌, ◌≡◌, refl, ◌≤◌, string_eq, arith}
use jarvis_development.Contracts.Failures.{code_test_failure, block, class_eq}
use jarvis_development.Contracts.Json.{pos, int, str, obj, field, end, Fields}
use jarvis_development.Contracts.Workflow.{WorkflowEdge, WorkflowNode, worker, retry, iterate}
use jarvis_development.Validation.Sample.{sample, edge, node, bare_policy}
use jarvis_development.Validation.Policy.{effective_policy}
use jarvis_development.Predicates.{get_path}
use jarvis_development.Routing.{
  Revision, retry_rules, routed, failed, iterations_exceeded, retry_key, retry_route, iterate_route,
  choose_route, failure_class_of, Counters, iterate_key, progress_key, progress_of,
}
use jarvis_development.Routing.MaxMap.{max_map}
use jarvis_development.Routing.Bounds.{
  History, fresh, charged, History-bounded, choose_route-ChargedWithin, ChargedWithin,
}
use jarvis_development.Routing.Keys.{iterate_route-collides}

abbrev revisions : List Revision
revisions =
    record {
      revision_id = 7;
      spec = retry_rules (
          record { failure_class = code_test_failure; max_retries = 1; exhaustion_action = block }
          ∷ []);
    }
    ∷ []

abbrev retrying : WorkflowNode
retrying = record (node "w" worker) { policy = record bare_policy { retry_policy_ref = some 7 } }

abbrev retry_edges : List WorkflowEdge
retry_edges =
    record (edge "again" "w" "w") { kind = retry; retry_class = some code_test_failure }
    ∷ record (edge "done" "w" "v") { fallback = true }
    ∷ []

abbrev failed_tests : Fields
failed_tests = field "outcome" (obj (field "failure_class" (str "code.test_failure") end)) end

first_retry :
    choose_route sample revisions retrying retry_edges failed_tests []
    ≡ routed "w" ((retry_key "w" code_test_failure, 1) ∷ [])
unfolding choose_route failure_class_of effective_policy retry_route
first_retry = refl

exhausted_retry :
    choose_route sample revisions retrying retry_edges failed_tests
      ((retry_key "w" code_test_failure, 1) ∷ [])
    ≡ routed "v" []
unfolding choose_route failure_class_of effective_policy retry_route
exhausted_retry = refl

choose_route-ChargedWithin_example :
    ChargedWithin 1 [] (choose_route sample revisions retrying retry_edges failed_tests [])
choose_route-ChargedWithin_example =
    choose_route-ChargedWithin 1 sample revisions retrying retry_edges failed_tests [] (omega arith)
      (omega arith)

one_retry :
    History 1 sample revisions
      (retry_key "w" code_test_failure)
      1
      (max_map [] ((retry_key "w" code_test_failure, 1) ∷ []))
one_retry = charged (fresh []) retrying retry_edges failed_tests (omega arith) "w" 1 [] first_retry

History-bounded_example : 1 ≤ 1
History-bounded_example =
    History-bounded 1 sample revisions (retry_key "w" code_test_failure) (omega arith) one_retry

-- The task iterator has recorded progress 4; the second iterator was never taken.
abbrev one_iterator : Counters
one_iterator = (iterate_key "tasks", 1) ∷ (progress_key (iterate_key "tasks"), 4) ∷ []

abbrev second_iterator : WorkflowEdge
second_iterator = record (edge "next" "d" "w") {
  kind = iterate;
  progress_path = some "$.tasks.terminal_count";
}

abbrev five_done : Fields
five_done = field "tasks" (obj (field "terminal_count" (int (pos 5)) end)) end

progress_five : progress_of (get_path five_done "$.tasks.terminal_count") ≡ some 5
unfolding get_path
progress_five = refl

iterate_route-collides_example :
    iterate_route
      (record second_iterator {
        iteration_key = some (progress_key "tasks");
        max_iterations = some 3;
      })
      five_done
      one_iterator
    ≡ failed iterations_exceeded
iterate_route-collides_example =
    iterate_route-collides "tasks" second_iterator five_done one_iterator 3 5 progress_five refl
      (omega arith)
