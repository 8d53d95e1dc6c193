-- ===== src/RouteChoice/Tests.antt =====
-- A route whose preferred profile has no row.
use jarvis_development.Prelude.{some, none, ◌≡◌, refl, nat_eq, [], ◌∷◌}
use jarvis_development.Contracts.Registry.{Decision, route_policy}
use jarvis_development.Contracts.Samples.{route, rows, asking, row_of}
use jarvis_development.RouteChoice.Candidates.{route_walk, sort_candidates}
use jarvis_development.RouteChoice.Selection.{Outcome, route_walk-Outcome}
use jarvis_development.RouteChoice.Resolved.{IsResolved, resolve_route-IsResolved}
use jarvis_development.RouteChoice.{resolve_route, spend}
use jarvis_development.Spend.{SpendReason, evaluate_spend}

ten_selected :
    (resolve_route asking (row_of 100 (route_policy route)) rows).selected_profile_revision_id
    ≡ some 10
unfolding resolve_route evaluate_spend
ten_selected = refl

ten_allowed :
    (resolve_route asking (row_of 100 (route_policy route)) rows).decision ≡ Decision.allow
unfolding resolve_route evaluate_spend
ten_allowed = refl

-- The call costs 50 * 2 + 20 * 10 = 300, which 1,800 spent before leave no room for.
run_ceiling_met :
    (resolve_route
      (record asking { requirements = record asking.requirements { run_spend = some 1800 } })
      (row_of 100 (route_policy route))
      rows).reasons
    ≡ spend SpendReason.run_ceiling ∷ []
unfolding resolve_route evaluate_spend
run_ceiling_met = refl

route_walk-Outcome_example :
    Outcome asking route rows route.candidates
      (route_walk asking route rows none (sort_candidates route.candidates)).1
route_walk-Outcome_example = route_walk-Outcome asking route rows

resolve_route-IsResolved_example :
    IsResolved asking
      (row_of 100 (route_policy route))
      rows
      (resolve_route asking (row_of 100 (route_policy route)) rows)
      10
resolve_route-IsResolved_example =
    resolve_route-IsResolved asking (row_of 100 (route_policy route)) rows 10 ten_selected
