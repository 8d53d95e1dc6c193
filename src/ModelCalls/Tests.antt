-- ===== src/ModelCalls/Tests.antt =====
-- One paid call of run 7, from its authorization to its receipt.
use jarvis_development.Prelude.{
  ℕ, ◌≤◌, true, false, none, some, [], ◌∷◌, ◌≡◌, refl, subst, or_else, if◌then◌else◌, String,
  string_eq, nat_eq, arith,
}
use jarvis_development.Contracts.Registry.{public, Usage, Provenance}
use jarvis_development.Contracts.Samples.{priced, route, asking}
use jarvis_development.Spend.{calculate_cost, estimated_cost, evaluate_spend}
use jarvis_development.Spend.Estimate.{cost-le-estimate}
use jarvis_development.Budget.Rows.{Grant, Ledger, Accounting, has_started, find_grant}
use jarvis_development.Budget.{
  PolicyIdentity, BudgetGateway, TeamScope, granted, replayed_denial, bound_route, is_allow,
  team_denial, decide_spend, run_spend, estimate_input_tokens,
}
use jarvis_development.Budget.Authorize.{PaidCall, authorize, first_grant}
use jarvis_development.Budget.Replay.{authorize-replays}
use jarvis_development.ModelCalls.{calling, begin_call, finish_call}
use jarvis_development.ModelCalls.Spent.{finished_cost}
use jarvis_development.ModelCalls.Ceiling.{Caps, Fits, done, next, begin, finish}
use jarvis_development.ModelCalls.Funded.{no_calls, Steps-within}

abbrev accepting : Accounting
accepting = record { valid = λ row. true; same_payload = λ a b. false }

abbrev gateway : BudgetGateway
gateway = record {
  route = some route;
  route_revision_id = some 100;
  max_inference_calls = none;
  mission_id = none;
  team_version_id = none;
}

abbrev no_team : TeamScope
no_team = record { turns = []; runs = [] }

-- An estimate of 256 + 44 = 300 input and 20 output tokens, at 2 and 10: a cost of 800.
abbrev call : PaidCall
call = record {
  run_id = 7;
  call_id = 1;
  request = record {
    run_id = some 7;
    purpose = "code";
    text_bytes = 44;
    schema_bytes = none;
    tool_bytes = [];
    output_tokens = 20;
    data_classification = public;
  };
  pricing = priced;
  profile_revision_id = 10;
  provider_revision_id = 1;
  request_digest = "request";
  paid = true;
}

abbrev usage : Usage
usage = record {
  input_tokens = some 100;
  cached_tokens = some 40;
  output_tokens = some 20;
  provenance = Provenance.exact;
}

abbrev digest : PolicyIdentity → String
digest identity = "policy"

abbrev begun : Ledger
begun = (begin_call accepting (λ s. s) digest gateway no_team no_calls call).1

calls_provider : (begin_call accepting (λ s. s) digest gateway no_team no_calls call).0 ≡ calling
unfolding begin_call authorize team_denial decide_spend run_spend evaluate_spend
    estimate_input_tokens
calls_provider = refl

-- (100 - 40) * 2 + 40 * 1 + 20 * 10
costs : (calculate_cost usage priced).amount ≡ some 360
unfolding calculate_cost
costs = refl

abbrev finished : Ledger
finished = or_else (finish_call accepting (λ s. s) begun call "reply" usage) begun

finishes : finish_call accepting (λ s. s) begun call "reply" usage ≡ some finished
unfolding begin_call authorize team_denial decide_spend run_spend evaluate_spend
    estimate_input_tokens finish_call
finishes = refl

finished_costs : finished_cost finished.calls ≡ some 360
unfolding begin_call authorize team_denial decide_spend run_spend evaluate_spend
    estimate_input_tokens finish_call finished_cost
finished_costs = refl

caps : Caps gateway 2000
unfolding bound_route
caps other id e =
    let same : route ≡ other = cc in
    (2000, subst (λ r. r.spend.max_run_cost ≡ some 2000) same refl, omega arith)

begun_started : has_started begun.started 7 1 ≡ true
unfolding begin_call authorize team_denial decide_spend run_spend evaluate_spend
    estimate_input_tokens
begun_started = refl

small_cost :
    (calculate_cost
      (record usage { input_tokens = some 50; cached_tokens = some 30 })
      priced).amount
    ≡ some 270
unfolding calculate_cost
small_cost = refl

abbrev grant : Grant
grant = first_grant digest gateway no_team no_calls call

granted_first : authorize digest gateway no_team no_calls call ≡ (granted grant, grant ∷ [])
unfolding authorize team_denial first_grant
granted_first = refl

grant_found : find_grant begun.grants 1 ≡ some grant
unfolding begin_call authorize team_denial decide_spend run_spend evaluate_spend
    estimate_input_tokens
grant_found = refl

grant_estimate : grant.estimated_cost ≡ some 800
unfolding first_grant decide_spend run_spend evaluate_spend estimate_input_tokens
grant_estimate = refl

finished_grants : finished.grants ≡ grant ∷ []
unfolding begin_call authorize team_denial decide_spend run_spend evaluate_spend
    estimate_input_tokens finish_call
finished_grants = refl

unteamed : team_denial gateway no_team finished.calls ≡ none
unfolding team_denial
unteamed = refl

fits : Fits begun call usage
fits other estimate amount found estimates takes =
    let same : grant ≡ other = cc (grant_found) in
    ground
      (arith, estimates, takes, costs, subst (λ g. g.estimated_cost ≡ some 800) same grant_estimate)

Steps-within_example : 360 ≤ 2000
Steps-within_example =
    Steps-within accepting (λ s. s) digest 7 2000 finished 360
      (next (next (done no_calls) (begin gateway no_team no_calls call refl refl caps))
        (finish begun finished call "reply" usage refl begun_started fits finishes))
      finished_costs

cost-le-estimate_example :
    (estimate : ℕ) × (estimated_cost asking.requirements priced ≡ some estimate) × (270 ≤ estimate)
cost-le-estimate_example =
    cost-le-estimate (record usage { input_tokens = some 50; cached_tokens = some 30 })
      asking.requirements priced 270
      (record { input_within = λ n e. ground (arith, e); output_within = λ n e. ground (arith, e) })
      (λ cached input e f. ground (arith, e, f)) small_cost

authorize-replays_example :
    authorize digest gateway no_team finished call
    ≡ (if is_allow grant.decision then granted grant else replayed_denial grant.reasons, grant ∷ [])
authorize-replays_example =
    authorize-replays digest gateway no_team no_calls finished call grant (grant ∷ []) refl
      granted_first finished_grants unteamed
