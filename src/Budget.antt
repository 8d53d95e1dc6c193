-- ===== src/Budget.antt =====
-- orchestrator/app/jarvis_orchestrator/providers/budget.py: `BudgetGateway`, with
-- `inference_calls` and `reserve_inference_call` of orchestrator/app/jarvis_orchestrator/team_resources.py.
pub mod Rows
pub mod Authorize
pub mod Replay
use jarvis_development.Prelude.{
  ℕ, ◌+◌, ◌*◌, max, Bool, true, false, not, ◌&&◌, ◌||◌, Option, none, some, List, [], ◌∷◌, String,
  string_eq, nat_eq, ◌==◌, option_is, is_some, leb, any, contains, length, get, if◌then◌else◌,
}
use jarvis_development.Contracts.Registry.{
  Decision, Cost, CostStatus, DataClassification, SpendPolicy, RoutePolicySpec, RouteRequirements,
  Pricing, PricingStatus, RegistrySpec, route_policy,
}
use jarvis_development.Spend.{
  SpendReason, no_route, pricing_unknown, spend_unknown, is_known, estimated_cost, evaluate_spend,
}
use jarvis_development.Budget.Rows.{CallRow, Grant, Ledger, find_grant, rows_of_run}

-- `ProviderRequest`, with the lengths that the estimate reads: of the text in UTF-8, and of the
-- canonical JSON of the schema and of each tool.
pub record ProviderRequest : Type 0 where
  pub run_id : Option ℕ
  pub purpose : String
  pub text_bytes : ℕ
  pub schema_bytes : Option ℕ
  pub tool_bytes : List ℕ
  pub output_tokens : ℕ
  pub data_classification : DataClassification

abbrev pub total_of : List ℕ → ℕ
total_of [] = 0
total_of (n ∷ ns) = n + total_of ns

-- `PROVIDER_REQUEST_OVERHEAD_TOKENS`
abbrev pub request_overhead : ℕ
request_overhead = 256

unfoldable pub estimate_input_tokens : ProviderRequest → ℕ
estimate_input_tokens request =
    let schema : ℕ = elim request.schema_bytes [ none ↦ 0 | some n ↦ n ] in
    max 1 (
      request.text_bytes
      + schema
      + total_of request.tool_bytes
      + request_overhead
      + 64 * length request.tool_bytes)

-- What `policy_digest` hashes.
pub record PolicyIdentity : Type 0 where
  pub spend : Option SpendPolicy
  pub route_revision_id : Option ℕ
  pub max_inference_calls : Option ℕ

pub record BudgetGateway : Type 0 where
  pub route : Option RoutePolicySpec
  pub route_revision_id : Option ℕ
  pub max_inference_calls : Option ℕ
  pub mission_id : Option ℕ
  pub team_version_id : Option ℕ

-- The route and its revision, where both are bound.
unfoldable pub bound_route : BudgetGateway → Option (RoutePolicySpec × ℕ)
bound_route gateway = elim gateway.route [
  | none ↦ none
  | some route ↦ elim gateway.route_revision_id [ none ↦ none | some id ↦ some (route, id) ]
]

unfoldable pub policy_digest : (PolicyIdentity → String) → BudgetGateway → String
unfolding bound_route
policy_digest sha256 gateway = elim (bound_route gateway) [
  | none ↦ sha256 (record {
    spend = none;
    route_revision_id = none;
    max_inference_calls = gateway.max_inference_calls;
  })
  | some (route, id) ↦ sha256 (record {
    spend = some route.spend;
    route_revision_id = some id;
    max_inference_calls = gateway.max_inference_calls;
  })
]

-- The amount of a `:result` row: `none` makes the total unsafe.
unfoldable pub row_amount : CallRow → Option ℕ
row_amount row = if row.demo then some 0 else elim row.cost.status [
  | CostStatus.not_applicable ↦ some 0
  | CostStatus.unknown ↦ none
  | CostStatus.exact ↦ row.cost.amount
  | CostStatus.estimated ↦ row.cost.amount
]

-- The loop of `run_spend`, with the sets `started` and `completed` and the total.
unfoldable pub spend_walk : List CallRow → List ℕ → List ℕ → ℕ → Option ℕ
unfolding row_amount
spend_walk [] started completed total =
    if any (λ id. not (contains completed id)) started then none else some total
spend_walk (row ∷ rows) started completed total =
    let after_start = spend_walk rows (row.correlation_id ∷ started) completed total in
    let after_other = spend_walk rows started completed total in
    let after_result =
      λ (amount : ℕ). spend_walk rows started (row.correlation_id ∷ completed) (total + amount) in
    if row.stage == "started"
    then after_start
    else if not (row.stage == "result")
    then after_other
    else elim (row_amount row) [ none ↦ none | some amount ↦ after_result amount ]

unfoldable pub run_spend : List CallRow → ℕ → Option ℕ
unfolding spend_walk
run_spend rows run = spend_walk (rows_of_run rows run) [] [] 0

-- The management turns and the runs of a team in a mission.
pub record TeamScope : Type 0 where
  pub turns : List ℕ
  pub runs : List ℕ

abbrev pub in_scope : TeamScope → CallRow → Bool
in_scope scope row =
    (elim row.management_turn_id [ none ↦ false | some id ↦ contains scope.turns id ])
    || (elim row.run_id [ none ↦ false | some id ↦ contains scope.runs id ])

-- The distinct correlation ids of the team's rows.
unfoldable pub team_calls : TeamScope → List CallRow → List ℕ
team_calls scope [] = []
team_calls scope (row ∷ rows) =
    let rest = team_calls scope rows in
    if in_scope scope row && not (contains rest row.correlation_id)
    then row.correlation_id ∷ rest
    else rest

unfoldable pub inference_calls : TeamScope → List CallRow → ℕ
unfolding team_calls
inference_calls scope rows = length (team_calls scope rows)

-- `BudgetDeniedError` carries its reasons; the texts of identity and team errors are left out.
pub data Authorization : Type 0 where
  identity_incomplete team_exhausted grant_mismatch : Authorization
  replayed_denial : List SpendReason → Authorization
  free_call : Authorization
  granted : Grant → Authorization

-- The check of the team's budget: `none` lets the call pass.
unfoldable pub team_denial : BudgetGateway → TeamScope → List CallRow → Option Authorization
unfolding inference_calls
team_denial gateway scope rows = elim gateway.max_inference_calls [
  | none ↦ none
  | some maximum ↦
      if not (is_some gateway.mission_id) || not (is_some gateway.team_version_id)
      then some identity_incomplete
      else if leb maximum (inference_calls scope rows)
      then some team_exhausted
      else none
]

-- The requirements that bound a call.
abbrev pub requirements_of : ProviderRequest → Option ℕ → RouteRequirements
requirements_of request spent = record {
  purpose = request.purpose;
  capabilities = [];
  input_tokens = estimate_input_tokens request;
  output_tokens = request.output_tokens;
  data_classification = request.data_classification;
  run_spend = spent;
}

-- The decision over a call whose route is bound: the estimate, the decision and its reasons.
unfoldable pub decide_bound :
    SpendPolicy → ProviderRequest → Pricing → Option ℕ → Option ℕ × Decision × List SpendReason
decide_bound policy request pricing spent =
    let verdict = evaluate_spend policy (requirements_of request spent) pricing true in
    if not (is_known pricing.status)
    then (none, Decision.deny, pricing_unknown ∷ [])
    else if not (is_some spent) && is_some policy.max_run_cost
    then (none, Decision.deny, spend_unknown ∷ [])
    else (estimated_cost (requirements_of request spent) pricing, verdict.0, verdict.1)

-- The decision over a paid call without a grant.
unfoldable pub decide_spend :
    BudgetGateway → ProviderRequest → Pricing → Option ℕ → Option ℕ × Decision × List SpendReason
unfolding decide_bound bound_route
decide_spend gateway request pricing spent = elim (bound_route gateway) [
  | none ↦ (none, Decision.deny, no_route ∷ [])
  | some (route, id) ↦ decide_bound route.spend request pricing spent
]

abbrev pub is_allow : Decision → Bool
is_allow Decision.allow = true
is_allow decision = false

-- `bound_budget`, with the node's `model_route_ref` and the snapshot's revisions.
unfoldable pub bound_budget :
    Option ℕ → List (ℕ × RegistrySpec) → Option ℕ → Option ℕ → Option ℕ → BudgetGateway
bound_budget reference revisions max_inference_calls mission_id team_version_id =
    let unbound : BudgetGateway = record {
      route = none;
      route_revision_id = none;
      max_inference_calls = max_inference_calls;
      mission_id = mission_id;
      team_version_id = team_version_id;
    } in
    elim reference [
      | none ↦ unbound
      | some id ↦ elim (get revisions id) [
        | some (route_policy route) ↦ record unbound {
          route = some route;
          route_revision_id = some id;
        }
        | other ↦ unbound
      ]
    ]
