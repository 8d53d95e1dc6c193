-- ===== src/Spend.antt =====
-- api/app/jarvis_api/routing/policies.py: `calculate_cost` and `evaluate_spend`.
pub mod Laws
pub mod Estimate
use jarvis_development.Prelude.{
  ℕ, ◌+◌, ◌-◌, ◌*◌, Bool, true, false, not, ◌&&◌, ◌||◌, Option, none, some, List, [], ◌∷◌, ltb,
  reported, ◌>>=◌, or_else, if◌then◌else◌,
}
use jarvis_development.Contracts.Registry.{
  Decision, decision_of, Pricing, PricingStatus, Usage, Provenance, Cost, CostStatus, SpendPolicy,
  RouteRequirements,
}

abbrev pub is_known : PricingStatus → Bool
is_known PricingStatus.known = true
is_known status = false

abbrev pub is_applicable : PricingStatus → Bool
is_applicable PricingStatus.not_applicable = false
is_applicable status = true

-- The status of a cost whose usage has this provenance.
abbrev pub cost_status : Provenance → CostStatus
cost_status Provenance.exact = CostStatus.exact
cost_status Provenance.estimated = CostStatus.estimated
cost_status Provenance.unknown = CostStatus.unknown

abbrev pub is_reported : Provenance → Bool
is_reported Provenance.unknown = false
is_reported provenance = true

-- The amount, where pricing and usage are complete. A cached token costs as much as another one
-- where no price is set for it.
unfoldable pub cost_amount : Usage → Pricing → Option ℕ
cost_amount usage pricing = do
  input ← usage.input_tokens
  output ← usage.output_tokens
  input_price ← pricing.input_per_million
  output_price ← pricing.output_per_million
  let cached = or_else usage.cached_tokens 0
  let cached_price = or_else pricing.cached_per_million input_price
  if ltb input cached
      then none
      else some ((input - cached) * input_price + cached * cached_price + output * output_price)

unfoldable pub calculate_cost : Usage → Pricing → Cost
unfolding cost_amount
calculate_cost usage pricing =
    let unknown_cost : Cost = record {
      amount = none;
      currency = pricing.currency;
      status = CostStatus.unknown;
    } in
    if not (is_applicable pricing.status)
    then record { amount = none; currency = pricing.currency; status = CostStatus.not_applicable }
    else if not (is_known pricing.status) || not (is_reported usage.provenance)
    then unknown_cost
    else elim (cost_amount usage pricing) [
      | none ↦ unknown_cost
      | some amount ↦ record {
        amount = some amount;
        currency = pricing.currency;
        status = cost_status usage.provenance;
      }
    ]

pub data SpendReason : Type 0 where
  paid_disabled input_ceiling output_ceiling call_ceiling run_ceiling : SpendReason
  no_route pricing_unknown spend_unknown : SpendReason

-- `limit is not None and (estimate is None or estimate > limit)`
abbrev pub exceeds : Option ℕ → Option ℕ → Bool
exceeds none estimate = false
exceeds (some limit) none = true
exceeds (some limit) (some estimate) = ltb limit estimate

-- The sum that the run's ceiling is compared with.
abbrev pub run_total : Option ℕ → Option ℕ → Option ℕ
run_total spend estimate = do total ← spend; amount ← estimate; some (total + amount)

-- The usage that `requirements` bound.
abbrev pub estimated_usage : RouteRequirements → Usage
estimated_usage requirements = record {
  input_tokens = some requirements.input_tokens;
  cached_tokens = none;
  output_tokens = some requirements.output_tokens;
  provenance = Provenance.estimated;
}

-- The cost of such a usage.
unfoldable pub estimated_cost : RouteRequirements → Pricing → Option ℕ
unfolding calculate_cost
estimated_cost requirements pricing = (calculate_cost (estimated_usage requirements) pricing).amount

-- The tests and the reasons they give.
unfoldable pub spend_checks :
    SpendPolicy → RouteRequirements → Pricing → Bool → List (Bool × SpendReason)
unfolding estimated_cost
spend_checks policy requirements pricing paid =
    let estimate = estimated_cost requirements pricing in
    (paid && not policy.allow_paid, paid_disabled)
    ∷ (ltb policy.max_input_tokens requirements.input_tokens, input_ceiling)
    ∷ (ltb policy.max_output_tokens requirements.output_tokens, output_ceiling)
    ∷ (exceeds policy.max_call_cost estimate, call_ceiling)
    ∷ (exceeds policy.max_run_cost (run_total requirements.run_spend estimate), run_ceiling)
    ∷ []

unfoldable pub evaluate_spend :
    SpendPolicy → RouteRequirements → Pricing → Bool → Decision × List SpendReason
unfolding spend_checks
evaluate_spend policy requirements pricing paid =
    let reasons = reported (spend_checks policy requirements pricing paid) in
    (elim reasons [ [] ↦ Decision.allow | r ∷ rs ↦ decision_of policy.on_exceeded ], reasons)
