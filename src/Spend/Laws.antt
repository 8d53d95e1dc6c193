-- ===== src/Spend/Laws.antt =====
-- What `evaluate_spend` allows, and that a call within its bounds costs at most the estimate.
use jarvis_development.Prelude.{
  ℕ, ◌≤◌, Bool, true, false, Option, none, some, List, [], ◌∷◌, ◌≡◌, refl, arith, reported-nil,
}
use jarvis_development.Contracts.Registry.{
  Decision, Restriction, decision_of, Pricing, SpendPolicy, RouteRequirements,
}
use jarvis_development.Spend.{
  SpendReason, exceeds, run_total, estimated_cost, spend_checks, evaluate_spend,
}

-- A known amount within a limit, if there is one.
abbrev pub Within : Option ℕ → Option ℕ → Type 0
Within none amount = Unit
Within (some limit) amount = (n : ℕ) × (amount ≡ some n) × (n ≤ limit)

Within-of : (limit amount : Option ℕ) → exceeds limit amount ≡ false → Within limit amount
Within-of none amount h = tt
Within-of (some limit) none h = cc
Within-of (some limit) (some n) h = (n, refl, ground arith)

pub record IsAffordable (policy : SpendPolicy) (requirements : RouteRequirements)
    (pricing : Pricing) (paid : Bool) : Type 0 where
  pub paid_allowed : paid ≡ true → policy.allow_paid ≡ true
  pub input_within : requirements.input_tokens ≤ policy.max_input_tokens
  pub output_within : requirements.output_tokens ≤ policy.max_output_tokens
  pub call_within : Within policy.max_call_cost (estimated_cost requirements pricing)
  pub run_within :
      Within policy.max_run_cost
        (run_total requirements.run_spend (estimated_cost requirements pricing))

decision-allow :
    (restriction : Restriction) (reasons : List SpendReason)
    → (elim reasons [ [] ↦ Decision.allow | r ∷ rs ↦ decision_of restriction ]) ≡ Decision.allow
    → reasons ≡ []
decision-allow restriction [] h = refl
decision-allow Restriction.deny (r ∷ rs) h = cc
decision-allow Restriction.require_approval (r ∷ rs) h = cc

-- A call that `evaluate_spend` allows is affordable.
pub evaluate_spend-IsAffordable :
    (policy : SpendPolicy) (requirements : RouteRequirements) (pricing : Pricing) (paid : Bool)
    → (evaluate_spend policy requirements pricing paid).0 ≡ Decision.allow
    → IsAffordable policy requirements pricing paid
unfolding evaluate_spend
evaluate_spend-IsAffordable policy requirements pricing paid h =
    let silent = decision-allow policy.on_exceeded _ h in
    let (allowed, (input, (output, (call, (run, end))))) =
      reported-nil (spend_checks policy requirements pricing paid)
        (decision-allow policy.on_exceeded _ h) in
    record {
      paid_allowed = λ p. ground (arith, allowed);
      input_within = ground (arith, input);
      output_within = ground (arith, output);
      call_within = Within-of policy.max_call_cost _ call;
      run_within = Within-of policy.max_run_cost _ run;
    }
