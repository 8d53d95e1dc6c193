-- ===== src/Spend/Estimate.antt =====
-- The estimate of a call bounds its cost.
use native.Mathlib.Nat.{add-mul, sub-zero}
use jarvis_development.Prelude.{
  ℕ, ◌≤◌, ◌+◌, ◌-◌, ◌*◌, true, Option, none, some, ◌≡◌, refl, subst, inl, inr, ltb, or_else, ◌>>=◌,
  Bool-cases, if◌then◌else◌, arith,
}
use jarvis_development.Contracts.Registry.{Pricing, Usage, RouteRequirements}
use jarvis_development.Spend.{
  is_known, is_applicable, is_reported, cost_amount, calculate_cost, estimated_usage,
  estimated_cost,
}

-- A cached token costs at most as much as another one.
abbrev pub IsDiscounted : Pricing → Type 0
IsDiscounted pricing =
    (cached input : ℕ)
    → pricing.cached_per_million ≡ some cached
    → pricing.input_per_million ≡ some input
    → cached ≤ input

-- The usage stays within the requirements.
pub record IsWithin (usage : Usage) (requirements : RouteRequirements) : Type 0 where
  pub input_within : (n : ℕ) → usage.input_tokens ≡ some n → n ≤ requirements.input_tokens
  pub output_within : (n : ℕ) → usage.output_tokens ≡ some n → n ≤ requirements.output_tokens

mul_mono : (a b c d : ℕ) → a ≤ b → c ≤ d → a * c ≤ b * d
mul_mono a b c d h k = grind arith

sum_price : (d c p q : ℕ) → q ≤ p → d * p + c * q ≤ (d + c) * p
sum_price d c p q h = omega (arith, mul_mono c c q p (omega arith) h, add-mul d c p)

split-price :
    (cached input input_price cached_price : ℕ)
    → cached ≤ input
    → cached_price ≤ input_price
    → (input - cached) * input_price + cached * cached_price ≤ input * input_price
split-price cached input input_price cached_price h k =
    let whole : input - cached + cached ≡ input = omega arith in
    subst (λ n. (input - cached) * input_price + cached * cached_price ≤ n * input_price) whole
      (sum_price (input - cached) cached input_price cached_price k)

cost-bound :
    (input output cached input_price cached_price output_price I O : ℕ)
    → cached ≤ input
    → cached_price ≤ input_price
    → input ≤ I
    → output ≤ O
    → (input - cached) * input_price + cached * cached_price + output * output_price
      ≤ I * input_price + O * output_price
cost-bound input output cached input_price cached_price output_price I O a b c d = omega (
  arith,
  split-price cached input input_price cached_price a b,
  mul_mono input I input_price input_price c (omega arith),
  mul_mono output O output_price output_price d (omega arith),
)

amount-of :
    (usage : Usage) (pricing : Pricing) (amount : ℕ)
    → (calculate_cost usage pricing).amount ≡ some amount
    → (is_applicable pricing.status ≡ true)
      × (is_known pricing.status ≡ true)
      × (cost_amount usage pricing ≡ some amount)
unfolding calculate_cost
amount-of usage pricing amount h = ground arith

of-amount :
    (usage : Usage) (pricing : Pricing) (amount : ℕ)
    → is_applicable pricing.status ≡ true
    → is_known pricing.status ≡ true
    → is_reported usage.provenance ≡ true
    → cost_amount usage pricing ≡ some amount
    → (calculate_cost usage pricing).amount ≡ some amount
unfolding calculate_cost
of-amount usage pricing amount applies known reported h = ground arith

discount :
    (cached : Option ℕ) (price : ℕ)
    → ((p : ℕ) → cached ≡ some p → p ≤ price)
    → or_else cached price ≤ price
discount none price h = omega arith
discount (some p) price h = h p refl

-- What `cost_amount` reads of its fields.
abbrev amount_of : Option ℕ → Option ℕ → Option ℕ → Option ℕ → Option ℕ → Option ℕ → Option ℕ
amount_of inputs outputs input_prices output_prices cached_tokens cached_prices = do
  input ← inputs
  output ← outputs
  input_price ← input_prices
  output_price ← output_prices
  let cached = or_else cached_tokens 0
  let cached_price = or_else cached_prices input_price
  if ltb input cached
      then none
      else some ((input - cached) * input_price + cached * cached_price + output * output_price)

-- An amount is known only with every part, and stays below the one without cached tokens.
amount_of-bound :
    (inputs outputs input_prices output_prices cached_tokens cached_prices : Option ℕ)
    (amount I O : ℕ)
    → ((n : ℕ) → inputs ≡ some n → n ≤ I)
    → ((n : ℕ) → outputs ≡ some n → n ≤ O)
    → ((p q : ℕ) → cached_prices ≡ some p → input_prices ≡ some q → p ≤ q)
    → amount_of inputs outputs input_prices output_prices cached_tokens cached_prices ≡ some amount
    → (estimate : ℕ) × (amount_of (some I) (some O) input_prices output_prices none cached_prices
        ≡ some estimate)
      × (amount ≤ estimate)
amount_of-bound none outputs ips ops c cps amount I O hi ho hp h = cc
amount_of-bound (some i) none ips ops c cps amount I O hi ho hp h = cc
amount_of-bound (some i) (some o) none ops c cps amount I O hi ho hp h = cc
amount_of-bound (some i) (some o) (some ip) none c cps amount I O hi ho hp h = cc
amount_of-bound (some i) (some o) (some ip) (some op) c cps amount I O hi ho hp h =
    elim (Bool-cases (ltb i (or_else c 0))) [
      | inl over ↦ let e : none ≡ some amount = rw over at h in cc
      | inr fine ↦
          let cost = i * ip in
          let e : some ((i - or_else c 0) * ip + or_else c 0 * or_else cps ip + o * op)
              ≡ some amount =
            rw fine at h in
          (
            I * ip + O * op,
            ground (arith, sub-zero I),
            ground (
              arith,
              e,
              cost-bound i o (or_else c 0) ip (or_else cps ip) op I O (ground (arith, fine))
                  (discount cps ip (λ p k. hp p ip k refl)) (hi i refl) (ho o refl),
            ),
          )
    ]

-- The cost of a call that stays within its requirements is at most the estimate, where a cached
-- token costs at most as much as another one.
pub cost-le-estimate :
    (usage : Usage) (requirements : RouteRequirements) (pricing : Pricing) (amount : ℕ)
    → IsWithin usage requirements
    → IsDiscounted pricing
    → (calculate_cost usage pricing).amount ≡ some amount
    → (estimate : ℕ) × (estimated_cost requirements pricing ≡ some estimate) × (amount ≤ estimate)
unfolding estimated_cost cost_amount
cost-le-estimate usage requirements pricing amount within discounted h =
    let (applies, known, costs) = amount-of usage pricing amount h in
    let (estimate, same, le) =
      amount_of-bound usage.input_tokens usage.output_tokens pricing.input_per_million
        pricing.output_per_million usage.cached_tokens pricing.cached_per_million amount
        requirements.input_tokens requirements.output_tokens within.input_within
        within.output_within discounted costs in
    (
      estimate,
      of-amount (estimated_usage requirements) pricing estimate applies known refl same,
      le,
    )
