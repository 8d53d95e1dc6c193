-- ===== src/ModelCalls/Accounts.antt =====
-- The transactions of `RuntimeModel.invoke`, by their cases.
use jarvis_development.Prelude.{
  ℕ, ◌+◌, ◌≤◌, true, not, ◌&&◌, Option, none, some, List, [], ◌∷◌, ◌≡◌, refl, subst, ◌⊎◌, inl, inr,
  String, string_eq, nat_eq, Bool-cases, Option-cases, is_some, arith,
}
use jarvis_development.Contracts.Registry.{Decision, Pricing, SpendPolicy, Usage}
use jarvis_development.Spend.{estimated_cost, run_total, is_known}
use jarvis_development.Spend.Laws.{evaluate_spend-IsAffordable, Within}
use jarvis_development.Budget.Rows.{CallRow, Grant, Ledger, Accounting, find_call}
use jarvis_development.Budget.{
  ProviderRequest, BudgetGateway, TeamScope, Authorization, requirements_of, decide_bound,
  team_denial,
}
use jarvis_development.Budget.Authorize.{PaidCall}
use jarvis_development.Budget.Replay.{team_denial-cases}
use jarvis_development.ModelCalls.{account_row, account, act_on}
use jarvis_development.ModelCalls.Spent.{has_stage}

find_call-has_stage :
    (rows : List CallRow) (id : ℕ) (stage : String) {prior : CallRow}
    → find_call rows id stage ≡ some prior
    → has_stage stage rows id ≡ true
unfolding has_stage
find_call-has_stage [] id stage h = cc
find_call-has_stage (row ∷ rows) id stage {prior} h =
    ground (arith, find_call-has_stage rows id stage {prior = prior})

module _ (accounting : Accounting) where
  -- A row was there before, or the row is added.
  pub account-cases :
      (ledger after : Ledger) (call : PaidCall) (stage : String) (usage : Usage)
      → account accounting ledger call stage usage ≡ some after
      → ((after ≡ ledger) × (has_stage stage ledger.calls call.call_id ≡ true))
        ⊎ (after ≡ record ledger { calls = account_row call stage usage ∷ ledger.calls })
  unfolding account
  account-cases ledger after call stage usage h =
      elim (Option-cases (find_call ledger.calls call.call_id stage)) [
        | inl fresh ↦ inr (ground (arith, fresh))
        | inr (prior, old) ↦
            inl (ground (arith, old), find_call-has_stage ledger.calls call.call_id stage old)
      ]

  -- A denial by the team's budget changes nothing.
  pub team_denial-raised :
      (gateway : BudgetGateway) (scope : TeamScope) (ledger : Ledger) (call : PaidCall)
      (grants : List Grant) {denial : Authorization}
      → team_denial gateway scope ledger.calls ≡ some denial
      → (act_on accounting ledger call (denial, grants)).1 ≡ ledger
  unfolding act_on
  team_denial-raised gateway scope ledger call grants {denial} h =
      elim (team_denial-cases gateway scope ledger.calls h) [
        | inl incomplete ↦ rw incomplete refl
        | inr exhausted ↦ rw exhausted refl
      ]

some-room :
    (spent estimate : Option ℕ) (ceiling : ℕ)
    → Within (some ceiling) (run_total spent estimate)
    → (before : ℕ) × (amount : ℕ) × (spent ≡ some before)
      × (estimate ≡ some amount)
      × (before + amount ≤ ceiling)
some-room none estimate ceiling (n, e, le) = cc
some-room (some before) none ceiling (n, e, le) = cc
some-room (some before) (some amount) ceiling (n, e, le) =
    (before, amount, refl, refl, ground (arith, e, le))

-- The room that an allowed call leaves below the ceiling of the run.
pub decide_bound-room :
    (policy : SpendPolicy) (request : ProviderRequest) (pricing : Pricing) (spent : Option ℕ)
    (ceiling : ℕ)
    → policy.max_run_cost ≡ some ceiling
    → (decide_bound policy request pricing spent).1 ≡ Decision.allow
    → (before : ℕ) × (estimate : ℕ) × (spent ≡ some before)
      × ((decide_bound policy request pricing spent).0 ≡ some estimate)
      × (before + estimate ≤ ceiling)
unfolding decide_bound
decide_bound-room policy request pricing spent ceiling capped h =
    elim (Bool-cases (is_known pricing.status)) [
      | inr unknown ↦ let e : Decision.deny ≡ Decision.allow = rw unknown at h in cc
      | inl known ↦ elim (Bool-cases (not (is_some spent) && is_some policy.max_run_cost)) [
        | inl blind ↦ let e : Decision.deny ≡ Decision.allow = rw (known, blind) at h in cc
        | inr told ↦
            let fits =
              evaluate_spend-IsAffordable policy (requirements_of request spent) pricing true
                (rw (known, told) at h) in
            let (before, amount, was, estimate, le) =
              some-room spent (estimated_cost (requirements_of request spent) pricing) ceiling (
                subst
                  (λ limit.
                    Within limit
                      (run_total spent (estimated_cost (requirements_of request spent) pricing)))
                  capped fits.run_within) in
            (before, amount, was, rw (known, told) estimate, le)
      ]
    ]
