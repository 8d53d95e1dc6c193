-- ===== src/Budget/Authorize.antt =====
-- orchestrator/app/jarvis_orchestrator/providers/budget.py: `BudgetGateway.authorize`.
use jarvis_development.Prelude.{
  ℕ, Bool, not, ◌||◌, none, some, List, ◌∷◌, String, string_eq, nat_eq, ◌==◌, if◌then◌else◌,
}
use jarvis_development.Contracts.Registry.{Pricing}
use jarvis_development.Budget.Rows.{Grant, Ledger, find_grant}
use jarvis_development.Budget.{
  ProviderRequest, PolicyIdentity, BudgetGateway, TeamScope, Authorization, free_call, granted,
  grant_mismatch, replayed_denial, policy_digest, run_spend, team_denial, decide_spend, is_allow,
}

-- The call that is to be authorized.
pub record PaidCall : Type 0 where
  pub run_id : ℕ
  pub call_id : ℕ
  pub request : ProviderRequest
  pub pricing : Pricing
  pub profile_revision_id : ℕ
  pub provider_revision_id : ℕ
  pub request_digest : String
  pub paid : Bool

module _ (sha256 : PolicyIdentity → String) (gateway : BudgetGateway) (scope : TeamScope) where
  -- A recorded grant is for this call, under this policy.
  abbrev pub grant_matches : Grant → PaidCall → Bool
  grant_matches grant call = not (
      not (grant.run_id == call.run_id)
      || (not (grant.request_digest == call.request_digest)
          || not (grant.policy_digest == policy_digest sha256 gateway)))

  abbrev pub replay : Grant → PaidCall → Authorization
  replay grant call =
      if not (grant_matches grant call)
      then grant_mismatch
      else if not (is_allow grant.decision)
      then replayed_denial grant.reasons
      else granted grant

  -- The row that a first decision writes.
  unfoldable pub first_grant : Ledger → PaidCall → Grant
  first_grant ledger call =
      let spent = run_spend ledger.calls call.run_id in
      let verdict = decide_spend gateway call.request call.pricing spent in
      record {
        call_id = call.call_id;
        run_id = call.run_id;
        route_revision_id = gateway.route_revision_id;
        profile_revision_id = call.profile_revision_id;
        provider_revision_id = call.provider_revision_id;
        request_digest = call.request_digest;
        policy_digest = policy_digest sha256 gateway;
        decision = verdict.1;
        reasons = verdict.2;
        estimated_cost = verdict.0;
        run_spend_before = spent;
      }

  -- `authorize`, with the table of grants after it.
  unfoldable pub authorize : Ledger → PaidCall → Authorization × List Grant
  unfolding first_grant
  authorize ledger call = elim (team_denial gateway scope ledger.calls) [
    | some denial ↦ (denial, ledger.grants)
    | none ↦
        if not call.paid
        then (free_call, ledger.grants)
        else elim (find_grant ledger.grants call.call_id) [
          | some grant ↦ (replay grant call, ledger.grants)
          | none ↦ (granted (first_grant ledger call), first_grant ledger call ∷ ledger.grants)
        ]
  ]
