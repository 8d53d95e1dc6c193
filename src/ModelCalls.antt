-- ===== src/ModelCalls.antt =====
-- orchestrator/app/jarvis_orchestrator/providers/runtime.py: `RuntimeModel.invoke`, as the two
-- transactions around the provider's reply. Both run under the fence of `Runtime.Ownership`, and the
-- request has passed `check_request` of the adapter.
mod Spent
mod Accounts
mod Ceiling
mod Funded
mod Tests
use jarvis_development.Prelude.{
  ℕ, Bool, true, false, not, ◌||◌, Option, none, some, List, [], ◌∷◌, String, string_eq, nat_eq,
  ◌==◌, ltb, if◌then◌else◌,
}
use jarvis_development.Contracts.Registry.{Decision, Pricing, Usage, Provenance, Cost}
use jarvis_development.Spend.{SpendReason, calculate_cost}
use jarvis_development.Budget.Rows.{
  CallRow, Grant, Receipt, Ledger, Accounting, find_receipt, has_started, record_call,
}
use jarvis_development.Budget.{
  PolicyIdentity, BudgetGateway, TeamScope, Authorization, free_call, granted, is_allow,
}
use jarvis_development.Budget.Authorize.{PaidCall, authorize}

-- How the first transaction ends: the recorded reply is returned, an exception rolls it back, the
-- refusal is committed and raised, or the provider may be called.
pub data Begun : Type 0 where
  replied : Receipt → Begun
  receipt_mismatch unreconciled unaccounted : Begun
  raised : Authorization → Begun
  refused : List SpendReason → Begun
  calling : Begun

-- `Usage()`
abbrev pub no_usage : Usage
no_usage = record {
  input_tokens = none;
  cached_tokens = none;
  output_tokens = none;
  provenance = Provenance.unknown;
}

-- The row that `_account` writes.
abbrev pub account_row : PaidCall → String → Usage → CallRow
account_row call stage usage = record {
  run_id = some call.run_id;
  management_turn_id = none;
  correlation_id = call.call_id;
  stage = stage;
  demo = false;
  cost = calculate_cost usage call.pricing;
}

abbrev receipt_matches : (String → String) → Receipt → PaidCall → Bool
receipt_matches response_hash receipt call = not (
    not (receipt.run_id == call.run_id)
    || (not (receipt.request_digest == call.request_digest)
        || not (response_hash receipt.response == receipt.response_digest)))

module _ (accounting : Accounting) where
  -- `_account`, then the event of a started call; `none` where `record_in_session` raises.
  unfoldable pub account : Ledger → PaidCall → String → Usage → Option Ledger
  unfolding record_call
  account ledger call stage usage =
      elim (record_call accounting ledger.calls (account_row call stage usage)) [
        | none ↦ none
        | some calls ↦ some (record ledger { calls = calls })
      ]

  -- The call is refused: the grant and a row of the stage `denied` are kept.
  unfoldable pub refuse_call : Ledger → PaidCall → List Grant → List SpendReason → Begun × Ledger
  unfolding account
  refuse_call ledger call grants reasons =
      elim (account (record ledger { grants = grants }) call "denied" no_usage) [
        | none ↦ (unaccounted, ledger)
        | some after ↦ (refused reasons, after)
      ]

  -- The call is started: the event and a row of the stage `started` are kept.
  unfoldable pub start_call : Ledger → PaidCall → List Grant → Begun × Ledger
  unfolding account
  start_call ledger call grants =
      elim (account
        (record ledger { grants = grants; started = (call.run_id, call.call_id) ∷ ledger.started })
        call "started" no_usage) [ none ↦ (unaccounted, ledger) | some after ↦ (calling, after) ]

  -- What follows from the authorization.
  unfoldable pub act_on : Ledger → PaidCall → Authorization × List Grant → Begun × Ledger
  unfolding refuse_call start_call
  act_on ledger call (free_call, grants) = start_call ledger call grants
  act_on ledger call (granted grant, grants) =
      if is_allow grant.decision
      then start_call ledger call grants
      else refuse_call ledger call grants grant.reasons
  act_on ledger call (denial, grants) = (raised denial, ledger)

module _ (accounting : Accounting) (response_hash : String → String) where
  -- The first transaction.
  unfoldable pub begin_call :
      (PolicyIdentity → String) → BudgetGateway → TeamScope → Ledger → PaidCall → Begun × Ledger
  unfolding act_on
  begin_call sha256 gateway scope ledger call = elim (find_receipt ledger.receipts call.call_id) [
    | some receipt ↦ (
      if receipt_matches response_hash receipt call then replied receipt else receipt_mismatch,
      ledger,
    )
    | none ↦
        if has_started ledger.started call.run_id call.call_id
        then (unreconciled, ledger)
        else act_on accounting ledger call (authorize sha256 gateway scope ledger call)
  ]

  -- The second transaction; `none` where it raises and leaves the ledger as it was. A receipt's
  -- call id is the table's key.
  unfoldable pub finish_call : Ledger → PaidCall → String → Usage → Option Ledger
  unfolding account
  finish_call ledger call response usage = elim (find_receipt ledger.receipts call.call_id) [
    | some receipt ↦ none
    | none ↦
        account accounting
          (record ledger {
            receipts =
                record {
                  call_id = call.call_id;
                  run_id = call.run_id;
                  request_digest = call.request_digest;
                  response_digest = response_hash response;
                  response = response;
                }
                ∷ ledger.receipts;
          })
          call "result" usage
  ]
