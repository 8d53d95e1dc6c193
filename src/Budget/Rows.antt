-- ===== src/Budget/Rows.antt =====
-- The rows behind provider budgets: `ModelBudgetGrantModel`, `ModelCallModel` and
-- `ModelResponseReceiptModel` of packages/persistence/src/jarvis_persistence/models.py, with
-- `AccountingService.record_in_session` of api/app/jarvis_api/routing/observability.py. An
-- idempotency key `call:stage` is its two parts.
use jarvis_development.Prelude.{
  ℕ, Bool, false, ◌&&◌, ◌||◌, Option, none, some, List, [], ◌∷◌, String, string_eq, nat_eq, ◌==◌,
  option_is, if◌then◌else◌,
}
use jarvis_development.Contracts.Registry.{Decision, Cost}
use jarvis_development.Spend.{SpendReason}

pub record CallRow : Type 0 where
  pub run_id : Option ℕ
  pub management_turn_id : Option ℕ
  pub correlation_id : ℕ
  pub stage : String
  pub demo : Bool
  pub cost : Cost

pub record Grant : Type 0 where
  pub call_id : ℕ
  pub run_id : ℕ
  pub route_revision_id : Option ℕ
  pub profile_revision_id : ℕ
  pub provider_revision_id : ℕ
  pub request_digest : String
  pub policy_digest : String
  pub decision : Decision
  pub reasons : List SpendReason
  pub estimated_cost : Option ℕ
  pub run_spend_before : Option ℕ

pub record Receipt : Type 0 where
  pub call_id : ℕ
  pub run_id : ℕ
  pub request_digest : String
  pub response_digest : String
  pub response : String

-- `started` holds the `model.call_started` events, by run and call.
pub record Ledger : Type 0 where
  pub calls : List CallRow
  pub grants : List Grant
  pub receipts : List Receipt
  pub started : List (ℕ × ℕ)

abbrev pub find_grant : List Grant → ℕ → Option Grant
find_grant [] id = none
find_grant (g ∷ gs) id = if g.call_id == id then some g else find_grant gs id

abbrev pub find_receipt : List Receipt → ℕ → Option Receipt
find_receipt [] id = none
find_receipt (r ∷ rs) id = if r.call_id == id then some r else find_receipt rs id

abbrev pub has_started : List (ℕ × ℕ) → ℕ → ℕ → Bool
has_started [] run call = false
has_started ((r, c) ∷ events) run call = r == run && c == call || has_started events run call

abbrev pub find_call : List CallRow → ℕ → String → Option CallRow
find_call [] id stage = none
find_call (row ∷ rows) id stage =
    if row.correlation_id == id && row.stage == stage then some row else find_call rows id stage

-- The rows `select(ModelCallModel).where(run_id == ...)` returns.
abbrev pub rows_of_run : List CallRow → ℕ → List CallRow
rows_of_run [] run = []
rows_of_run (row ∷ rows) run =
    let rest = rows_of_run rows run in if option_is row.run_id run then row ∷ rest else rest

-- What `record_in_session` checks of a record against the registry, and the digest that tells
-- whether a row holds the same record.
pub record Accounting : Type 0 where
  pub valid : CallRow → Bool
  pub same_payload : CallRow → CallRow → Bool

-- `record_in_session`; `none` stands for its exceptions.
unfoldable pub record_call : Accounting → List CallRow → CallRow → Option (List CallRow)
record_call accounting rows row = elim (find_call rows row.correlation_id row.stage) [
  | some prior ↦ if accounting.same_payload prior row then some rows else none
  | none ↦ if accounting.valid row then some (row ∷ rows) else none
]
