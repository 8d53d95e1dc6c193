-- ===== src/ModelCalls/Ceiling.antt =====
-- The run's ceiling: whatever calls a run makes, their known cost stays below it.
use jarvis_development.Prelude.{
  ℕ, ◌+◌, ◌≤◌, Bool, true, false, not, ◌&&◌, Option, none, some, List, ◌∷◌, ◌≡◌, ◌≢◌, refl, sym,
  ◌∙◌, ◌⊎◌, inl, inr, String, string_eq, nat_eq, Bool-cases, arith,
}
use jarvis_development.Contracts.Registry.{Usage, RoutePolicySpec}
use jarvis_development.Spend.{calculate_cost}
use jarvis_development.Budget.Rows.{
  CallRow, Grant, Receipt, Ledger, Accounting, find_grant, find_receipt, has_started, rows_of_run,
}
use jarvis_development.Budget.{
  PolicyIdentity, BudgetGateway, TeamScope, bound_route, is_allow, row_amount,
}
use jarvis_development.Budget.Authorize.{PaidCall}
use jarvis_development.ModelCalls.{account_row, no_usage, begin_call, finish_call}
use jarvis_development.ModelCalls.Spent.{finished_cost, has_stage, add_amounts}

-- A call that is started and not finished.
abbrev pub is_open : List CallRow → ℕ → Bool
is_open rows id = has_stage "started" rows id && not (has_stage "result" rows id)

-- The ceiling of the route that a gateway has, if it has one, is at most this one.
abbrev pub Caps : BudgetGateway → ℕ → Type 0
Caps gateway cap =
    (route : RoutePolicySpec) (id : ℕ)
    → bound_route gateway ≡ some (route, id)
    → (ceiling : ℕ) × (route.spend.max_run_cost ≡ some ceiling) × (ceiling ≤ cap)

-- The reply costs at most what its grant estimated.
abbrev pub Fits : Ledger → PaidCall → Usage → Type 0
Fits ledger call usage =
    (grant : Grant) (estimate amount : ℕ)
    → find_grant ledger.grants call.call_id ≡ some grant
    → grant.estimated_cost ≡ some estimate
    → (calculate_cost usage call.pricing).amount ≡ some amount
    → amount ≤ estimate

module _ (accounting : Accounting) (response_hash : String → String)
    (sha256 : PolicyIdentity → String) (run cap : ℕ) where
  -- The transactions of a run's paid calls, in any order.
  pub data Step : Ledger → Ledger → Type 0 where
    begin :
        (gateway : BudgetGateway) (scope : TeamScope) (ledger : Ledger) (call : PaidCall)
        → call.run_id ≡ run
        → call.paid ≡ true
        → Caps gateway cap
        → Step ledger (begin_call accounting response_hash sha256 gateway scope ledger call).1
    finish :
        (ledger after : Ledger) (call : PaidCall) (response : String) (usage : Usage)
        → call.run_id ≡ run
        → has_started ledger.started run call.call_id ≡ true
        → Fits ledger call usage
        → finish_call accounting response_hash ledger call response usage ≡ some after
        → Step ledger after

  pub data Steps : Ledger → Ledger → Type 0 where
    done : (ledger : Ledger) → Steps ledger ledger
    next : {a b c : Ledger} → Steps a b → Step b c → Steps a c

-- What holds between the transactions.
pub record IsFunded (run cap : ℕ) (ledger : Ledger) : Type 0 where
  pub own : rows_of_run ledger.calls run ≡ ledger.calls
  pub within : (cost : ℕ) → finished_cost ledger.calls ≡ some cost → cost ≤ cap
  pub room :
      (cost id : ℕ)
      → finished_cost ledger.calls ≡ some cost
      → is_open ledger.calls id ≡ true
      → (grant : Grant) × (estimate : ℕ) × (find_grant ledger.grants id ≡ some grant)
        × (grant.estimated_cost ≡ some estimate)
        × (cost + estimate ≤ cap)
  pub single : (a b : ℕ) → is_open ledger.calls a ≡ true → is_open ledger.calls b ≡ true → a ≡ b
  pub starts : (id : ℕ) → has_stage "started" ledger.calls id ≡ has_started ledger.started run id
  pub replies :
      (id : ℕ) → has_stage "result" ledger.calls id ≡ true → find_receipt ledger.receipts id ≢ none
  pub allowed :
      (id : ℕ) (grant : Grant)
      → find_grant ledger.grants id ≡ some grant
      → grant.run_id ≡ run
      → is_allow grant.decision ≡ true
      → has_started ledger.started run id ≡ true

own-row :
    (rows : List CallRow) (call : PaidCall) (stage : String) (usage : Usage) (run : ℕ)
    → call.run_id ≡ run
    → rows_of_run rows run ≡ rows
    → rows_of_run (account_row call stage usage ∷ rows) run ≡ account_row call stage usage ∷ rows
own-row rows call stage usage run e own = ground (arith, (nat_eq.same_iff call.run_id run).1 e)

-- A grant that does not allow the call counts for nothing.
pub grant-IsFunded :
    (run cap : ℕ) (ledger : Ledger) (call : PaidCall) (grant : Grant)
    → grant.call_id ≡ call.call_id
    → is_allow grant.decision ≡ false
    → find_grant ledger.grants call.call_id ≡ none
    → IsFunded run cap ledger
    → IsFunded run cap (record ledger { grants = grant ∷ ledger.grants })
grant-IsFunded run cap ledger call grant its refused fresh f = record {
  own = f.own;
  within = f.within;
  room = λ cost id known still_open.
      let (g, estimate, found, amount, le) = f.room cost id known still_open in
      (
        g,
        estimate,
        ground (arith, found, fresh, its, nat_eq.same_iff grant.call_id id),
        amount,
        le,
      );
  single = f.single;
  starts = f.starts;
  replies = f.replies;
  allowed = λ id g found owner permitted. ground (arith, f.allowed id g, found, refused);
}

-- Neither does a row of the stage `denied`.
pub denied-IsFunded :
    (run cap : ℕ) (ledger : Ledger) (call : PaidCall)
    → call.run_id ≡ run
    → IsFunded run cap ledger
    → IsFunded run cap (record ledger { calls = account_row call "denied" no_usage ∷ ledger.calls })
unfolding has_stage finished_cost
denied-IsFunded run cap ledger call mine f = record {
  own = own-row ledger.calls call "denied" no_usage run mine f.own;
  within = f.within;
  room = f.room;
  single = f.single;
  starts = f.starts;
  replies = f.replies;
  allowed = f.allowed;
}

opens :
    (rows : List CallRow) (call : PaidCall) (id : ℕ)
    → is_open rows id ≡ false
    → is_open (account_row call "started" no_usage ∷ rows) id ≡ true
    → call.call_id ≡ id
unfolding has_stage
opens rows call id closed opened = ground (arith, nat_eq.same_iff call.call_id id)

-- The start of a call that leaves no other open and has room for its estimate.
pub start-IsFunded :
    (run cap : ℕ) (ledger : Ledger) (call : PaidCall) (grant : Grant) (before estimate : ℕ)
    → call.run_id ≡ run
    → grant.call_id ≡ call.call_id
    → find_grant ledger.grants call.call_id ≡ none
    → finished_cost ledger.calls ≡ some before
    → ((id : ℕ) → is_open ledger.calls id ≡ false)
    → grant.estimated_cost ≡ some estimate
    → before + estimate ≤ cap
    → IsFunded run cap ledger
    → IsFunded run cap (record ledger {
      calls = account_row call "started" no_usage ∷ ledger.calls;
      grants = grant ∷ ledger.grants;
      started = (call.run_id, call.call_id) ∷ ledger.started;
    })
unfolding has_stage finished_cost
start-IsFunded run cap ledger call grant before estimate mine its fresh known closed amount le f =
    record {
      own = own-row ledger.calls call "started" no_usage run mine f.own;
      within = f.within;
      room = λ cost id spent still_open.
          let same = opens ledger.calls call id (closed id) still_open in
          (
            grant,
            estimate,
            ground (arith, nat_eq.same_iff grant.call_id id, same, its),
            amount,
            ground (arith, known, spent),
          );
      single = λ a b first second.
          sym (opens ledger.calls call a (closed a) first)
          ∙ opens ledger.calls call b (closed b) second;
      starts = λ id. ground (arith, f.starts id, (nat_eq.same_iff call.run_id run).1 mine);
      replies = f.replies;
      allowed = λ id g found owner yes_allowed. ground (
        arith,
        f.allowed id g,
        found,
        (nat_eq.same_iff call.run_id run).1 mine,
        nat_eq.same_iff grant.call_id id,
        nat_eq.same_iff call.call_id id,
      );
    }

row_amount-cases :
    (call : PaidCall) (stage : String) (usage : Usage) (amount : ℕ)
    → row_amount (account_row call stage usage) ≡ some amount
    → ((calculate_cost usage call.pricing).amount ≡ some amount) ⊎ (amount ≡ 0)
unfolding row_amount
row_amount-cases call stage usage amount h = ground arith

add_amounts-some :
    (a b : Option ℕ) (total : ℕ)
    → add_amounts a b ≡ some total
    → (n : ℕ) × (k : ℕ) × (a ≡ some n) × (b ≡ some k) × (total ≡ n + k)
add_amounts-some none b total h = cc
add_amounts-some (some n) none total h = cc
add_amounts-some (some n) (some k) total h = (n, k, refl, refl, ground arith)

-- A started call without a receipt is open.
unanswered :
    (run cap : ℕ) (ledger : Ledger) (id : ℕ)
    → IsFunded run cap ledger
    → has_started ledger.started run id ≡ true
    → find_receipt ledger.receipts id ≡ none
    → is_open ledger.calls id ≡ true
unanswered run cap ledger id f begun fresh =
    elim (Bool-cases (has_stage "result" ledger.calls id)) [
      | inl replied ↦ absurd (f.replies id replied fresh)
      | inr waiting ↦ ground (arith, f.starts id, begun, waiting)
    ]

closes :
    (rows : List CallRow) (call : PaidCall) (usage : Usage) (id : ℕ)
    → is_open rows call.call_id ≡ true
    → ((a b : ℕ) → is_open rows a ≡ true → is_open rows b ≡ true → a ≡ b)
    → is_open (account_row call "result" usage ∷ rows) id ≡ false
unfolding has_stage
closes rows call usage id waiting single =
    ground (arith, single call.call_id id, nat_eq.same_iff call.call_id id)

-- The end of a call: its cost takes the place of its estimate.
pub finish-IsFunded :
    (run cap : ℕ) (ledger : Ledger) (call : PaidCall) (usage : Usage) (receipt : Receipt)
    → call.run_id ≡ run
    → receipt.call_id ≡ call.call_id
    → has_started ledger.started run call.call_id ≡ true
    → find_receipt ledger.receipts call.call_id ≡ none
    → Fits ledger call usage
    → IsFunded run cap ledger
    → IsFunded run cap (record ledger {
      calls = account_row call "result" usage ∷ ledger.calls;
      receipts = receipt ∷ ledger.receipts;
    })
unfolding has_stage finished_cost
finish-IsFunded run cap ledger call usage receipt mine its begun fresh fits f =
    let waiting = unanswered run cap ledger call.call_id f begun fresh in
    let closed = λ (id : ℕ). closes ledger.calls call usage id waiting f.single in
    record {
      own = own-row ledger.calls call "result" usage run mine f.own;
      within = λ cost known.
          let (n, k, paid, was, sum) = add_amounts-some _ _ cost known in
          let (grant, estimate, found, amount, le) = f.room k call.call_id was waiting in
          elim (row_amount-cases call "result" usage n paid) [
            | inl costs ↦ omega (arith, fits grant estimate n found amount costs)
            | inr free ↦ omega arith
          ];
      room = λ cost id known still_open. cc (closed id);
      single = λ a b first second. cc (closed a);
      starts = f.starts;
      replies = λ id replied. ground (
        arith,
        f.replies id,
        nat_eq.same_iff receipt.call_id id,
        nat_eq.same_iff call.call_id id,
      );
      allowed = f.allowed;
    }
