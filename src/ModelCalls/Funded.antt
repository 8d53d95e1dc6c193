-- ===== src/ModelCalls/Funded.antt =====
-- Every transaction of a run's paid calls keeps the run funded.
use jarvis_development.Prelude.{
  ℕ, ◌+◌, ◌≤◌, true, false, not, ◌||◌, Option, none, some, [], ◌∷◌, ◌≡◌, refl, sym, ◌∙◌, subst, inl,
  inr, String, string_eq, nat_eq, ◌==◌, Bool-cases, Option-cases, arith,
}
use jarvis_development.Contracts.Registry.{Decision, Usage, Pricing, RoutePolicySpec}
use jarvis_development.Budget.Rows.{
  Grant, Ledger, Accounting, find_grant, find_receipt, has_started,
}
use jarvis_development.Budget.{
  PolicyIdentity, ProviderRequest, BudgetGateway, TeamScope, granted, bound_route, is_allow,
  run_spend, decide_spend, decide_bound,
}
use jarvis_development.Budget.Authorize.{PaidCall, grant_matches, replay, first_grant}
use jarvis_development.Budget.Replay.{authorize-elim}
use jarvis_development.ModelCalls.{
  no_usage, account, act_on, start_call, refuse_call, begin_call, finish_call,
}
use jarvis_development.ModelCalls.Spent.{finished_cost, has_stage, Adds, run_spend-Adds}
use jarvis_development.ModelCalls.Accounts.{account-cases, team_denial-raised, decide_bound-room}
use jarvis_development.ModelCalls.Ceiling.{
  is_open, Caps, Fits, begin, finish, Steps, done, next, IsFunded, grant-IsFunded, denied-IsFunded,
  start-IsFunded, finish-IsFunded,
}

allow-of : (d : Decision) → is_allow d ≡ true → d ≡ Decision.allow
allow-of Decision.allow h = refl
allow-of Decision.deny h = cc
allow-of Decision.require_approval h = cc

-- Where a total is known, it is the cost of the finished calls, and no call is open.
settled-of :
    (run cap : ℕ) (ledger : Ledger) (total : ℕ)
    → IsFunded run cap ledger
    → run_spend ledger.calls run ≡ some total
    → (finished_cost ledger.calls ≡ some total) × ((id : ℕ) → is_open ledger.calls id ≡ false)
settled-of run cap ledger total f known =
    let a : Adds ledger.calls [] [] 0 total =
      subst (λ rows. Adds rows [] [] 0 total) f.own (run_spend-Adds ledger.calls run known) in
    (ground (arith, a.cost_known, a.sum), λ id. ground (arith, a.settled id))

-- A gateway without a bound route denies.
decide_spend-unbound :
    (gateway : BudgetGateway) (request : ProviderRequest) (pricing : Pricing) (spent : Option ℕ)
    → bound_route gateway ≡ none
    → (decide_spend gateway request pricing spent).1 ≡ Decision.deny
unfolding decide_spend
decide_spend-unbound gateway request pricing spent e = rw (e, decide_spend) refl

decide_spend-bound :
    (gateway : BudgetGateway) (request : ProviderRequest) (pricing : Pricing) (spent : Option ℕ)
    (route : RoutePolicySpec) (id : ℕ)
    → bound_route gateway ≡ some (route, id)
    → decide_spend gateway request pricing spent ≡ decide_bound route.spend request pricing spent
unfolding decide_spend
decide_spend-bound gateway request pricing spent route id e = rw (e, decide_spend) refl

-- What an allowing decision leaves room for.
decision-room :
    (gateway : BudgetGateway) (request : ProviderRequest) (pricing : Pricing) (spent : Option ℕ)
    (cap : ℕ)
    → Caps gateway cap
    → (decide_spend gateway request pricing spent).1 ≡ Decision.allow
    → (before : ℕ) × (estimate : ℕ) × (spent ≡ some before)
      × ((decide_spend gateway request pricing spent).0 ≡ some estimate)
      × (before + estimate ≤ cap)
decision-room gateway request pricing spent cap caps h = elim (Option-cases (bound_route gateway)) [
  | inl unbound ↦ cc (decide_spend-unbound gateway request pricing spent unbound)
  | inr ((route, id), bound) ↦
      let same = decide_spend-bound gateway request pricing spent route id bound in
      let (ceiling, capped, le) = caps route id bound in
      let (before, estimate, was, amount, fits) =
        decide_bound-room route.spend request pricing spent ceiling capped
          (subst (λ d. d.1 ≡ Decision.allow) same h) in
      (
        before,
        estimate,
        was,
        subst (λ d. d.0 ≡ some estimate) (sym same) amount,
        omega (arith, fits, le),
      )
]

module _ (accounting : Accounting) (run cap : ℕ) (ledger : Ledger) (call : PaidCall)
    (mine : call.run_id ≡ run) (funded : IsFunded run cap ledger)
    (unstarted : has_started ledger.started run call.call_id ≡ false) where
  refuses :
      (grant : Grant)
      → grant.call_id ≡ call.call_id
      → is_allow grant.decision ≡ false
      → find_grant ledger.grants call.call_id ≡ none
      → IsFunded run cap
          (refuse_call accounting ledger call (grant ∷ ledger.grants) grant.reasons).1
  unfolding refuse_call
  refuses grant its denied fresh =
      elim (Option-cases (
        account accounting (record ledger { grants = grant ∷ ledger.grants }) call "denied"
          no_usage)) [
            | inl raises ↦ rw (raises, refuse_call) funded
            | inr (after, e) ↦
                let kept = grant-IsFunded run cap ledger call grant its denied fresh funded in
                rw (e, refuse_call)
                  (elim (account-cases accounting _ after call "denied" no_usage e) [
                    | inl (same, old) ↦ subst (IsFunded run cap) (sym same) kept
                    | inr added ↦
                        subst (IsFunded run cap) (sym added)
                          (denied-IsFunded run cap _ call mine kept)
                  ])
          ]

  starts-IsFunded :
      (grant : Grant) (before estimate : ℕ)
      → grant.call_id ≡ call.call_id
      → find_grant ledger.grants call.call_id ≡ none
      → finished_cost ledger.calls ≡ some before
      → ((id : ℕ) → is_open ledger.calls id ≡ false)
      → grant.estimated_cost ≡ some estimate
      → before + estimate ≤ cap
      → IsFunded run cap (start_call accounting ledger call (grant ∷ ledger.grants)).1
  unfolding start_call
  starts-IsFunded grant before estimate its fresh known closed amount le =
      elim (Option-cases (
        account accounting
          (record ledger {
            grants = grant ∷ ledger.grants;
            started = (call.run_id, call.call_id) ∷ ledger.started;
          })
          call "started" no_usage)) [
            | inl raises ↦ rw (raises, start_call) funded
            | inr (after, e) ↦
                rw (e, start_call)
                  (elim (account-cases accounting _ after call "started" no_usage e) [
                    | inl (same, old) ↦ cc (funded.starts call.call_id)
                    | inr added ↦ subst (IsFunded run cap) (sym added) (
                        start-IsFunded run cap ledger call grant before estimate mine its fresh
                          known closed amount le funded)
                  ])
          ]

  -- A first decision of `authorize`, and what `invoke` does with it.
  decides :
      (sha256 : PolicyIdentity → String) (gateway : BudgetGateway) (scope : TeamScope)
      → Caps gateway cap
      → find_grant ledger.grants call.call_id ≡ none
      → IsFunded run cap
          (act_on accounting ledger call (
            granted (first_grant sha256 gateway scope ledger call),
            first_grant sha256 gateway scope ledger call ∷ ledger.grants,
          )).1
  unfolding act_on first_grant
  decides sha256 gateway scope caps fresh =
      elim (Bool-cases (is_allow (first_grant sha256 gateway scope ledger call).decision)) [
        | inr denied ↦
            rw denied (refuses (first_grant sha256 gateway scope ledger call) refl denied fresh)
        | inl permitted ↦
            let (before, estimate, was, amount, fits) =
              decision-room gateway call.request call.pricing (run_spend ledger.calls call.run_id)
                cap caps (allow-of _ permitted) in
            let (known, closed) =
              settled-of run cap ledger before funded
                (subst (λ r. run_spend ledger.calls r ≡ some before) mine was) in
            rw permitted (
              starts-IsFunded (first_grant sha256 gateway scope ledger call) before estimate refl
                fresh known closed amount fits)
      ]

owner-of :
    (digest : String) (grant : Grant) (call : PaidCall)
    → not (
        not (grant.run_id == call.run_id)
        || (not (grant.request_digest == call.request_digest)
            || not (grant.policy_digest == digest)))
      ≡ true
    → grant.run_id ≡ call.run_id
owner-of digest grant call h = ground (arith, nat_eq.same_iff grant.run_id call.run_id)

-- The tables of a run that has made no call.
abbrev pub no_calls : Ledger
no_calls = record { calls = []; grants = []; receipts = []; started = [] }

no_calls-IsFunded : (run cap : ℕ) → IsFunded run cap no_calls
unfolding has_stage finished_cost
no_calls-IsFunded run cap = record {
  own = refl;
  within = λ cost known. ground arith;
  room = λ cost id known still_open. cc;
  single = λ a b first second. cc;
  starts = λ id. refl;
  replies = λ id replied. cc;
  allowed = λ id grant found owner permitted. cc;
}

module _ (accounting : Accounting) (response_hash : String → String)
    (sha256 : PolicyIdentity → String) (run cap : ℕ) where
  act_on-replay :
      (gateway : BudgetGateway) (scope : TeamScope) (ledger : Ledger) (call : PaidCall)
      (grant : Grant)
      → call.run_id ≡ run
      → IsFunded run cap ledger
      → has_started ledger.started run call.call_id ≡ false
      → find_grant ledger.grants call.call_id ≡ some grant
      → (act_on accounting ledger call (replay sha256 gateway scope grant call, ledger.grants)).1
        ≡ ledger
  unfolding act_on
  act_on-replay gateway scope ledger call grant mine f unstarted found =
      elim (Bool-cases (grant_matches sha256 gateway scope grant call)) [
        | inr other ↦ rw other refl
        | inl same ↦ elim (Bool-cases (is_allow grant.decision)) [
          | inr denied ↦ rw (same, denied) refl
          | inl permitted ↦
              cc (f.allowed call.call_id grant found (owner-of _ grant call same ∙ mine) permitted)
        ]
      ]

  begin_call-IsFunded :
      (gateway : BudgetGateway) (scope : TeamScope) (ledger : Ledger) (call : PaidCall)
      → call.run_id ≡ run
      → call.paid ≡ true
      → Caps gateway cap
      → IsFunded run cap ledger
      → IsFunded run cap (begin_call accounting response_hash sha256 gateway scope ledger call).1
  unfolding begin_call
  begin_call-IsFunded gateway scope ledger call mine paid caps f =
      elim (Option-cases (find_receipt ledger.receipts call.call_id)) [
        | inr (receipt, old) ↦ rw (old, begin_call) f
        | inl new ↦ elim (Bool-cases (has_started ledger.started call.run_id call.call_id)) [
          | inl begun ↦ rw (new, begun, begin_call) f
          | inr unstarted ↦
              let idle =
                subst (λ r. has_started ledger.started r call.call_id ≡ false) mine unstarted in
              rw (new, unstarted, begin_call)
                (authorize-elim sha256 gateway scope
                  (λ result. IsFunded run cap (act_on accounting ledger call result).1) ledger call
                  paid
                  (λ denial e.
                    subst (IsFunded run cap)
                      (sym
                        (team_denial-raised accounting gateway scope ledger call ledger.grants e))
                      f)
                  (λ grant found.
                    subst (IsFunded run cap)
                      (sym (act_on-replay gateway scope ledger call grant mine f idle found)) f)
                  (decides accounting run cap ledger call mine f idle sha256 gateway scope caps))
        ]
      ]

  finish_call-IsFunded :
      (ledger after : Ledger) (call : PaidCall) (response : String) (usage : Usage)
      → call.run_id ≡ run
      → has_started ledger.started run call.call_id ≡ true
      → Fits ledger call usage
      → finish_call accounting response_hash ledger call response usage ≡ some after
      → IsFunded run cap ledger
      → IsFunded run cap after
  unfolding finish_call
  finish_call-IsFunded ledger after call response usage mine begun fits h f =
      elim (Option-cases (find_receipt ledger.receipts call.call_id)) [
        | inr (receipt, old) ↦ let e : none ≡ some after = rw (old, finish_call) at h in cc
        | inl new ↦
            elim (account-cases accounting _ after call "result" usage
              (rw (new, finish_call) at h)) [
                | inl (same, replied) ↦ absurd (f.replies call.call_id replied new)
                | inr added ↦
                    subst (IsFunded run cap) (sym added)
                      (finish-IsFunded run cap ledger call usage _ mine refl begun new fits f)
              ]
      ]

  Steps-IsFunded :
      {a b : Ledger}
      → Steps accounting response_hash sha256 run cap a b
      → IsFunded run cap a
      → IsFunded run cap b
  Steps-IsFunded (done ledger) f = f
  Steps-IsFunded (next steps (begin gateway scope ledger call mine paid caps)) f =
      begin_call-IsFunded gateway scope ledger call mine paid caps (Steps-IsFunded steps f)
  Steps-IsFunded (next steps (finish ledger after call response usage mine begun fits h)) f =
      finish_call-IsFunded ledger after call response usage mine begun fits h
        (Steps-IsFunded steps f)

  -- Whatever calls a run makes to paid providers from an empty ledger, in whatever order their
  -- transactions come, the cost of its finished calls, where it is known, stays within the ceiling
  -- that the routes of its gateways set at most; every reply costs at most the estimate of its grant.
  pub Steps-within :
      (ledger : Ledger) (cost : ℕ)
      → Steps accounting response_hash sha256 run cap no_calls ledger
      → finished_cost ledger.calls ≡ some cost
      → cost ≤ cap
  Steps-within ledger cost steps known =
      (Steps-IsFunded steps (no_calls-IsFunded run cap)).within cost known
