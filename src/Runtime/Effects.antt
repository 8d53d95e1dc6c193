-- ===== src/Runtime/Effects.antt =====
-- orchestrator/app/jarvis_orchestrator/runtime/effects.py: `EffectLedger`, for one effect, with
-- `EffectRepository.prepare` of packages/persistence/src/jarvis_persistence/repositories.py. Every
-- transaction runs under the fence of `Runtime.Ownership`. The adapter's answers are arguments.
pub mod Protocol
mod Writes
mod Once
mod Dispatched
mod AtMostOnce
mod Held
pub mod Settled
mod Outcomes
mod Tests
use jarvis_development.Prelude.{
  ℕ, Bool, true, false, not, ◌&&◌, ◌||◌, Option, none, some, List, [], ◌∷◌, String, string_eq, ◌==◌,
  is_some, leb, if◌then◌else◌,
}
use jarvis_development.Runtime.Store.{DesiredState, want_cancelled, Run, RunLease, Store, save_run}
use jarvis_development.Runtime.Ownership.{RunFence, admit, still_held}

pub data EffectStatus : Type 0 where
  prepared dispatched running succeeded failed cancel_requested cancelled unknown : EffectStatus

-- `EffectModel`; `request_json` is its instructions and the two revisions of a selected model.
pub record Effect : Type 0 where
  pub request_digest : String
  pub status : EffectStatus
  pub fence_generation : ℕ
  pub instructions : List ℕ
  pub model : Option (ℕ × ℕ)
  pub external_id : Option String
  pub result : Option String
  pub dispatched_at : Option ℕ
  pub completed_at : Option ℕ

-- The tables that a handler writes: those of the run queue, and the row of its effect, which
-- (run_id, idempotency_key) identifies.
pub record World : Type 0 where
  pub store : Store
  pub effect : Option Effect

-- The transaction of `fenced` over these tables; `none` is a rollback.
unfoldable pub guarded :
    {A : Type 0}
    → RunFence
    → ℕ
    → ℕ
    → (Run → World → Option (World × A))
    → World
    → Option (World × A)
guarded fence now now' body w = elim (admit fence now w.store) [
  | none ↦ none
  | some (run, lease) ↦ elim (body run w) [
    | none ↦ none
    | some (after, result) ↦
        if still_held fence now' after.store then some (after, result) else none
  ]
]

abbrev pub is_cancelling : DesiredState → Bool
is_cancelling want_cancelled = true
is_cancelling state = false

abbrev pub is_prepared : EffectStatus → Bool
is_prepared prepared = true
is_prepared status = false

-- `EffectRepository.prepare`: the row, and whether it is new; `none` is the conflict of a key.
unfoldable pub prepare : String → ℕ → Option Effect → Option (Effect × Bool)
prepare digest generation (some existing) =
    if existing.request_digest == digest then some (existing, false) else none
prepare digest generation none = some (
  record {
    request_digest = digest;
    status = prepared;
    fence_generation = generation;
    instructions = [];
    model = none;
    external_id = none;
    result = none;
    dispatched_at = none;
    completed_at = none;
  },
  true,
)

-- What `select_model` answers where the policy names a route.
pub data Selection : Type 0 where
  no_route : Selection
  selected : ℕ → ℕ → Selection
  not_permitted : Selection

-- The request of a handler: its digest, whether its node takes runtime instructions, and the model
-- that is selected if the row is new.
pub record Request : Type 0 where
  pub digest : String
  pub takes_instructions : Bool
  pub selection : Selection

abbrev pub is_permitted : Selection → Bool
is_permitted not_permitted = false
is_permitted selection = true

abbrev pub model_of : Selection → Option (ℕ × ℕ)
model_of (selected profile provider) = some (profile, provider)
model_of selection = none

-- How the first transaction of `execute` ends: with a recorded result, a cancellation, or the row
-- ready and whether it was dispatched before.
pub data Opening : Type 0 where
  recorded : Option String → Opening
  cancelled_before : Opening
  ready : Bool → Opening

abbrev pub opening_of : EffectStatus → Option String → Opening
opening_of succeeded result = recorded result
opening_of cancelled result = cancelled_before
opening_of prepared result = ready false
opening_of status result = ready true

-- A new row takes the run's instructions and the selected model.
abbrev pub fill : Request → Run → Effect → Effect
fill request run effect = record effect {
  instructions = if request.takes_instructions then run.instructions else [];
  model = model_of request.selection;
}

abbrev pub without_instructions : Request → Run → Run
without_instructions request run = record run {
  instructions = if request.takes_instructions then [] else run.instructions;
}

-- The row of an effect that is not over takes the generation of the fence.
abbrev pub take_over : ℕ → Effect → Effect
take_over generation effect = elim (opening_of effect.status effect.result) [
  | ready before ↦ record effect { fence_generation = generation }
  | other ↦ effect
]

-- The body of the first transaction.
unfoldable pub open_effect : Request → ℕ → Run → World → Option (World × Opening)
unfolding prepare
open_effect request generation run w = elim (prepare request.digest generation w.effect) [
  | none ↦ none
  | some (effect, fresh) ↦
      if fresh && not (is_permitted request.selection)
      then none
      else let row = if fresh then fill request run effect else effect in
        let runs =
          if fresh
          then save_run w.store.runs (without_instructions request run)
          else w.store.runs in
        some (
          record {
            store = record w.store { runs = runs };
            effect = some (take_over generation row);
          },
          opening_of row.status row.result,
        )
]

-- The statuses that `_record` turns to a cancellation where one is requested.
abbrev pub yields_to_cancel : EffectStatus → Bool
yields_to_cancel succeeded = true
yields_to_cancel dispatched = true
yields_to_cancel status = false

abbrev pub is_final : EffectStatus → Bool
is_final succeeded = true
is_final cancelled = true
is_final unknown = true
is_final status = false

-- The row that `_record` writes, at a reading of the clock.
abbrev pub recorded_row : EffectStatus → Option String → Option String → ℕ → Effect → Effect
recorded_row status identity result at effect = record effect {
  status = status;
  external_id = if is_some identity then identity else effect.external_id;
  dispatched_at = if is_some identity then some at else effect.dispatched_at;
  result = if is_some result then result else effect.result;
  completed_at = if is_final status then some at else effect.completed_at;
}

-- The body of `_record`: whether it was turned to a cancellation, which then is raised.
unfoldable pub record_effect :
    EffectStatus → Option String → Option String → ℕ → Run → World → Option (World × Bool)
record_effect status identity result at run w = elim w.effect [
  | none ↦ none
  | some effect ↦
      let turned = yields_to_cancel status && is_cancelling run.desired_state in
      let row =
        if turned
        then recorded_row cancelled identity none at effect
        else recorded_row status identity result at effect in
      some (record w { effect = some row }, turned)
]

-- The body of the transaction at the head of the loop: whether a cancellation is requested.
unfoldable pub poll_effect : Run → World → Option (World × Bool)
poll_effect run w = elim w.effect [
  | none ↦ none
  | some effect ↦
      let cancel = is_cancelling run.desired_state in
      some (
        record w {
          effect = some (if cancel then record effect { status = cancel_requested } else effect);
        },
        cancel,
      )
]
