-- ===== src/Runtime/Effects/Protocol.antt =====
-- orchestrator/app/jarvis_orchestrator/runtime/effects.py: what `execute` and `cancel_pending` do
-- between their transactions, and the interleavings of the executors of one run. A task runs
-- `execute` for the effect under a fence; an executor runs one such task at a time.
use jarvis_development.Prelude.{
  ℕ, ◌+◌, Bool, true, false, not, ◌&&◌, Option, none, some, ◌≡◌, String, nat_eq, ◌==◌,
  if◌then◌else◌,
}
use jarvis_development.Runtime.Store.{Store}
use jarvis_development.Runtime.Ownership.{RunFence}
use jarvis_development.Runtime.Ownership.Steps as Ownership
use jarvis_development.Runtime.Effects.{
  EffectStatus, World, guarded, Request, Opening, ready, open_effect, record_effect, poll_effect,
}

-- `EffectObservation`
pub data Observation : Type 0 where
  absent running cancelled unknown : Observation
  succeeded : Option String → Observation

-- What follows the first inspection.
pub data Plan : Type 0 where
  give_up intend watch : Plan

-- `before` says whether the row had been dispatched.
unfoldable pub plan_of : Bool → Bool → Observation → Plan
plan_of idempotent before Observation.unknown = give_up
plan_of idempotent before Observation.absent = if before && not idempotent then give_up else intend
plan_of idempotent before answer = watch

-- What the loop does with an inspection: it goes on, records an outcome, or raises for a result
-- that is missing, invalid or too large.
pub data Verdict : Type 0 where
  wait invalid : Verdict
  record_as : EffectStatus → Option String → Verdict

-- `accept` is the check of a result and its redaction.
unfoldable pub verdict_of : (String → Option String) → Bool → Observation → Verdict
verdict_of accept cancel Observation.running = wait
verdict_of accept true (Observation.succeeded result) = record_as EffectStatus.cancelled none
verdict_of accept false (Observation.succeeded none) = invalid
verdict_of accept false (Observation.succeeded (some result)) = elim (accept result) [
  | none ↦ invalid
  | some safe ↦ record_as EffectStatus.succeeded (some safe)
]
verdict_of accept cancel Observation.cancelled = record_as EffectStatus.cancelled none
verdict_of accept cancel Observation.unknown = record_as EffectStatus.unknown none
verdict_of accept cancel Observation.absent = record_as EffectStatus.unknown none

-- The outcome that `cancel_pending` records after an inspection; `none` asks the adapter again.
unfoldable pub cancel_verdict : Observation → Option EffectStatus
cancel_verdict Observation.running = none
cancel_verdict Observation.unknown = some EffectStatus.unknown
cancel_verdict answer = some EffectStatus.cancelled

-- The statuses that `cancel_pending` records: of an effect without an external id, before it asks
-- the adapter, and after it did.
pub data Cancelling : EffectStatus → Type 0 where
  undispatched : Cancelling EffectStatus.cancelled
  requested : Cancelling EffectStatus.cancel_requested
  answered :
      {status : EffectStatus} (answer : Observation)
      → cancel_verdict answer ≡ some status
      → Cancelling status

-- A task waits for the first inspection, is about to dispatch, or watches the adapter.
pub data Phase : Type 0 where
  opened : Bool → Phase
  dispatching watching : Phase

pub record Task : Type 0 where
  pub fence : RunFence
  pub phase : Phase

-- `tasks` gives the task of each lease generation; `dispatches` counts the calls of
-- `adapter.dispatch` for the effect's identity.
pub record System : Type 0 where
  pub world : World
  pub tasks : ℕ → Option Task
  pub dispatches : ℕ

abbrev pub set_task : (ℕ → Option Task) → ℕ → Option Task → ℕ → Option Task
set_task tasks g task h = if h == g then task else tasks h

-- The task after the first transaction.
abbrev pub opened_task : RunFence → Opening → Option Task
opened_task fence (ready before) = some (record { fence = fence; phase = opened before })
opened_task fence opening = none

-- The task after the intent to dispatch is recorded, or turned to a cancellation.
abbrev pub intent_task : RunFence → Bool → Option Task
intent_task fence true = none
intent_task fence false = some (record { fence = fence; phase = dispatching })

module _ (run : ℕ) (identity : String) (idempotent : Bool) (accept : String → Option String) where
  -- One step of some executor, of the adapter, or of another transaction on the tables.
  pub data Step : System → System → Type 0 where
    others :
        {s : System} {store : Store}
        → Ownership.Step s.world.store store
        → Step s (record s { world = record s.world { store = store } })
    opens :
        {s : System} {after : World} (fence : RunFence) (now now' : ℕ) (request : Request)
        (opening : Opening)
        → fence.run_id ≡ run
        → s.tasks fence.generation ≡ none
        → guarded fence now now' (open_effect request fence.generation) s.world
          ≡ some (after, opening)
        → Step s (record s {
          world = after;
          tasks = set_task s.tasks fence.generation (opened_task fence opening);
        })
    gives_up :
        {s : System} {after : World} (fence : RunFence) (before : Bool) (answer : Observation)
        (now now' at : ℕ) (turned : Bool)
        → s.tasks fence.generation ≡ some (record { fence = fence; phase = opened before })
        → plan_of idempotent before answer ≡ give_up
        → guarded fence now now' (record_effect EffectStatus.unknown none none at) s.world
          ≡ some (after, turned)
        → Step s (record s { world = after; tasks = set_task s.tasks fence.generation none })
    intends :
        {s : System} {after : World} (fence : RunFence) (before : Bool) (answer : Observation)
        (now now' at : ℕ) (turned : Bool)
        → s.tasks fence.generation ≡ some (record { fence = fence; phase = opened before })
        → plan_of idempotent before answer ≡ intend
        → guarded fence now now'
            (record_effect EffectStatus.dispatched (some identity) none at)
            s.world
          ≡ some (after, turned)
        → Step s (record s {
          world = after;
          tasks = set_task s.tasks fence.generation (intent_task fence turned);
        })
    watches :
        {s : System} (fence : RunFence) (before : Bool) (answer : Observation)
        → s.tasks fence.generation ≡ some (record { fence = fence; phase = opened before })
        → plan_of idempotent before answer ≡ watch
        → Step s (record s {
          tasks =
              set_task s.tasks fence.generation (some (record { fence = fence; phase = watching }));
        })
    dispatches :
        {s : System} (fence : RunFence)
        → s.tasks fence.generation ≡ some (record { fence = fence; phase = dispatching })
        → Step s (record s {
          tasks =
              set_task s.tasks fence.generation (some (record { fence = fence; phase = watching }));
          dispatches = s.dispatches + 1;
        })
    polls :
        {s : System} {after : World} (fence : RunFence) (now now' : ℕ) (cancel : Bool)
        → s.tasks fence.generation ≡ some (record { fence = fence; phase = watching })
        → guarded fence now now' poll_effect s.world ≡ some (after, cancel)
        → Step s (record s { world = after })
    finishes :
        {s : System} {after : World} (fence : RunFence) (answer : Observation) (cancel : Bool)
        (status : EffectStatus) (result : Option String) (now now' at : ℕ) (turned : Bool)
        → s.tasks fence.generation ≡ some (record { fence = fence; phase = watching })
        → verdict_of accept cancel answer ≡ record_as status result
        → guarded fence now now' (record_effect status none result at) s.world
          ≡ some (after, turned)
        → Step s (record s { world = after; tasks = set_task s.tasks fence.generation none })
    cancels :
        {s : System} {after : World} (fence : RunFence) (status : EffectStatus) (now now' at : ℕ)
        (turned : Bool)
        → fence.run_id ≡ run
        → Cancelling status
        → guarded fence now now' (record_effect status none none at) s.world ≡ some (after, turned)
        → Step s (record s { world = after })
    crashes : {s : System} (g : ℕ) → Step s (record s { tasks = set_task s.tasks g none })

  pub data Reach (s : System) : System → Type 0 where
    here : Reach s s
    next : {t u : System} → Reach s t → Step t u → Reach s u
