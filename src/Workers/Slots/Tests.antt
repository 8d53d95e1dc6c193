-- ===== src/Workers/Slots/Tests.antt =====
-- A host with two slots: two attempts take them, a third finds none, and the first slot is released.
use jarvis_development.Prelude.{
  ℕ, ◌+◌, true, false, Option, none, some, [], ◌∷◌, ◌≡◌, refl, String, arith, string_eq, nat_eq,
}
use jarvis_development.Runtime.Store.{running, want_running, real, Run, Store}
use jarvis_development.Runtime.Ownership.{RunFence, admit}
use jarvis_development.Workers.Rows.{Workers, WorkerSpec, SlotFence, Lookups}
use jarvis_development.Workers.Slots.{acquire_worker, release_worker}
use jarvis_development.Workers.Slots.Exclusive.{IsExclusive}
use jarvis_development.Workers.Slots.Choices.{Taken, acquire_worker-Taken}
use jarvis_development.Workers.Slots.Steps.{here, more, acquires, SlotsLater-IsExclusive}

abbrev the_run : Run
the_run = record {
  id = 8;
  job_id = 1;
  run_number = 1;
  parent_run_id = none;
  workflow_version_id = 1;
  config_snapshot_id = 1;
  status = running;
  desired_state = want_running;
  mode = real;
  priority = 100;
  claimable_at = 5;
  created_at = 5;
  version = 1;
  recovering = false;
  retry_at = none;
  instructions = [];
  demo_fixture = none;
}

abbrev store : Store
store = record {
  runs = the_run ∷ [];
  leases =
      record {
        run_id = 8;
        owner = "a";
        generation = 1;
        acquired_at = 0;
        heartbeat_at = none;
        expires_at = 1000;
        released_at = none;
      }
      ∷ [];
  recovery = some (record { generation = 3; automatic_dispatch_enabled = true });
  instances = [];
}

abbrev fence : RunFence
fence = record { run_id = 8; owner = "a"; generation = 1; recovery_generation = 3 }

abbrev spec : WorkerSpec
spec = record { resource = some "host"; max_concurrency = 2; others = 0 }

abbrev rows : Lookups
rows = record { configuration = some (5, spec); task_run = some 8 }

abbrev text : ℕ → String
text id = "configuration"

abbrev fresh : ℕ → ℕ
fresh number = number + 50

abbrev empty : Workers
empty = record { slots = []; leases = []; assignments = [] }

abbrev take : ℕ → ℕ → ℕ → Workers → Option (SlotFence × Workers)
take attempt_id lease_id now w =
    acquire_worker text fresh fence rows 6 attempt_id spec lease_id now now 30 now store w

abbrev fence_of : ℕ → ℕ → ℕ → ℕ → SlotFence
fence_of lease_id slot generation expires_at = record {
  lease_id = lease_id;
  revision_id = 6;
  slot = slot;
  generation = generation;
  run_generation = 1;
  expires_at = expires_at;
  resource = some "host";
}

abbrev state_of : Option (SlotFence × Workers) → Workers
state_of none = empty
state_of (some (f, w)) = w

abbrev released_of : Option Workers → Workers
released_of none = empty
released_of (some w) = w

abbrev one_taken : Workers
one_taken = state_of (take 1 70 10 empty)

abbrev two_taken : Workers
two_taken = state_of (take 2 71 11 one_taken)

abbrev first_released : Workers
first_released =
    released_of (release_worker fence (fence_of 70 0 1 40) true 20 20 20 store two_taken)

first_take : take 1 70 10 empty ≡ some (fence_of 70 0 1 40, one_taken)
unfolding acquire_worker admit
first_take = refl

-- Both leases have expired, and still no slot is free.
third_take : take 3 72 500 two_taken ≡ none
unfolding acquire_worker admit
third_take = refl

same_take : take 2 73 12 two_taken ≡ some (fence_of 71 1 1 41, two_taken)
unfolding acquire_worker admit
same_take = refl

-- Once the first slot is free, the second attempt, whose lease is open, gets that one too.
double_take :
    take 2 74 25 first_released ≡ some (fence_of 74 0 2 55, state_of (take 2 74 25 first_released))
unfolding acquire_worker release_worker admit
double_take = refl

nothing_held : IsExclusive empty
nothing_held slot_id = omega arith

acquire_worker-Taken_example : Taken 2 8 1 (fence_of 70 0 1 40) one_taken
acquire_worker-Taken_example =
    acquire_worker-Taken text fresh fence rows 6 1 spec 70 10 10 30 10 store empty nothing_held
      first_take

SlotsLater-IsExclusive_example : IsExclusive one_taken
SlotsLater-IsExclusive_example = SlotsLater-IsExclusive nothing_held (
    more here (
      acquires text fresh fence rows 6 1 spec 70 10 10 30 10 store (fence_of 70 0 1 40) first_take))
