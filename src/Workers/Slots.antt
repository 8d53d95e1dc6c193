-- ===== src/Workers/Slots.antt =====
-- orchestrator/app/jarvis_orchestrator/workers/leases.py, `WorkerSlots`: the numbered slots of a
-- worker host and the leases on them. Each method is one transaction under the run's fence. Event
-- rows and token hashes are left out.
pub mod Exclusive
pub mod Choices
pub mod Steps
mod Tests
use jarvis_development.Prelude.{
  ℕ, suc, ◌+◌, Bool, true, false, not, ◌&&◌, ◌||◌, Option, none, some, List, [], ◌∷◌, ◌++◌, String,
  string_eq, nat_eq, ◌==◌, ltb, leb, is_some, any, if◌then◌else◌,
}
use jarvis_development.Workers.Rows.{
  Slot, WorkerLease, Assignment, Workers, WorkerSpec, SlotFence, Lookups, same_resource, same_spec,
  resource_of, insert_slot, slots_of, has_number, missing_slots, is_open, find_open,
  find_worker_lease, find_slot, save_worker_lease,
}
use jarvis_development.Runtime.Store.{Run, Store}
use jarvis_development.Runtime.Ownership.{RunFence, admit, still_held}

-- What the loop over the slots finds.
pub data Choice : Type 0 where
  unavailable : Choice
  held : WorkerLease → Slot → Choice
  free : Slot → Choice

module _ (limit run_id attempt_id now : ℕ) (leases : List WorkerLease) where
  abbrev pub is_own : WorkerLease → Bool
  is_own l = l.attempt_id == attempt_id && (l.run_id == run_id && ltb now l.expires_at)

  -- `for slot in slots:`
  unfoldable pub choose_slot : List Slot → Choice
  choose_slot [] = unavailable
  choose_slot (s ∷ ss) =
      let rest = choose_slot ss in
      if leb limit s.slot_number then rest else elim (find_open leases s.id) [
        | none ↦ free s
        | some l ↦ if is_own l then held l s else rest
      ]

-- `contract`
abbrev pub contract : WorkerLease → Slot → SlotFence
contract l s = record {
  lease_id = l.id;
  revision_id = l.revision_id;
  slot = s.slot_number;
  generation = l.generation;
  run_generation = l.run_generation;
  expires_at = l.expires_at;
  resource = some s.resource;
}

-- `slot.generation += 1`
abbrev pub bump_slot : List Slot → ℕ → List Slot
bump_slot [] id = []
bump_slot (s ∷ ss) id =
    if s.id == id then record s { generation = s.generation + 1 } ∷ ss else s ∷ bump_slot ss id

abbrev pub reserve : List Assignment → ℕ → ℕ → ℕ → List Assignment
reserve [] attempt_id revision_id lease_id = []
reserve (a ∷ rest) attempt_id revision_id lease_id =
    if a.attempt_id == attempt_id
    then record a {
      status = "reserved";
      selected_revision_id = some revision_id;
      lease_id = some lease_id;
      queued_reason = none;
    }
      ∷ rest
    else a ∷ reserve rest attempt_id revision_id lease_id

-- The row that `acquire` adds for a free slot.
abbrev pub new_lease : RunFence → ℕ → ℕ → ℕ → ℕ → ℕ → ℕ → Slot → WorkerLease
new_lease fence run_id lease_id revision_id attempt_id now ttl s = record {
  id = lease_id;
  slot_id = s.id;
  revision_id = revision_id;
  run_id = run_id;
  attempt_id = attempt_id;
  owner = fence.owner;
  generation = s.generation + 1;
  run_generation = fence.generation;
  acquired_at = now;
  renewed_at = now;
  expires_at = now + ttl;
  released_at = none;
}

-- What is written for a choice; `none` is `WorkerCapacityUnavailableError`.
unfoldable pub take_slot :
    RunFence → ℕ → ℕ → ℕ → ℕ → ℕ → ℕ → Workers → Choice → Option (SlotFence × Workers)
take_slot fence run_id lease_id revision_id attempt_id now ttl w unavailable = none
take_slot fence run_id lease_id revision_id attempt_id now ttl w (held l s) = some (contract l s, w)
take_slot fence run_id lease_id revision_id attempt_id now ttl w (free s) =
    let lease = new_lease fence run_id lease_id revision_id attempt_id now ttl s in
    some (
      contract lease (record s { generation = s.generation + 1 }),
      record {
        slots = bump_slot w.slots s.id;
        leases = lease ∷ w.leases;
        assignments = reserve w.assignments attempt_id revision_id lease_id;
      },
    )

-- `fenced` of the run's ownership, around a body that writes worker rows and no run lease.
unfoldable pub fenced_workers :
    {A : Type 0} → RunFence → ℕ → ℕ → Store → (Run → Option A) → Option A
fenced_workers fence at at' s body = elim (admit fence at s) [
  | none ↦ none
  | some (run, lease) ↦ elim (body run) [
    | none ↦ none
    | some result ↦ if still_held fence at' s then some result else none
  ]
]

-- The rows of `acquire` once every missing slot is there.
abbrev pub with_slots : (ℕ → ℕ) → ℕ → String → ℕ → Workers → Workers
with_slots fresh worker_id resource limit w = record w {
  slots = w.slots ++ missing_slots fresh worker_id resource (slots_of resource w.slots) 0 limit;
}

-- The body of `acquire`; `none` is an error.
unfoldable pub acquire_slot :
    (ℕ → String)
    → (ℕ → ℕ)
    → RunFence
    → Lookups
    → ℕ
    → ℕ
    → WorkerSpec
    → ℕ
    → ℕ
    → ℕ
    → Workers
    → Run
    → Option (SlotFence × Workers)
unfolding take_slot choose_slot
acquire_slot text fresh fence rows revision_id attempt_id spec lease_id now ttl w run =
    elim rows.configuration [
      | none ↦ none
      | some (configuration_id, stored) ↦ elim rows.task_run [
        | none ↦ none
        | some task_run ↦
            let resource = resource_of text spec configuration_id in
            let known = slots_of resource w.slots in
            let slots =
              known ++ missing_slots fresh configuration_id resource known 0 spec.max_concurrency in
            if not (task_run == run.id) || not (same_spec stored spec)
            then none
            else take_slot fence run.id lease_id revision_id attempt_id now ttl
                (with_slots fresh configuration_id resource spec.max_concurrency w)
                (choose_slot spec.max_concurrency run.id attempt_id now w.leases slots)
      ]
    ]

-- `lease.physical_resource_id is not None and slot.physical_resource_id != ...`, negated
abbrev pub resource_matches : Option String → String → Bool
resource_matches none resource = true
resource_matches (some expected) resource = resource == expected

-- `require`: `none` is `StaleExecutorError`.
unfoldable pub require : RunFence → SlotFence → ℕ → Workers → Option WorkerLease
require fence lease now w = elim (find_worker_lease w.leases lease.lease_id) [
  | none ↦ none
  | some row ↦ elim (find_slot w.slots row.slot_id) [
    | none ↦ none
    | some slot ↦
        if row.run_id == fence.run_id
          && (row.revision_id == lease.revision_id
              && (row.generation == lease.generation
                  && (slot.generation == lease.generation
                      && (slot.slot_number == lease.slot
                          && (resource_matches lease.resource slot.resource
                              && (is_open row && ltb now row.expires_at))))))
        then some row
        else none
  ]
]

-- The body of `renew`.
unfoldable pub renew_slot : RunFence → SlotFence → ℕ → ℕ → ℕ → Workers → Option Workers
unfolding require
renew_slot fence lease checked now ttl w = elim (require fence lease checked w) [
  | none ↦ none
  | some row ↦ some (record w {
    leases = save_worker_lease w.leases (record row { renewed_at = now; expires_at = now + ttl });
  })
]

-- The body of `release`.
unfoldable pub release_row : SlotFence → ℕ → Workers → Run → Option Workers
release_row lease now w run = elim (find_worker_lease w.leases lease.lease_id) [
  | none ↦ none
  | some row ↦
      if not (row.run_id == run.id) || not (row.generation == lease.generation)
      then none
      else if is_some row.released_at
      then some w
      else some
          (record w { leases = save_worker_lease w.leases (record row { released_at = some now }) })
]

-- `acquire`, `renew` and `release`; `at` and `at'` are the clock readings of the fence's checks.
unfoldable pub acquire_worker :
    (ℕ → String)
    → (ℕ → ℕ)
    → RunFence
    → Lookups
    → ℕ
    → ℕ
    → WorkerSpec
    → ℕ
    → ℕ
    → ℕ
    → ℕ
    → ℕ
    → Store
    → Workers
    → Option (SlotFence × Workers)
unfolding fenced_workers acquire_slot
acquire_worker text fresh fence rows revision_id attempt_id spec lease_id at now ttl at' s w =
    fenced_workers fence at at' s
      (acquire_slot text fresh fence rows revision_id attempt_id spec lease_id now ttl w)

unfoldable pub renew_worker :
    RunFence → SlotFence → ℕ → ℕ → ℕ → ℕ → ℕ → Store → Workers → Option Workers
unfolding fenced_workers renew_slot
renew_worker fence lease at checked now ttl at' s w =
    fenced_workers fence at at' s (λ run. renew_slot fence lease checked now ttl w)

unfoldable pub release_worker :
    RunFence → SlotFence → Bool → ℕ → ℕ → ℕ → Store → Workers → Option Workers
unfolding fenced_workers release_row
release_worker fence lease reconciled_terminal at now at' s w =
    if not reconciled_terminal
    then none
    else fenced_workers fence at at' s (release_row lease now w)
