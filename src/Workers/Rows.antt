-- ===== src/Workers/Rows.antt =====
-- The rows of packages/persistence/src/jarvis_persistence/models.py that worker slots use, and the
-- queries over them.
use jarvis_development.Prelude.{
  ℕ, zero, suc, ◌+◌, Bool, true, false, not, ◌&&◌, Option, none, some, List, [], ◌∷◌, String,
  string_eq, nat_eq, ◌==◌, leb, is_some, any, if◌then◌else◌,
}

-- `WorkerSlotModel`
pub record Slot : Type 0 where
  pub id : ℕ
  pub worker_id : ℕ
  pub resource : String
  pub slot_number : ℕ
  pub generation : ℕ

-- `WorkerLeaseModel`
pub record WorkerLease : Type 0 where
  pub id : ℕ
  pub slot_id : ℕ
  pub revision_id : ℕ
  pub run_id : ℕ
  pub attempt_id : ℕ
  pub owner : String
  pub generation : ℕ
  pub run_generation : ℕ
  pub acquired_at : ℕ
  pub renewed_at : ℕ
  pub expires_at : ℕ
  pub released_at : Option ℕ

-- The fields of `WorkerAssignmentModel` that `acquire` writes.
pub record Assignment : Type 0 where
  pub attempt_id : ℕ
  pub status : String
  pub selected_revision_id : Option ℕ
  pub lease_id : Option ℕ
  pub queued_reason : Option String

pub record Workers : Type 0 where
  pub slots : List Slot
  pub leases : List WorkerLease
  pub assignments : List Assignment

-- The fields of `WorkerSpec` that are read; `others` stands for the rest, which is only compared.
pub record WorkerSpec : Type 0 where
  pub resource : Option String
  pub max_concurrency : ℕ
  pub others : ℕ

-- `WorkerSlotFence`
pub record SlotFence : Type 0 where
  pub lease_id : ℕ
  pub revision_id : ℕ
  pub slot : ℕ
  pub generation : ℕ
  pub run_generation : ℕ
  pub expires_at : ℕ
  pub resource : Option String

-- The rows that `acquire` looks up: the revision with its configuration and its stored
-- specification, and the run of the attempt's task.
pub record Lookups : Type 0 where
  pub configuration : Option (ℕ × WorkerSpec)
  pub task_run : Option ℕ

-- `==` on `WorkerSpec`
abbrev pub same_resource : Option String → Option String → Bool
same_resource none none = true
same_resource (some a) (some b) = a == b
same_resource a b = false

abbrev pub same_spec : WorkerSpec → WorkerSpec → Bool
same_spec a b =
    same_resource a.resource b.resource
    && (a.max_concurrency == b.max_concurrency && a.others == b.others)

-- `spec.physical_resource_id or str(revision.configuration_id)`
abbrev pub resource_of : (ℕ → String) → WorkerSpec → ℕ → String
resource_of text spec configuration_id = elim spec.resource [
  | none ↦ text configuration_id
  | some resource ↦ if resource == "" then text configuration_id else resource
]

abbrev pub insert_slot : Slot → List Slot → List Slot
insert_slot s [] = s ∷ []
insert_slot s (x ∷ xs) =
    if leb s.slot_number x.slot_number then s ∷ x ∷ xs else x ∷ insert_slot s xs

-- `select(...).where(physical_resource_id == resource_id).order_by(slot_number)`
abbrev pub slots_of : String → List Slot → List Slot
slots_of resource [] = []
slots_of resource (s ∷ ss) =
    let rest = slots_of resource ss in if s.resource == resource then insert_slot s rest else rest

abbrev pub has_number : List Slot → ℕ → Bool
has_number slots number = any (λ s. s.slot_number == number) slots

-- `for number in range(spec.max_concurrency)`: the new slots, from `number` on. `fresh` gives the
-- new row's id.
abbrev pub missing_slots : (ℕ → ℕ) → ℕ → String → List Slot → ℕ → ℕ → List Slot
missing_slots fresh worker_id resource slots number zero = []
missing_slots fresh worker_id resource slots number (suc left) =
    let rest = missing_slots fresh worker_id resource slots (number + 1) left in
    if has_number slots number
    then rest
    else record {
      id = fresh number;
      worker_id = worker_id;
      resource = resource;
      slot_number = number;
      generation = 0;
    }
      ∷ rest

abbrev pub is_open : WorkerLease → Bool
is_open l = not (is_some l.released_at)

-- The lease of a slot that is not released; expired or not, it keeps the slot occupied.
abbrev pub find_open : List WorkerLease → ℕ → Option WorkerLease
find_open [] slot_id = none
find_open (l ∷ ls) slot_id =
    if l.slot_id == slot_id && is_open l then some l else find_open ls slot_id

abbrev pub find_worker_lease : List WorkerLease → ℕ → Option WorkerLease
find_worker_lease [] id = none
find_worker_lease (l ∷ ls) id = if l.id == id then some l else find_worker_lease ls id

abbrev pub find_slot : List Slot → ℕ → Option Slot
find_slot [] id = none
find_slot (s ∷ ss) id = if s.id == id then some s else find_slot ss id

abbrev pub save_worker_lease : List WorkerLease → WorkerLease → List WorkerLease
save_worker_lease [] l = []
save_worker_lease (x ∷ xs) l = if x.id == l.id then l ∷ xs else x ∷ save_worker_lease xs l
