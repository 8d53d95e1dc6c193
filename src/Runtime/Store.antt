-- ===== src/Runtime/Store.antt =====
-- The rows of packages/persistence/src/jarvis_persistence/models.py that the run queue reads and
-- writes. Times are numbers of microseconds; ids are numbers.
use jarvis_development.Prelude.{
  ℕ, Bool, Option, none, some, List, [], ◌∷◌, String, string_eq, nat_eq, ◌==◌, max, if◌then◌else◌,
  ◌&&◌, not, is_some,
}

pub data RunStatus : Type 0 where
  queued claiming running pause_requested paused approval_required cancel_requested : RunStatus
  completed failed blocked cancelled : RunStatus

pub data DesiredState : Type 0 where
  want_running want_paused want_cancelled : DesiredState

pub data Mode : Type 0 where
  real demo : Mode

-- `RunModel`; of `runtime_json` the keys that are read: `recovering`, `retry_at`, `instructions`
-- (by their command ids) and `demo_fixture`. A priority is between -100 and 100, and is kept
-- here plus 100.
pub record Run : Type 0 where
  pub id : ℕ
  pub job_id : ℕ
  pub run_number : ℕ
  pub parent_run_id : Option ℕ
  pub workflow_version_id : ℕ
  pub config_snapshot_id : ℕ
  pub status : RunStatus
  pub desired_state : DesiredState
  pub mode : Mode
  pub priority : ℕ
  pub claimable_at : ℕ
  pub created_at : ℕ
  pub version : ℕ
  pub recovering : Bool
  pub retry_at : Option ℕ
  pub instructions : List ℕ
  pub demo_fixture : Option ℕ

-- `RunLeaseModel`; (run_id, generation) is unique in the database.
pub record RunLease : Type 0 where
  pub run_id : ℕ
  pub owner : String
  pub generation : ℕ
  pub acquired_at : ℕ
  pub heartbeat_at : Option ℕ
  pub expires_at : ℕ
  pub released_at : Option ℕ

-- `RecoveryGenerationModel`
pub record Recovery : Type 0 where
  pub generation : ℕ
  pub automatic_dispatch_enabled : Bool

-- `OrchestratorInstanceModel`
pub record Instance : Type 0 where
  pub id : String
  pub heartbeat_at : ℕ
  pub draining : Bool

-- `leases` lists the newest row first.
pub record Store : Type 0 where
  pub runs : List Run
  pub leases : List RunLease
  pub recovery : Option Recovery
  pub instances : List Instance

abbrev pub find_run : List Run → ℕ → Option Run
find_run [] id = none
find_run (r ∷ rs) id = if r.id == id then some r else find_run rs id

abbrev pub find_instance : List Instance → String → Option Instance
find_instance [] id = none
find_instance (x ∷ xs) id = if x.id == id then some x else find_instance xs id

-- Write a run back.
abbrev pub save_run : List Run → Run → List Run
save_run [] r = []
save_run (x ∷ xs) r = if x.id == r.id then r ∷ xs else x ∷ save_run xs r

abbrev pub save_instance : List Instance → Instance → List Instance
save_instance [] i = []
save_instance (x ∷ xs) i = if x.id == i.id then i ∷ xs else x ∷ save_instance xs i

-- The lease of a run with `released_at IS NULL`; the database has an index that makes it unique.
abbrev pub find_active : List RunLease → ℕ → Option RunLease
find_active [] run_id = none
find_active (l ∷ ls) run_id =
    if l.run_id == run_id && not (is_some l.released_at) then some l else find_active ls run_id

-- `select(func.max(generation)).where(run_id == ...) or 0`
abbrev pub max_generation : List RunLease → ℕ → ℕ
max_generation [] run_id = 0
max_generation (l ∷ ls) run_id =
    let rest = max_generation ls run_id in
    if l.run_id == run_id then max l.generation rest else rest

-- Write to the row with this key.
abbrev pub change_lease : (RunLease → RunLease) → List RunLease → ℕ → ℕ → List RunLease
change_lease f [] run_id generation = []
change_lease f (l ∷ ls) run_id generation =
    if l.run_id == run_id && l.generation == generation
    then f l ∷ ls
    else l ∷ change_lease f ls run_id generation

abbrev pub find_lease : List RunLease → ℕ → ℕ → Option RunLease
find_lease [] run_id generation = none
find_lease (l ∷ ls) run_id generation =
    if l.run_id == run_id && l.generation == generation
    then some l
    else find_lease ls run_id generation
