-- ===== src/Runtime/Commands.antt =====
-- orchestrator/app/jarvis_orchestrator/runtime/commands.py, `CommandProcessor`:
-- one transaction applies the pending commands of a run. Event rows are left out.
pub mod Decisions
pub mod Settled
pub mod Applied
pub mod Retries
pub mod Poll
mod Tests
use jarvis_development.Prelude.{
  ℕ, zero, suc, ◌+◌, Bool, true, false, not, ◌&&◌, ◌||◌, Option, none, some, List, [], ◌∷◌, ◌++◌,
  String, nat_eq, ◌==◌, leb, max, length, any, if◌then◌else◌,
}
use jarvis_development.Contracts.Workflow.{
  WorkflowNodeType, organizer, architect, worker, WorkflowNode, WorkflowSpec,
}
use jarvis_development.Runtime.Store.{
  RunStatus, queued, pause_requested, paused, cancel_requested, failed, blocked, DesiredState,
  want_running, want_paused, want_cancelled, Mode, real, demo, Run, find_run, save_run,
}
use jarvis_development.Runtime.Ownership.{is_terminal}

-- `RunCommandKind` and `CommandStatus`
pub data CommandKind : Type 0 where
  pause resume cancel instruction retry_run : CommandKind

pub data CommandStatus : Type 0 where
  pending applying applied rejected superseded : CommandStatus

-- `RunCommandModel`
pub record Command : Type 0 where
  pub id : ℕ
  pub run_id : ℕ
  pub sequence : ℕ
  pub kind : CommandKind
  pub status : CommandStatus
  pub applied_at : Option ℕ

-- The part of `JobStatus` and `JobModel` that `_retry` writes.
pub data JobStatus : Type 0 where
  job_draft job_queued job_active job_waiting : JobStatus
  job_completed job_failed job_blocked job_cancelled : JobStatus

pub record Job : Type 0 where
  pub id : ℕ
  pub status : JobStatus

-- The rows that `apply` reads and writes; `commands` is in the order of `sequence`.
pub record Queue : Type 0 where
  pub runs : List Run
  pub jobs : List Job
  pub commands : List Command

-- What one round of the loop reads from outside: the clock where it decides and where it marks
-- the command, the database's clock and a new id, for `_retry`.
pub record Readings : Type 0 where
  pub decided : ℕ
  pub marked : ℕ
  pub created : ℕ
  pub fresh : ℕ

abbrev pub is_pending : CommandStatus → Bool
is_pending pending = true
is_pending _ = false

abbrev pub is_cancel : CommandKind → Bool
is_cancel cancel = true
is_cancel _ = false

abbrev pub is_retry : CommandKind → Bool
is_retry retry_run = true
is_retry _ = false

abbrev pub is_paused : RunStatus → Bool
is_paused paused = true
is_paused _ = false

abbrev pub is_cancelled : DesiredState → Bool
is_cancelled want_cancelled = true
is_cancelled _ = false

-- `run.status not in {"failed", "blocked"}`, negated
abbrev pub is_retryable : RunStatus → Bool
is_retryable failed = true
is_retryable blocked = true
is_retryable _ = false

-- The node types that receive instructions; `NODE_DEFINITIONS` calls all three external.
abbrev pub is_receiver_type : WorkflowNodeType → Bool
is_receiver_type organizer = true
is_receiver_type architect = true
is_receiver_type worker = true
is_receiver_type _ = false

abbrev pub is_receiver : WorkflowNode → Bool
is_receiver node =
    is_receiver_type node.type
    && elim node.policy.accepts_instructions [ none ↦ false | some accepts ↦ accepts ]

-- `has_receiver`: the argument is the run's workflow version, where it is found and is valid.
abbrev pub has_receiver : Option WorkflowSpec → Bool
has_receiver none = false
has_receiver (some spec) = any is_receiver spec.nodes

-- What one command does: its final status, the reason, and the run.
pub record Decision : Type 0 where
  pub disposition : CommandStatus
  pub reason : String
  pub run : Run

abbrev refuse : Run → CommandStatus → String → Decision
refuse run disposition reason = record { disposition = disposition; reason = reason; run = run }

abbrev accept : Run → Decision
accept run = record { disposition = applied; reason = "applied"; run = run }

-- `max(now, retry_at) if retry_at else now`
abbrev pub resume_at : ℕ → Option ℕ → ℕ
resume_at now none = now
resume_at now (some retry_at) = max now retry_at

module _ (receiver cancel_pending : Bool) (now : ℕ) where
  -- The branches of a run that is not terminal.
  unfoldable pub decide_open : Command → CommandKind → Run → Decision
  decide_open c cancel run =
      accept (record run {
        desired_state = want_cancelled;
        status = cancel_requested;
        claimable_at = now;
      })
  decide_open c pause run =
      if cancel_pending || is_cancelled run.desired_state
      then refuse run superseded "cancel_dominates"
      else if is_paused run.status
      then refuse run rejected "already_paused"
      else accept
          (record run { desired_state = want_paused; status = pause_requested; claimable_at = now })
  decide_open c resume run =
      if cancel_pending || is_cancelled run.desired_state
      then refuse run superseded "cancel_dominates"
      else if not (is_paused run.status)
      then refuse run rejected "resume_requires_paused"
      else accept (record run {
        desired_state = want_running;
        status = queued;
        claimable_at = resume_at now run.retry_at;
      })
  decide_open c instruction run =
      if is_cancelled run.desired_state || not receiver
      then refuse run rejected "no_eligible_instruction_receiver"
      else if leb 100 (length run.instructions)
      then refuse run rejected "instruction_capacity"
      else accept (record run { instructions = run.instructions ++ (c.id ∷ []) })
  decide_open c retry_run run = refuse run rejected "retry_requires_failed_or_blocked"

  -- The chain of branches of `apply`.
  unfoldable pub decide : Command → Run → Decision
  unfolding decide_open
  decide c run =
      if is_retry c.kind
      then (if is_retryable run.status
          then accept run
          else refuse run rejected "retry_requires_failed_or_blocked")
      else if is_terminal run.status
      then refuse run rejected "terminal_run"
      else decide_open c c.kind run

-- `select(func.max(RunModel.run_number)).where(job_id == ...) or 0`
abbrev pub max_number : List Run → ℕ → ℕ
max_number [] job_id = 0
max_number (r ∷ rs) job_id =
    let rest = max_number rs job_id in if r.job_id == job_id then max r.run_number rest else rest

-- The demo fixture that a linked run inherits.
abbrev pub inherited : Mode → Option ℕ → Option ℕ
inherited demo fixture = fixture
inherited real fixture = none

-- The row that `_retry` adds.
unfoldable pub linked_run : Readings → List Run → Run → Run
linked_run x runs run = record {
  id = x.fresh;
  job_id = run.job_id;
  run_number = max_number runs run.job_id + 1;
  parent_run_id = some run.id;
  workflow_version_id = run.workflow_version_id;
  config_snapshot_id = run.config_snapshot_id;
  status = queued;
  desired_state = want_running;
  mode = run.mode;
  priority = run.priority;
  claimable_at = x.decided;
  created_at = x.created;
  version = 0;
  recovering = false;
  retry_at = none;
  instructions = [];
  demo_fixture = inherited run.mode run.demo_fixture;
}

abbrev pub queue_job : List Job → ℕ → List Job
queue_job [] id = []
queue_job (j ∷ js) id =
    if j.id == id then record j { status = job_queued } ∷ js else j ∷ queue_job js id

-- `_retry`: a linked run is added, and the job, which the run's foreign key names, is queued.
unfoldable pub add_retry : Readings → Run → Queue → Queue
unfolding linked_run
add_retry x run q = record q {
  runs = linked_run x q.runs run ∷ q.runs;
  jobs = queue_job q.jobs run.job_id;
}

abbrev pub is_due : ℕ → Command → Bool
is_due run_id c = c.run_id == run_id && is_pending c.status

-- `any(command.kind == "cancel" for command in commands)` over the commands selected
abbrev pub has_cancel : ℕ → List Command → Bool
has_cancel run_id cs = any (λ c. is_due run_id c && is_cancel c.kind) cs

abbrev pub is_applied : CommandStatus → Bool
is_applied applied = true
is_applied _ = false

module _ (receiver cancel_pending : Bool) (read : ℕ → Readings) where
  -- One round of the loop for a command: the queue, without the command's own row, and the run.
  unfoldable pub apply_one : Command → Run → Queue → Run × Queue
  unfolding decide add_retry
  apply_one c run q =
      let d = decide receiver cancel_pending (read c.id).decided c run in
      (
        record d.run { version = d.run.version + 1 },
        if is_retry c.kind && is_applied d.disposition then add_retry (read c.id) run q else q,
      )

  unfoldable pub mark : Command → Run → Command
  unfolding decide
  mark c run = record c {
    status = (decide receiver cancel_pending (read c.id).decided c run).disposition;
    applied_at = some (read c.id).marked;
  }

  -- The loop over the rows; those that the selection leaves out are kept.
  unfoldable pub apply_loop : ℕ → List Command → Run → Queue → Run × (Queue × List Command)
  unfolding apply_one mark
  apply_loop run_id [] run q = (run, (q, []))
  apply_loop run_id (c ∷ cs) run q =
      let next = apply_one c run q in
      let after = apply_loop run_id cs next.0 next.1 in
      let skipped = apply_loop run_id cs run q in
      if is_due run_id c
      then (after.0, (after.1.0, mark c run ∷ after.1.1))
      else (skipped.0, (skipped.1.0, c ∷ skipped.1.1))

-- `apply`; `version` is the workflow version of the run, where it is found and is valid.
unfoldable pub apply : (Run → Option WorkflowSpec) → (ℕ → Readings) → ℕ → Queue → Queue
unfolding apply_loop
apply version read run_id q = elim (find_run q.runs run_id) [
  | none ↦ q
  | some run ↦
      let (run', (q', commands)) =
        apply_loop (has_receiver (version run)) (has_cancel run_id q.commands) read run_id
          q.commands run q in
      record q' { runs = save_run q'.runs run'; commands = commands }
]

-- `group_by(run_id).order_by(run_id)`: the ids in order, each once.
abbrev pub insert_id : ℕ → List ℕ → List ℕ
insert_id id [] = id ∷ []
insert_id id (x ∷ xs) =
    if x == id then x ∷ xs else if leb id x then id ∷ x ∷ xs else x ∷ insert_id id xs

abbrev pub pending_runs : List Command → List ℕ
pending_runs [] = []
pending_runs (c ∷ cs) =
    let rest = pending_runs cs in if is_pending c.status then insert_id c.run_id rest else rest

abbrev pub limited : ℕ → List ℕ → List ℕ
limited zero ids = []
limited (suc limit) [] = []
limited (suc limit) (id ∷ ids) = id ∷ limited limit ids

abbrev pub apply_each : (Run → Option WorkflowSpec) → (ℕ → Readings) → List ℕ → Queue → Queue
apply_each version read [] q = q
apply_each version read (id ∷ ids) q = apply_each version read ids (apply version read id q)

-- `poll`: the runs with pending commands, one transaction each.
unfoldable pub poll : (Run → Option WorkflowSpec) → (ℕ → Readings) → ℕ → Queue → Queue
poll version read limit q = apply_each version read (limited limit (pending_runs q.commands)) q
