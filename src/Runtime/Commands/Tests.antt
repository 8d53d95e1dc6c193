-- ===== src/Runtime/Commands/Tests.antt =====
-- A run with a pause, a cancellation and a resumption pending, and a failed run that is retried.
use jarvis_development.Prelude.{
  ℕ, ◌+◌, ◌≡◌, refl, true, false, Option, none, some, List, [], ◌∷◌, arith,
}
use jarvis_development.Contracts.Workflow.{WorkflowSpec}
use jarvis_development.Runtime.Store.{RunStatus, running, failed, want_running, real, Run, find_run}
use jarvis_development.Runtime.Commands.{
  Command, CommandKind, pause, cancel, resume, retry_run, pending, applied, superseded, job_failed,
  Queue, Readings, apply, poll,
}
use jarvis_development.Runtime.Commands.Decisions.{is_cancelling}
use jarvis_development.Runtime.Commands.Settled.{Marked}
use jarvis_development.Runtime.Commands.Applied.{apply-Marked, apply-cancels, apply-terminal}
use jarvis_development.Runtime.Commands.Retries.{IsNumbered, apply-IsNumbered}
use jarvis_development.Runtime.Commands.Poll.{has_due, poll-settles}

abbrev run_of : ℕ → RunStatus → Run
run_of id status = record {
  id = id;
  job_id = 40;
  run_number = id;
  parent_run_id = none;
  workflow_version_id = 1;
  config_snapshot_id = 1;
  status = status;
  desired_state = want_running;
  mode = real;
  priority = 100;
  claimable_at = 5;
  created_at = 5;
  version = 3;
  recovering = false;
  retry_at = none;
  instructions = [];
  demo_fixture = none;
}

abbrev command_of : ℕ → ℕ → CommandKind → Command
command_of run_id sequence kind = record {
  id = sequence;
  run_id = run_id;
  sequence = sequence;
  kind = kind;
  status = pending;
  applied_at = none;
}

abbrev before : Queue
before = record {
  runs = run_of 1 running ∷ run_of 2 failed ∷ [];
  jobs = record { id = 40; status = job_failed } ∷ [];
  commands =
      command_of 1 1 pause
      ∷ command_of 2 2 retry_run
      ∷ command_of 1 3 cancel
      ∷ command_of 1 4 resume
      ∷ command_of 2 5 pause
      ∷ command_of 2 6 retry_run
      ∷ [];
}

abbrev read : ℕ → Readings
read id = record { decided = 70; marked = 71; created = 72; fresh = id + 100 }

abbrev no_version : Run → Option WorkflowSpec
no_version run = none

abbrev settled_commands : List Command
settled_commands =
    record (command_of 1 1 pause) { status = superseded; applied_at = some 71 }
    ∷ command_of 2 2 retry_run
    ∷ record (command_of 1 3 cancel) { status = applied; applied_at = some 71 }
    ∷ record (command_of 1 4 resume) { status = superseded; applied_at = some 71 }
    ∷ command_of 2 5 pause
    ∷ command_of 2 6 retry_run
    ∷ []

applied_commands : (apply no_version read 1 before).commands ≡ settled_commands
unfolding apply
applied_commands = refl

apply-Marked_example : Marked 1 before.commands (apply no_version read 1 before).commands
apply-Marked_example = apply-Marked no_version read 1 before refl

apply-cancels_example :
    (after : Run) × (find_run (apply no_version read 1 before).runs 1 ≡ some after)
    × (is_cancelling after ≡ true)
apply-cancels_example = apply-cancels no_version read 1 before refl refl refl

apply-terminal_example :
    find_run (apply no_version read 2 before).runs 2
    ≡ some (record (run_of 2 failed) { version = 6 })
apply-terminal_example = apply-terminal no_version read 2 before refl refl

apply-IsNumbered_example : IsNumbered (apply no_version read 2 before).runs
apply-IsNumbered_example =
    apply-IsNumbered no_version read 2 before refl (λ id. omega arith) ((refl, tt), (tt, tt))

poll-settles_example : has_due 2 (poll no_version read 100 before).commands ≡ false
poll-settles_example = poll-settles no_version read 100 before 2 (refl, (refl, tt)) (omega arith)
