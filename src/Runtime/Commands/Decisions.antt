-- ===== src/Runtime/Commands/Decisions.antt =====
-- What one command may do to its run.
use jarvis_development.Prelude.{
  ℕ, Bool, true, false, not, ◌&&◌, ◌||◌, ◌≡◌, refl, inl, inr, arith, Bool-cases, String, leb,
  length, if◌then◌else◌,
}
use jarvis_development.Runtime.Store.{
  RunStatus, queued, pause_requested, cancel_requested, DesiredState, want_running, want_paused,
  want_cancelled, Run,
}
use jarvis_development.Runtime.Ownership.{is_terminal}
use jarvis_development.Runtime.Commands.{
  Command, CommandKind, pause, resume, cancel, instruction, retry_run, CommandStatus, applied,
  rejected, superseded, is_retry, is_retryable, is_cancelled, is_paused, decide, decide_open,
  Decision, is_applied, resume_at,
}

-- A final status.
abbrev pub is_settled : CommandStatus → Bool
is_settled applied = true
is_settled rejected = true
is_settled superseded = true
is_settled _ = false

abbrev pub is_cancel_requested : RunStatus → Bool
is_cancel_requested cancel_requested = true
is_cancel_requested _ = false

-- A run on which a cancellation was requested.
abbrev pub is_cancelling : Run → Bool
is_cancelling run = is_cancel_requested run.status && is_cancelled run.desired_state

-- What every decision keeps of its run; a cancellation that was requested stays so.
pub record Sound (run : Run) (d : Decision) : Type 0 where
  pub settled : is_settled d.disposition ≡ true
  pub id : d.run.id ≡ run.id
  pub job_id : d.run.job_id ≡ run.job_id
  pub run_number : d.run.run_number ≡ run.run_number
  pub version : d.run.version ≡ run.version
  pub terminal : is_terminal d.run.status ≡ is_terminal run.status
  pub retryable : is_retryable d.run.status ≡ is_retryable run.status
  pub cancelling : (not (is_cancelling run) || is_cancelling d.run) ≡ true

-- A refused command leaves its run as it was.
refused-Sound :
    (run : Run) (disposition : CommandStatus) (reason : String)
    → is_settled disposition ≡ true
    → Sound run (record { disposition = disposition; reason = reason; run = run })
refused-Sound run disposition reason h = record {
  settled = h;
  id = refl;
  job_id = refl;
  run_number = refl;
  version = refl;
  terminal = refl;
  retryable = refl;
  cancelling = ground arith;
}

-- A choice between two decisions.
if-Sound :
    (run : Run) (b : Bool) (d e : Decision)
    → Sound run d
    → (b ≡ false → Sound run e)
    → Sound run (if b then d else e)
if-Sound run b d e h k = elim (Bool-cases b) [ inl yes_ ↦ rw yes_ h | inr no_ ↦ rw no_ (k no_) ]

-- A new status of a run that is not terminal, and was not being cancelled.
status-Sound :
    (run : Run) (status : RunStatus) (desired : DesiredState) (at : ℕ)
    → is_terminal run.status ≡ false
    → is_terminal status ≡ false
    → (not (is_cancelling run) || (is_cancel_requested status && is_cancelled desired)) ≡ true
    → Sound run (record {
      disposition = applied;
      reason = "applied";
      run = record run { desired_state = desired; status = status; claimable_at = at };
    })
status-Sound run status desired at open_run open_status kept = record {
  settled = refl;
  id = refl;
  job_id = refl;
  run_number = refl;
  version = refl;
  terminal = ground arith;
  retryable = not_retryable;
  cancelling = kept;
}
  where
    not_retryable : is_retryable status ≡ is_retryable run.status
    not_retryable = ground arith

module _ (receiver cancel_pending : Bool) (now : ℕ) (c : Command) (run : Run) where
  decide_open-Sound :
      (kind : CommandKind)
      → is_terminal run.status ≡ false
      → Sound run (decide_open receiver cancel_pending now c kind run)
  unfolding decide_open
  decide_open-Sound cancel h =
      status-Sound run cancel_requested want_cancelled now h refl (ground arith)
  decide_open-Sound pause h =
      if-Sound run (cancel_pending || is_cancelled run.desired_state) _ _
        (refused-Sound run superseded "cancel_dominates" refl)
        (λ open_ask.
          if-Sound run (is_paused run.status) _ _ (refused-Sound run rejected "already_paused" refl)
            (λ n. status-Sound run pause_requested want_paused now h refl (ground arith)))
  decide_open-Sound resume h =
      if-Sound run (cancel_pending || is_cancelled run.desired_state) _ _
        (refused-Sound run superseded "cancel_dominates" refl)
        (λ open_ask.
          if-Sound run (not (is_paused run.status)) _ _
            (refused-Sound run rejected "resume_requires_paused" refl)
            (λ n.
              status-Sound run queued want_running (resume_at now run.retry_at) h refl
                (ground arith)))
  decide_open-Sound instruction h =
      if-Sound run (is_cancelled run.desired_state || not receiver) _ _
        (refused-Sound run rejected "no_eligible_instruction_receiver" refl)
        (λ n.
          if-Sound run (leb 100 (length run.instructions)) _ _
            (refused-Sound run rejected "instruction_capacity" refl)
            (λ m. record {
              settled = refl;
              id = refl;
              job_id = refl;
              run_number = refl;
              version = refl;
              terminal = refl;
              retryable = refl;
              cancelling = ground arith;
            }))
  decide_open-Sound retry_run h = refused-Sound run rejected "retry_requires_failed_or_blocked" refl

  pub decide-Sound : Sound run (decide receiver cancel_pending now c run)
  unfolding decide
  decide-Sound =
      if-Sound run (is_retry c.kind) _ _
        (if-Sound run (is_retryable run.status) _ _ (refused-Sound run applied "applied" refl)
          (λ n. refused-Sound run rejected "retry_requires_failed_or_blocked" refl))
        (λ n.
          if-Sound run (is_terminal run.status) _ _ (refused-Sound run rejected "terminal_run" refl)
            (λ open_run. decide_open-Sound c.kind open_run))

  pub decide-terminal :
      is_terminal run.status ≡ true → (decide receiver cancel_pending now c run).run ≡ run
  unfolding decide
  decide-terminal h = ground arith

  -- The command that cancels, on a run that is not terminal.
  pub decide-cancels :
      c.kind ≡ cancel
      → is_terminal run.status ≡ false
      → is_cancelling (decide receiver cancel_pending now c run).run ≡ true
  unfolding decide decide_open
  decide-cancels k h = rw (k, h) refl

  -- A retry is accepted exactly on a run that failed or is blocked.
  pub decide-retry :
      is_retry c.kind ≡ true
      → is_applied (decide receiver cancel_pending now c run).disposition ≡ is_retryable run.status
  unfolding decide
  decide-retry k = ground arith
