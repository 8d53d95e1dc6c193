-- ===== src/Runtime/Commands/Applied.antt =====
-- What `apply` does to the commands of a run and to the run.
use jarvis_development.Prelude.{
  ℕ, ◌+◌, true, false, Option, some, List, [], ◌∷◌, ◌≡◌, inr, arith, nat_eq, is_some, subst, sym,
  ◌∙◌, ap,
}
use jarvis_development.Contracts.Workflow.{WorkflowSpec}
use jarvis_development.Runtime.Store.{Run, find_run, save_run}
use jarvis_development.Runtime.Ownership.{is_terminal}
use jarvis_development.Runtime.Ownership.Selection.{find_run-save}
use jarvis_development.Runtime.Commands.{
  Command, has_cancel, has_receiver, Readings, Queue, apply_one, apply_loop, apply,
}
use jarvis_development.Runtime.Commands.Decisions.{is_cancelling, decide-Sound}
use jarvis_development.Runtime.Commands.Settled.{
  Marked, count_due, loop-Marked, loop-keeps, loop-cancels, loop-terminal, loop-found,
}

pub find_run-id : (rs : List Run) (id : ℕ) {r : Run} → find_run rs id ≡ some r → r.id ≡ id
find_run-id [] id e = cc
find_run-id (x ∷ rs) id {r} e = ground (arith, find_run-id rs id {r = r})

module _ (version : Run → Option WorkflowSpec) (read : ℕ → Readings) (run_id : ℕ) (q : Queue)
    {run : Run} (found : find_run q.runs run_id ≡ some run) where
  -- The outcome of the loop, for the run that was found.
  abbrev pub outcome : Run × (Queue × List Command)
  outcome =
      apply_loop (has_receiver (version run)) (has_cancel run_id q.commands) read run_id q.commands
        run q

  -- `apply` settles every pending command of a run that exists: it ends as applied, rejected or
  -- superseded, with its time, and all other rows stay as they were.
  pub apply-Marked : Marked run_id q.commands (apply version read run_id q).commands
  unfolding apply
  apply-Marked =
      rw (found, apply)
        (loop-Marked (has_receiver (version run)) (has_cancel run_id q.commands) read run_id
          q.commands run q)

  pub outcome-id : outcome.0.id ≡ run_id
  unfolding apply_one
  outcome-id =
      loop-keeps (has_receiver (version run)) (has_cancel run_id q.commands) read run_id
        (λ r. r.id ≡ run_id) step q.commands run q (find_run-id q.runs run_id found)
    where
      step :
          (c : Command) (r : Run) (p : Queue)
          → r.id ≡ run_id
          → (apply_one (has_receiver (version run)) (has_cancel run_id q.commands) read c r p).0.id
            ≡ run_id
      step c r p e =
          (decide-Sound (has_receiver (version run)) (has_cancel run_id q.commands)
            (read c.id).decided c r).id
          ∙ e

  -- The run's row after `apply` is where the loop left the run.
  pub apply-run : find_run (apply version read run_id q).runs run_id ≡ some outcome.0
  unfolding apply
  apply-run =
      rw (found, apply) (subst P outcome-id (find_run-save outcome.1.0.runs outcome.0 there))
    where
      P : ℕ → Type 0
      P id = find_run (save_run outcome.1.0.runs outcome.0) id ≡ some outcome.0

      there : is_some (find_run outcome.1.0.runs outcome.0.id) ≡ true
      there =
          subst (λ id. is_some (find_run outcome.1.0.runs id) ≡ true) (sym outcome-id)
            (loop-found (has_receiver (version run)) (has_cancel run_id q.commands) read run_id
              q.commands run q run_id (ap is_some found))

  -- If a run is not terminal and one of its pending commands cancels, `apply` leaves it with a
  -- requested cancellation, in status and in desired state, whatever the other commands are and in
  -- whatever order they come.
  pub apply-cancels :
      is_terminal run.status ≡ false
      → has_cancel run_id q.commands ≡ true
      → (after : Run) × (find_run (apply version read run_id q).runs run_id ≡ some after)
        × (is_cancelling after ≡ true)
  apply-cancels open_run asked = (
    outcome.0,
    apply-run,
    loop-cancels (has_receiver (version run)) (has_cancel run_id q.commands) read run_id q.commands
        run q open_run (inr asked),
  )

  -- `apply` changes nothing of a terminal run but its version, which grows by the number of the
  -- pending commands.
  pub apply-terminal :
      is_terminal run.status ≡ true
      → find_run (apply version read run_id q).runs run_id
        ≡ some (record run { version = run.version + count_due run_id q.commands })
  apply-terminal closed =
      apply-run
      ∙ ap some (
          loop-terminal (has_receiver (version run)) (has_cancel run_id q.commands) read run_id
            q.commands run q closed)
