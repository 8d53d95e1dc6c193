-- ===== src/Runtime/Commands/Retries.antt =====
-- The runs that `_retry` adds.
use jarvis_development.Prelude.{
  ℕ, suc, ◌+◌, ◌<◌, Bool, false, ◌&&◌, Option, some, List, [], ◌∷◌, ◌≡◌, ◌≢◌, refl, inl, inr, arith,
  nat_eq, ◌==◌, if◌then◌else◌, subst, sym, ◌∙◌, length, Bool-cases,
}
use jarvis_development.Contracts.Workflow.{WorkflowSpec}
use jarvis_development.Runtime.Store.{Run, find_run, save_run}
use jarvis_development.Runtime.Commands.{
  Command, is_due, is_retry, is_retryable, has_cancel, has_receiver, Readings, Queue, apply_one,
  apply_loop, apply, add_retry, linked_run, max_number,
}
use jarvis_development.Runtime.Commands.Decisions.{decide-Sound, decide-retry}
use jarvis_development.Runtime.Commands.Settled.{loop-keeps}
use jarvis_development.Runtime.Commands.Applied.{outcome, outcome-id}

-- No run of the job has this number.
abbrev pub IsNew : ℕ → ℕ → List Run → Type 0
IsNew job_id number [] = Unit
IsNew job_id number (r ∷ rs) =
    ((r.job_id == job_id && r.run_number == number) ≡ false) × IsNew job_id number rs

-- The runs of a job have distinct numbers.
abbrev pub IsNumbered : List Run → Type 0
IsNumbered [] = Unit
IsNumbered (r ∷ rs) = IsNew r.job_id r.run_number rs × IsNumbered rs

max_number-IsNew :
    (rs : List Run) (job_id number : ℕ) → max_number rs job_id < number → IsNew job_id number rs
max_number-IsNew [] job_id number h = tt
max_number-IsNew (r ∷ rs) job_id number h = ground (arith, max_number-IsNew rs job_id number)

abbrev pub count_retries : ℕ → List Command → ℕ
count_retries run_id [] = 0
count_retries run_id (c ∷ cs) =
    let rest = count_retries run_id cs in
    if is_due run_id c && is_retry c.kind then suc rest else rest

save-IsNew :
    (rs : List Run) (r : Run) {old : Run} (job_id number : ℕ)
    → find_run rs r.id ≡ some old
    → old.job_id ≡ r.job_id
    → old.run_number ≡ r.run_number
    → IsNew job_id number rs
    → IsNew job_id number (save_run rs r)
save-IsNew [] r job_id number e same_job same_number h = tt
save-IsNew (x ∷ rs) r {old} job_id number e same_job same_number h =
    ground (arith, save-IsNew rs r {old = old} job_id number)

save-IsNumbered :
    (rs : List Run) (r : Run) {old : Run}
    → find_run rs r.id ≡ some old
    → old.job_id ≡ r.job_id
    → old.run_number ≡ r.run_number
    → IsNumbered rs
    → IsNumbered (save_run rs r)
save-IsNumbered [] r e same_job same_number h = tt
save-IsNumbered (x ∷ rs) r {old} e same_job same_number h =
    ground
      (arith, save-IsNumbered rs r {old = old}, save-IsNew rs r {old = old} x.job_id x.run_number)

length-save : (rs : List Run) (r : Run) → length (save_run rs r) ≡ length rs
length-save [] r = refl
length-save (x ∷ rs) r = ground (arith, length-save rs r)

module _ (receiver cancel_pending : Bool) (read : ℕ → Readings) (run_id : ℕ) where
  apply_one-IsNumbered :
      (c : Command) (run : Run) (q : Queue)
      → IsNumbered q.runs
      → IsNumbered (apply_one receiver cancel_pending read c run q).1.runs
  unfolding apply_one add_retry linked_run
  apply_one-IsNumbered c run q h =
      ground (arith, max_number-IsNew q.runs run.job_id (max_number q.runs run.job_id + 1))

  apply_one-find :
      (c : Command) (run : Run) (q : Queue)
      → (read c.id).fresh ≢ run_id
      → find_run (apply_one receiver cancel_pending read c run q).1.runs run_id
        ≡ find_run q.runs run_id
  unfolding apply_one add_retry linked_run
  apply_one-find c run q h = ground arith

  loop-numbers :
      (fresh : (id : ℕ) → (read id).fresh ≢ run_id) (cs : List Command) (run : Run) (q : Queue)
      → IsNumbered q.runs
      → IsNumbered (apply_loop receiver cancel_pending read run_id cs run q).1.0.runs
        × (find_run (apply_loop receiver cancel_pending read run_id cs run q).1.0.runs run_id
            ≡ find_run q.runs run_id)
  unfolding apply_loop
  loop-numbers fresh [] run q h = (h, refl)
  loop-numbers fresh (c ∷ cs) run q h = elim (Bool-cases (is_due run_id c)) [
    | inr skip ↦ rw skip (loop-numbers fresh cs run q h)
    | inl due ↦
        let next = apply_one receiver cancel_pending read c run q in
        let rest = loop-numbers fresh cs next.0 next.1 (apply_one-IsNumbered c run q h) in
        rw due (rest.0, rest.1 ∙ apply_one-find c run q (fresh c.id))
  ]

  apply_one-length :
      (c : Command) (run : Run) (q : Queue)
      → length (apply_one receiver cancel_pending read c run q).1.runs
        ≡ length q.runs + (if is_retry c.kind && is_retryable run.status then 1 else 0)
  unfolding apply_one add_retry
  apply_one-length c run q =
      ground (arith, decide-retry receiver cancel_pending (read c.id).decided c run)

  loop-length :
      (cs : List Command) (run : Run) (q : Queue)
      → length (apply_loop receiver cancel_pending read run_id cs run q).1.0.runs
        ≡ length q.runs + (if is_retryable run.status then count_retries run_id cs else 0)
  unfolding apply_loop apply_one
  loop-length [] run q = ground arith
  loop-length (c ∷ cs) run q = elim (Bool-cases (is_due run_id c)) [
    | inr skip ↦ rw skip (loop-length cs run q)
    | inl due ↦
        let next = apply_one receiver cancel_pending read c run q in
        let sound = decide-Sound receiver cancel_pending (read c.id).decided c run in
        rw due
          (ground (arith, loop-length cs next.0 next.1, apply_one-length c run q, sound.retryable))
  ]

module _ (version : Run → Option WorkflowSpec) (read : ℕ → Readings) (run_id : ℕ) (q : Queue)
    {run : Run} (found : find_run q.runs run_id ≡ some run) where
  outcome-same :
      ((outcome version read run_id q found).0.job_id ≡ run.job_id)
      × ((outcome version read run_id q found).0.run_number ≡ run.run_number)
  unfolding apply_one
  outcome-same =
      loop-keeps (has_receiver (version run)) (has_cancel run_id q.commands) read run_id
        (λ r. (r.job_id ≡ run.job_id) × (r.run_number ≡ run.run_number)) step q.commands run q
        (refl, refl)
    where
      step :
          (c : Command) (r : Run) (p : Queue)
          → (r.job_id ≡ run.job_id) × (r.run_number ≡ run.run_number)
          → ((apply_one
                (has_receiver (version run))
                (has_cancel run_id q.commands)
                read
                c
                r
                p).0.job_id
              ≡ run.job_id)
            × ((apply_one
                  (has_receiver (version run))
                  (has_cancel run_id q.commands)
                  read
                  c
                  r
                  p).0.run_number
                ≡ run.run_number)
      step c r p (same_job, same_number) =
          let sound =
            decide-Sound (has_receiver (version run)) (has_cancel run_id q.commands)
              (read c.id).decided c r in
          (sound.job_id ∙ same_job, sound.run_number ∙ same_number)

  -- `apply` keeps the numbers of a job's runs distinct, if no new id is the run's own.
  pub apply-IsNumbered :
      ((id : ℕ) → (read id).fresh ≢ run_id)
      → IsNumbered q.runs
      → IsNumbered (apply version read run_id q).runs
  unfolding apply
  apply-IsNumbered fresh h =
      let o = outcome version read run_id q found in
      let rest =
        loop-numbers (has_receiver (version run)) (has_cancel run_id q.commands) read run_id fresh
          q.commands run q h in
      let there : find_run o.1.0.runs o.0.id ≡ some run =
        subst (λ id. find_run o.1.0.runs id ≡ some run)
          (sym (outcome-id version read run_id q found)) (rest.1 ∙ found) in
      rw (found, apply)
        (save-IsNumbered o.1.0.runs o.0 there (sym outcome-same.0) (sym outcome-same.1) rest.0)

  -- `apply` adds one run for each pending retry command of a run that failed or is blocked, and
  -- none for any other run.
  pub apply-length :
      length (apply version read run_id q).runs
      ≡ length q.runs + (if is_retryable run.status then count_retries run_id q.commands else 0)
  unfolding apply
  apply-length =
      let o = outcome version read run_id q found in
      rw (found, apply)
        (length-save o.1.0.runs o.0
          ∙ loop-length (has_receiver (version run)) (has_cancel run_id q.commands) read run_id
              q.commands run q)
