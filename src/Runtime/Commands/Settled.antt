-- ===== src/Runtime/Commands/Settled.antt =====
-- The loop of `apply`: which commands it settles, and where it leaves the run.
use jarvis_development.Prelude.{
  ℕ, suc, ◌+◌, Bool, true, false, List, [], ◌∷◌, ◌≡◌, refl, ◌⊎◌, inl, inr, arith, nat_eq,
  if◌then◌else◌, Bool-cases, is_some, subst, sym, ◌∙◌, ap,
}
use jarvis_development.Runtime.Store.{Run, find_run}
use jarvis_development.Runtime.Ownership.{is_terminal}
use jarvis_development.Runtime.Commands.{
  Command, CommandKind, cancel, is_cancel, is_due, has_cancel, Readings, Queue, decide, apply_one,
  mark, apply_loop, add_retry,
}
use jarvis_development.Runtime.Commands.Decisions.{
  is_settled, is_cancelling, Sound, decide-Sound, decide-terminal, decide-cancels,
}

-- The rows of a run's pending commands before and after: each is settled and dated, and keeps its
-- identity; the other rows are as they were.
pub data Marked (run_id : ℕ) : List Command → List Command → Type 0 where
  end : Marked run_id [] []
  kept :
      {cs ds : List Command} (c : Command)
      → is_due run_id c ≡ false
      → Marked run_id cs ds
      → Marked run_id (c ∷ cs) (c ∷ ds)
  settled :
      {cs ds : List Command} (c d : Command)
      → is_due run_id c ≡ true
      → is_settled d.status ≡ true
      → is_some d.applied_at ≡ true
      → (d.id ≡ c.id) × ((d.sequence ≡ c.sequence) × (d.kind ≡ c.kind))
      → Marked run_id cs ds
      → Marked run_id (c ∷ cs) (d ∷ ds)

abbrev pub count_due : ℕ → List Command → ℕ
count_due run_id [] = 0
count_due run_id (c ∷ cs) =
    let rest = count_due run_id cs in if is_due run_id c then suc rest else rest

at_version : (run : Run) (v w : ℕ) → v ≡ w → record run { version = v } ≡ record run { version = w }
at_version run v w e = ap (λ x. record run { version = x }) e

is_cancel_lem : (kind : CommandKind) → is_cancel kind ≡ true → kind ≡ cancel
is_cancel_lem kind h = ground arith

module _ (receiver cancel_pending : Bool) (read : ℕ → Readings) (run_id : ℕ) where
  pub loop-Marked :
      (cs : List Command) (run : Run) (q : Queue)
      → Marked run_id cs (apply_loop receiver cancel_pending read run_id cs run q).1.1
  unfolding apply_loop
  loop-Marked [] run q = end
  loop-Marked (c ∷ cs) run q = elim (Bool-cases (is_due run_id c)) [
    | inr skip ↦ rw skip (kept c skip (loop-Marked cs run q))
    | inl due ↦
        let next = apply_one receiver cancel_pending read c run q in
        rw due (
          settled c (mark receiver cancel_pending read c run) due
            (decide-Sound receiver cancel_pending (read c.id).decided c run).settled refl
            (refl, (refl, refl)) (loop-Marked cs next.0 next.1))
  ]

  -- What every round keeps, the loop keeps.
  pub loop-keeps :
      (P : Run → Type 0)
      → ((c : Command) (run : Run) (q : Queue)
          → P run
          → P (apply_one receiver cancel_pending read c run q).0)
      → (cs : List Command) (run : Run) (q : Queue) → P run
      → P (apply_loop receiver cancel_pending read run_id cs run q).0
  unfolding apply_loop
  loop-keeps P step [] run q h = h
  loop-keeps P step (c ∷ cs) run q h = elim (Bool-cases (is_due run_id c)) [
    | inr skip ↦ rw skip (loop-keeps P step cs run q h)
    | inl due ↦
        let next = apply_one receiver cancel_pending read c run q in
        rw due (loop-keeps P step cs next.0 next.1 (step c run q h))
  ]

  -- On a run that is not terminal, one with a requested cancellation stays so, and a pending
  -- cancel command makes it so.
  pub loop-cancels :
      (cs : List Command) (run : Run) (q : Queue)
      → is_terminal run.status ≡ false
      → (is_cancelling run ≡ true) ⊎ (has_cancel run_id cs ≡ true)
      → is_cancelling (apply_loop receiver cancel_pending read run_id cs run q).0 ≡ true
  unfolding apply_loop
  loop-cancels [] run q h (inl yes_) = yes_
  loop-cancels [] run q h (inr none_) = ground arith
  loop-cancels (c ∷ cs) run q h asked = elim (Bool-cases (is_due run_id c)) [
    | inr skip ↦ rw skip (loop-cancels cs run q h (skipped skip asked))
    | inl due ↦
        let next = apply_one receiver cancel_pending read c run q in
        let sound = decide-Sound receiver cancel_pending (read c.id).decided c run in
        rw due (loop-cancels cs next.0 next.1 (sound.terminal ∙ h) (taken sound asked))
  ]
    where
      skipped :
          is_due run_id c ≡ false
          → (is_cancelling run ≡ true) ⊎ (has_cancel run_id (c ∷ cs) ≡ true)
          → (is_cancelling run ≡ true) ⊎ (has_cancel run_id cs ≡ true)
      skipped skip a = ground arith

      taken :
          Sound run (decide receiver cancel_pending (read c.id).decided c run)
          → (is_cancelling run ≡ true) ⊎ (has_cancel run_id (c ∷ cs) ≡ true)
          → (is_cancelling (apply_one receiver cancel_pending read c run q).0 ≡ true)
            ⊎ (has_cancel run_id cs ≡ true)
      taken sound a = elim (Bool-cases (is_cancel c.kind)) [
        | inl cancels ↦ inl (
            decide-cancels receiver cancel_pending (read c.id).decided c run
              (is_cancel_lem c.kind cancels) h)
        | inr other ↦ ground (arith, sound.cancelling)
      ]

  -- A terminal run changes its version only.
  pub loop-terminal :
      (cs : List Command) (run : Run) (q : Queue)
      → is_terminal run.status ≡ true
      → (apply_loop receiver cancel_pending read run_id cs run q).0
        ≡ record run { version = run.version + count_due run_id cs }
  unfolding apply_loop
  loop-terminal [] run q h = at_version run run.version (run.version + 0) (omega arith)
  loop-terminal (c ∷ cs) run q h = elim (Bool-cases (is_due run_id c)) [
    | inr skip ↦ rw skip (loop-terminal cs run q h)
    | inl due ↦
        let next = apply_one receiver cancel_pending read c run q in
        let same = decide-terminal receiver cancel_pending (read c.id).decided c run h in
        let n = count_due run_id cs in
        rw due (
          loop-terminal cs next.0 next.1 (subst (λ r. is_terminal r.status ≡ true) (sym same) h)
          ∙ (ap (λ (r : Run). record r { version = (r.version + 1) + n }) same
              ∙ at_version run ((run.version + 1) + n) (run.version + suc n) (omega arith)))
  ]

  apply_one-found :
      (c : Command) (run : Run) (q : Queue) (id : ℕ)
      → is_some (find_run q.runs id) ≡ true
      → is_some (find_run (apply_one receiver cancel_pending read c run q).1.runs id) ≡ true
  unfolding apply_one add_retry
  apply_one-found c run q id h = ground arith

  -- The rows of runs only grow within the loop.
  pub loop-found :
      (cs : List Command) (run : Run) (q : Queue) (id : ℕ)
      → is_some (find_run q.runs id) ≡ true
      → is_some (find_run (apply_loop receiver cancel_pending read run_id cs run q).1.0.runs id)
        ≡ true
  unfolding apply_loop
  loop-found [] run q id h = h
  loop-found (c ∷ cs) run q id h = elim (Bool-cases (is_due run_id c)) [
    | inr skip ↦ rw skip (loop-found cs run q id h)
    | inl due ↦
        let next = apply_one receiver cancel_pending read c run q in
        rw due (loop-found cs next.0 next.1 id (apply_one-found c run q id h))
  ]
