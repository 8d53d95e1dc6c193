-- ===== src/Runtime/Commands/Poll.antt =====
-- `poll` over the runs with pending commands.
use jarvis_development.Prelude.{
  ℕ, zero, suc, ◌≤◌, Bool, true, false, not, ◌&&◌, ◌||◌, Option, List, [], ◌∷◌, ◌≡◌, refl, inl, inr,
  arith, nat_eq, ◌==◌, is_some, subst, sym, ap, any, contains, length, All, Option-cases,
}
use jarvis_development.Contracts.Workflow.{WorkflowSpec}
use jarvis_development.Runtime.Store.{find_run, save_run, Run}
use jarvis_development.Runtime.Commands.{
  Command, is_due, Readings, Queue, apply, insert_id, pending_runs, limited, apply_each, poll,
  has_receiver, has_cancel,
}
use jarvis_development.Runtime.Commands.Settled.{Marked, end, kept, settled, loop-found}
use jarvis_development.Runtime.Commands.Applied.{apply-Marked, outcome}

abbrev pub has_due : ℕ → List Command → Bool
has_due id cs = any (is_due id) cs

Marked-has_due :
    (run_id id : ℕ) {cs ds : List Command}
    → Marked run_id cs ds
    → has_due id ds ≡ (has_due id cs && not (run_id == id))
Marked-has_due run_id id end = refl
Marked-has_due run_id id (kept c skip rest) = ground (arith, Marked-has_due run_id id rest)
Marked-has_due run_id id (settled c d due done dated same rest) =
    ground (arith, Marked-has_due run_id id rest)

contains-insert :
    (id x : ℕ) (xs : List ℕ) → contains (insert_id id xs) x ≡ (id == x || contains xs x)
contains-insert id x [] = ground arith
contains-insert id x (y ∷ ys) = ground (arith, contains-insert id x ys)

contains-pending_runs : (cs : List Command) (id : ℕ) → contains (pending_runs cs) id ≡ has_due id cs
contains-pending_runs [] id = refl
contains-pending_runs (c ∷ cs) id =
    ground (arith, contains-pending_runs cs id, contains-insert c.run_id id (pending_runs cs))

limited-all : (limit : ℕ) (ids : List ℕ) → length ids ≤ limit → limited limit ids ≡ ids
limited-all zero [] h = refl
limited-all zero (id ∷ ids) h = ground arith
limited-all (suc limit) [] h = refl
limited-all (suc limit) (id ∷ ids) h = ap (λ xs. id ∷ xs) (limited-all limit ids (omega arith))

-- The runs with these ids exist.
abbrev pub AllFound : List Run → List ℕ → Type 0
AllFound rs ids = All (λ id. is_some (find_run rs id) ≡ true) ids

find_run-save_other :
    (rs : List Run) (r : Run) (id : ℕ)
    → is_some (find_run rs id) ≡ true
    → is_some (find_run (save_run rs r) id) ≡ true
find_run-save_other [] r id h = h
find_run-save_other (x ∷ rs) r id h = ground (arith, find_run-save_other rs r id)

module _ (version : Run → Option WorkflowSpec) (read : ℕ → Readings) where
  apply-found :
      (run_id id : ℕ) (q : Queue)
      → is_some (find_run q.runs id) ≡ true
      → is_some (find_run (apply version read run_id q).runs id) ≡ true
  unfolding apply
  apply-found run_id id q h = elim (Option-cases (find_run q.runs run_id)) [
    | inl missing ↦ rw (missing, apply) h
    | inr (run, found) ↦
        let o = outcome version read run_id q found in
        rw (found, apply)
          (find_run-save_other o.1.0.runs o.0 id (
            loop-found (has_receiver (version run)) (has_cancel run_id q.commands) read run_id
              q.commands run q id h))
  ]

  apply-AllFound :
      (run_id : ℕ) (q : Queue) (ids : List ℕ)
      → AllFound q.runs ids
      → AllFound (apply version read run_id q).runs ids
  apply-AllFound run_id q [] h = tt
  apply-AllFound run_id q (id ∷ ids) h =
      (apply-found run_id id q h.0, apply-AllFound run_id q ids h.1)

  apply-has_due :
      (run_id id : ℕ) (q : Queue)
      → is_some (find_run q.runs run_id) ≡ true
      → has_due id (apply version read run_id q).commands
        ≡ (has_due id q.commands && not (run_id == id))
  apply-has_due run_id id q h = elim (Option-cases (find_run q.runs run_id)) [
    | inl missing ↦ ground (arith, missing)
    | inr (run, found) ↦ Marked-has_due run_id id (apply-Marked version read run_id q found)
  ]

  apply_each-has_due :
      (ids : List ℕ) (q : Queue) (id : ℕ)
      → AllFound q.runs ids
      → has_due id (apply_each version read ids q).commands
        ≡ (has_due id q.commands && not (contains ids id))
  apply_each-has_due [] q id h = ground arith
  apply_each-has_due (x ∷ xs) q id h = ground (
    arith,
    apply_each-has_due xs (apply version read x q) id (apply-AllFound x q xs h.1),
    apply-has_due x id q h.0,
  )

  -- If every run with pending commands exists and there are no more of them than the limit, `poll`
  -- leaves no command pending, of any run.
  pub poll-settles :
      (limit : ℕ) (q : Queue) (id : ℕ)
      → AllFound q.runs (pending_runs q.commands)
      → length (pending_runs q.commands) ≤ limit
      → has_due id (poll version read limit q).commands ≡ false
  unfolding poll
  poll-settles limit q id h few =
      let ids = pending_runs q.commands in
      subst (λ xs. has_due id (apply_each version read xs q).commands ≡ false)
        (sym (limited-all limit ids few))
        (ground (arith, apply_each-has_due ids q id h, contains-pending_runs q.commands id))
