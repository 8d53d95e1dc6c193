-- ===== src/Worklist.antt =====
-- The depth-first worklist loop of orchestrator/app/jarvis_orchestrator/workflows: a stack of
-- pending entries, a set of entries already handled, and what handling an entry appends to a
-- result. `validation.py` runs it in `_reachable` and in `_protected_paths`, `compiler.py` in
-- `_branch_regions`.
pub mod Termination
pub mod Reach
use jarvis_development.Prelude.{
  ℕ, zero, suc, Bool, List, [], ◌∷◌, ◌++◌, ◌||◌, if◌then◌else◌, Equal, contains,
}

-- `pending.extend(xs)`; the head of the list is the end of Python's list, where `pop` takes.
abbrev pub push_all {ℓ} : {A : Type ℓ} → List A → List A → List A
push_all [] pending = pending
push_all (x ∷ xs) pending = push_all xs (x ∷ pending)

-- The loop's variables; `seen` lists the set in reverse order of insertion.
pub record Walk (A I : Type 0) : Type 0 where
  pub seen : List A
  pub pending : List A
  pub out : List I

module _ {A I : Type 0} ⦃e : Equal A⦄ (blocked : A → Bool) (succ : A → List A)
    (emit : A → List I) where
  -- One round after `node = pending.pop()`.
  unfoldable pub round : List A → A → List A → List I → Walk A I
  round seen node pending out =
      if contains seen node || blocked node
      then record { seen = seen; pending = pending; out = out }
      else record {
        seen = node ∷ seen;
        pending = push_all (succ node) pending;
        out = out ++ emit node;
      }

  -- `while pending:` for at most `fuel` rounds.
  unfoldable pub walk : ℕ → Walk A I → Walk A I
  walk zero w = w
  walk (suc fuel) w = elim w.pending [
    | [] ↦ w
    | node ∷ rest ↦ walk fuel (round w.seen node rest w.out)
  ]

  unfoldable pub start : A → Walk A I
  start node = record { seen = []; pending = node ∷ []; out = [] }
