-- ===== src/Runtime/Effects/Dispatched.antt =====
-- An effect whose adapter is not idempotent is dispatched at most once.
use jarvis_development.Prelude.{
  ℕ, ◌+◌, ◌≤◌, true, false, Option, some, ◌≡◌, refl, sym, ◌∙◌, inl, inr, string_eq, nat_eq, ◌==◌,
  Bool-cases, arith,
}
use jarvis_development.Runtime.Store.{max_generation}
use jarvis_development.Runtime.Ownership.{RunFence}
use jarvis_development.Runtime.Effects.Protocol.{
  opened, dispatching, watching, Task, System, set_task,
}
use jarvis_development.Runtime.Effects.Writes.{is_past}
use jarvis_development.Runtime.Effects.Once.{Spent, IsOnce, set_task-cases}

unspent-zero : (s : System) → (Spent s → ⊥) → s.dispatches ≡ 0
unspent-zero s never = elim (Bool-cases (s.dispatches == 0)) [
  | inl zero_yet ↦ (nat_eq.same_iff s.dispatches 0).0 zero_yet
  | inr some_yet ↦ absurd (never (inl (ground (arith, some_yet))))
]

module _ (run : ℕ) where
  -- A task that opens the row first, before any dispatch.
  pub fresh-IsOnce :
      (s : System) (fence : RunFence)
      → (Spent s → ⊥)
      → fence.run_id ≡ run
      → fence.generation ≤ max_generation s.world.store.leases run
      → IsOnce run s
      → IsOnce run (record s {
        tasks =
            set_task s.tasks fence.generation
              (some (record { fence = fence; phase = opened false }));
      })
  fresh-IsOnce s fence never mine le i =
      let task : Option Task = some (record { fence = fence; phase = opened false }) in
      let none_waits =
        λ (h : ℕ) (u : Task) (e : set_task s.tasks fence.generation task h ≡ some u)
            (p : u.phase ≡ dispatching).
          let no_way : ⊥ = elim (set_task-cases run s.tasks fence.generation task h u e) [
            | inl (same, its) ↦ cc
            | inr (other, old) ↦ never (inr (h, u, old, p))
          ] in
          no_way in
      let unspent = λ (spent : Spent (record s { tasks = set_task s.tasks fence.generation task })).
        let no_way : ⊥ = elim spent [
          | inl did ↦ never (inl did)
          | inr (h, u, e, p) ↦ none_waits h u e p
        ] in
        no_way in
      record {
        ordered = i.ordered;
        task_run = λ h u e. elim (set_task-cases run s.tasks fence.generation task h u e) [
          | inl (same, its) ↦ cc
          | inr (other, old) ↦ i.task_run h u old
        ];
        task_generation = λ h u e. elim (set_task-cases run s.tasks fence.generation task h u e) [
          | inl (same, its) ↦ cc
          | inr (other, old) ↦ i.task_generation h u old
        ];
        handed_out = λ h u e. elim (set_task-cases run s.tasks fence.generation task h u e) [
          | inl (same, its) ↦ omega (arith, same, le)
          | inr (other, old) ↦ i.handed_out h u old
        ];
        once = i.once;
        waiting = λ h u e p. absurd (none_waits h u e p);
        one_waits = λ h k u v e f p q. absurd (none_waits h u e p);
        past = λ spent. absurd (unspent spent);
        stale = λ spent h u e p. absurd (unspent spent);
      }

  -- A task of the newest generation that intends the first dispatch.
  pub intent-IsOnce :
      (s : System) (fence : RunFence)
      → (Spent s → ⊥)
      → fence.run_id ≡ run
      → fence.generation ≡ max_generation s.world.store.leases run
      → is_past s.world.effect ≡ true
      → IsOnce run s
      → IsOnce run (record s {
        tasks =
            set_task s.tasks fence.generation
              (some (record { fence = fence; phase = dispatching }));
      })
  intent-IsOnce s fence never mine newest written i =
      let task : Option Task = some (record { fence = fence; phase = dispatching }) in
      let only =
        λ (h : ℕ) (u : Task) (e : set_task s.tasks fence.generation task h ≡ some u)
            (p : u.phase ≡ dispatching).
          let its : h ≡ fence.generation =
            elim (set_task-cases run s.tasks fence.generation task h u e) [
              | inl (same, its) ↦ same
              | inr (other, old) ↦ absurd (never (inr (h, u, old, p)))
            ] in
          its in
      record {
        ordered = i.ordered;
        task_run = λ h u e. elim (set_task-cases run s.tasks fence.generation task h u e) [
          | inl (same, its) ↦ cc
          | inr (other, old) ↦ i.task_run h u old
        ];
        task_generation = λ h u e. elim (set_task-cases run s.tasks fence.generation task h u e) [
          | inl (same, its) ↦ cc
          | inr (other, old) ↦ i.task_generation h u old
        ];
        handed_out = λ h u e. elim (set_task-cases run s.tasks fence.generation task h u e) [
          | inl (same, its) ↦ omega (arith, same, newest)
          | inr (other, old) ↦ i.handed_out h u old
        ];
        once = i.once;
        waiting = λ h u e p. unspent-zero s never;
        one_waits = λ h k u v e f p q. only h u e p ∙ sym (only k v f q);
        past = λ spent. written;
        stale = λ spent h u e p. elim (set_task-cases run s.tasks fence.generation task h u e) [
          | inl (same, its) ↦ cc
          | inr (other, old) ↦ grind (arith, i.handed_out h u old, newest)
        ];
      }

  -- The dispatch.
  pub dispatch-IsOnce :
      (s : System) (fence : RunFence)
      → s.tasks fence.generation ≡ some (record { fence = fence; phase = dispatching })
      → IsOnce run s
      → IsOnce run (record s {
        tasks =
            set_task s.tasks fence.generation (some (record { fence = fence; phase = watching }));
        dispatches = s.dispatches + 1;
      })
  dispatch-IsOnce s fence mine i =
      let task : Option Task = some (record { fence = fence; phase = watching }) in
      let spent : Spent s =
        inr (fence.generation, record { fence = fence; phase = dispatching }, mine, refl) in
      let before =
        i.waiting fence.generation (record { fence = fence; phase = dispatching }) mine refl in
      let none_waits =
        λ (h : ℕ) (u : Task) (e : set_task s.tasks fence.generation task h ≡ some u)
            (p : u.phase ≡ dispatching).
          let no_way : ⊥ = elim (set_task-cases run s.tasks fence.generation task h u e) [
            | inl (same, its) ↦ cc
            | inr (other, old) ↦ other (
                i.one_waits h fence.generation u (record { fence = fence; phase = dispatching }) old
                  mine p refl)
          ] in
          no_way in
      record {
        ordered = i.ordered;
        task_run = λ h u e. elim (set_task-cases run s.tasks fence.generation task h u e) [
          | inl (same, its) ↦
              cc (i.task_run fence.generation (record { fence = fence; phase = dispatching }) mine)
          | inr (other, old) ↦ i.task_run h u old
        ];
        task_generation = λ h u e. elim (set_task-cases run s.tasks fence.generation task h u e) [
          | inl (same, its) ↦ cc
          | inr (other, old) ↦ i.task_generation h u old
        ];
        handed_out = λ h u e. elim (set_task-cases run s.tasks fence.generation task h u e) [
          | inl (same, its) ↦ omega (
            arith,
            same,
            i.handed_out fence.generation (record { fence = fence; phase = dispatching }) mine,
          )
          | inr (other, old) ↦ i.handed_out h u old
        ];
        once = omega (arith, before);
        waiting = λ h u e p. absurd (none_waits h u e p);
        one_waits = λ h k u v e f p q. absurd (none_waits h u e p);
        past = λ again. i.past spent;
        stale = λ again h u e p. elim (set_task-cases run s.tasks fence.generation task h u e) [
          | inl (same, its) ↦ cc
          | inr (other, old) ↦ i.stale spent h u old p
        ];
      }
