-- ===== src/Runtime/Effects/Once.antt =====
-- The invariant behind the dispatch of an effect whose adapter is not idempotent.
use jarvis_development.Prelude.{
  ℕ, ◌≤◌, ◌<◌, true, false, Option, some, ◌≡◌, ◌≢◌, sym, ◌∙◌, subst, ◌⊎◌, inl, inr, string_eq,
  nat_eq, ◌==◌, Bool-cases, arith,
}
use jarvis_development.Runtime.Store.{Store, max_generation}
use jarvis_development.Runtime.Ownership.Leases.{IsOrdered}
use jarvis_development.Runtime.Ownership.Fencing.{Kept}
use jarvis_development.Runtime.Effects.{World}
use jarvis_development.Runtime.Effects.Protocol.{opened, dispatching, Task, System, set_task}
use jarvis_development.Runtime.Effects.Writes.{is_past}

-- The effect was dispatched, or some task is about to.
abbrev pub Spent : System → Type 0
Spent s =
    (1 ≤ s.dispatches) ⊎ ((g : ℕ) × (t : Task) × (s.tasks g ≡ some t) × (t.phase ≡ dispatching))

module _ (run : ℕ) where
  -- Tasks are of the run and of generations handed out; a dispatch, done or about to be, has left
  -- the row past `prepared` and every task that could intend another one stale.
  pub record IsOnce (s : System) : Type 0 where
    pub ordered : IsOrdered s.world.store.leases
    pub task_run : (g : ℕ) (t : Task) → s.tasks g ≡ some t → t.fence.run_id ≡ run
    pub task_generation : (g : ℕ) (t : Task) → s.tasks g ≡ some t → t.fence.generation ≡ g
    pub handed_out :
        (g : ℕ) (t : Task) → s.tasks g ≡ some t → g ≤ max_generation s.world.store.leases run
    pub once : s.dispatches ≤ 1
    pub waiting : (g : ℕ) (t : Task) → s.tasks g ≡ some t → t.phase ≡ dispatching → s.dispatches ≡ 0
    pub one_waits :
        (g h : ℕ) (t u : Task)
        → s.tasks g ≡ some t
        → s.tasks h ≡ some u
        → t.phase ≡ dispatching
        → u.phase ≡ dispatching
        → g ≡ h
    pub past : Spent s → is_past s.world.effect ≡ true
    pub stale :
        Spent s
        → (g : ℕ) (t : Task) → s.tasks g ≡ some t
        → t.phase ≡ opened false
        → g < max_generation s.world.store.leases run

  -- A task that is neither about to dispatch nor free to intend it.
  abbrev pub Calm : ℕ → Option Task → Store → Type 0
  Calm g task store =
      (t : Task)
      → task ≡ some t
      → (t.fence.run_id ≡ run)
        × (t.fence.generation ≡ g)
        × (g ≤ max_generation store.leases run)
        × (t.phase ≢ dispatching)
        × (t.phase ≢ opened false)

  pub set_task-cases :
      (tasks : ℕ → Option Task) (g : ℕ) (task : Option Task) (h : ℕ) (u : Task)
      → set_task tasks g task h ≡ some u
      → ((h ≡ g) × (task ≡ some u)) ⊎ ((h ≢ g) × (tasks h ≡ some u))
  set_task-cases tasks g task h u e = elim (Bool-cases (h == g)) [
    | inl same ↦ inl ((nat_eq.same_iff h g).0 same, ground (arith, same))
    | inr other ↦
        inr ((λ same. ground (arith, (nat_eq.same_iff h g).1 same)), ground (arith, other))
  ]

  -- A write of the tables alone.
  pub world-IsOnce :
      (s : System) (after : World)
      → Kept s.world.store after.store
      → (is_past s.world.effect ≡ true → is_past after.effect ≡ true)
      → IsOnce s
      → IsOnce (record s { world = after })
  world-IsOnce s after kept keeps i = record {
    ordered = kept.ordered;
    task_run = i.task_run;
    task_generation = i.task_generation;
    handed_out = λ g t e. omega (arith, i.handed_out g t e, kept.grown run);
    once = i.once;
    waiting = i.waiting;
    one_waits = i.one_waits;
    past = λ spent. keeps (i.past spent);
    stale = λ spent g t e p. omega (arith, i.stale spent g t e p, kept.grown run);
  }

  -- A task that becomes calm or ends.
  Calm-Spent :
      (s : System) (g : ℕ) (task : Option Task)
      → Calm g task s.world.store
      → Spent (record s { tasks = set_task s.tasks g task })
      → Spent s
  Calm-Spent s g task calm (inl did) = inl did
  Calm-Spent s g task calm (inr (h, u, e, p)) = elim (set_task-cases s.tasks g task h u e) [
    | inl (same, its) ↦ absurd ((calm u its).3 p)
    | inr (other, old) ↦ inr (h, u, old, p)
  ]

  pub task-IsOnce :
      (s : System) (g : ℕ) (task : Option Task)
      → Calm g task s.world.store
      → IsOnce s
      → IsOnce (record s { tasks = set_task s.tasks g task })
  task-IsOnce s g task calm i = record {
    ordered = i.ordered;
    task_run = λ h u e. elim (set_task-cases s.tasks g task h u e) [
      | inl (same, its) ↦ (calm u its).0
      | inr (other, old) ↦ i.task_run h u old
    ];
    task_generation = λ h u e. elim (set_task-cases s.tasks g task h u e) [
      | inl (same, its) ↦ (calm u its).1 ∙ sym same
      | inr (other, old) ↦ i.task_generation h u old
    ];
    handed_out = λ h u e. elim (set_task-cases s.tasks g task h u e) [
      | inl (same, its) ↦
          subst (λ n. n ≤ max_generation s.world.store.leases run) (sym same) (calm u its).2
      | inr (other, old) ↦ i.handed_out h u old
    ];
    once = i.once;
    waiting = λ h u e p. elim (set_task-cases s.tasks g task h u e) [
      | inl (same, its) ↦ absurd ((calm u its).3 p)
      | inr (other, old) ↦ i.waiting h u old p
    ];
    one_waits = λ h k u v e f p q. elim (set_task-cases s.tasks g task h u e) [
      | inl (same, its) ↦ absurd ((calm u its).3 p)
      | inr (other, old) ↦ elim (set_task-cases s.tasks g task k v f) [
        | inl (same, its) ↦ absurd ((calm v its).3 q)
        | inr (other', old') ↦ i.one_waits h k u v old old' p q
      ]
    ];
    past = λ spent. i.past (Calm-Spent s g task calm spent);
    stale = λ spent h u e p. elim (set_task-cases s.tasks g task h u e) [
      | inl (same, its) ↦ absurd ((calm u its).4 p)
      | inr (other, old) ↦ i.stale (Calm-Spent s g task calm spent) h u old p
    ];
  }
