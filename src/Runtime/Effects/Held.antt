-- ===== src/Runtime/Effects/Held.antt =====
-- The tasks of an effect run under fences of its run that were handed out.
use jarvis_development.Prelude.{
  ℕ, ◌≤◌, Bool, true, false, Option, none, some, ◌≡◌, refl, sym, subst, inl, inr, String, string_eq,
  nat_eq, arith,
}
use jarvis_development.Runtime.Store.{Run, Store, max_generation}
use jarvis_development.Runtime.Ownership.{RunFence}
use jarvis_development.Runtime.Ownership.Leases.{IsOrdered}
use jarvis_development.Runtime.Ownership.Fencing.{admit-newest}
use jarvis_development.Runtime.Ownership.Steps as Ownership
use jarvis_development.Runtime.Ownership.Steps.{Later-Kept}
use jarvis_development.Runtime.Effects.{
  EffectStatus, World, guarded, Opening, ready, recorded, cancelled_before, open_effect,
  record_effect, poll_effect,
}
use jarvis_development.Runtime.Effects.Protocol.{
  Phase, Task, System, set_task, opened_task, intent_task, Step, others, opens, gives_up, intends,
  watches, dispatches, polls, finishes, cancels, crashes, Reach, here, next,
}
use jarvis_development.Runtime.Effects.Writes.{guarded-cases, open_effect-Keeps, poll_effect-Keeps}
use jarvis_development.Runtime.Effects.Once.{set_task-cases}

record_effect-leases :
    (status : EffectStatus) (identity result : Option String) (at : ℕ) (run : Run) (w : World)
    {after : World} {turned : Bool}
    → record_effect status identity result at run w ≡ some (after, turned)
    → after.store.leases ≡ w.store.leases
unfolding record_effect
record_effect-leases status identity result at run w {after} {turned} h = ground arith

module _ (run : ℕ) where
  -- A task runs under a fence of the run, and is listed under its generation.
  abbrev pub Fits : ℕ → Task → Store → Type 0
  Fits g t store =
      (t.fence.run_id ≡ run) × (t.fence.generation ≡ g) × (g ≤ max_generation store.leases run)

  pub record IsHeld (s : System) : Type 0 where
    pub ordered : IsOrdered s.world.store.leases
    pub tasks_fit : (g : ℕ) (t : Task) → s.tasks g ≡ some t → Fits g t s.world.store

  -- A write that leaves the leases.
  world-IsHeld :
      (s : System) (after : World)
      → after.store.leases ≡ s.world.store.leases
      → IsHeld s
      → IsHeld (record s { world = after })
  world-IsHeld s after leases i = record {
    ordered = subst IsOrdered (sym leases) i.ordered;
    tasks_fit = λ g t e.
        let (its, same, le) = i.tasks_fit g t e in
        (its, same, subst (λ ls. g ≤ max_generation ls run) (sym leases) le);
  }

  ended-IsHeld :
      (s : System) (g : ℕ) → IsHeld s → IsHeld (record s { tasks = set_task s.tasks g none })
  ended-IsHeld s g i = record {
    ordered = i.ordered;
    tasks_fit = λ h t e. elim (set_task-cases run s.tasks g none h t e) [
      | inl (same, its) ↦ cc
      | inr (other, old) ↦ i.tasks_fit h t old
    ];
  }

  -- A task under a fence that was handed out.
  phase-IsHeld :
      (s : System) (fence : RunFence) (phase : Phase) (dispatched : ℕ)
      → fence.run_id ≡ run
      → fence.generation ≤ max_generation s.world.store.leases run
      → IsHeld s
      → IsHeld (record {
        world = s.world;
        tasks = set_task s.tasks fence.generation (some (record { fence = fence; phase = phase }));
        dispatches = dispatched;
      })
  phase-IsHeld s fence phase dispatched mine le i = record {
    ordered = i.ordered;
    tasks_fit = λ h t e. elim (set_task-cases run s.tasks fence.generation _ h t e) [
      | inl (same, its) ↦
          let same_task : record { fence = fence; phase = phase } ≡ t = cc in
          subst (λ (u : Task). Fits h u s.world.store) same_task
            (mine, sym same, subst (λ n. n ≤ max_generation s.world.store.leases run) (sym same) le)
      | inr (other, old) ↦ i.tasks_fit h t old
    ];
  }

  opens-IsHeld :
      (s : System) (fence : RunFence) (opening : Opening)
      → fence.run_id ≡ run
      → fence.generation ≤ max_generation s.world.store.leases run
      → IsHeld s
      → IsHeld (record s { tasks = set_task s.tasks fence.generation (opened_task fence opening) })
  opens-IsHeld s fence (recorded result) mine le i = ended-IsHeld s fence.generation i
  opens-IsHeld s fence cancelled_before mine le i = ended-IsHeld s fence.generation i
  opens-IsHeld s fence (ready before) mine le i = phase-IsHeld s fence _ s.dispatches mine le i

  intends-IsHeld :
      (s : System) (fence : RunFence) (turned : Bool)
      → fence.run_id ≡ run
      → fence.generation ≤ max_generation s.world.store.leases run
      → IsHeld s
      → IsHeld (record s { tasks = set_task s.tasks fence.generation (intent_task fence turned) })
  intends-IsHeld s fence true mine le i = ended-IsHeld s fence.generation i
  intends-IsHeld s fence false mine le i = phase-IsHeld s fence _ s.dispatches mine le i

  -- The fence of a listed task.
  pub task_fence :
      (s : System) (fence : RunFence) (phase : Phase)
      → IsHeld s
      → s.tasks fence.generation ≡ some (record { fence = fence; phase = phase })
      → (fence.run_id ≡ run) × (fence.generation ≤ max_generation s.world.store.leases run)
  task_fence s fence phase i mine =
      let (its, same, le) =
        i.tasks_fit fence.generation (record { fence = fence; phase = phase }) mine in
      (its, le)

  -- A transaction of `_record` leaves the leases.
  pub records-IsHeld :
      (s : System) (fence : RunFence) (at at' : ℕ) (status : EffectStatus)
      (identity result : Option String) (stamp : ℕ) {after : World} {turned : Bool}
      → guarded fence at at' (record_effect status identity result stamp) s.world
        ≡ some (after, turned)
      → IsHeld s
      → IsHeld (record s { world = after })
  records-IsHeld s fence at at' status identity result stamp {after} h i =
      let (r, lease, admitted, wrote) =
        guarded-cases fence at at' (record_effect status identity result stamp) s.world h in
      world-IsHeld s after (record_effect-leases status identity result stamp r s.world wrote) i

module _ (run : ℕ) (identity : String) (idempotent : Bool) (accept : String → Option String) where
  Step-IsHeld :
      {s t : System} → Step run identity idempotent accept s t → IsHeld run s → IsHeld run t
  Step-IsHeld {s} (others {store = store} step) i =
      let kept = Later-Kept i.ordered (Ownership.next step (Ownership.done refl)) in
      record {
        ordered = kept.ordered;
        tasks_fit = λ g t e.
            let (its, same, le) = i.tasks_fit g t e in
            (its, same, omega (arith, le, kept.grown run));
      }
  Step-IsHeld {s} (opens {after = after} fence at at' request opening mine idle h) i =
      let (r, lease, admitted, wrote) =
        guarded-cases fence at at' (open_effect request fence.generation) s.world h in
      let keeps = open_effect-Keeps request fence.generation r s.world wrote in
      let newest = admit-newest fence at s.world.store i.ordered admitted in
      opens-IsHeld run (record s { world = after }) fence opening mine
        (subst (λ ls. fence.generation ≤ max_generation ls run) (sym keeps.leases)
          (subst (λ n. fence.generation ≤ max_generation s.world.store.leases n) mine
            (omega (arith, newest))))
        (world-IsHeld run s after keeps.leases i)
  Step-IsHeld {s} (gives_up {after = after} fence before answer at at' stamp turned mine plan h) i =
      ended-IsHeld run (record s { world = after }) fence.generation
        (records-IsHeld run s fence at at' EffectStatus.unknown none none stamp h i)
  Step-IsHeld {s} (intends {after = after} fence before answer at at' stamp turned mine plan h) i =
      let later =
        records-IsHeld run s fence at at' EffectStatus.dispatched (some identity) none stamp h i in
      let (its, le) = task_fence run (record s { world = after }) fence _ later mine in
      intends-IsHeld run (record s { world = after }) fence turned its le later
  Step-IsHeld {s} (watches fence before answer mine plan) i =
      let (its, le) = task_fence run s fence _ i mine in
      phase-IsHeld run s fence _ s.dispatches its le i
  Step-IsHeld {s} (dispatches fence mine) i =
      let (its, le) = task_fence run s fence _ i mine in phase-IsHeld run s fence _ _ its le i
  Step-IsHeld {s} (polls {after = after} fence at at' cancel mine h) i =
      let (r, lease, admitted, wrote) = guarded-cases fence at at' poll_effect s.world h in
      world-IsHeld run s after (poll_effect-Keeps r s.world wrote).leases i
  Step-IsHeld {s}
        (finishes {after = after} fence answer cancel status result at at' stamp turned mine verdict
          h)
        i =
      ended-IsHeld run (record s { world = after }) fence.generation
        (records-IsHeld run s fence at at' status none result stamp h i)
  Step-IsHeld {s} (cancels fence status at at' stamp turned mine kind h) i =
      records-IsHeld run s fence at at' status none none stamp h i
  Step-IsHeld {s} (crashes g) i = ended-IsHeld run s g i

  pub Reach-IsHeld :
      {s t : System} → Reach run identity idempotent accept s t → IsHeld run s → IsHeld run t
  Reach-IsHeld here i = i
  Reach-IsHeld (next steps step) i = Step-IsHeld step (Reach-IsHeld steps i)
