-- ===== src/Runtime/Effects/AtMostOnce.antt =====
-- However the executors of a run interleave and crash, its effect is dispatched at most once.
use jarvis_development.Prelude.{
  ℕ, ◌≤◌, Bool, true, false, Option, none, some, ◌≡◌, ◌≢◌, refl, sym, ap, subst, inl, inr, String,
  string_eq, nat_eq, arith,
}
use jarvis_development.Runtime.Store.{Store, max_generation}
use jarvis_development.Runtime.Ownership.{RunFence}
use jarvis_development.Runtime.Ownership.Leases.{IsOrdered}
use jarvis_development.Runtime.Ownership.Fencing.{Kept, admit-newest}
use jarvis_development.Runtime.Ownership.Steps as Ownership
use jarvis_development.Runtime.Ownership.Steps.{Later-Kept}
use jarvis_development.Runtime.Effects.{
  EffectStatus, World, guarded, is_prepared, Opening, ready, recorded, cancelled_before,
  open_effect, record_effect, poll_effect,
}
use jarvis_development.Runtime.Effects.Protocol.{
  Observation, intend, plan_of, record_as, verdict_of, cancel_verdict, Cancelling, undispatched,
  requested, answered, Phase, opened, dispatching, watching, Task, System, set_task, opened_task,
  intent_task, Step, others, opens, gives_up, intends, watches, dispatches, polls, finishes,
  cancels, crashes, Reach, here, next,
}
use jarvis_development.Runtime.Effects.Writes.{
  guarded-cases, is_past, record_effect-past, poll_effect-Keeps, open_effect-Keeps,
  open_effect-before,
}
use jarvis_development.Runtime.Effects.Once.{Spent, IsOnce, Calm, world-IsOnce, task-IsOnce}
use jarvis_development.Runtime.Effects.Dispatched.{fresh-IsOnce, intent-IsOnce, dispatch-IsOnce}

same_leases-Kept : (s t : Store) → IsOrdered s.leases → t.leases ≡ s.leases → Kept s t
same_leases-Kept s t h e = record {
  ordered = subst IsOrdered (sym e) h;
  grown = λ r. subst (λ ls. max_generation s.leases r ≤ max_generation ls r) (sym e) (omega arith);
}

-- No verdict records `prepared`.
verdict_of-past :
    (accept : String → Option String) (cancel : Bool) (answer : Observation) (status : EffectStatus)
    (result : Option String)
    → verdict_of accept cancel answer ≡ record_as status result
    → is_prepared status ≡ false
unfolding verdict_of
verdict_of-past accept cancel Observation.running status result h = cc
verdict_of-past accept true (Observation.succeeded r) status result h = ground (arith, h)
verdict_of-past accept false (Observation.succeeded none) status result h = cc
verdict_of-past accept false (Observation.succeeded (some r)) status result h = ground (arith, h)
verdict_of-past accept cancel Observation.cancelled status result h = ground (arith, h)
verdict_of-past accept cancel Observation.unknown status result h = ground (arith, h)
verdict_of-past accept cancel Observation.absent status result h = ground (arith, h)

cancel_verdict-past :
    (answer : Observation) (status : EffectStatus)
    → cancel_verdict answer ≡ some status
    → is_prepared status ≡ false
unfolding cancel_verdict
cancel_verdict-past Observation.running status h = cc
cancel_verdict-past Observation.unknown status h = ground (arith, h)
cancel_verdict-past Observation.absent status h = ground (arith, h)
cancel_verdict-past Observation.cancelled status h = ground (arith, h)
cancel_verdict-past (Observation.succeeded r) status h = ground (arith, h)

Cancelling-past : {status : EffectStatus} → Cancelling status → is_prepared status ≡ false
Cancelling-past undispatched = refl
Cancelling-past requested = refl
Cancelling-past {status} (answered answer h) = cancel_verdict-past answer status h

-- Only a task whose row was `prepared` intends a dispatch that is not idempotent.
plan_of-intend :
    (before : Bool) (answer : Observation) → plan_of false before answer ≡ intend → before ≡ false
unfolding plan_of
plan_of-intend false answer h = refl
plan_of-intend true Observation.absent h = cc
plan_of-intend true Observation.running h = cc
plan_of-intend true Observation.cancelled h = cc
plan_of-intend true Observation.unknown h = cc
plan_of-intend true (Observation.succeeded r) h = cc

module _ (run : ℕ) where
  -- A transaction of `_record` under a fence of the run, and the generation of the fence.
  records :
      (s : System) (fence : RunFence) (now now' : ℕ) (status : EffectStatus)
      (identity result : Option String) (at : ℕ) {after : World} {turned : Bool}
      → is_prepared status ≡ false
      → fence.run_id ≡ run
      → guarded fence now now' (record_effect status identity result at) s.world
        ≡ some (after, turned)
      → IsOnce run s
      → IsOnce run (record s { world = after })
        × (is_past after.effect ≡ true)
        × (fence.generation ≡ max_generation s.world.store.leases run)
        × (after.store.leases ≡ s.world.store.leases)
  records s fence now now' status identity result at {after} later mine h i =
      let (r, lease, admitted, wrote) =
        guarded-cases fence now now' (record_effect status identity result at) s.world h in
      let (leases, past) = record_effect-past status identity result at r s.world later wrote in
      (
        world-IsOnce run s after (same_leases-Kept s.world.store after.store i.ordered leases)
            (λ p. past) i,
        past,
        subst (λ n. fence.generation ≡ max_generation s.world.store.leases n) mine
            (admit-newest fence now s.world.store i.ordered admitted),
        leases,
      )

  ended-Calm : (g : ℕ) (store : Store) → Calm run g none store
  ended-Calm g store t e = cc

  phase-Calm :
      (fence : RunFence) (phase : Phase) (store : Store)
      → fence.run_id ≡ run
      → fence.generation ≤ max_generation store.leases run
      → phase ≢ dispatching
      → phase ≢ opened false
      → Calm run fence.generation (some (record { fence = fence; phase = phase })) store
  phase-Calm fence phase store mine le calm bound t e =
      let same : record { fence = fence; phase = phase } ≡ t = cc in
      subst
        (λ (u : Task).
          (u.fence.run_id ≡ run)
          × (u.fence.generation ≡ fence.generation)
          × (fence.generation ≤ max_generation store.leases run)
          × (u.phase ≢ dispatching)
          × (u.phase ≢ opened false))
        same (mine, refl, le, calm, bound)

  opens-IsOnce :
      (s : System) (fence : RunFence) (opening : Opening)
      → fence.run_id ≡ run
      → fence.generation ≤ max_generation s.world.store.leases run
      → (opening ≡ ready false → Spent s → ⊥)
      → IsOnce run s
      → IsOnce run
          (record s { tasks = set_task s.tasks fence.generation (opened_task fence opening) })
  opens-IsOnce s fence (recorded result) mine le fresh i =
      task-IsOnce run s fence.generation none (ended-Calm fence.generation s.world.store) i
  opens-IsOnce s fence cancelled_before mine le fresh i =
      task-IsOnce run s fence.generation none (ended-Calm fence.generation s.world.store) i
  opens-IsOnce s fence (ready true) mine le fresh i =
      task-IsOnce run s fence.generation _
        (phase-Calm fence (opened true) s.world.store mine le (λ h. cc) (λ h. cc)) i
  opens-IsOnce s fence (ready false) mine le fresh i =
      fresh-IsOnce run s fence (fresh refl) mine le i

  intends-IsOnce :
      (s : System) (fence : RunFence) (turned : Bool)
      → (Spent s → ⊥)
      → fence.run_id ≡ run
      → fence.generation ≡ max_generation s.world.store.leases run
      → is_past s.world.effect ≡ true
      → IsOnce run s
      → IsOnce run
          (record s { tasks = set_task s.tasks fence.generation (intent_task fence turned) })
  intends-IsOnce s fence true never mine newest past i =
      task-IsOnce run s fence.generation none (ended-Calm fence.generation s.world.store) i
  intends-IsOnce s fence false never mine newest past i =
      intent-IsOnce run s fence never mine newest past i

module _ (run : ℕ) (identity : String) (accept : String → Option String) where
  Step-IsOnce : {s t : System} → Step run identity false accept s t → IsOnce run s → IsOnce run t
  Step-IsOnce {s} (others {store = store} step) i =
      world-IsOnce run s _ (Later-Kept i.ordered (Ownership.next step (Ownership.done refl)))
        (λ p. p) i
  Step-IsOnce {s} (opens {after = after} fence now now' request opening mine idle h) i =
      let (r, lease, admitted, wrote) =
        guarded-cases fence now now' (open_effect request fence.generation) s.world h in
      let keeps = open_effect-Keeps request fence.generation r s.world wrote in
      let newest = admit-newest fence now s.world.store i.ordered admitted in
      opens-IsOnce run (record s { world = after }) fence opening mine
        (subst (λ ls. fence.generation ≤ max_generation ls run) (sym keeps.leases)
          (subst (λ n. fence.generation ≤ max_generation s.world.store.leases n) mine
            (omega (arith, newest))))
        (λ fresh spent. open_effect-before request fence.generation r s.world (i.past spent) (
          subst (λ o. open_effect request fence.generation r s.world ≡ some (after, o)) fresh
            wrote))
        (world-IsOnce run s after
          (same_leases-Kept s.world.store after.store i.ordered keeps.leases) keeps.past i)
  Step-IsOnce {s} (gives_up {after = after} fence before answer now now' at turned mine plan h) i =
      let its =
        i.task_run fence.generation (record { fence = fence; phase = opened before }) mine in
      let wrote = records run s fence now now' EffectStatus.unknown none none at refl its h i in
      task-IsOnce run (record s { world = after }) fence.generation none
        (ended-Calm run fence.generation after.store) wrote.0
  Step-IsOnce {s} (intends {after = after} fence before answer now now' at turned mine plan h) i =
      let its =
        i.task_run fence.generation (record { fence = fence; phase = opened before }) mine in
      let (kept, past, newest, leases) =
        records run s fence now now' EffectStatus.dispatched (some identity) none at refl its h i in
      let never = λ (spent : Spent s).
        let lt =
          i.stale spent fence.generation (record { fence = fence; phase = opened before }) mine
            (ap opened (plan_of-intend before answer plan)) in
        let no_way : ⊥ = omega (arith, lt, newest) in no_way in
      intends-IsOnce run (record s { world = after }) fence turned never its
        (subst (λ ls. fence.generation ≡ max_generation ls run) (sym leases) newest) past kept
  Step-IsOnce {s} (watches fence before answer mine plan) i =
      task-IsOnce run s fence.generation _
        (phase-Calm run fence watching s.world.store
          (i.task_run fence.generation (record { fence = fence; phase = opened before }) mine)
          (i.handed_out fence.generation (record { fence = fence; phase = opened before }) mine)
          (λ h. cc) (λ h. cc))
        i
  Step-IsOnce {s} (dispatches fence mine) i = dispatch-IsOnce run s fence mine i
  Step-IsOnce {s} (polls {after = after} fence now now' cancel mine h) i =
      let (r, lease, admitted, wrote) = guarded-cases fence now now' poll_effect s.world h in
      let keeps = poll_effect-Keeps r s.world wrote in
      world-IsOnce run s after (same_leases-Kept s.world.store after.store i.ordered keeps.leases)
        keeps.past i
  Step-IsOnce {s}
        (finishes {after = after} fence answer cancel status result now now' at turned mine verdict
          h)
        i =
      let its = i.task_run fence.generation (record { fence = fence; phase = watching }) mine in
      let wrote =
        records run s fence now now' status none result at
          (verdict_of-past accept cancel answer status result verdict) its h i in
      task-IsOnce run (record s { world = after }) fence.generation none
        (ended-Calm run fence.generation after.store) wrote.0
  Step-IsOnce {s} (cancels {after = after} fence status now now' at turned mine kind h) i =
      (records run s fence now now' status none none at (Cancelling-past kind) mine h i).0
  Step-IsOnce {s} (crashes g) i = task-IsOnce run s g none (ended-Calm run g s.world.store) i

  Reach-IsOnce : {s t : System} → Reach run identity false accept s t → IsOnce run s → IsOnce run t
  Reach-IsOnce here i = i
  Reach-IsOnce (next steps step) i = Step-IsOnce step (Reach-IsOnce steps i)

  -- Before any executor has opened the effect.
  abbrev pub untouched : Store → System
  untouched store = record {
    world = record { store = store; effect = none };
    tasks = λ g. none;
    dispatches = 0;
  }

  untouched-IsOnce : (store : Store) → IsOrdered store.leases → IsOnce run (untouched store)
  untouched-IsOnce store h = record {
    ordered = h;
    task_run = λ g t e. cc;
    task_generation = λ g t e. cc;
    handed_out = λ g t e. cc;
    once = omega arith;
    waiting = λ g t e p. cc;
    one_waits = λ g k t u e f p q. cc;
    past = λ spent. elim spent [ inl did ↦ absurd (omega arith) | inr (g, t, e, p) ↦ cc ];
    stale = λ spent g t e p. cc;
  }

  -- However the executors of a run interleave, lose their leases and crash, whatever the adapter
  -- answers and whatever else is written, an effect that no executor has opened yet is dispatched at
  -- most once to an adapter that is not idempotent. The lease table starts in order, and no executor
  -- runs two tasks of the effect under one fence at a time.
  pub at_most_once :
      {store : Store} {s : System}
      → IsOrdered store.leases
      → Reach run identity false accept (untouched store) s
      → s.dispatches ≤ 1
  at_most_once {store} h steps = (Reach-IsOnce steps (untouched-IsOnce store h)).once
