-- ===== src/Runtime/Effects/Settled.antt =====
-- Once an effect is over, no step of a task changes its row.
use jarvis_development.Prelude.{
  ℕ, ◌<◌, Bool, true, false, Option, none, some, ◌≡◌, refl, sym, ◌∙◌, ap, subst, inl, inr, String,
  string_eq, nat_eq, arith,
}
use jarvis_development.Runtime.Store.{Run, Store, max_generation}
use jarvis_development.Runtime.Ownership.{RunFence}
use jarvis_development.Runtime.Ownership.Leases.{IsOrdered}
use jarvis_development.Runtime.Ownership.Fencing.{admit-newest}
use jarvis_development.Runtime.Ownership.Steps as Ownership
use jarvis_development.Runtime.Ownership.Steps.{Later-Kept}
use jarvis_development.Runtime.Effects.{
  EffectStatus, Effect, World, guarded, prepare, Request, Opening, open_effect, succeeded,
  cancelled, opening_of,
}
use jarvis_development.Runtime.Effects.Protocol.{
  Phase, Task, System, set_task, opened_task, Step, others, opens, gives_up, intends, watches,
  dispatches, polls, finishes, cancels, crashes,
}
use jarvis_development.Runtime.Effects.Writes.{guarded-cases}
use jarvis_development.Runtime.Effects.Once.{set_task-cases}

-- The statuses of an effect that is over.
abbrev pub is_over : EffectStatus → Bool
is_over succeeded = true
is_over cancelled = true
is_over status = false

over-opens :
    (fence : RunFence) (status : EffectStatus) (result : Option String)
    → is_over status ≡ true
    → opened_task fence (opening_of status result) ≡ none
over-opens fence succeeded result over = refl
over-opens fence cancelled result over = refl
over-opens fence EffectStatus.prepared result over = cc
over-opens fence EffectStatus.dispatched result over = cc
over-opens fence EffectStatus.running result over = cc
over-opens fence EffectStatus.failed result over = cc
over-opens fence EffectStatus.cancel_requested result over = cc
over-opens fence EffectStatus.unknown result over = cc

-- What an opening of the row of an effect that is over does.
pub record Replays (row : Effect) (w after : World) (opening : Opening) : Type 0 where
  pub row_stays : after.effect ≡ some row
  pub leases : after.store.leases ≡ w.store.leases
  pub answer : opening ≡ opening_of row.status row.result

pub open_effect-Replays :
    (request : Request) (generation : ℕ) (run : Run) (w : World) (row : Effect) {after : World}
    {opening : Opening}
    → w.effect ≡ some row
    → is_over row.status ≡ true
    → open_effect request generation run w ≡ some (after, opening)
    → Replays row w after opening
unfolding open_effect prepare
open_effect-Replays request generation run w row {after} {opening} there over h = record {
  row_stays = ground arith;
  leases = ground arith;
  answer = ground arith;
}

module _ (run : ℕ) where
  -- No task is of the newest generation of the run's leases.
  abbrev pub IsStale : (ℕ → Option Task) → Store → Type 0
  IsStale tasks store =
      (g : ℕ) (t : Task)
      → tasks g ≡ some t
      → (t.fence.run_id ≡ run) × (t.fence.generation < max_generation store.leases run)

  pub set_task-IsStale :
      (tasks : ℕ → Option Task) (g : ℕ) (task : Option Task) (store : Store)
      → ((t : Task)
          → task ≡ some t
          → (t.fence.run_id ≡ run) × (t.fence.generation < max_generation store.leases run))
      → IsStale tasks store
      → IsStale (set_task tasks g task) store
  set_task-IsStale tasks g task store fits stale h t e =
      elim (set_task-cases run tasks g task h t e) [
        | inl (same, its) ↦ fits t its
        | inr (other, old) ↦ stale h t old
      ]

  -- The row is there, and no task can write it.
  pub record IsSettled (row : Effect) (s : System) : Type 0 where
    pub ordered : IsOrdered s.world.store.leases
    pub there : s.world.effect ≡ some row
    pub stale : IsStale s.tasks s.world.store

  refused :
      {A : Type 0}
      → (row : Effect) (s : System) (fence : RunFence) (phase : Phase) (now now' : ℕ)
        (body : Run → World → Option (World × A)) {after : World} {result : A}
      → IsSettled row s
      → s.tasks fence.generation ≡ some (record { fence = fence; phase = phase })
      → guarded fence now now' body s.world ≡ some (after, result)
      → ⊥
  refused row s fence phase now now' body i mine h =
      let (r, lease, admitted, wrote) = guarded-cases fence now now' body s.world h in
      let newest = admit-newest fence now s.world.store i.ordered admitted in
      let (its, old) = i.stale fence.generation (record { fence = fence; phase = phase }) mine in
      let newest' =
        subst (λ n. fence.generation ≡ max_generation s.world.store.leases n) its newest in
      omega (arith, newest', old)

  ended :
      (row : Effect) (s : System) (g : ℕ)
      → IsSettled row s
      → IsSettled row (record s { tasks = set_task s.tasks g none })
  ended row s g i = record {
    ordered = i.ordered;
    there = i.there;
    stale = set_task-IsStale s.tasks g none s.world.store (λ t e. cc) i.stale;
  }

  moved :
      (row : Effect) (s : System) (fence : RunFence) (phase next : Phase) (dispatched : ℕ)
      → s.tasks fence.generation ≡ some (record { fence = fence; phase = phase })
      → IsSettled row s
      → IsSettled row (record {
        world = s.world;
        tasks = set_task s.tasks fence.generation (some (record { fence = fence; phase = next }));
        dispatches = dispatched;
      })
  moved row s fence phase next dispatched mine i = record {
    ordered = i.ordered;
    there = i.there;
    stale =
        set_task-IsStale s.tasks fence.generation (some (record { fence = fence; phase = next }))
          s.world.store
          (λ t e.
            let same : record { fence = fence; phase = next } ≡ t = cc in
            subst
              (λ (u : Task).
                (u.fence.run_id ≡ run)
                × (u.fence.generation < max_generation s.world.store.leases run))
              same (i.stale fence.generation (record { fence = fence; phase = phase }) mine))
          i.stale;
  }

module _ (run : ℕ) (identity : String) (idempotent : Bool) (accept : String → Option String) where
  -- Whether a step is one of `cancel_pending`, which takes up only effects that are not over.
  abbrev pub is_cancel : {s t : System} → Step run identity idempotent accept s t → Bool
  is_cancel (cancels fence status now now' at turned mine kind h) = true
  is_cancel step = false

  -- The states that steps other than those of `cancel_pending` lead to.
  pub data Follows (s : System) : System → Type 0 where
    unchanged : Follows s s
    follows :
        {t u : System}
        → Follows s t
        → (step : Step run identity idempotent accept t u) → is_cancel step ≡ false
        → Follows s u

  Step-IsSettled :
      {s t : System} (row : Effect)
      → is_over row.status ≡ true
      → (step : Step run identity idempotent accept s t) → is_cancel step ≡ false
      → IsSettled run row s
      → IsSettled run row t
  Step-IsSettled {s} row over (others {store = store} step) free i =
      let kept = Later-Kept i.ordered (Ownership.next step (Ownership.done refl)) in
      record {
        ordered = kept.ordered;
        there = i.there;
        stale = λ g t e. ((i.stale g t e).0, omega (arith, (i.stale g t e).1, kept.grown run));
      }
  Step-IsSettled {s} row over (opens {after = after} fence at at' request opening mine idle h) free
        i =
      let (r, lease, admitted, wrote) =
        guarded-cases fence at at' (open_effect request fence.generation) s.world h in
      let replays = open_effect-Replays request fence.generation r s.world row i.there over wrote in
      record {
        ordered = subst IsOrdered (sym replays.leases) i.ordered;
        there = replays.row_stays;
        stale =
            set_task-IsStale run s.tasks fence.generation (opened_task fence opening) after.store
              (λ t e.
                let ends : opened_task fence opening ≡ none =
                  ap (opened_task fence) replays.answer
                  ∙ over-opens fence row.status row.result over in
                absurd cc)
              (λ g t e. (
                (i.stale g t e).0,
                subst (λ ls. t.fence.generation < max_generation ls run) (sym replays.leases)
                    (i.stale g t e).1,
              ));
      }
  Step-IsSettled {s} row over (gives_up fence before answer at at' stamp turned mine plan h) free
        i =
      absurd (refused run row s fence _ at at' _ i mine h)
  Step-IsSettled {s} row over (intends fence before answer at at' stamp turned mine plan h) free i =
      absurd (refused run row s fence _ at at' _ i mine h)
  Step-IsSettled {s} row over (watches fence before answer mine plan) free i =
      moved run row s fence _ _ s.dispatches mine i
  Step-IsSettled {s} row over (dispatches fence mine) free i = moved run row s fence _ _ _ mine i
  Step-IsSettled {s} row over (polls fence at at' cancel mine h) free i =
      absurd (refused run row s fence _ at at' _ i mine h)
  Step-IsSettled {s} row over
        (finishes fence answer cancel status result at at' stamp turned mine verdict h) free i =
      absurd (refused run row s fence _ at at' _ i mine h)
  Step-IsSettled {s} row over (cancels fence status at at' stamp turned mine kind h) free i = cc
  Step-IsSettled {s} row over (crashes g) free i = ended run row s g i

  pub Follows-IsSettled :
      {s t : System} (row : Effect)
      → is_over row.status ≡ true
      → Follows s t
      → IsSettled run row s
      → IsSettled run row t
  Follows-IsSettled row over unchanged i = i
  Follows-IsSettled row over (follows steps step free) i =
      Step-IsSettled row over step free (Follows-IsSettled row over steps i)
