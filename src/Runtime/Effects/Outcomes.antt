-- ===== src/Runtime/Effects/Outcomes.antt =====
-- What a recorded success makes of every later task that opens the effect.
use jarvis_development.Prelude.{
  ℕ, ◌<◌, Bool, true, Option, none, some, Bool-cases, Option-cases, ◌≡◌, ◌≢◌, refl, sym, ◌∙◌, ap,
  subst, inl, inr, String, string_eq, nat_eq, if◌then◌else◌, arith,
}
use jarvis_development.Runtime.Store.{Run, Store, max_generation}
use jarvis_development.Runtime.Ownership.{RunFence}
use jarvis_development.Runtime.Ownership.Leases.{IsOrdered}
use jarvis_development.Runtime.Ownership.Fencing.{admit-newest}
use jarvis_development.Runtime.Effects.{
  succeeded, cancelled, Effect, World, guarded, is_cancelling, recorded_row, prepare, Request,
  Opening, recorded, cancelled_before, opening_of, open_effect, record_effect,
}
use jarvis_development.Runtime.Effects.Protocol.{Phase, System, set_task, Reach}
use jarvis_development.Runtime.Effects.Writes.{guarded-cases}
use jarvis_development.Runtime.Effects.Once.{set_task-cases}
use jarvis_development.Runtime.Effects.Held.{IsHeld, Reach-IsHeld, task_fence}
use jarvis_development.Runtime.Effects.Settled.{is_over, IsStale, Follows, Follows-IsSettled}

-- Before any executor runs a task of the effect.
abbrev pub idle : World → System
idle w = record { world = w; tasks = λ g. none; dispatches = 0 }

-- What a success that is recorded, or turned to a cancellation, makes of the next opening.
abbrev pub outcome : Bool → String → Opening
outcome turned result = if turned then cancelled_before else recorded (some result)

record Recorded (turned : Bool) (result : String) (w after : World) : Type 0 where
  row : Effect
  there : after.effect ≡ some row
  over : is_over row.status ≡ true
  opens : opening_of row.status row.result ≡ outcome turned result
  leases : after.store.leases ≡ w.store.leases

record_effect-Recorded :
    (result : String) (at : ℕ) (run : Run) (w : World) {after : World} {turned : Bool}
    → record_effect succeeded none (some result) at run w ≡ some (after, turned)
    → Recorded turned result w after
unfolding record_effect
record_effect-Recorded result at run w {after} {turned} h =
    subst P h (elim (Option-cases w.effect) [
      | inl missing ↦ rw (missing, record_effect) tt
      | inr (effect, there) ↦ elim (Bool-cases (is_cancelling run.desired_state)) [
        | inl cancel ↦
            rw (there, record_effect, cancel)
              (record {
                row = recorded_row cancelled none none at effect;
                there = refl;
                over = refl;
                opens = refl;
                leases = refl;
              })
        | inr wanted ↦
            rw (there, record_effect, wanted)
              (record {
                row = recorded_row succeeded none (some result) at effect;
                there = refl;
                over = refl;
                opens = refl;
                leases = refl;
              })
      ]
    ])
  where
    P : Option (World × Bool) → Type 0
    P none = Unit
    P (some (after, turned)) = Recorded turned result w after

open_effect-over :
    (request : Request) (generation : ℕ) (run : Run) (w : World) (row : Effect)
    → w.effect ≡ some row
    → is_over row.status ≡ true
    → row.request_digest ≡ request.digest
    → open_effect request generation run w ≡ some (w, opening_of row.status row.result)
unfolding open_effect prepare
open_effect-over request generation run w row there over same =
    ground (arith, there, (string_eq.same_iff row.request_digest request.digest).1 same)

module _ (run : ℕ) (identity : String) (idempotent : Bool) (accept : String → Option String) where
  -- A task that ends under the newest fence leaves only tasks that are stale.
  ended-IsStale :
      (s : System) (fence : RunFence) (store : Store)
      → store.leases ≡ s.world.store.leases
      → IsHeld run s
      → fence.generation ≡ max_generation s.world.store.leases run
      → IsStale run (set_task s.tasks fence.generation none) store
  ended-IsStale s fence store same_leases i newest h u e =
      elim (set_task-cases run s.tasks fence.generation none h u e) [
        | inl (same, its) ↦ cc
        | inr (other, old) ↦
            let (its, same, le) = i.tasks_fit h u old in
            let apart : u.fence.generation ≢ fence.generation = λ e'. other (sym same ∙ e') in
            (
              its,
              subst (λ ls. u.fence.generation < max_generation ls run) (sym same_leases)
                  (omega (arith, le, same, newest, apart)),
            )
      ]

  -- If a task records a success, then, whatever the tasks of all executors, the adapter and other
  -- transactions do after it, the row of the effect stays as it was recorded, and every opening of
  -- the same request ends with the recorded result and changes no table, or as cancelled where the
  -- run was to be cancelled when the success was recorded. The lease table starts in order, no
  -- executor runs two tasks of the effect under one fence at a time, and no `cancel_pending`, which
  -- takes up only effects that are not over, is at work on it any more.
  pub record_effect-opens :
      {w after : World} {s t : System} (fence : RunFence) (phase : Phase) (at at' stamp : ℕ)
      (result : String) {turned : Bool}
      → IsOrdered w.store.leases
      → Reach run identity idempotent accept (idle w) s
      → s.tasks fence.generation ≡ some (record { fence = fence; phase = phase })
      → guarded fence at at' (record_effect succeeded none (some result) stamp) s.world
        ≡ some (after, turned)
      → Follows run identity idempotent accept
          (record s { world = after; tasks = set_task s.tasks fence.generation none })
          t
      → (row : Effect) × (after.effect ≡ some row)
        × (t.world.effect ≡ some row)
        × ((request : Request) (generation : ℕ) (other : Run)
            → row.request_digest ≡ request.digest
            → open_effect request generation other t.world ≡ some (t.world, outcome turned result))
  record_effect-opens {w} {after} {s} {t} fence phase at at' stamp result {turned} ordered steps
        mine h later =
      let held =
        Reach-IsHeld run identity idempotent accept steps
          (record { ordered = ordered; tasks_fit = λ g u e. cc }) in
      let (r, lease, admitted, wrote) =
        guarded-cases fence at at' (record_effect succeeded none (some result) stamp) s.world h in
      let done =
        record_effect-Recorded result stamp r s.world {after = after} {turned = turned} wrote in
      let newest =
        subst (λ n. fence.generation ≡ max_generation s.world.store.leases n)
          (task_fence run s fence phase held mine).0
          (admit-newest fence at s.world.store held.ordered admitted) in
      let settled =
        Follows-IsSettled run identity idempotent accept done.row done.over later (record {
          ordered = subst IsOrdered (sym done.leases) held.ordered;
          there = done.there;
          stale = ended-IsStale s fence after.store done.leases held newest;
        }) in
      (
        done.row,
        done.there,
        settled.there,
        λ request generation other same.
            open_effect-over request generation other t.world done.row settled.there done.over same
            ∙ ap (λ o. some (t.world, o)) done.opens,
      )
