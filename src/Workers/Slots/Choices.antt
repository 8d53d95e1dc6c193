-- ===== src/Workers/Slots/Choices.antt =====
-- What `acquire` of `WorkerSlots` takes.
use mathlib.Core.List.{Memᴰ}
use mathlib.Core.List.Memᴰ
use jarvis_development.Prelude.{
  [], ◌∷◌, ◌+◌, ◌⊎◌, ap, sym, leb, ℕ, ◌<◌, not, ◌||◌, Option, none, some, List, ◌++◌, ◌≡◌, refl,
  arith, String, nat_eq, string_eq, ◌==◌, if◌then◌else◌, Option-cases, Bool-cases, inl, inr, subst,
}
use jarvis_development.Runtime.Store.{Run, RunLease, Store, find_run}
use jarvis_development.Runtime.Ownership.{RunFence, admit, still_held}
use jarvis_development.Runtime.Commands.Applied.{find_run-id}
use jarvis_development.Workers.Rows.{
  Slot, WorkerLease, Workers, WorkerSpec, SlotFence, Lookups, find_open, same_spec, slots_of,
  insert_slot, missing_slots, resource_of,
}
use jarvis_development.Workers.Slots.{
  Choice, unavailable, held, free, choose_slot, take_slot, fenced_workers, acquire_slot,
  acquire_worker, with_slots, new_lease, bump_slot, is_own,
}
use jarvis_development.Workers.Slots.Exclusive.{
  IsExclusive, find_open-none, ChoiceFacts, choose_slot-facts,
}

-- What holds of the result of a transaction that returned.
abbrev pub After : {A : Type 0} → (A → Type 0) → Option A → Type 0
After P none = Unit
After P (some a) = P a

admitted-id :
    (fence : RunFence) (at : ℕ) (s : Store) {run : Run} {lease : RunLease}
    → admit fence at s ≡ some (run, lease)
    → run.id ≡ fence.run_id
unfolding admit
admitted-id fence at s {run} e = elim (Option-cases (find_run s.runs fence.run_id)) [
  | inl missing ↦ ground (arith, missing)
  | inr (r, found) ↦ ground (arith, found, find_run-id s.runs fence.run_id found)
]

pub fenced_workers-After :
    {A : Type 0} (P : A → Type 0) (fence : RunFence) (at at' : ℕ) (s : Store)
    (body : Run → Option A)
    → ((run : Run) → run.id ≡ fence.run_id → After P (body run))
    → After P (fenced_workers fence at at' s body)
unfolding fenced_workers
fenced_workers-After P fence at at' s body h = elim (Option-cases (admit fence at s)) [
  | inl refused ↦ rw (refused, fenced_workers) tt
  | inr ((run, lease), admitted) ↦
      rw (admitted, fenced_workers)
        (elim (Option-cases (body run)) [
          | inl failed ↦ rw failed tt
          | inr (result, e) ↦ rw e (elim (Bool-cases (still_held fence at' s)) [
            | inl in_time ↦ rw in_time (subst (After P) e (h run (admitted-id fence at s admitted)))
            | inr late ↦ rw late tt
          ])
        ])
]

-- The lease and the slot behind the fence that `acquire` returns.
pub record Taken (limit run_id attempt_id : ℕ) (f : SlotFence) (w : Workers) : Type 0 where
  pub lease : WorkerLease
  pub slot : Slot
  pub listed : Memᴰ slot w.slots
  pub number : slot.slot_number ≡ f.slot
  pub resource : f.resource ≡ some slot.resource
  pub found : find_open w.leases slot.id ≡ some lease
  pub its : lease.id ≡ f.lease_id
  pub attempt : lease.attempt_id ≡ attempt_id
  pub run : lease.run_id ≡ run_id
  pub below : f.slot < limit
  pub alone : IsExclusive w

-- The slot of a choice is one of the list.
abbrev IsListed : List Slot → Choice → Type 0
IsListed ss unavailable = Unit
IsListed ss (held l s) = Memᴰ s ss
IsListed ss (free s) = Memᴰ s ss

IsListed-tail : (s : Slot) (ss : List Slot) (c : Choice) → IsListed ss c → IsListed (s ∷ ss) c
IsListed-tail s ss unavailable h = tt
IsListed-tail s ss (held l x) h = Memᴰ.tail h
IsListed-tail s ss (free x) h = Memᴰ.tail h

IsListed-mono :
    (ss all : List Slot)
    → ((s : Slot) → Memᴰ s ss → Memᴰ s all)
    → (c : Choice) → IsListed ss c
    → IsListed all c
IsListed-mono ss all into unavailable h = tt
IsListed-mono ss all into (held l s) h = into s h
IsListed-mono ss all into (free s) h = into s h

choose_slot-IsListed :
    (limit run_id attempt_id now : ℕ) (ls : List WorkerLease) (ss : List Slot)
    → IsListed ss (choose_slot limit run_id attempt_id now ls ss)
unfolding choose_slot
choose_slot-IsListed limit run_id attempt_id now ls [] = tt
choose_slot-IsListed limit run_id attempt_id now ls (s ∷ ss) =
    let later =
      IsListed-tail s ss (choose_slot limit run_id attempt_id now ls ss)
        (choose_slot-IsListed limit run_id attempt_id now ls ss) in
    elim (Bool-cases (leb limit s.slot_number)) [
      | inl beyond ↦ rw beyond later
      | inr within ↦ rw within (elim (Option-cases (find_open ls s.id)) [
        | inl idle ↦ rw idle (Memᴰ.head refl)
        | inr (l, busy) ↦ rw busy (elim (Bool-cases (is_own limit run_id attempt_id now ls l)) [
          | inl own ↦ rw own (Memᴰ.head refl)
          | inr other ↦ rw other later
        ])
      ])
    ]

insert_slot-listed :
    (x : Slot) (ss : List Slot) (s : Slot) → Memᴰ s (insert_slot x ss) → (s ≡ x) ⊎ Memᴰ s ss
insert_slot-listed x [] s (Memᴰ.head e) = inl e
insert_slot-listed x [] s (Memᴰ.tail m) = inr m
insert_slot-listed x (y ∷ ss) s m = elim (Bool-cases (leb x.slot_number y.slot_number)) [
  | inl first ↦ Memᴰ.cases_cons (rw first at m)
  | inr later ↦ elim (Memᴰ.cases_cons (rw later at m)) [
    | inl e ↦ inr (Memᴰ.head e)
    | inr rest ↦ elim (insert_slot-listed x ss s rest) [
      | inl e ↦ inl e
      | inr old ↦ inr (Memᴰ.tail old)
    ]
  ]
]

slots_of-listed :
    (resource : String) (ss : List Slot) (s : Slot) → Memᴰ s (slots_of resource ss) → Memᴰ s ss
slots_of-listed resource [] s m = m
slots_of-listed resource (x ∷ ss) s m = elim (Bool-cases (x.resource == resource)) [
  | inl same ↦ elim (insert_slot-listed x (slots_of resource ss) s (rw same at m)) [
    | inl e ↦ Memᴰ.head e
    | inr rest ↦ Memᴰ.tail (slots_of-listed resource ss s rest)
  ]
  | inr other ↦ Memᴰ.tail (slots_of-listed resource ss s (rw other at m))
]

-- The row of a slot after `slot.generation += 1`.
bump_slot-listed :
    (ss : List Slot) (id : ℕ) (s : Slot)
    → Memᴰ s ss
    → (after : Slot) × Memᴰ after (bump_slot ss id)
      × (after.id ≡ s.id)
      × (after.slot_number ≡ s.slot_number)
      × (after.resource ≡ s.resource)
bump_slot-listed [] id s m = absurd (Memᴰ.not-nil m)
bump_slot-listed (x ∷ ss) id s m = elim (Bool-cases (x.id == id)) [
  | inl hit ↦ rw hit (elim (Memᴰ.cases_cons m) [
    | inl e ↦ (
      record x { generation = x.generation + 1 },
      Memᴰ.head refl,
      ap (λ (y : Slot). y.id) (sym e),
      ap (λ (y : Slot). y.slot_number) (sym e),
      ap (λ (y : Slot). y.resource) (sym e),
    )
    | inr rest ↦ (s, Memᴰ.tail rest, refl, refl, refl)
  ])
  | inr miss ↦ rw miss (elim (Memᴰ.cases_cons m) [
    | inl e ↦ (s, Memᴰ.head e, refl, refl, refl)
    | inr rest ↦
        let (after, found, own, number, resource) = bump_slot-listed ss id s rest in
        (after, Memᴰ.tail found, own, number, resource)
  ])
]

new_lease-found :
    (ls : List WorkerLease) (s : Slot) (lease : WorkerLease)
    → lease.slot_id ≡ s.id
    → lease.released_at ≡ none
    → find_open (lease ∷ ls) s.id ≡ some lease
new_lease-found ls s lease own open_ =
    ground (arith, open_, (nat_eq.same_iff lease.slot_id s.id).1 own)

module _ (fence : RunFence) (lease_id revision_id attempt_id now ttl limit : ℕ) (run_id : ℕ) where
  take_slot-Taken :
      (w : Workers) (c : Choice)
      → IsExclusive w
      → IsListed w.slots c
      → ChoiceFacts limit run_id attempt_id now w.leases c
      → After
          (λ result. Taken limit run_id attempt_id result.0 result.1)
          (take_slot fence run_id lease_id revision_id attempt_id now ttl w c)
  unfolding take_slot
  take_slot-Taken w unavailable alone listed facts = tt
  take_slot-Taken w (held l s) alone listed (found, attempt, run, below) = record {
    lease = l;
    slot = s;
    listed = listed;
    number = refl;
    resource = refl;
    found = found;
    its = refl;
    attempt = attempt;
    run = run;
    below = below;
    alone = alone;
  }
  take_slot-Taken w (free s) alone listed (idle, below) =
      let (slot, there, own, number, resource) = bump_slot-listed w.slots s.id s listed in
      let lease = new_lease fence run_id lease_id revision_id attempt_id now ttl s in
      record {
        lease = lease;
        slot = slot;
        listed = there;
        number = number;
        resource = ap some (sym resource);
        found = rw own (new_lease-found w.leases s lease refl refl);
        its = refl;
        attempt = refl;
        run = refl;
        below = below;
        alone = λ id. ground (arith, alone id, find_open-none w.leases s.id idle);
      }

module _ (text : ℕ → String) (fresh : ℕ → ℕ) (fence : RunFence) (rows : Lookups)
    (revision_id attempt_id : ℕ) (spec : WorkerSpec) (lease_id : ℕ) where
  acquire_slot-Taken :
      (now ttl : ℕ) (w : Workers) (run : Run)
      → IsExclusive w
      → After
          (λ result. Taken spec.max_concurrency run.id attempt_id result.0 result.1)
          (acquire_slot text fresh fence rows revision_id attempt_id spec lease_id now ttl w run)
  unfolding acquire_slot
  acquire_slot-Taken now ttl w run alone = by_rows rows.configuration rows.task_run
    where
      slots : ℕ → List Slot
      slots configuration_id =
          let known = slots_of (resource_of text spec configuration_id) w.slots in
          known
          ++ missing_slots fresh configuration_id (resource_of text spec configuration_id) known 0
              spec.max_concurrency

      slots-stored :
          (configuration_id : ℕ) (s : Slot)
          → Memᴰ s (slots configuration_id)
          → Memᴰ s
              (with_slots fresh configuration_id
                (resource_of text spec configuration_id)
                spec.max_concurrency
                w).slots
      slots-stored configuration_id s m =
          elim (Memᴰ.append_cases (slots_of (resource_of text spec configuration_id) w.slots) m) [
            | inl old ↦ Memᴰ.append_left _ (slots_of-listed _ w.slots s old)
            | inr new ↦ Memᴰ.append_right w.slots new
          ]

      by_rows :
          (configuration : Option (ℕ × WorkerSpec)) (task_run : Option ℕ)
          → After
              (λ result. Taken spec.max_concurrency run.id attempt_id result.0 result.1)
              (elim configuration [
                | none ↦ none
                | some (configuration_id, stored) ↦ elim task_run [
                  | none ↦ none
                  | some found_run ↦
                      if not (found_run == run.id) || not (same_spec stored spec)
                      then none
                      else take_slot fence run.id lease_id revision_id attempt_id now ttl
                          (with_slots fresh configuration_id
                            (resource_of text spec configuration_id)
                            spec.max_concurrency
                            w)
                          (choose_slot spec.max_concurrency run.id attempt_id now w.leases
                            (slots configuration_id))
                ]
              ])
      by_rows none task_run = tt
      by_rows (some (configuration_id, stored)) none = tt
      by_rows (some (configuration_id, stored)) (some found_run) =
          elim (Bool-cases (not (found_run == run.id) || not (same_spec stored spec))) [
            | inl invalid ↦ rw invalid tt
            | inr valid ↦ rw valid (
                take_slot-Taken fence lease_id revision_id attempt_id now ttl spec.max_concurrency
                  run.id
                  (with_slots fresh configuration_id (resource_of text spec configuration_id)
                    spec.max_concurrency w)
                  (choose_slot spec.max_concurrency run.id attempt_id now w.leases
                    (slots configuration_id))
                  alone
                  (IsListed-mono (slots configuration_id) _ (slots-stored configuration_id)
                    (choose_slot spec.max_concurrency run.id attempt_id now w.leases
                      (slots configuration_id))
                    (choose_slot-IsListed spec.max_concurrency run.id attempt_id now w.leases
                      (slots configuration_id)))
                  (choose_slot-facts spec.max_concurrency run.id attempt_id now w.leases
                    (slots configuration_id)))
          ]

  -- If no slot is held twice and `acquire` returns a fence, its slot's number is below the worker's
  -- concurrency, and is the number of a slot of the host's table, of the resource that the fence
  -- names, on which its lease is open for this attempt and this run; and still no slot is held twice.
  pub acquire_worker-Taken :
      (at now ttl at' : ℕ) (s : Store) (w : Workers) {f : SlotFence} {w' : Workers}
      → IsExclusive w
      → acquire_worker text fresh fence rows revision_id attempt_id spec lease_id at now ttl at' s w
        ≡ some (f, w')
      → Taken spec.max_concurrency fence.run_id attempt_id f w'
  unfolding acquire_worker
  acquire_worker-Taken at now ttl at' s w alone e = subst (After P) e (
      fenced_workers-After P fence at at' s
        (acquire_slot text fresh fence rows revision_id attempt_id spec lease_id now ttl w)
        (λ run same.
          subst
            (λ id.
              After (λ result. Taken spec.max_concurrency id attempt_id result.0 result.1)
                (acquire_slot text fresh fence rows revision_id attempt_id spec lease_id now ttl w
                  run))
            same (acquire_slot-Taken now ttl w run alone)))
    where
      P : SlotFence × Workers → Type 0
      P result = Taken spec.max_concurrency fence.run_id attempt_id result.0 result.1
