-- ===== src/Workers/Slots/Steps.antt =====
-- What `WorkerSlots` keeps, over any sequence of its transactions.
use jarvis_development.Prelude.{
  ℕ, ◌+◌, Bool, true, false, not, ◌||◌, some, ◌≡◌, refl, arith, String, nat_eq, string_eq, ◌==◌,
  is_some, Option-cases, Bool-cases, inl, inr, subst, sym,
}
use jarvis_development.Runtime.Store.{Run, Store}
use jarvis_development.Runtime.Ownership.{RunFence}
use jarvis_development.Workers.Rows.{
  WorkerLease, Workers, WorkerSpec, SlotFence, Lookups, is_open, find_worker_lease,
  save_worker_lease,
}
use jarvis_development.Workers.Slots.{
  require, renew_slot, release_row, acquire_worker, renew_worker, release_worker,
}
use jarvis_development.Workers.Slots.Exclusive.{IsExclusive, count_open-save, find_worker_lease-id}
use jarvis_development.Workers.Slots.Choices.{After, fenced_workers-After, acquire_worker-Taken}

save-IsExclusive :
    (w : Workers) (new : WorkerLease) {old : WorkerLease}
    → IsExclusive w
    → find_worker_lease w.leases new.id ≡ some old
    → new.slot_id ≡ old.slot_id
    → (not (is_open new) || is_open old) ≡ true
    → IsExclusive (record w { leases = save_worker_lease w.leases new })
save-IsExclusive w new alone e same kept id =
    omega (arith, alone id, count_open-save w.leases new id e same kept)

renew_slot-IsExclusive :
    (fence : RunFence) (lease : SlotFence) (checked now ttl : ℕ) (w : Workers)
    → IsExclusive w
    → After IsExclusive (renew_slot fence lease checked now ttl w)
unfolding renew_slot require
renew_slot-IsExclusive fence lease checked now ttl w alone =
    elim (Option-cases (require fence lease checked w)) [
      | inl stale ↦ rw (stale, renew_slot) tt
      | inr (row, held_) ↦
          rw (held_, renew_slot)
            (save-IsExclusive w (record row { renewed_at = now; expires_at = now + ttl }) alone
              (its row held_) refl (kept row))
    ]
  where
    kept : (row : WorkerLease) → (not (is_open row) || is_open row) ≡ true
    kept row = ground arith

    its :
        (row : WorkerLease)
        → require fence lease checked w ≡ some row
        → find_worker_lease w.leases row.id ≡ some row
    its row e = elim (Option-cases (find_worker_lease w.leases lease.lease_id)) [
      | inl missing ↦ ground (arith, missing)
      | inr (r, found) ↦ ground (arith, found, find_worker_lease-id w.leases lease.lease_id found)
    ]

release_row-IsExclusive :
    (lease : SlotFence) (now : ℕ) (w : Workers) (run : Run)
    → IsExclusive w
    → After IsExclusive (release_row lease now w run)
unfolding release_row
release_row-IsExclusive lease now w run alone =
    elim (Option-cases (find_worker_lease w.leases lease.lease_id)) [
      | inl missing ↦ rw (missing, release_row) tt
      | inr (row, found) ↦
          let same = find_worker_lease-id w.leases lease.lease_id found in
          let saved =
            save-IsExclusive w (record row { released_at = some now }) alone
              (subst (λ id. find_worker_lease w.leases id ≡ some row) (sym same) found) refl refl in
          rw (found, release_row)
            (elim (Bool-cases
              (not (row.run_id == run.id) || not (row.generation == lease.generation))) [
                | inl changed ↦ rw changed tt
                | inr its ↦ rw its (elim (Bool-cases (is_some row.released_at)) [
                  | inl before ↦ rw before alone
                  | inr open_ ↦ rw open_ saved
                ])
              ])
    ]

-- A transaction of `WorkerSlots`, by any executor.
pub data SlotStep : Workers → Workers → Type 0 where
  acquires :
      {w w' : Workers} (text : ℕ → String) (fresh : ℕ → ℕ) (fence : RunFence) (rows : Lookups)
      (revision_id attempt_id : ℕ) (spec : WorkerSpec) (lease_id at now ttl at' : ℕ) (s : Store)
      (f : SlotFence)
      → acquire_worker text fresh fence rows revision_id attempt_id spec lease_id at now ttl at' s w
        ≡ some (f, w')
      → SlotStep w w'
  renews :
      {w w' : Workers} (fence : RunFence) (lease : SlotFence) (at checked now ttl at' : ℕ)
      (s : Store)
      → renew_worker fence lease at checked now ttl at' s w ≡ some w'
      → SlotStep w w'
  releases :
      {w w' : Workers} (fence : RunFence) (lease : SlotFence) (reconciled : Bool) (at now at' : ℕ)
      (s : Store)
      → release_worker fence lease reconciled at now at' s w ≡ some w'
      → SlotStep w w'

-- The states that transactions lead to.
pub data SlotsLater (w : Workers) : Workers → Type 0 where
  here : SlotsLater w w
  more : {u v : Workers} → SlotsLater w u → SlotStep u v → SlotsLater w v

SlotStep-IsExclusive : {w w' : Workers} → IsExclusive w → SlotStep w w' → IsExclusive w'
unfolding renew_worker release_worker
SlotStep-IsExclusive {w} alone
      (acquires text fresh fence rows revision_id attempt_id spec lease_id at now ttl at' s f e) =
    (acquire_worker-Taken text fresh fence rows revision_id attempt_id spec lease_id at now ttl at'
      s w alone e).alone
SlotStep-IsExclusive {w} alone (renews fence lease at checked now ttl at' s e) =
    subst (After IsExclusive) e (
      fenced_workers-After IsExclusive fence at at' s
        (λ run. renew_slot fence lease checked now ttl w)
        (λ run same. renew_slot-IsExclusive fence lease checked now ttl w alone))
SlotStep-IsExclusive {w} alone (releases fence lease false at now at' s e) = cc
SlotStep-IsExclusive {w} alone (releases fence lease true at now at' s e) =
    subst (After IsExclusive) e (
      fenced_workers-After IsExclusive fence at at' s (release_row lease now w)
        (λ run same. release_row-IsExclusive lease now w run alone))

-- From a state in which no slot is held twice, no sequence of acquisitions, renewals and releases,
-- by any executors and at any times, leads to one in which a slot is held twice: an expired lease
-- keeps its slot until it is released.
pub SlotsLater-IsExclusive : {w w' : Workers} → IsExclusive w → SlotsLater w w' → IsExclusive w'
SlotsLater-IsExclusive alone here = alone
SlotsLater-IsExclusive alone (more before step) =
    SlotStep-IsExclusive (SlotsLater-IsExclusive alone before) step
