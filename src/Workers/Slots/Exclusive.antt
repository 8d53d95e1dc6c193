-- ===== src/Workers/Slots/Exclusive.antt =====
-- No slot is held twice.
use jarvis_development.Prelude.{
  ℕ, suc, ◌≤◌, true, false, not, ◌&&◌, ◌||◌, none, some, List, [], ◌∷◌, ◌≡◌, refl, arith, nat_eq,
  string_eq, ◌==◌, if◌then◌else◌, Option-cases, Bool-cases, inl, inr, leb, ◌<◌,
}
use jarvis_development.Workers.Rows.{
  Slot, WorkerLease, Workers, is_open, find_open, find_worker_lease, save_worker_lease,
}
use jarvis_development.Workers.Slots.{Choice, unavailable, held, free, choose_slot, is_own}

-- The leases of a slot that are not released.
abbrev pub count_open : ℕ → List WorkerLease → ℕ
count_open slot_id [] = 0
count_open slot_id (l ∷ ls) =
    let rest = count_open slot_id ls in if l.slot_id == slot_id && is_open l then suc rest else rest

-- Every slot has at most one lease that is not released.
abbrev pub IsExclusive : Workers → Type 0
IsExclusive w = (slot_id : ℕ) → count_open slot_id w.leases ≤ 1

pub find_open-none :
    (ls : List WorkerLease) (slot_id : ℕ) → find_open ls slot_id ≡ none → count_open slot_id ls ≡ 0
find_open-none [] slot_id e = refl
find_open-none (l ∷ ls) slot_id e = ground (arith, find_open-none ls slot_id)

-- Saving a row that stays on its slot, and that is open only if it was.
pub count_open-save :
    (ls : List WorkerLease) (new : WorkerLease) {old : WorkerLease} (slot_id : ℕ)
    → find_worker_lease ls new.id ≡ some old
    → new.slot_id ≡ old.slot_id
    → (not (is_open new) || is_open old) ≡ true
    → count_open slot_id (save_worker_lease ls new) ≤ count_open slot_id ls
count_open-save [] new slot_id e same kept = omega arith
count_open-save (l ∷ ls) new {old} slot_id e same kept =
    ground (arith, count_open-save ls new {old = old} slot_id)

pub find_worker_lease-id :
    (ls : List WorkerLease) (id : ℕ) {l : WorkerLease}
    → find_worker_lease ls id ≡ some l
    → l.id ≡ id
find_worker_lease-id [] id e = cc
find_worker_lease-id (x ∷ xs) id {l} e = ground (arith, find_worker_lease-id xs id {l = l})

-- What the loop chooses.
abbrev pub ChoiceFacts : ℕ → ℕ → ℕ → ℕ → List WorkerLease → Choice → Type 0
ChoiceFacts limit run_id attempt_id now ls unavailable = Unit
ChoiceFacts limit run_id attempt_id now ls (held l s) =
    (find_open ls s.id ≡ some l)
    × (l.attempt_id ≡ attempt_id)
    × (l.run_id ≡ run_id)
    × (s.slot_number < limit)
ChoiceFacts limit run_id attempt_id now ls (free s) =
    (find_open ls s.id ≡ none) × (s.slot_number < limit)

module _ (limit run_id attempt_id now : ℕ) (ls : List WorkerLease) where
  pub choose_slot-facts :
      (ss : List Slot)
      → ChoiceFacts limit run_id attempt_id now ls (choose_slot limit run_id attempt_id now ls ss)
  unfolding choose_slot
  choose_slot-facts [] = tt
  choose_slot-facts (s ∷ ss) = elim (Bool-cases (leb limit s.slot_number)) [
    | inl beyond ↦ rw beyond (choose_slot-facts ss)
    | inr within ↦ rw within (elim (Option-cases (find_open ls s.id)) [
      | inl idle ↦ rw idle (idle, below within)
      | inr (l, busy) ↦ rw busy (elim (Bool-cases (is_own limit run_id attempt_id now ls l)) [
        | inl own ↦ rw own (busy, own_attempt l own, own_run l own, below within)
        | inr other ↦ rw other (choose_slot-facts ss)
      ])
    ])
  ]
    where
      below : leb limit s.slot_number ≡ false → s.slot_number < limit
      below h = ground arith

      own_attempt :
          (l : WorkerLease)
          → is_own limit run_id attempt_id now ls l ≡ true
          → l.attempt_id ≡ attempt_id
      own_attempt l h = ground arith

      own_run :
          (l : WorkerLease) → is_own limit run_id attempt_id now ls l ≡ true → l.run_id ≡ run_id
      own_run l h = ground arith
