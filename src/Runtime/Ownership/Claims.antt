-- ===== src/Runtime/Ownership/Claims.antt =====
-- What `claim` does to the lease table.
use jarvis_development.Prelude.{
  ℕ, ◌+◌, ◌≤◌, ◌<◌, Bool, true, false, not, Option, none, some, List, [], ◌∷◌, ◌≡◌, refl, inl, inr,
  String, string_eq, nat_eq, arith, Bool-cases, Option-cases, if◌then◌else◌, ltb, subst,
}
use jarvis_development.Runtime.Store.{
  Mode, Run, RunLease, Recovery, Store, find_active, find_instance, max_generation,
}
use jarvis_development.Runtime.Ownership.{
  RunFence, acquire, claim_run, claim, at_capacity, select_run, is_eligible, has_live,
}
use jarvis_development.Runtime.Ownership.Leases.{
  IsOrdered, IsOrdered-change, max_generation-change, Keeps, acquire-Acquired,
}
use jarvis_development.Runtime.Ownership.Fencing.{Kept}

pub select_run-eligible :
    (eligible : Run → Bool) (rs : List Run) {r : Run}
    → select_run eligible rs ≡ some r
    → eligible r ≡ true
unfolding select_run
select_run-eligible eligible [] e = cc
select_run-eligible eligible (x ∷ rs) {r} e =
    ground (arith, select_run-eligible eligible rs {r = r})

pub has_live-active :
    (now : ℕ) (ls : List RunLease) (run_id : ℕ) {a : RunLease}
    → has_live now ls run_id ≡ false
    → find_active ls run_id ≡ some a
    → ltb now a.expires_at ≡ false
has_live-active now [] run_id idle e = cc
has_live-active now (l ∷ ls) run_id {a} idle e =
    ground (arith, has_live-active now ls run_id {a = a})

abbrev FreshResult : ℕ → Option (List RunLease × RunLease) → Type 0
FreshResult generation none = Unit
FreshResult generation (some (leases, lease)) = lease.generation ≡ generation

-- Where no lease of the run is live, `acquire` hands out the next generation.
acquire-fresh :
    (run_id : ℕ) (owner : String) (ttl now now' : ℕ) (ls : List RunLease)
    → now ≤ now'
    → has_live now ls run_id ≡ false
    → FreshResult (max_generation ls run_id + 1) (acquire run_id owner ttl now' ls)
unfolding acquire
acquire-fresh run_id owner ttl now now' ls later idle =
    elim (Option-cases (find_active ls run_id)) [
      | inl none_active ↦ rw (none_active, acquire) refl
      | inr (a, active) ↦
          let expired = expired_later a (has_live-active now ls run_id idle active) in
          rw (active, acquire, expired) refl
    ]
  where
    expired_later : (a : RunLease) → ltb now a.expires_at ≡ false → ltb now' a.expires_at ≡ false
    expired_later a h = ground arith

-- What `claim` did, by what it returned.
abbrev pub ClaimResult : Store → Option RunFence × Store → Type 0
ClaimResult s (none, t) = t ≡ s
ClaimResult s (some f, t) =
    Kept s t
    × (f.generation ≡ max_generation t.leases f.run_id)
    × (max_generation s.leases f.run_id < f.generation)

claim_run-result :
    (owner : String) (ttl now now' recovery_generation : ℕ) (run : Run) (s : Store)
    → IsOrdered s.leases
    → now ≤ now'
    → has_live now s.leases run.id ≡ false
    → ClaimResult s (claim_run owner ttl now now' recovery_generation run s)
unfolding claim_run
claim_run-result owner ttl now now' recovery_generation run s h later idle =
    elim (Option-cases (acquire run.id owner ttl now' s.leases)) [
      | inl refused ↦ rw (refused, claim_run) refl
      | inr ((leases, lease), got) ↦
          let a = acquire-Acquired run.id owner ttl now' s.leases h got in
          let fresh =
            subst (FreshResult (max_generation s.leases run.id + 1)) got
              (acquire-fresh run.id owner ttl now now' s.leases later idle) in
          let beats = λ (l : RunLease). record l { heartbeat_at = some now } in
          let keeps : Keeps beats = λ l. (refl, refl, λ r. r) in
          let same = max_generation-change beats keeps run.id lease.generation leases in
          rw (got, claim_run)
            (
              record {
                ordered = IsOrdered-change beats keeps run.id lease.generation leases a.ordered;
                grown = λ r. omega (arith, same r, a.others r);
              },
              omega (arith, same run.id, a.newest),
              omega (arith, fresh),
            )
    ]

-- What `claim` found before it took a run.
pub record Chosen (capacity : Option ℕ) (mode : Option Mode) (locked : ℕ → Bool) (now : ℕ)
    (s : Store) (recovery : Recovery) (run : Run) : Type 0 where
  pub setting : s.recovery ≡ some recovery
  pub enabled : recovery.automatic_dispatch_enabled ≡ true
  pub free : at_capacity capacity now s.leases ≡ false
  pub first : select_run (is_eligible mode now locked s.leases) s.runs ≡ some run

-- To show a fact of `claim`, show it where nothing is claimed and where a chosen run is.
module _ (P : Option RunFence × Store → Type 0) (owner : String) (ttl : ℕ) (capacity : Option ℕ)
    (mode : Option Mode) (locked : ℕ → Bool) (now now' : ℕ) (s : Store) (idle : P (none, s))
    (busy : (recovery : Recovery) (run : Run)
      → Chosen capacity mode locked now s recovery run
      → P (claim_run owner ttl now now' recovery.generation run s)) where
  select-elim :
      (recovery : Recovery)
      → s.recovery ≡ some recovery
      → recovery.automatic_dispatch_enabled ≡ true
      → at_capacity capacity now s.leases ≡ false
      → P (elim (select_run (is_eligible mode now locked s.leases) s.runs) [
        | none ↦ (none, s)
        | some run ↦ claim_run owner ttl now now' recovery.generation run s
      ])
  select-elim recovery setting enabled free =
      elim (Option-cases (select_run (is_eligible mode now locked s.leases) s.runs)) [
        | inl nothing ↦ rw nothing idle
        | inr (run, first) ↦ rw first (
            busy recovery run
              (record { setting = setting; enabled = enabled; free = free; first = first }))
      ]

  dispatch-elim :
      (setting : Option Recovery)
      → s.recovery ≡ setting
      → P (elim setting [
        | none ↦ (none, s)
        | some recovery ↦
            if not recovery.automatic_dispatch_enabled
            then (none, s)
            else if at_capacity capacity now s.leases
            then (none, s)
            else elim (select_run (is_eligible mode now locked s.leases) s.runs) [
              | none ↦ (none, s)
              | some run ↦ claim_run owner ttl now now' recovery.generation run s
            ]
      ])
  dispatch-elim none set = idle
  dispatch-elim (some recovery) set = elim (Bool-cases recovery.automatic_dispatch_enabled) [
    | inr off ↦ rw off idle
    | inl on ↦ rw on (elim (Bool-cases (at_capacity capacity now s.leases)) [
      | inl full ↦ rw full idle
      | inr free ↦ rw free (select-elim recovery set on free)
    ])
  ]

  pub claim-elim : P (claim owner ttl capacity mode locked now now' s)
  unfolding claim
  claim-elim = elim (Option-cases (find_instance s.instances owner)) [
    | inl unregistered ↦ rw (unregistered, claim) idle
    | inr (i, registered) ↦
        rw (registered, claim)
          (elim (Bool-cases i.draining) [
            | inl draining ↦ rw draining idle
            | inr serving ↦ rw serving (dispatch-elim s.recovery refl)
          ])
  ]

pub select_run-idle :
    (mode : Option Mode) (now : ℕ) (locked : ℕ → Bool) (leases : List RunLease) (r : Run)
    → is_eligible mode now locked leases r ≡ true
    → has_live now leases r.id ≡ false
select_run-idle mode now locked leases r e = ground arith

-- A claim that hands out a fence hands out a generation that its run never had.
pub claim-result :
    (owner : String) (ttl : ℕ) (capacity : Option ℕ) (mode : Option Mode) (locked : ℕ → Bool)
    (now now' : ℕ) (s : Store)
    → IsOrdered s.leases
    → now ≤ now'
    → ClaimResult s (claim owner ttl capacity mode locked now now' s)
claim-result owner ttl capacity mode locked now now' s h later =
    claim-elim (ClaimResult s) owner ttl capacity mode locked now now' s refl (λ recovery run c.
      claim_run-result owner ttl now now' recovery.generation run s h later (
        select_run-idle mode now locked s.leases run
          (select_run-eligible (is_eligible mode now locked s.leases) s.runs c.first)))
