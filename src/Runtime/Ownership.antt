-- ===== src/Runtime/Ownership.antt =====
-- orchestrator/app/jarvis_orchestrator/runtime/ownership.py, `RunOwnership`, and
-- `LeaseRepository` of packages/persistence/src/jarvis_persistence/repositories.py. Each method is
-- one transaction over the store; a clock reading is an argument. Event rows are left out.
pub mod Leases
pub mod Fencing
pub mod Claims
pub mod Steps
pub mod Selection
pub mod Admission
mod Tests
use jarvis_development.Prelude.{
  ℕ, ◌+◌, Bool, true, false, not, ◌&&◌, ◌||◌, Option, none, some, List, [], ◌∷◌, String, string_eq,
  nat_eq, ◌==◌, leb, ltb, is_some, if◌then◌else◌, length,
}
use jarvis_development.Runtime.Store.{
  RunStatus, queued, claiming, running, pause_requested, cancel_requested, completed, failed,
  blocked, cancelled, Mode, real, demo, Run, RunLease, Recovery, Instance, Store, find_run,
  find_instance, save_run, save_instance, find_active, max_generation, change_lease, find_lease,
}

-- `RunFence`
pub record RunFence : Type 0 where
  pub run_id : ℕ
  pub owner : String
  pub generation : ℕ
  pub recovery_generation : ℕ

-- `TERMINAL`
abbrev pub is_terminal : RunStatus → Bool
is_terminal completed = true
is_terminal failed = true
is_terminal blocked = true
is_terminal cancelled = true
is_terminal _ = false

-- The statuses that `claim` selects.
abbrev pub is_claimable : RunStatus → Bool
is_claimable queued = true
is_claimable claiming = true
is_claimable running = true
is_claimable pause_requested = true
is_claimable cancel_requested = true
is_claimable _ = false

abbrev pub is_queued : RunStatus → Bool
is_queued queued = true
is_queued _ = false

abbrev pub same_mode : Mode → Mode → Bool
same_mode real real = true
same_mode demo demo = true
same_mode _ _ = false

-- `register`: `none` is the `ValueError` of an identity that is in use.
unfoldable pub register : String → ℕ → Store → Option Store
register owner now s = elim (find_instance s.instances owner) [
  | some i ↦ none
  | none ↦ some (record s {
    instances = record { id = owner; heartbeat_at = now; draining = false } ∷ s.instances;
  })
]

-- `heartbeat`
unfoldable pub heartbeat : String → Bool → ℕ → Store → Option Store
heartbeat owner draining now s = elim (find_instance s.instances owner) [
  | none ↦ none
  | some i ↦ some (record s {
    instances =
        save_instance s.instances
          (record i { heartbeat_at = now; draining = i.draining || draining });
  })
]

-- A lease that is neither released nor expired.
abbrev pub is_live : ℕ → RunLease → Bool
is_live now l = not (is_some l.released_at) && ltb now l.expires_at

abbrev pub count_live : ℕ → List RunLease → ℕ
count_live now [] = 0
count_live now (l ∷ ls) = let rest = count_live now ls in if is_live now l then rest + 1 else rest

-- The `exists()` subquery `live`.
abbrev pub has_live : ℕ → List RunLease → ℕ → Bool
has_live now [] run_id = false
has_live now (l ∷ ls) run_id = l.run_id == run_id && is_live now l || has_live now ls run_id

-- The `where` of `claim`; a run that another transaction has locked is skipped.
abbrev pub is_eligible : Option Mode → ℕ → (ℕ → Bool) → List RunLease → Run → Bool
is_eligible mode now locked leases r =
    is_claimable r.status
    && (leb r.claimable_at now
        && (elim mode [ none ↦ true | some m ↦ same_mode r.mode m ]
            && (not (has_live now leases r.id) && not (locked r.id))))

-- The `order_by` of `claim`: whether the first run comes before the second.
abbrev pub comes_before : Run → Run → Bool
comes_before a b =
    ltb b.priority a.priority
    || (a.priority == b.priority
        && (ltb a.claimable_at b.claimable_at
            || (a.claimable_at == b.claimable_at
                && (ltb a.created_at b.created_at
                    || (a.created_at == b.created_at && ltb a.id b.id)))))

-- The first run of the selection in that order.
unfoldable pub select_run : (Run → Bool) → List Run → Option Run
select_run eligible [] = none
select_run eligible (r ∷ rs) =
    let rest = select_run eligible rs in
    if eligible r
    then elim rest [ none ↦ some r | some best ↦ if comes_before best r then some best else some r ]
    else rest

-- `LeaseRepository.acquire` for a run that exists: the leases afterwards, and the lease.
unfoldable pub acquire : ℕ → String → ℕ → ℕ → List RunLease → Option (List RunLease × RunLease)
acquire run_id owner ttl now leases =
    let fresh : RunLease = record {
      run_id = run_id;
      owner = owner;
      generation = max_generation leases run_id + 1;
      acquired_at = now;
      heartbeat_at = none;
      expires_at = now + ttl;
      released_at = none;
    } in
    elim (find_active leases run_id) [
      | none ↦ some (fresh ∷ leases, fresh)
      | some active ↦
          if ltb now active.expires_at
          then (if active.owner == owner
              then some (
                change_lease (λ l. record l { expires_at = now + ttl }) leases run_id
                    active.generation,
                record active { expires_at = now + ttl },
              )
              else none)
          else some (
            fresh
                ∷ change_lease (λ l. record l { released_at = some now }) leases run_id
                    active.generation,
            fresh,
          )
    ]

-- `claim`, once the run is selected: `now'` is the clock reading of the repository.
unfoldable pub claim_run : String → ℕ → ℕ → ℕ → ℕ → Run → Store → Option RunFence × Store
unfolding acquire
claim_run owner ttl now now' recovery_generation run s =
    elim (acquire run.id owner ttl now' s.leases) [
      | none ↦ (none, s)
      | some (leases, lease) ↦ (
        some (record {
          run_id = run.id;
          owner = owner;
          generation = lease.generation;
          recovery_generation = recovery_generation;
        }),
        record s {
          leases =
              change_lease (λ l. record l { heartbeat_at = some now }) leases run.id
                lease.generation;
          runs = save_run s.runs (record run {
            status = claiming;
            version = run.version + 1;
            recovering = not (max_generation s.leases run.id == 0) && not (is_queued run.status);
          });
        },
      )
    ]

-- `if (active or 0) >= capacity: return None`
abbrev pub at_capacity : Option ℕ → ℕ → List RunLease → Bool
at_capacity none now leases = false
at_capacity (some capacity) now leases = leb capacity (count_live now leases)

-- `claim`
unfoldable pub claim :
    String → ℕ → Option ℕ → Option Mode → (ℕ → Bool) → ℕ → ℕ → Store → Option RunFence × Store
unfolding claim_run select_run
claim owner ttl capacity mode locked now now' s = elim (find_instance s.instances owner) [
  | none ↦ (none, s)
  | some i ↦ if i.draining then (none, s) else elim s.recovery [
    | none ↦ (none, s)
    | some recovery ↦
        if not recovery.automatic_dispatch_enabled
        then (none, s)
        else if at_capacity capacity now s.leases
        then (none, s)
        else elim (select_run (is_eligible mode now locked s.leases) s.runs) [
          | none ↦ (none, s)
          | some run ↦ claim_run owner ttl now now' recovery.generation run s
        ]
  ]
]

-- The check at the head of `fenced`: `none` is `StaleExecutorError`.
unfoldable pub admit : RunFence → ℕ → Store → Option (Run × RunLease)
admit fence now s = elim (find_run s.runs fence.run_id) [
  | none ↦ none
  | some run ↦ elim (find_active s.leases fence.run_id) [
    | none ↦ none
    | some lease ↦ elim s.recovery [
      | none ↦ none
      | some recovery ↦
          if is_terminal run.status
            || (not (lease.owner == fence.owner)
                || (not (lease.generation == fence.generation)
                    || (leb lease.expires_at now
                        || (not (recovery.generation == fence.recovery_generation)
                            || not recovery.automatic_dispatch_enabled))))
          then none
          else some (run, lease)
    ]
  ]
]

-- The check behind the `yield`, on the lease as the body left it.
abbrev pub still_held : RunFence → ℕ → Store → Bool
still_held fence now s = elim (find_lease s.leases fence.run_id fence.generation) [
  | none ↦ false
  | some lease ↦ ltb now lease.expires_at
]

-- `fenced`: the body runs between the two checks; where a check or the body raises, the
-- transaction rolls back, which is `none`.
unfoldable pub fenced : RunFence → ℕ → ℕ → (Run → Store → Option Store) → Store → Option Store
unfolding admit
fenced fence now now' body s = elim (admit fence now s) [
  | none ↦ none
  | some (run, lease) ↦ elim (body run s) [
    | none ↦ none
    | some s' ↦ if still_held fence now' s' then some s' else none
  ]
]

-- `renew`; `beat` and `base` are its two clock readings between the checks.
unfoldable pub renew : RunFence → ℕ → ℕ → ℕ → ℕ → ℕ → Store → Option Store
unfolding fenced
renew fence ttl now beat base now' = fenced fence now now' (λ run s. some (record s {
  leases =
      change_lease (λ l. record l { heartbeat_at = some beat; expires_at = base + ttl }) s.leases
        fence.run_id fence.generation;
}))

-- `release_in`
unfoldable pub release_in : RunFence → ℕ → Run → Store → Option Store
release_in fence at run s = elim (find_lease s.leases fence.run_id fence.generation) [
  | none ↦ none
  | some lease ↦
      if lease.owner == fence.owner
      then some (record s {
        leases =
            change_lease (λ l. record l { released_at = some at }) s.leases fence.run_id
              fence.generation;
      })
      else none
]

-- `release`; `at` is its clock reading between the checks.
unfoldable pub release : RunFence → ℕ → ℕ → ℕ → Store → Option Store
unfolding fenced release_in
release fence now at now' = fenced fence now now' (release_in fence at)
