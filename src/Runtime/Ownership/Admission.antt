-- ===== src/Runtime/Ownership/Admission.antt =====
-- The holder that `claim` names passes the check of `fenced`.
use jarvis_development.Prelude.{
  ℕ, ◌+◌, ◌≤◌, ◌<◌, Bool, true, false, not, ◌&&◌, Option, none, some, List, ◌∷◌, ◌≡◌, refl, inl,
  inr, arith, nat_eq, string_eq, ◌==◌, Option-cases, ltb, String, is_some, subst,
}
use jarvis_development.Runtime.Store.{
  Mode, Run, RunLease, Recovery, Store, claiming, find_run, find_active, change_lease,
  max_generation,
}
use jarvis_development.Runtime.Ownership.{
  RunFence, is_eligible, has_live, acquire, claim_run, claim, admit, is_queued,
}
use jarvis_development.Runtime.Ownership.Claims.{
  claim-elim, select_run-eligible, select_run-idle, has_live-active,
}
use jarvis_development.Runtime.Ownership.Selection.{select_run-found, find_run-save}

module _ (run_id : ℕ) (owner : String) (ttl now now' : ℕ) where
  -- The lease at the head of the table that `acquire` returns.
  pub record Fresh (leases : List RunLease) (lease : RunLease) : Type 0 where
    pub rest : List RunLease
    pub pushed : leases ≡ lease ∷ rest
    pub its : lease.run_id ≡ run_id
    pub owned : lease.owner ≡ owner
    pub unreleased : lease.released_at ≡ none
    pub until : lease.expires_at ≡ now' + ttl

  abbrev HeadResult : Option (List RunLease × RunLease) → Type 0
  HeadResult none = Unit
  HeadResult (some (leases, lease)) = Fresh leases lease

  acquire-Fresh :
      (ls : List RunLease)
      → now ≤ now'
      → has_live now ls run_id ≡ false
      → HeadResult (acquire run_id owner ttl now' ls)
  unfolding acquire
  acquire-Fresh ls later idle = elim (Option-cases (find_active ls run_id)) [
    | inl none_active ↦ rw (none_active, acquire) (head ls)
    | inr (a, active) ↦
        rw (active, acquire, expired a (has_live-active now ls run_id idle active))
          (head (change_lease (λ l. record l { released_at = some now' }) ls run_id a.generation))
  ]
    where
      expired : (a : RunLease) → ltb now a.expires_at ≡ false → ltb now' a.expires_at ≡ false
      expired a h = ground arith

      fresh : RunLease
      fresh = record {
        run_id = run_id;
        owner = owner;
        generation = max_generation ls run_id + 1;
        acquired_at = now';
        heartbeat_at = none;
        expires_at = now' + ttl;
        released_at = none;
      }

      head : (rest : List RunLease) → Fresh (fresh ∷ rest) fresh
      head rest = record {
        rest = rest;
        pushed = refl;
        its = refl;
        owned = refl;
        unreleased = refl;
        until = refl;
      }

-- The fence of a claim passes the check, in the state that the claim left, until the lease ends.
abbrev AdmittedUntil : ℕ → Option RunFence × Store → Type 0
AdmittedUntil at (none, t) = Unit
AdmittedUntil at (some f, t) = is_some (admit f at t) ≡ true

claim_run-AdmittedUntil :
    (owner : String) (ttl now now' at : ℕ) (recovery : Recovery) (run : Run) (s : Store)
    → now ≤ now'
    → has_live now s.leases run.id ≡ false
    → is_some (find_run s.runs run.id) ≡ true
    → s.recovery ≡ some recovery
    → recovery.automatic_dispatch_enabled ≡ true
    → at < now' + ttl
    → AdmittedUntil at (claim_run owner ttl now now' recovery.generation run s)
unfolding claim_run admit
claim_run-AdmittedUntil owner ttl now now' at recovery run s later idle found setting enabled soon =
    elim (Option-cases (acquire run.id owner ttl now' s.leases)) [
      | inl refused ↦ rw (refused, claim_run) tt
      | inr ((leases, lease), got) ↦
          let fresh : Fresh run.id owner ttl now now' leases lease =
            subst (HeadResult run.id owner ttl now now') got
              (acquire-Fresh run.id owner ttl now now' s.leases later idle) in
          let after : Run = record run {
            status = claiming;
            version = run.version + 1;
            recovering = not (max_generation s.leases run.id == 0) && not (is_queued run.status);
          } in
          rw (got, claim_run)
            (ground (
              arith,
              find_run-save s.runs after found,
              fresh.pushed,
              fresh.its,
              fresh.owned,
              fresh.unreleased,
              fresh.until,
              setting,
              enabled,
              string_eq.same_iff owner owner,
            ))
    ]

-- If `claim` returns a fence, and its second clock reading is not before its first, `fenced`
-- lets that fence's holder in, in the state that `claim` left and at every time before the end of
-- the lease, which is a lease's length after the second reading.
pub claim-admitted :
    (owner : String) (ttl : ℕ) (capacity : Option ℕ) (mode : Option Mode) (locked : ℕ → Bool)
    (now now' at : ℕ) (s : Store) {f : RunFence} {t : Store}
    → now ≤ now'
    → claim owner ttl capacity mode locked now now' s ≡ (some f, t)
    → at < now' + ttl
    → is_some (admit f at t) ≡ true
claim-admitted owner ttl capacity mode locked now now' at s later e soon =
    subst (AdmittedUntil at) e (
      claim-elim (AdmittedUntil at) owner ttl capacity mode locked now now' s tt (λ recovery run c.
        let eligible = is_eligible mode now locked s.leases in
        claim_run-AdmittedUntil owner ttl now now' at recovery run s later
          (select_run-idle mode now locked s.leases run
            (select_run-eligible eligible s.runs c.first))
          (select_run-found eligible s.runs c.first) c.setting c.enabled soon))
