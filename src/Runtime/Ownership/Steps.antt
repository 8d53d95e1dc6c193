-- ===== src/Runtime/Ownership/Steps.antt =====
-- The transactions that write lease rows, and the states that a sequence of them leads to.
use jarvis_development.Prelude.{
  ℕ, ◌≤◌, ◌<◌, Bool, Option, none, some, ◌≡◌, refl, inl, inr, String, arith, Option-cases, subst,
  sym,
}
use jarvis_development.Runtime.Store.{Mode, Store, max_generation}
use jarvis_development.Runtime.Ownership.{RunFence, claim, admit, renew, release}
use jarvis_development.Runtime.Ownership.Leases.{IsOrdered}
use jarvis_development.Runtime.Ownership.Fencing.{Kept, admit-newest, renew-Kept, release-Kept}
use jarvis_development.Runtime.Ownership.Claims.{ClaimResult, claim-result}

-- One transaction: a claim by any executor, a renewal, a release, or any other one, which leaves
-- the lease rows as they are.
pub data Step : Store → Store → Type 0 where
  claims :
      {s t : Store} (owner : String) (ttl : ℕ) (capacity : Option ℕ) (mode : Option Mode)
      (locked : ℕ → Bool) (now now' : ℕ)
      → now ≤ now'
      → (claim owner ttl capacity mode locked now now' s).1 ≡ t
      → Step s t
  renews :
      {s t : Store} (fence : RunFence) (ttl now beat base now' : ℕ)
      → renew fence ttl now beat base now' s ≡ some t
      → Step s t
  releases :
      {s t : Store} (fence : RunFence) (now at now' : ℕ)
      → release fence now at now' s ≡ some t
      → Step s t
  others : {s t : Store} → t.leases ≡ s.leases → Step s t

pub data Later : Store → Store → Type 0 where
  done : {s t : Store} → s ≡ t → Later s t
  next : {s t u : Store} → Step s u → Later u t → Later s t

same-Kept : (s t : Store) → IsOrdered s.leases → s.leases ≡ t.leases → Kept s t
same-Kept s t h e = record {
  ordered = subst IsOrdered e h;
  grown = λ r. subst (λ ls. max_generation s.leases r ≤ max_generation ls r) e (omega arith);
}

ClaimResult-Kept :
    (s : Store) (result : Option RunFence × Store)
    → IsOrdered s.leases
    → ClaimResult s result
    → Kept s result.1
ClaimResult-Kept s (none, t) h e = subst (Kept s) (sym e) (same-Kept s s h refl)
ClaimResult-Kept s (some f, t) h r = r.0

Step-Kept : {s t : Store} → IsOrdered s.leases → Step s t → Kept s t
Step-Kept {s} h (claims owner ttl capacity mode locked now now' later e) = subst (Kept s) e (
    ClaimResult-Kept s (claim owner ttl capacity mode locked now now' s) h
      (claim-result owner ttl capacity mode locked now now' s h later))
Step-Kept {s} h (renews fence ttl now beat base now' e) =
    renew-Kept fence ttl now beat base now' s h e
Step-Kept {s} h (releases fence now at now' e) = release-Kept fence now at now' s h e
Step-Kept {s} {t} h (others e) = same-Kept s t h (sym e)

pub Later-Kept : {s t : Store} → IsOrdered s.leases → Later s t → Kept s t
Later-Kept {s} {t} h (done e) = subst (Kept s) e (same-Kept s s h refl)
Later-Kept {s} {t} h (next step rest) =
    let first = Step-Kept h step in
    let then = Later-Kept first.ordered rest in
    record { ordered = then.ordered; grown = λ r. omega (arith, first.grown r, then.grown r) }

module _ (owner : String) (ttl : ℕ) (capacity : Option ℕ) (mode : Option Mode) (locked : ℕ → Bool)
    (now now' : ℕ) where
  pub claimed :
      {s t : Store} {f : RunFence}
      → IsOrdered s.leases
      → now ≤ now'
      → claim owner ttl capacity mode locked now now' s ≡ (some f, t)
      → ClaimResult s (some f, t)
  claimed {s} h later e =
      subst (ClaimResult s) e (claim-result owner ttl capacity mode locked now now' s h later)

refused :
    (f : RunFence) (at : ℕ) (s : Store)
    → IsOrdered s.leases
    → f.generation < max_generation s.leases f.run_id
    → admit f at s ≡ none
refused f at s h lt = elim (Option-cases (admit f at s)) [
  | inl never ↦ never
  | inr ((run, lease), admitted) ↦ let newest = admit-newest f at s h admitted in grind arith
]

-- If a claim returned the fence `f` and, after any transactions, a second claim returned a fence
-- of the same run, then `f` has the smaller generation, and in every later state `fenced` refuses
-- it, at all times. The lease table starts in order, and the clock does not run backwards within
-- a claim.
pub claim_supersedes :
    (owner owner' : String) (ttl ttl' : ℕ) (capacity capacity' : Option ℕ)
    (mode mode' : Option Mode) (locked locked' : ℕ → Bool) (c c' d d' at : ℕ) (s : Store)
    {t u v w : Store} {f g : RunFence}
    → IsOrdered s.leases
    → c ≤ c'
    → d ≤ d'
    → claim owner ttl capacity mode locked c c' s ≡ (some f, t)
    → Later t u
    → claim owner' ttl' capacity' mode' locked' d d' u ≡ (some g, v)
    → g.run_id ≡ f.run_id
    → Later v w
    → (f.generation < g.generation) × (admit f at w ≡ none)
claim_supersedes owner owner' ttl ttl' capacity capacity' mode mode' locked locked' c c' d d' at s
      {t} {u} {v} {w} {f} {g} h le le' first between second same after =
    let (kept, newest, _) = claimed owner ttl capacity mode locked c c' h le first in
    let kept_between = Later-Kept kept.ordered between in
    let (kept', newest', larger) =
      claimed owner' ttl' capacity' mode' locked' d d' kept_between.ordered le' second in
    let kept_after = Later-Kept kept'.ordered after in
    let larger_f : max_generation u.leases f.run_id < g.generation =
      subst (λ r. max_generation u.leases r < g.generation) same larger in
    let newest_f : g.generation ≡ max_generation v.leases f.run_id =
      subst (λ r. g.generation ≡ max_generation v.leases r) same newest' in
    let grown = kept_between.grown f.run_id in
    let grown_after = kept_after.grown f.run_id in
    (omega arith, refused f at w kept_after.ordered (omega arith))
