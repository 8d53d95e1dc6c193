-- ===== src/Runtime/Ownership/Fencing.antt =====
-- Fencing: who passes the check of `fenced`, and who never again does.
use mathlib.Core.Option.{some-injective}
use jarvis_development.Prelude.{
  ℕ, ◌+◌, ◌≤◌, ◌<◌, Option, none, some, ◌≡◌, refl, inl, inr, string_eq, nat_eq, ◌==◌, arith,
  Bool-cases, Option-cases, subst,
}
use jarvis_development.Runtime.Store.{
  Run, RunLease, Store, find_active, max_generation, change_lease, find_lease,
}
use jarvis_development.Runtime.Ownership.{RunFence, admit, fenced, renew, release, release_in}
use jarvis_development.Runtime.Ownership.Leases.{
  IsOrdered, IsOrdered-change, max_generation-change, find_active-newest, Keeps,
}

-- What the check at the head of `fenced` ensures.
pub record Admitted (fence : RunFence) (now : ℕ) (s : Store) (lease : RunLease) : Type 0 where
  pub active : find_active s.leases fence.run_id ≡ some lease
  pub owner : lease.owner ≡ fence.owner
  pub generation : lease.generation ≡ fence.generation
  pub unexpired : now < lease.expires_at

admit-Admitted :
    (fence : RunFence) (now : ℕ) (s : Store) {run : Run} {lease : RunLease}
    → admit fence now s ≡ some (run, lease)
    → Admitted fence now s lease
unfolding admit
admit-Admitted fence now s {run} {lease} e =
    ground (arith, string_eq.same_iff lease.owner fence.owner)

-- An executor that passes holds the newest generation of its run.
pub admit-newest :
    (fence : RunFence) (now : ℕ) (s : Store) {run : Run} {lease : RunLease}
    → IsOrdered s.leases
    → admit fence now s ≡ some (run, lease)
    → fence.generation ≡ max_generation s.leases fence.run_id
admit-newest fence now s {run} {lease} h e =
    let a = admit-Admitted fence now s e in
    let facts = find_active-newest s.leases fence.run_id h a.active in
    omega (arith, a.generation, facts.1)

-- In one state all executors that pass for a run hold the same lease.
pub admit_unique :
    (f g : RunFence) (now now' : ℕ) (s : Store) {r r' : Run} {l l' : RunLease}
    → f.run_id ≡ g.run_id
    → admit f now s ≡ some (r, l)
    → admit g now' s ≡ some (r', l')
    → (f.owner ≡ g.owner) × (f.generation ≡ g.generation)
admit_unique f g now now' s {l = l} {l' = l'} same e e' =
    let a = admit-Admitted f now s e in
    let b = admit-Admitted g now' s e' in
    ground (arith, a.active, b.active, a.owner, b.owner, a.generation, b.generation)

-- What a transaction keeps of the lease table: its order, and every generation handed out.
pub record Kept (s t : Store) : Type 0 where
  pub ordered : IsOrdered t.leases
  pub grown : (r : ℕ) → max_generation s.leases r ≤ max_generation t.leases r

fenced-body :
    (fence : RunFence) (now now' : ℕ) (body : Run → Store → Option Store) (s : Store) {t : Store}
    → fenced fence now now' body s ≡ some t
    → (run : Run) × (lease : RunLease) × (admit fence now s ≡ some (run, lease))
      × (body run s ≡ some t)
unfolding fenced
fenced-body fence now now' body s e = elim (Option-cases (admit fence now s)) [
  | inl refused ↦ ground arith
  | inr ((run, lease), ok) ↦ (run, lease, ok, ground arith)
]

change-Kept :
    (f : RunLease → RunLease) (keeps : Keeps f) (run_id generation : ℕ) (s : Store)
    → IsOrdered s.leases
    → Kept s (record s { leases = change_lease f s.leases run_id generation })
change-Kept f keeps run_id generation s h = record {
  ordered = IsOrdered-change f keeps run_id generation s.leases h;
  grown = λ r. omega (arith, max_generation-change f keeps run_id generation s.leases r);
}

pub renew-Kept :
    (fence : RunFence) (ttl now beat base now' : ℕ) (s : Store) {t : Store}
    → IsOrdered s.leases
    → renew fence ttl now beat base now' s ≡ some t
    → Kept s t
unfolding renew
renew-Kept fence ttl now beat base now' s {t} h e =
    let extends =
      λ (l : RunLease). record l { heartbeat_at = some beat; expires_at = base + ttl } in
    let keeps : Keeps extends = λ l. (refl, refl, λ r. r) in
    let body : Run → Store → Option Store = λ run s.
      some (record s { leases = change_lease extends s.leases fence.run_id fence.generation }) in
    let (run, lease, ok, done) = fenced-body fence now now' body s e in
    subst (Kept s)
      (some-injective
        (record s { leases = change_lease extends s.leases fence.run_id fence.generation }) t done)
      (change-Kept extends keeps fence.run_id fence.generation s h)

abbrev KeptResult : Store → Option Store → Type 0
KeptResult s none = Unit
KeptResult s (some t) = Kept s t

release_in-Kept :
    (fence : RunFence) (at : ℕ) (run : Run) (s : Store)
    → IsOrdered s.leases
    → KeptResult s (release_in fence at run s)
unfolding release_in
release_in-Kept fence at run s h =
    let releases = λ (l : RunLease). record l { released_at = some at } in
    let keeps : Keeps releases = λ l. (refl, refl, λ r. refl) in
    let kept = change-Kept releases keeps fence.run_id fence.generation s h in
    elim (Option-cases (find_lease s.leases fence.run_id fence.generation)) [
      | inl missing ↦ rw (missing, release_in) tt
      | inr (lease, found) ↦
          rw (found, release_in)
            (elim (Bool-cases (lease.owner == fence.owner)) [
              | inl mine ↦ rw mine kept
              | inr other ↦ rw other tt
            ])
    ]

pub release-Kept :
    (fence : RunFence) (now at now' : ℕ) (s : Store) {t : Store}
    → IsOrdered s.leases
    → release fence now at now' s ≡ some t
    → Kept s t
unfolding release
release-Kept fence now at now' s h e =
    let (run, lease, ok, done) = fenced-body fence now now' (release_in fence at) s e in
    subst (KeptResult s) done (release_in-Kept fence at run s h)
