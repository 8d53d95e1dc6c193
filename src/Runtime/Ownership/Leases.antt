-- ===== src/Runtime/Ownership/Leases.antt =====
-- The invariant of the lease table: of one run, a newer lease has a larger generation, and every
-- older lease is released.
use jarvis_development.Prelude.{
  ℕ, ◌+◌, ◌≤◌, ◌<◌, true, false, Option, none, some, List, [], ◌∷◌, ◌≡◌, refl, inl, inr, String,
  string_eq, nat_eq, ◌==◌, arith, is_some, Bool-cases, Option-cases, ltb, subst, sym, ◌∙◌,
}
use jarvis_development.Runtime.Store.{RunLease, find_active, max_generation, change_lease}
use jarvis_development.Runtime.Ownership.{acquire}

-- The older leases of the same run are released, and of smaller generations.
abbrev pub IsNewest : ℕ → ℕ → List RunLease → Type 0
IsNewest run_id generation [] = Unit
IsNewest run_id generation (m ∷ ms) =
    (m.run_id ≡ run_id → (is_some m.released_at ≡ true) × (m.generation < generation))
    × IsNewest run_id generation ms

abbrev pub IsOrdered : List RunLease → Type 0
IsOrdered [] = Unit
IsOrdered (l ∷ ls) = IsNewest l.run_id l.generation ls × IsOrdered ls

-- With no active lease, a larger generation is the newest.
IsNewest-fresh :
    (ls : List RunLease) (run_id generation : ℕ)
    → find_active ls run_id ≡ none
    → max_generation ls run_id < generation
    → IsNewest run_id generation ls
IsNewest-fresh [] run_id generation h lt = tt
IsNewest-fresh (l ∷ ls) run_id generation h lt = ground (arith, IsNewest-fresh ls run_id generation)

-- A change of a row that keeps its key, and a release.
abbrev pub Keeps : (RunLease → RunLease) → Type 0
Keeps f =
    (l : RunLease)
    → ((f l).run_id ≡ l.run_id)
      × ((f l).generation ≡ l.generation)
      × (is_some l.released_at ≡ true → is_some (f l).released_at ≡ true)

module _ (f : RunLease → RunLease) (keeps : Keeps f) (run_id generation : ℕ) where
  IsNewest-change :
      (ls : List RunLease) (r g : ℕ)
      → IsNewest r g ls
      → IsNewest r g (change_lease f ls run_id generation)
  IsNewest-change [] r g h = tt
  IsNewest-change (l ∷ ls) r g h = ground (arith, keeps l, IsNewest-change ls r g)

  pub IsOrdered-change :
      (ls : List RunLease) → IsOrdered ls → IsOrdered (change_lease f ls run_id generation)
  IsOrdered-change [] h = tt
  IsOrdered-change (l ∷ ls) h =
      ground (arith, keeps l, IsOrdered-change ls, IsNewest-change ls l.run_id l.generation)

  pub max_generation-change :
      (ls : List RunLease) (r : ℕ)
      → max_generation (change_lease f ls run_id generation) r ≡ max_generation ls r
  max_generation-change [] r = refl
  max_generation-change (l ∷ ls) r = ground (arith, keeps l, max_generation-change ls r)

-- The active lease of a run carries the run's largest generation.
max_generation-newest :
    (ls : List RunLease) (run_id generation : ℕ)
    → IsNewest run_id generation ls
    → max_generation ls run_id ≤ generation
max_generation-newest [] run_id generation h = omega arith
max_generation-newest (m ∷ ms) run_id generation h =
    ground (arith, max_generation-newest ms run_id generation)

not_active-newest :
    (ls : List RunLease) (run_id generation : ℕ)
    → IsNewest run_id generation ls
    → find_active ls run_id ≡ none
not_active-newest [] run_id generation h = refl
not_active-newest (m ∷ ms) run_id generation h =
    ground (arith, not_active-newest ms run_id generation)

pub find_active-newest :
    (ls : List RunLease) (run_id : ℕ) {l : RunLease}
    → IsOrdered ls
    → find_active ls run_id ≡ some l
    → (l.run_id ≡ run_id)
      × (l.generation ≡ max_generation ls run_id)
      × (is_some l.released_at ≡ false)
find_active-newest [] run_id h e = cc
find_active-newest (m ∷ ms) run_id {l} h e = ground (
  arith,
  find_active-newest ms run_id {l = l},
  max_generation-newest ms m.run_id m.generation,
  not_active-newest ms m.run_id m.generation,
)

-- Releasing the active lease leaves the run without one.
released-none :
    (now : ℕ) (ls : List RunLease) (run_id : ℕ) {a : RunLease}
    → IsOrdered ls
    → find_active ls run_id ≡ some a
    → find_active
        (change_lease (λ l. record l { released_at = some now }) ls run_id a.generation)
        run_id
      ≡ none
released-none now [] run_id h e = cc
released-none now (m ∷ ms) run_id {a} h e =
    ground (arith, released-none now ms run_id {a = a}, not_active-newest ms m.run_id m.generation)

module _ (run_id : ℕ) (owner : String) (ttl now : ℕ) (ls : List RunLease) (h : IsOrdered ls) where
  -- What `acquire` returns: an ordered table, whose largest generation of the run is the lease's,
  -- and is not smaller than before; unless the caller's own live lease was extended it is larger.
  pub record Acquired (leases : List RunLease) (lease : RunLease) : Type 0 where
    pub ordered : IsOrdered leases
    pub newest : max_generation leases run_id ≡ lease.generation
    pub grown : max_generation ls run_id ≤ lease.generation
    pub held : lease.run_id ≡ run_id
    pub owned : lease.owner ≡ owner
    pub unreleased : is_some lease.released_at ≡ false
    pub others : (r : ℕ) → max_generation ls r ≤ max_generation leases r

  fresh_lease : RunLease
  fresh_lease = record {
    run_id = run_id;
    owner = owner;
    generation = max_generation ls run_id + 1;
    acquired_at = now;
    heartbeat_at = none;
    expires_at = now + ttl;
    released_at = none;
  }

  push-Acquired :
      (leases : List RunLease)
      → IsOrdered leases
      → find_active leases run_id ≡ none
      → ((r : ℕ) → max_generation leases r ≡ max_generation ls r)
      → Acquired (fresh_lease ∷ leases) fresh_lease
  unfolding fresh_lease
  push-Acquired leases ordered idle same = record {
    ordered = (
      IsNewest-fresh leases run_id (max_generation ls run_id + 1) idle (omega (arith, same run_id)),
      ordered,
    );
    newest = ground (arith, same run_id);
    grown = omega arith;
    held = refl;
    owned = refl;
    unreleased = refl;
    others = λ r. ground (arith, same r);
  }

  extends : RunLease → RunLease
  extends l = record l { expires_at = now + ttl }

  releases : RunLease → RunLease
  releases l = record l { released_at = some now }

  extended-Acquired :
      (a : RunLease)
      → find_active ls run_id ≡ some a
      → (a.owner == owner) ≡ true
      → Acquired (change_lease extends ls run_id a.generation) (extends a)
  unfolding extends
  extended-Acquired a active mine =
      let (held, newest, open_a) = find_active-newest ls run_id h active in
      let keeps : Keeps extends = λ l. (refl, refl, λ r. r) in
      let same = max_generation-change extends keeps run_id a.generation ls in
      record {
        ordered = IsOrdered-change extends keeps run_id a.generation ls h;
        newest = same run_id ∙ sym newest;
        grown = omega arith;
        held = held;
        owned = (string_eq.same_iff a.owner owner).0 mine;
        unreleased = open_a;
        others = λ r. omega (arith, same r);
      }

  taken-Acquired :
      (a : RunLease)
      → find_active ls run_id ≡ some a
      → Acquired (fresh_lease ∷ change_lease releases ls run_id a.generation) fresh_lease
  unfolding releases
  taken-Acquired a active =
      let keeps : Keeps releases = λ l. (refl, refl, λ r. refl) in
      push-Acquired (change_lease releases ls run_id a.generation)
        (IsOrdered-change releases keeps run_id a.generation ls h)
        (released-none now ls run_id h active)
        (max_generation-change releases keeps run_id a.generation ls)

  abbrev AcquiredResult : Option (List RunLease × RunLease) → Type 0
  AcquiredResult none = Unit
  AcquiredResult (some (leases, lease)) = Acquired leases lease

  acquire-result : AcquiredResult (acquire run_id owner ttl now ls)
  unfolding acquire fresh_lease extends releases
  acquire-result = elim (Option-cases (find_active ls run_id)) [
    | inl idle ↦ rw (idle, acquire) (push-Acquired ls h idle (λ r. refl))
    | inr (a, active) ↦
        rw (active, acquire)
          (elim (Bool-cases (ltb now a.expires_at)) [
            | inr expired ↦ rw expired (taken-Acquired a active)
            | inl live ↦ rw live (elim (Bool-cases (a.owner == owner)) [
              | inl mine ↦ rw mine (extended-Acquired a active mine)
              | inr other ↦ rw other tt
            ])
          ])
  ]

  pub acquire-Acquired :
      {leases : List RunLease} {lease : RunLease}
      → acquire run_id owner ttl now ls ≡ some (leases, lease)
      → Acquired leases lease
  acquire-Acquired e = subst AcquiredResult e acquire-result
