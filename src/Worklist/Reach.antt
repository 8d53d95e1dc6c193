-- ===== src/Worklist/Reach.antt =====
-- What the worklist loop has handled when it ends: exactly the entries that a walk of unblocked
-- entries leads to, and its result is empty exactly if handling each of them appends nothing.
use jarvis_development.Prelude.{
  ℕ, zero, suc, ◌≡◌, refl, Bool, true, false, List, [], ◌∷◌, ◌++◌, ◌||◌, arith, Equal, contains,
  ◌⊎◌, inl, inr, ◌↔◌, Bool-cases, or-false, List-cases, append-eq_nil, contains-cons, contains-head,
  contains-tail, subst,
}
use jarvis_development.Worklist.{push_all, Walk, round, walk, start}
use jarvis_development.Worklist.Termination.{budget, walk-budget}

module _ {A : Type 0} ⦃e : Equal A⦄ where
  pub contains-push_all :
      (xs pending : List A) (v : A)
      → (contains (push_all xs pending) v ≡ true)
        ↔ ((contains xs v ≡ true) ⊎ (contains pending v ≡ true))
  contains-push_all [] pending v = ground arith
  contains-push_all (x ∷ xs) pending v = ground (arith, contains-push_all xs (x ∷ pending) v)

  -- The entries that a walk from `source` through unblocked entries leads to.
  pub data Reaches (blocked : A → Bool) (succ : A → List A) (source : A) : A → Type 0 where
    here : blocked source ≡ false → Reaches blocked succ source source
    step :
        {u v : A}
        → Reaches blocked succ source u
        → contains (succ u) v ≡ true
        → blocked v ≡ false
        → Reaches blocked succ source v

module _ {A I : Type 0} ⦃e : Equal A⦄ (blocked : A → Bool) (succ : A → List A) (emit : A → List I)
    (source : A) where
  record Inv (seen pending : List A) (out : List I) : Type 0 where
    sound : (v : A) → contains seen v ≡ true → Reaches blocked succ source v
    queued : (v : A) → contains pending v ≡ true → blocked v ≡ false → Reaches blocked succ source v
    origin :
        blocked source ≡ false → (contains seen source ≡ true) ⊎ (contains pending source ≡ true)
    closed :
        (u v : A)
        → contains seen u ≡ true
        → contains (succ u) v ≡ true
        → blocked v ≡ false
        → (contains seen v ≡ true) ⊎ (contains pending v ≡ true)
    silent : out ≡ [] → (v : A) → contains seen v ≡ true → emit v ≡ []
    quiet : ((v : A) → contains seen v ≡ true → emit v ≡ []) → out ≡ []

  Inv-skip :
      (seen : List A) (n : A) (rest : List A) (out : List I)
      → (contains seen n || blocked n) ≡ true
      → Inv seen (n ∷ rest) out
      → Inv seen rest out
  Inv-skip seen n rest out skip h = record {
    sound = h.sound;
    queued = λ v q free. ground (arith, h.queued v);
    origin = λ free. ground (arith, h.origin free, e.same_iff n source);
    closed = λ u v m s free. ground (arith, h.closed u v m s free, e.same_iff n v);
    silent = h.silent;
    quiet = h.quiet;
  }

  Inv-visit :
      (seen : List A) (n : A) (rest : List A) (out : List I)
      → (contains seen n || blocked n) ≡ false
      → Inv seen (n ∷ rest) out
      → Inv (n ∷ seen) (push_all (succ n) rest) (out ++ emit n)
  Inv-visit seen n rest out fresh h = record {
    sound = λ v m. elim (contains-cons n v seen m) [
      | inl same ↦ subst (Reaches blocked succ source) same reached
      | inr old ↦ h.sound v old
    ];
    queued = λ v q free. elim ((contains-push_all (succ n) rest v).0 q) [
      | inl next ↦ step reached next free
      | inr old ↦ h.queued v (contains-tail n v rest old) free
    ];
    origin = λ free.
        ground (arith, h.origin free, contains-push_all (succ n) rest source, e.same_iff n source);
    closed = λ u v m s free. elim (contains-cons n u seen m) [
      | inl same ↦ ground (arith, same, contains-push_all (succ n) rest v)
      | inr old ↦
          ground (arith, h.closed u v old s free, contains-push_all (succ n) rest v, e.same_iff n v)
    ];
    silent = λ none v m. elim (contains-cons n v seen m) [
      | inl same ↦ subst (λ x. emit x ≡ []) same (append-eq_nil out (emit n) none).1
      | inr old ↦ h.silent (append-eq_nil out (emit n) none).0 v old
    ];
    quiet = λ all.
        rw (h.quiet (λ v m. all v (contains-tail n v seen m)), all n (contains-head n seen)) refl;
  }
    where
      reached : Reaches blocked succ source n
      reached = h.queued n (contains-head n rest) (or-false (contains seen n) (blocked n) fresh).1

  round-Inv :
      (seen : List A) (n : A) (rest : List A) (out : List I)
      → Inv seen (n ∷ rest) out
      → let w = round blocked succ emit seen n rest out in Inv w.seen w.pending w.out
  unfolding round
  round-Inv seen n rest out h = elim (Bool-cases (contains seen n || blocked n)) [
    | inl skip ↦ rw skip (Inv-skip seen n rest out skip h)
    | inr fresh ↦ rw fresh (Inv-visit seen n rest out fresh h)
  ]

  walk-Inv :
      (fuel : ℕ) (w : Walk A I)
      → Inv w.seen w.pending w.out
      → let t = walk blocked succ emit fuel w in Inv t.seen t.pending t.out
  unfolding walk
  walk-Inv zero w h = h
  walk-Inv (suc fuel) w h = elim (List-cases w.pending) [
    | inl empty ↦ rw (empty, walk) h
    | inr (n, rest, p) ↦
        rw (p, walk)
          (walk-Inv fuel (round blocked succ emit w.seen n rest w.out)
            (round-Inv w.seen n rest w.out (rw p at h)))
  ]

  start-Inv : let w = start blocked succ emit source in Inv w.seen w.pending w.out
  unfolding start
  start-Inv = record {
    sound = λ v m. cc;
    queued = λ v q free. elim (contains-cons source v [] q) [
      | inl same ↦ subst (Reaches blocked succ source) same (here (rw (← same) at free))
      | inr none ↦ cc
    ];
    origin = λ free. inr (contains-head source []);
    closed = λ u v m s free. cc;
    silent = λ none v m. cc;
    quiet = λ all. refl;
  }

  complete :
      (seen : List A) (out : List I)
      → Inv seen [] out
      → {v : A} → Reaches blocked succ source v
      → contains seen v ≡ true
  complete seen out h (here free) = ground (arith, h.origin free)
  complete seen out h (step {u} {v} r s free) =
      ground (arith, h.closed u v (complete seen out h r) s free)

  -- What the loop has handled when it ran to its end.
  pub record Handled (t : Walk A I) : Type 0 where
    pub exact : (v : A) → (contains t.seen v ≡ true) ↔ Reaches blocked succ source v
    pub silent : (t.out ≡ []) ↔ ((v : A) → contains t.seen v ≡ true → emit v ≡ [])

  pub walk-Handled :
      (domain : List A)
      → ((v : A) → contains domain v ≡ false → succ v ≡ [])
      → Handled (walk blocked succ emit (budget succ domain) (start blocked succ emit source))
  walk-Handled domain outside =
      let t = walk blocked succ emit (budget succ domain) (start blocked succ emit source) in
      let h = walk-Inv (budget succ domain) (start blocked succ emit source) start-Inv in
      let h' =
        subst (λ p. Inv t.seen p t.out) (walk-budget blocked succ emit domain outside source) h in
      record { exact = λ v. (h'.sound v, complete t.seen t.out h'); silent = (h'.silent, h'.quiet) }
