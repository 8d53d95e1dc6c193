-- ===== src/Worklist/Termination.antt =====
-- The worklist loop ends: the fuel `budget` is enough.
use jarvis_development.Prelude.{
  ℕ, zero, suc, ◌+◌, ◌≤◌, ◌≡◌, Bool, true, false, List, [], ◌∷◌, ◌||◌, arith, if◌then◌else◌, Equal,
  contains, length, inl, inr, Bool-cases, or-false, List-cases, ap, ◌==◌, ==-refl,
}
use jarvis_development.Worklist.{push_all, Walk, round, walk, start}

pub length-push_all {ℓ} :
    {A : Type ℓ} (xs pending : List A) → length (push_all xs pending) ≡ length xs + length pending
length-push_all [] pending = omega arith
length-push_all (x ∷ xs) pending = omega (arith, length-push_all xs (x ∷ pending))

module _ {A : Type 0} ⦃e : Equal A⦄ (succ : A → List A) where
  -- What the entries of `domain` that are not yet handled can still push.
  abbrev pub weight : List A → List A → ℕ
  weight domain seen = elim domain [
    | [] ↦ 0
    | x ∷ (xs → rest) ↦ (if contains seen x then 0 else length (succ x)) + rest
  ]

  -- Rounds that are enough from a single pending entry.
  unfoldable pub budget : List A → ℕ
  budget domain = suc (weight domain [])

  weight_mono : (domain seen : List A) (n : A) → weight domain (n ∷ seen) ≤ weight domain seen
  weight_mono [] seen n = omega arith
  weight_mono (x ∷ xs) seen n = ground (arith, weight_mono xs seen n)

  weight_drop :
      (domain seen : List A) (n : A)
      → contains domain n ≡ true
      → contains seen n ≡ false
      → length (succ n) + weight domain (n ∷ seen) ≤ weight domain seen
  weight_drop [] seen n h new = ground arith
  weight_drop (x ∷ xs) seen n h new = elim (Bool-cases (x == n)) [
    | inl same ↦
        let p = (e.same_iff x n).0 same in ground (arith, p, ==-refl n, weight_mono xs seen n)
    | inr other ↦ ground (arith, e.same_iff x n, e.same_iff n x, weight_drop xs seen n)
  ]

module _ {A I : Type 0} ⦃e : Equal A⦄ (blocked : A → Bool) (succ : A → List A) (emit : A → List I)
    (domain : List A) (outside : (v : A) → contains domain v ≡ false → succ v ≡ []) where
  abbrev work : List A → List A → ℕ
  work seen pending = length pending + weight succ domain seen

  round-work_lt :
      (seen : List A) (n : A) (rest : List A) (out : List I)
      → let w = round blocked succ emit seen n rest out in
        suc (work w.seen w.pending) ≤ work seen (n ∷ rest)
  unfolding round
  round-work_lt seen n rest out = elim (Bool-cases (contains seen n || blocked n)) [
    | inl skip ↦ rw skip (omega arith)
    | inr fresh ↦ rw fresh (pushed (or-false (contains seen n) (blocked n) fresh).0)
  ]
    where
      pushed :
          contains seen n ≡ false
          → suc (work (n ∷ seen) (push_all (succ n) rest)) ≤ work seen (n ∷ rest)
      pushed new = elim (Bool-cases (contains domain n)) [
        | inl known ↦
            omega (arith, length-push_all (succ n) rest, weight_drop succ domain seen n known new)
        | inr other ↦ omega (
          arith,
          length-push_all (succ n) rest,
          weight_mono succ domain seen n,
          ap length (outside n other),
        )
      ]

  -- With the work left as fuel the loop ends by its own test.
  pub walk_ends :
      (fuel : ℕ) (w : Walk A I)
      → work w.seen w.pending ≤ fuel
      → (walk blocked succ emit fuel w).pending ≡ []
  unfolding walk
  walk_ends zero w h = elim (List-cases w.pending) [
    | inl empty ↦ empty
    | inr (n, rest, p) ↦ absurd (omega (arith, ap length p))
  ]
  walk_ends (suc fuel) w h = elim (List-cases w.pending) [
    | inl empty ↦ rw (empty, walk) empty
    | inr (n, rest, p) ↦
        rw (p, walk)
          (walk_ends fuel (round blocked succ emit w.seen n rest w.out)
            (omega (arith, round-work_lt w.seen n rest w.out, ap length p)))
  ]

  -- From one entry `budget` rounds are enough.
  pub walk-budget :
      (n : A)
      → (walk blocked succ emit (budget succ domain) (start blocked succ emit n)).pending ≡ []
  unfolding start budget
  walk-budget n = walk_ends (budget succ domain) (start blocked succ emit n) (omega arith)
