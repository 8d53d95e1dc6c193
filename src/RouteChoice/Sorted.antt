-- ===== src/RouteChoice/Sorted.antt =====
-- The order in which `resolve_route` tries the candidates.
use jarvis_development.Prelude.{
  true, false, List, [], ◌∷◌, ◌≡◌, ◌⊎◌, inl, inr, nat_eq, Bool-cases, All, arith,
}
use jarvis_development.Contracts.Registry.{RouteCandidate}
use jarvis_development.RouteChoice.Candidates.{precedes, insert_candidate, sort_candidates}

-- Every candidate precedes those after it.
abbrev pub IsSorted : List RouteCandidate → Type 0
IsSorted [] = Unit
IsSorted (c ∷ cs) = All (λ d. precedes c d ≡ true) cs × IsSorted cs

precedes_total : (c d : RouteCandidate) → precedes c d ≡ false → precedes d c ≡ true
precedes_total c d h = ground arith

precedes_trans :
    (b c d : RouteCandidate) → precedes b c ≡ true → precedes c d ≡ true → precedes b d ≡ true
precedes_trans b c d h k = ground arith

module _ {ℓ} (P : RouteCandidate → Type ℓ) where
  All-insert :
      (c : RouteCandidate) (cs : List RouteCandidate)
      → P c
      → All P cs
      → All P (insert_candidate c cs)
  unfolding insert_candidate
  All-insert c [] p ps = (p, tt)
  All-insert c (d ∷ ds) p ps = elim (Bool-cases (precedes c d)) [
    | inl first ↦ rw first (p, ps)
    | inr later ↦ rw later (ps.0, All-insert c ds p ps.1)
  ]

  All-of_insert :
      (c : RouteCandidate) (cs : List RouteCandidate)
      → All P (insert_candidate c cs)
      → P c × All P cs
  unfolding insert_candidate
  All-of_insert c [] ps = (ps.0, tt)
  All-of_insert c (d ∷ ds) ps = elim (Bool-cases (precedes c d)) [
    | inl first ↦ rw first at ps
    | inr later ↦
        let qs = rw later at ps in let (p, rest) = All-of_insert c ds qs.1 in (p, (qs.0, rest))
  ]

  -- Sorting keeps every candidate.
  pub All-of_sort : (cs : List RouteCandidate) → All P (sort_candidates cs) → All P cs
  unfolding sort_candidates
  All-of_sort [] ps = tt
  All-of_sort (c ∷ cs) ps =
      let (p, rest) = All-of_insert c (sort_candidates cs) ps in (p, All-of_sort cs rest)

  -- Sorting adds no candidate.
  pub All-sort : (cs : List RouteCandidate) → All P cs → All P (sort_candidates cs)
  unfolding sort_candidates
  All-sort [] ps = tt
  All-sort (c ∷ cs) ps = All-insert c (sort_candidates cs) ps.0 (All-sort cs ps.1)

All-trans :
    (c d : RouteCandidate) (cs : List RouteCandidate)
    → precedes c d ≡ true
    → All (λ e. precedes d e ≡ true) cs
    → All (λ e. precedes c e ≡ true) cs
All-trans c d [] h ps = tt
All-trans c d (e ∷ es) h ps = (precedes_trans c d e h ps.0, All-trans c d es h ps.1)

insert-IsSorted :
    (c : RouteCandidate) (cs : List RouteCandidate) → IsSorted cs → IsSorted (insert_candidate c cs)
unfolding insert_candidate
insert-IsSorted c [] s = (tt, tt)
insert-IsSorted c (d ∷ ds) s = elim (Bool-cases (precedes c d)) [
  | inl first ↦ rw first ((first, All-trans c d ds first s.0), s)
  | inr later ↦ rw later (
    All-insert (λ e. precedes d e ≡ true) c ds (precedes_total c d later) s.0,
    insert-IsSorted c ds s.1,
  )
]

pub sort-IsSorted : (cs : List RouteCandidate) → IsSorted (sort_candidates cs)
unfolding sort_candidates
sort-IsSorted [] = tt
sort-IsSorted (c ∷ cs) = insert-IsSorted c (sort_candidates cs) (sort-IsSorted cs)

-- The candidate is one of the list.
abbrev pub Listed : RouteCandidate → List RouteCandidate → Type 0
Listed c [] = ⊥
Listed c (d ∷ ds) = (d ≡ c) ⊎ Listed c ds

Listed-of_insert :
    (b c : RouteCandidate) (cs : List RouteCandidate)
    → Listed b (insert_candidate c cs)
    → (c ≡ b) ⊎ Listed b cs
unfolding insert_candidate
Listed-of_insert b c [] h = h
Listed-of_insert b c (d ∷ ds) h = elim (Bool-cases (precedes c d)) [
  | inl first ↦ rw first at h
  | inr later ↦ elim (rw later at h) [
    | inl here ↦ inr (inl here)
    | inr there ↦ elim (Listed-of_insert b c ds there) [
      | inl same ↦ inl same
      | inr rest ↦ inr (inr rest)
    ]
  ]
]

pub Listed-of_sort :
    (b : RouteCandidate) (cs : List RouteCandidate) → Listed b (sort_candidates cs) → Listed b cs
unfolding sort_candidates
Listed-of_sort b [] h = h
Listed-of_sort b (c ∷ cs) h = elim (Listed-of_insert b c (sort_candidates cs) h) [
  | inl same ↦ inl same
  | inr rest ↦ inr (Listed-of_sort b cs rest)
]
