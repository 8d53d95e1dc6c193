-- ===== src/RouteChoice/Selection.antt =====
-- Which candidate `resolve_route` selects.
use jarvis_development.Prelude.{
  ℕ, true, List, [], ◌∷◌, Option, none, some, ◌≡◌, ◌≢◌, refl, inl, inr, string_eq, nat_eq, Dict,
  All, arith,
}
use jarvis_development.Contracts.Failures.{class_eq}
use jarvis_development.Contracts.Registry.{
  data_eq, RouteCandidate, RoutePolicySpec, RegistryRecord, RoutePreviewRequest,
}
use jarvis_development.RouteChoice.Candidates.{
  Choice, Check, CandidateReason, precedes, sort_candidates, take_first, candidate_check,
  route_walk,
}
use jarvis_development.RouteChoice.Sorted.{
  IsSorted, sort-IsSorted, All-of_sort, Listed, Listed-of_sort,
}
use jarvis_development.RouteChoice.Eligible.{IsEligible, Clear, candidate_check-Clear}

precedes_refl : (c : RouteCandidate) → precedes c c ≡ true
precedes_refl c = ground arith

module _ (request : RoutePreviewRequest) (spec : RoutePolicySpec)
    (records : Dict ℕ RegistryRecord) where
  abbrev reasons_of : RouteCandidate → List CandidateReason
  reasons_of c = (candidate_check request spec records c).0

  -- The selected candidate is one of the list, it is eligible with the rows of the choice, and
  -- precedes every candidate without reasons.
  pub record IsBest (cs : List RouteCandidate) (choice : Choice) : Type 0 where
    pub candidate : RouteCandidate
    pub listed : Listed candidate cs
    pub eligible : IsEligible request spec records candidate choice
    pub first :
        All (λ d. (candidate_check request spec records d).0 ≡ [] → precedes candidate d ≡ true) cs

  -- What the loop leaves in `selected`.
  abbrev pub Outcome : List RouteCandidate → Option Choice → Type 0
  Outcome cs none = All (λ d. (candidate_check request spec records d).0 ≢ []) cs
  Outcome cs (some choice) = IsBest cs choice

  walk-keeps :
      (choice : Choice) (cs : List RouteCandidate)
      → (route_walk request spec records (some choice) cs).1 ≡ some choice
  unfolding route_walk
  walk-keeps choice [] = refl
  walk-keeps choice (c ∷ cs) = walk-keeps choice cs

  sorted-first :
      (c : RouteCandidate) (cs : List RouteCandidate)
      → All (λ d. precedes c d ≡ true) cs
      → All (λ d. reasons_of d ≡ [] → precedes c d ≡ true) cs
  sorted-first c [] s = tt
  sorted-first c (d ∷ ds) s = ((λ clear. s.0), sorted-first c ds s.1)

  Outcome-skip :
      (c : RouteCandidate) (cs : List RouteCandidate) (found : Option Choice)
      → reasons_of c ≢ []
      → Outcome cs found
      → Outcome (c ∷ cs) found
  Outcome-skip c cs none reason o = (reason, o)
  Outcome-skip c cs (some choice) reason o = record {
    candidate = o.candidate;
    listed = inr o.listed;
    eligible = o.eligible;
    first = ((λ clear. absurd (reason clear)), o.first);
  }

  -- The step of the loop for one candidate, by what its check finds.
  Outcome-step :
      (c : RouteCandidate) (cs : List RouteCandidate) (check : Check)
      → candidate_check request spec records c ≡ check
      → Clear (IsEligible request spec records c) check
      → All (λ d. precedes c d ≡ true) cs
      → Outcome cs (route_walk request spec records none cs).1
      → Outcome (c ∷ cs) (route_walk request spec records (take_first none check) cs).1
  Outcome-step c cs ([], none) e h s o = absurd h
  Outcome-step c cs ([], some choice) e h s o = rw (walk-keeps choice cs) (record {
    candidate = c;
    listed = inl refl;
    eligible = h;
    first = ((λ clear. precedes_refl c), sorted-first c cs s);
  })
  Outcome-step c cs (reason ∷ reasons, found) e h s o = Outcome-skip c cs _ (λ clear. cc) o

  walk-Outcome :
      (cs : List RouteCandidate)
      → IsSorted cs
      → Outcome cs (route_walk request spec records none cs).1
  unfolding route_walk
  walk-Outcome [] s = tt
  walk-Outcome (c ∷ cs) s =
      Outcome-step c cs (candidate_check request spec records c) refl
        (candidate_check-Clear request spec records c) s.0 (walk-Outcome cs s.1)

  Outcome-sort :
      (cs : List RouteCandidate) (found : Option Choice)
      → Outcome (sort_candidates cs) found
      → Outcome cs found
  Outcome-sort cs none o = All-of_sort _ cs o
  Outcome-sort cs (some choice) o = record {
    candidate = o.candidate;
    listed = Listed-of_sort o.candidate cs o.listed;
    eligible = o.eligible;
    first = All-of_sort _ cs o.first;
  }

  -- The loop over the sorted candidates selects none if every candidate of the route has a reason
  -- against it. Otherwise it selects an eligible candidate, with the profile and the provider that it
  -- names, and no candidate without reasons comes before it by priority and id.
  pub route_walk-Outcome :
      Outcome spec.candidates
        (route_walk request spec records none (sort_candidates spec.candidates)).1
  route_walk-Outcome =
      Outcome-sort spec.candidates _ (walk-Outcome _ (sort-IsSorted spec.candidates))
