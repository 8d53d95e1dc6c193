-- ===== src/Runtime/Approvals/Events.antt =====
-- How the event log of approvals reads after events are appended.
use jarvis_development.Prelude.{
  ℕ, false, Option, none, some, List, [], ◌∷◌, ◌++◌, nat_eq, ◌≡◌, refl, arith, if◌then◌else◌,
}
use jarvis_development.Runtime.Approvals.{
  ApprovalDecision, Requested, Event, requested_of, find_request,
}
use jarvis_development.Runtime.Approvals.Steps.{concerns, decision_in, replay_events, Elsewhere}

module _ (run_id id : ℕ) where
  pub replay_events-append :
      (xs ys : List Event) (before : Option ApprovalDecision)
      → replay_events run_id id (xs ++ ys) before
        ≡ replay_events run_id id ys (replay_events run_id id xs before)
  unfolding replay_events
  replay_events-append [] ys before = refl
  replay_events-append (x ∷ xs) ys before = replay_events-append xs ys _

  pub replay_events-event :
      (xs : List Event) (event : Event) (before : Option ApprovalDecision)
      → replay_events run_id id (xs ++ (event ∷ [])) before ≡ (
          if concerns run_id id event
          then some (decision_in event.payload)
          else replay_events run_id id xs before)
  unfolding replay_events
  replay_events-event xs event before = replay_events-append xs (event ∷ []) before

  pub replay_events-Elsewhere :
      (xs : List Event) (before : Option ApprovalDecision)
      → Elsewhere run_id xs
      → replay_events run_id id xs before ≡ before
  unfolding replay_events
  replay_events-Elsewhere [] before h = refl
  replay_events-Elsewhere (x ∷ xs) before (h, rest) =
      ground (arith, h id, replay_events-Elsewhere xs before rest)

  pub find_request-append :
      (xs ys : List Event) {r : Requested}
      → find_request run_id id xs ≡ some r
      → find_request run_id id (xs ++ ys) ≡ some r
  unfolding find_request
  find_request-append [] ys h = cc
  find_request-append (x ∷ xs) ys {r} h = ground (arith, h, find_request-append xs ys {r = r})

  pub find_request-skip :
      (xs ys : List Event)
      → find_request run_id id xs ≡ none
      → find_request run_id id (xs ++ ys) ≡ find_request run_id id ys
  unfolding find_request
  find_request-skip [] ys h = refl
  find_request-skip (x ∷ xs) ys h = ground (arith, h, find_request-skip xs ys)

  requested_of-none : (x : Event) → concerns run_id id x ≡ false → requested_of run_id id x ≡ none
  unfolding concerns requested_of
  requested_of-none x h = ground (arith, h)

  pub find_request-Elsewhere :
      (xs : List Event) → Elsewhere run_id xs → find_request run_id id xs ≡ none
  unfolding find_request
  find_request-Elsewhere [] h = refl
  find_request-Elsewhere (x ∷ xs) (h, rest) =
      ground (arith, requested_of-none x (h id), find_request-Elsewhere xs rest)
