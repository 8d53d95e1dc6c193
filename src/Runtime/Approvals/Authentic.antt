-- ===== src/Runtime/Approvals/Authentic.antt =====
-- Every approval of a run keeps its request event.
use jarvis_development.Prelude.{
  ℕ, true, false, Option, none, some, List, [], ◌∷◌, ◌++◌, get, put, get-put, get-put_cases, String,
  string_eq, nat_eq, ◌==◌, ◌≡◌, refl, sym, ◌∙◌, subst, ap, inl, inr, Option-cases, arith, ==-refl,
}
use jarvis_development.Contracts.Workflow.{
  ActionType, github_push_and_pr, git_integrate, worker_execute,
}
use jarvis_development.Runtime.Approvals.{
  ApprovalDecision, Parameters, Approval, Rows, Requested, Event, approval_requested, requested_of,
  find_request, matches_request, validate_request_event, sha256_digest, same_action, same_time,
}
use jarvis_development.Runtime.Approvals.Requests.{event_of, append_event}
use jarvis_development.Runtime.Approvals.Steps.{settled, Change, keeps, adds, settles}
use jarvis_development.Runtime.Approvals.Events.{
  find_request-append, find_request-skip, find_request-Elsewhere,
}

-- A request event of the run is about an approval of its row.
abbrev pub IsProjected : Rows → Type 0
IsProjected s = (id : ℕ) → get s.approvals id ≡ none → find_request s.run.id id s.events ≡ none

same_action_refl : (a : ActionType) → same_action a a ≡ true
same_action_refl github_push_and_pr = refl
same_action_refl git_integrate = refl
same_action_refl worker_execute = refl

same_time_refl : (t : Option ℕ) → same_time t t ≡ true
same_time_refl none = refl
same_time_refl (some n) = ==-refl n

get-put-none :
    (d : List (ℕ × Approval)) (k j : ℕ) (a : Approval)
    → get (put d k a) j ≡ none
    → (get d j ≡ none) × ((k == j) ≡ false)
get-put-none d k j a h = ground (arith, h, get-put d k j a)

requested_of-own :
    (run_id : ℕ) (r : Requested)
    → requested_of run_id r.approval_id (record { run_id = run_id; payload = approval_requested r })
      ≡ some r
unfolding requested_of
requested_of-own run_id r = ground (arith, ==-refl run_id, ==-refl r.approval_id)

requested_of-other :
    (run_id j : ℕ) (r : Requested)
    → (r.approval_id == j) ≡ false
    → requested_of run_id j (record { run_id = run_id; payload = approval_requested r }) ≡ none
unfolding requested_of
requested_of-other run_id j r h = ground (arith, h)

find_request-last :
    (run_id id : ℕ) (event : Event)
    → find_request run_id id (event ∷ []) ≡ requested_of run_id id event
unfolding find_request
find_request-last run_id id event = elim (Option-cases (requested_of run_id id event)) [
  | inl e ↦ rw (e, find_request) refl
  | inr (r, e) ↦ rw (e, find_request) refl
]

module _ (canonical_json : Parameters → String) (sha256 : String → String) where
  -- Every approval of the row passes `validate_request_event`.
  abbrev pub IsAuthentic : Rows → Type 0
  IsAuthentic s =
      (id : ℕ) (a : Approval)
      → get s.approvals id ≡ some a
      → validate_request_event canonical_json sha256 s.events a ≡ true

  validated :
      (xs : List Event) (a : Approval) {r : Requested}
      → find_request a.run_id a.id xs ≡ some r
      → matches_request canonical_json sha256 a r ≡ true
      → validate_request_event canonical_json sha256 xs a ≡ true
  unfolding validate_request_event
  validated xs a e m = rw (e, validate_request_event) m

  pub validate-found :
      (xs : List Event) (a : Approval)
      → validate_request_event canonical_json sha256 xs a ≡ true
      → (r : Requested) × (find_request a.run_id a.id xs ≡ some r)
        × (matches_request canonical_json sha256 a r ≡ true)
  unfolding validate_request_event
  validate-found xs a h = elim (Option-cases (find_request a.run_id a.id xs)) [
    | inl e ↦ absurd (ground (arith, h, e))
    | inr (r, e) ↦ (r, e, ground (arith, h, e))
  ]

  validate-append :
      (xs ys : List Event) (a : Approval)
      → validate_request_event canonical_json sha256 xs a ≡ true
      → validate_request_event canonical_json sha256 (xs ++ ys) a ≡ true
  validate-append xs ys a h =
      let (r, e, m) = validate-found xs a h in
      validated (xs ++ ys) a (find_request-append a.run_id a.id xs ys e) m

  validate-settled :
      (xs : List Event) (a : Approval) (decision : ApprovalDecision)
      (actor_id decided_at : Option ℕ)
      → validate_request_event canonical_json sha256 xs a ≡ true
      → validate_request_event canonical_json sha256 xs (settled decision actor_id decided_at a)
        ≡ true
  unfolding validate_request_event matches_request
  validate-settled xs a decision actor_id decided_at h = h

  matches_request-event_of :
      (a : Approval)
      → a.request_digest ≡ sha256_digest canonical_json sha256 a.parameters
      → matches_request canonical_json sha256 a (event_of a) ≡ true
  unfolding matches_request
  matches_request-event_of a digest =
      rw
        (
          ==-refl a.request_digest,
          ==-refl (canonical_json a.parameters),
          ==-refl a.node_id,
          same_action_refl a.action_type,
          ==-refl a.created_at,
          same_time_refl a.expires_at,
          (string_eq.same_iff (sha256_digest canonical_json sha256 a.parameters) a.request_digest).1
              (sym digest),
        )
        refl

  validate-requested :
      (s : Rows) (a : Approval)
      → a.run_id ≡ s.run.id
      → a.request_digest ≡ sha256_digest canonical_json sha256 a.parameters
      → find_request s.run.id a.id s.events ≡ none
      → validate_request_event canonical_json sha256
          (append_event s (approval_requested (event_of a)))
          a
        ≡ true
  validate-requested s a mine digest absent =
      let event : Event = record { run_id = s.run.id; payload = approval_requested (event_of a) } in
      validated (append_event s (approval_requested (event_of a))) a
        (ap (λ n. find_request n a.id (append_event s (approval_requested (event_of a)))) mine
          ∙ find_request-skip s.run.id a.id s.events (event ∷ []) absent
          ∙ find_request-last s.run.id a.id event
          ∙ requested_of-own s.run.id (event_of a))
        (matches_request-event_of a digest)

  pub Change-IsProjected :
      {s t : Rows} → Change canonical_json sha256 s t → IsProjected s → IsProjected t
  Change-IsProjected {s} {t} (keeps extra same mine log elsewhere) seen id =
      rw (mine, same, log)
        (λ h.
          find_request-skip s.run.id id s.events extra (seen id h)
          ∙ find_request-Elsewhere s.run.id id extra elsewhere)
  Change-IsProjected {s} {t} (adds a absent its waits digest put_in mine log) seen id =
      rw (mine, put_in, log)
        (λ h.
          let (old, other) = get-put-none s.approvals a.id id a h in
          find_request-skip s.run.id id s.events _ (seen id old)
          ∙ find_request-last s.run.id id _
          ∙ requested_of-other s.run.id id (event_of a) other)
  Change-IsProjected {s} {t}
        (settles id a decision actor at payload e waits done put_in mine log about made other) seen
        j =
      rw (mine, put_in, log)
        (λ h.
          let (old, differs) = get-put-none s.approvals id j (settled decision actor at a) h in
          find_request-skip s.run.id j s.events _ (seen j old)
          ∙ find_request-last s.run.id j _
          ∙ other j)

  pub Change-IsAuthentic :
      {s t : Rows}
      → Change canonical_json sha256 s t
      → IsProjected s
      → IsAuthentic s
      → IsAuthentic t
  Change-IsAuthentic {s} {t} (keeps extra same mine log elsewhere) seen authentic id b =
      rw (same, log) (λ h. validate-append s.events extra b (authentic id b h))
  Change-IsAuthentic {s} {t} (adds a absent its waits digest put_in mine log) seen authentic id b =
      rw (put_in, log)
        (λ h. elim (get-put_cases s.approvals a.id id a b h) [
          | inl (at, new) ↦
              subst
                (λ x.
                  validate_request_event canonical_json sha256
                    (append_event s (approval_requested (event_of a))) x
                  ≡ true)
                new (validate-requested s a its digest (seen a.id absent))
          | inr old ↦ validate-append s.events _ b (authentic id b old)
        ])
  Change-IsAuthentic {s} {t}
        (settles id a decision actor at payload e waits done put_in mine log about made other) seen
        authentic j b =
      rw (put_in, log)
        (λ h. elim (get-put_cases s.approvals id j (settled decision actor at a) b h) [
          | inl (here, new) ↦
              subst
                (λ x.
                  validate_request_event canonical_json sha256 (append_event s payload) x ≡ true)
                new
                (validate-append s.events (record { run_id = s.run.id; payload = payload } ∷ [])
                  (settled decision actor at a)
                  (validate-settled s.events a decision actor at (authentic id a e)))
          | inr old ↦ validate-append s.events _ b (authentic j b old)
        ])
