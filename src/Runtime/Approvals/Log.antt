-- ===== src/Runtime/Approvals/Log.antt =====
-- What the row of a run says of its approvals is what the event log says.
use jarvis_development.Prelude.{
  ℕ, none, some, Dict, get, put, get-put, get-put_cases, String, string_eq, nat_eq, ◌==◌, ◌≡◌, refl,
  sym, ◌∙◌, ap, inl, inr, arith, if◌then◌else◌,
}
use jarvis_development.Runtime.Approvals.{Parameters, Approval, Rows}
use jarvis_development.Runtime.Approvals.Steps.{
  replay_events, decision_at, settled, Change, keeps, adds, settles,
}
use jarvis_development.Runtime.Approvals.Events.{
  replay_events-append, replay_events-event, replay_events-Elsewhere,
}
use jarvis_development.Runtime.Approvals.Changes.{concerns-requested}

-- The row and the log agree.
abbrev pub Agrees : Rows → Type 0
Agrees s = (id : ℕ) → decision_at s.approvals id ≡ replay_events s.run.id id s.events none

-- Every approval is stored under its id and belongs to the run.
abbrev pub IsOwn : ℕ → Dict ℕ Approval → Type 0
IsOwn run_id approvals =
    (id : ℕ) (a : Approval) → get approvals id ≡ some a → (a.id ≡ id) × (a.run_id ≡ run_id)

decision_at-put :
    (d : Dict ℕ Approval) (k j : ℕ) (a : Approval)
    → decision_at (put d k a) j ≡ (if k == j then some a.decision else decision_at d j)
decision_at-put d k j a = ground (arith, get-put d k j a)

put-IsOwn :
    (run_id : ℕ) (d : Dict ℕ Approval) (k : ℕ) (a : Approval)
    → a.id ≡ k
    → a.run_id ≡ run_id
    → IsOwn run_id d
    → IsOwn run_id (put d k a)
put-IsOwn run_id d k a named mine own j b h = elim (get-put_cases d k j a b h) [
  | inl (at, same) ↦ (
    ap (λ (x : Approval). x.id) (sym same) ∙ named ∙ at,
    ap (λ (x : Approval). x.run_id) (sym same) ∙ mine,
  )
  | inr old ↦ own j b old
]

module _ (canonical_json : Parameters → String) (sha256 : String → String) where
  pub Change-IsOwn :
      {s t : Rows}
      → Change canonical_json sha256 s t
      → IsOwn s.run.id s.approvals
      → IsOwn t.run.id t.approvals
  Change-IsOwn {s} {t} (keeps extra same mine log elsewhere) own = rw (mine, same) own
  Change-IsOwn {s} {t} (adds a absent its waits digest put_in mine log) own =
      rw (mine, put_in) (put-IsOwn s.run.id s.approvals a.id a refl its own)
  Change-IsOwn {s} {t}
        (settles id a decision actor at payload e waits done put_in mine log about made other) own =
      rw (mine, put_in)
        (put-IsOwn s.run.id s.approvals id (settled decision actor at a) (own id a e).0
          (own id a e).1 own)

  pub Change-Agrees : {s t : Rows} → Change canonical_json sha256 s t → Agrees s → Agrees t
  Change-Agrees {s} {t} (keeps extra same mine log elsewhere) agrees id =
      rw (mine, same, log)
        (agrees id
          ∙ sym (
              replay_events-append s.run.id id s.events extra none
              ∙ replay_events-Elsewhere s.run.id id extra _ elsewhere))
  Change-Agrees {s} {t} (adds a absent its waits digest put_in mine log) agrees id =
      rw
        (
          mine,
          put_in,
          log,
          decision_at-put s.approvals a.id id a,
          replay_events-event s.run.id id s.events _ none,
          concerns-requested s.run.id id _,
          waits,
          agrees id,
        )
        refl
  Change-Agrees {s} {t}
        (settles id a decision actor at payload e waits done put_in mine log about made other)
        agrees j =
      rw
        (
          mine,
          put_in,
          log,
          decision_at-put s.approvals id j (settled decision actor at a),
          replay_events-event s.run.id j s.events _ none,
          about j,
          made,
          agrees j,
        )
        refl
