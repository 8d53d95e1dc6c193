-- ===== src/Runtime/Approvals/Final.antt =====
-- What holds of the approvals of a run after any transactions.
use jarvis_development.Prelude.{
  ℕ, false, true, none, some, [], get, get-put_other, String, nat_eq, ◌==◌, ◌≡◌, sym, ◌∙◌, subst,
  ap, inl, inr, Bool-cases, arith,
}
use jarvis_development.Runtime.Approvals.{
  Parameters, Approval, Rows, awaits_decision, pending, validate_request_event,
}
use jarvis_development.Runtime.Approvals.Decisions.{DecisionRequest}
use jarvis_development.Runtime.Approvals.Steps.{
  replay_events, decision_at, Elsewhere, Reach, here, next, Change, keeps, adds, settles,
}
use jarvis_development.Runtime.Approvals.Events.{replay_events-Elsewhere, find_request-Elsewhere}
use jarvis_development.Runtime.Approvals.Changes.{Step-Change}
use jarvis_development.Runtime.Approvals.Log.{Agrees, IsOwn, Change-IsOwn, Change-Agrees}
use jarvis_development.Runtime.Approvals.Authentic.{
  IsProjected, IsAuthentic, Change-IsProjected, Change-IsAuthentic,
}

-- A run before any approval: none is stored, and no event is about one.
pub record IsUntouched (s : Rows) : Type 0 where
  pub empty : s.approvals ≡ []
  pub silent : Elsewhere s.run.id s.events

not_both :
    (a b : Approval)
    → some b ≡ some a
    → b.decision ≡ pending
    → awaits_decision a.decision ≡ false
    → ⊥
not_both a b same waits over =
    let its : b ≡ a = cc in
    let waiting : a.decision ≡ pending = subst (λ (x : Approval). x.decision ≡ pending) its waits in
    ground (arith, waiting, over)

module _ (canonical_json : Parameters → String) (sha256 : String → String) where
  pub record IsLogged (s : Rows) : Type 0 where
    pub own : IsOwn s.run.id s.approvals
    pub agrees : Agrees s
    pub projected : IsProjected s
    pub authentic : IsAuthentic canonical_json sha256 s

  untouched-IsLogged : (s : Rows) → IsUntouched s → IsLogged s
  untouched-IsLogged s u = record {
    own = rw u.empty (λ id a h. cc);
    agrees = λ id. rw u.empty (sym (replay_events-Elsewhere s.run.id id s.events none u.silent));
    projected = λ id h. find_request-Elsewhere s.run.id id s.events u.silent;
    authentic = rw u.empty (λ id a h. cc);
  }

  Change-IsLogged : {s t : Rows} → Change canonical_json sha256 s t → IsLogged s → IsLogged t
  Change-IsLogged change i = record {
    own = Change-IsOwn canonical_json sha256 change i.own;
    agrees = Change-Agrees canonical_json sha256 change i.agrees;
    projected = Change-IsProjected canonical_json sha256 change i.projected;
    authentic = Change-IsAuthentic canonical_json sha256 change i.projected i.authentic;
  }

  Change-settled :
      {s t : Rows} (id : ℕ) (a : Approval)
      → Change canonical_json sha256 s t
      → get s.approvals id ≡ some a
      → awaits_decision a.decision ≡ false
      → get t.approvals id ≡ some a
  Change-settled {s} {t} id a (keeps extra same mine log elsewhere) h over = rw same h
  Change-settled {s} {t} id a (adds b absent its waits digest put_in mine log) h over =
      elim (Bool-cases (b.id == id)) [
        | inl e ↦
            let stored : none ≡ some a =
              sym absent ∙ ap (get s.approvals) ((nat_eq.same_iff b.id id).0 e) ∙ h in
            cc
        | inr e ↦ rw put_in (get-put_other s.approvals b.id id b e ∙ h)
      ]
  Change-settled {s} {t} id a
        (settles k b decision actor at payload e waits done put_in mine log about made other) h
        over =
      elim (Bool-cases (k == id)) [
        | inl f ↦ absurd (
            not_both a b (sym e ∙ ap (get s.approvals) ((nat_eq.same_iff k id).0 f) ∙ h) waits over)
        | inr f ↦ rw put_in (get-put_other s.approvals k id _ f ∙ h)
      ]

  module _ (body_digest : DecisionRequest → String) where
    pub Reach-IsLogged :
        {s t : Rows} → Reach canonical_json sha256 body_digest s t → IsLogged s → IsLogged t
    Reach-IsLogged here i = i
    Reach-IsLogged (next steps step) i =
        let before = Reach-IsLogged steps i in
        Change-IsLogged
          (Step-Change canonical_json sha256 body_digest step (λ id a h. (before.own id a h).0))
          before

    pub Reach-untouched :
        {s t : Rows} → Reach canonical_json sha256 body_digest s t → IsUntouched s → IsLogged t
    Reach-untouched steps u = Reach-IsLogged steps (untouched-IsLogged _ u)

    -- After any transactions on a run that had no approvals, in whatever order, the decision that
    -- the run's row gives an approval is the one that the event log gives it, and every stored
    -- approval passes `validate_request_event`.
    pub projection-replays :
        {s t : Rows}
        → Reach canonical_json sha256 body_digest s t
        → IsUntouched s
        → (id : ℕ)
        → (decision_at t.approvals id ≡ replay_events t.run.id id t.events none)
          × ((a : Approval)
              → get t.approvals id ≡ some a
              → validate_request_event canonical_json sha256 t.events a ≡ true)
    projection-replays steps u id = let i = Reach-untouched steps u in (i.agrees id, i.authentic id)

    pub Reach-IsOwn :
        {s t : Rows}
        → Reach canonical_json sha256 body_digest s t
        → IsOwn s.run.id s.approvals
        → IsOwn t.run.id t.approvals
    Reach-IsOwn here own = own
    Reach-IsOwn (next steps step) own =
        let before = Reach-IsOwn steps own in
        Change-IsOwn canonical_json sha256
          (Step-Change canonical_json sha256 body_digest step (λ id a h. (before id a h).0)) before

    -- An approval that is no longer pending stays exactly as it is, whatever transactions follow, if
    -- every approval of the run is stored under its own id and names the run.
    pub settled-stays :
        {s t : Rows} (id : ℕ) (a : Approval)
        → Reach canonical_json sha256 body_digest s t
        → IsOwn s.run.id s.approvals
        → get s.approvals id ≡ some a
        → awaits_decision a.decision ≡ false
        → get t.approvals id ≡ some a
    settled-stays id a here own h over = h
    settled-stays id a (next steps step) own h over =
        Change-settled id a
          (Step-Change canonical_json sha256 body_digest step
            (λ j b e. (Reach-IsOwn steps own j b e).0))
          (settled-stays id a steps own h over) over
