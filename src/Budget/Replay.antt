-- ===== src/Budget/Replay.antt =====
-- A decision of `authorize` is made once, and replayed after that.
use jarvis_development.Prelude.{
  ℕ, true, none, some, List, [], ◌∷◌, ◌≡◌, refl, sym, ap, subst, ◌⊎◌, inl, inr, String, string_eq,
  nat_eq, ==-refl, Bool-cases, Option-cases, if◌then◌else◌, arith,
}
use jarvis_development.Budget.Rows.{CallRow, Grant, Ledger, find_grant}
use jarvis_development.Budget.{
  PolicyIdentity, BudgetGateway, TeamScope, Authorization, granted, identity_incomplete,
  team_exhausted, replayed_denial, is_allow, policy_digest, team_denial,
}
use jarvis_development.Budget.Authorize.{PaidCall, grant_matches, replay, first_grant, authorize}

pub team_denial-cases :
    (gateway : BudgetGateway) (scope : TeamScope) (rows : List CallRow) {denial : Authorization}
    → team_denial gateway scope rows ≡ some denial
    → (denial ≡ identity_incomplete) ⊎ (denial ≡ team_exhausted)
unfolding team_denial
team_denial-cases gateway scope rows {denial} h = ground arith

find_grant-call :
    (grants : List Grant) (id : ℕ) {grant : Grant}
    → find_grant grants id ≡ some grant
    → grant.call_id ≡ id
find_grant-call [] id h = cc
find_grant-call (g ∷ gs) id {grant} h =
    ground (arith, nat_eq.same_iff g.call_id id, find_grant-call gs id {grant = grant})

module _ (sha256 : PolicyIdentity → String) (gateway : BudgetGateway) (scope : TeamScope) where
  -- `authorize` of a paid call, by its cases.
  pub authorize-elim :
      (P : Authorization × List Grant → Type 0) (ledger : Ledger) (call : PaidCall)
      → call.paid ≡ true
      → ((denial : Authorization)
          → team_denial gateway scope ledger.calls ≡ some denial
          → P (denial, ledger.grants))
      → ((grant : Grant)
          → find_grant ledger.grants call.call_id ≡ some grant
          → P (replay sha256 gateway scope grant call, ledger.grants))
      → (find_grant ledger.grants call.call_id ≡ none
          → P (
            granted (first_grant sha256 gateway scope ledger call),
            first_grant sha256 gateway scope ledger call ∷ ledger.grants,
          ))
      → P (authorize sha256 gateway scope ledger call)
  unfolding authorize
  authorize-elim P ledger call paid denied replayed decided =
      elim (Option-cases (team_denial gateway scope ledger.calls)) [
        | inr (denial, e) ↦ rw (e, authorize) (denied denial e)
        | inl e ↦ elim (Option-cases (find_grant ledger.grants call.call_id)) [
          | inr (grant, found) ↦ rw (e, paid, found, authorize) (replayed grant found)
          | inl missing ↦ rw (e, paid, missing, authorize) (decided missing)
        ]
      ]

  -- A grant of the table that matches the call.
  abbrev Recorded : PaidCall → Grant → List Grant → Type 0
  Recorded call grant grants =
      (find_grant grants call.call_id ≡ some grant)
      × (grant_matches sha256 gateway scope grant call ≡ true)

  replay-granted :
      (stored grant : Grant) (call : PaidCall)
      → replay sha256 gateway scope stored call ≡ granted grant
      → (stored ≡ grant) × (grant_matches sha256 gateway scope stored call ≡ true)
  replay-granted stored grant call h =
      elim (Bool-cases (grant_matches sha256 gateway scope stored call)) [
        | inr other ↦ let e : Authorization.grant_mismatch ≡ granted grant = rw other at h in cc
        | inl same ↦ elim (Bool-cases (is_allow stored.decision)) [
          | inr denied ↦
              let e : replayed_denial stored.reasons ≡ granted grant = rw (same, denied) at h in cc
          | inl permitted ↦
              let e : granted stored ≡ granted grant = rw (same, permitted) at h in (cc, same)
        ]
      ]

  first-matches :
      (ledger : Ledger) (call : PaidCall)
      → grant_matches sha256 gateway scope (first_grant sha256 gateway scope ledger call) call
        ≡ true
  unfolding first_grant
  first-matches ledger call =
      rw (==-refl call.run_id, ==-refl call.request_digest, ==-refl (policy_digest sha256 gateway))
        refl

  first-found :
      (ledger : Ledger) (call : PaidCall) (grants : List Grant)
      → find_grant (first_grant sha256 gateway scope ledger call ∷ grants) call.call_id
        ≡ some (first_grant sha256 gateway scope ledger call)
  unfolding first_grant
  first-found ledger call grants = rw (==-refl call.call_id) refl

  authorize-Recorded :
      (ledger : Ledger) (call : PaidCall) (grant : Grant) (grants : List Grant)
      → call.paid ≡ true
      → authorize sha256 gateway scope ledger call ≡ (granted grant, grants)
      → Recorded call grant grants
  authorize-Recorded ledger call grant grants paid =
      authorize-elim (λ result. result ≡ (granted grant, grants) → Recorded call grant grants)
        ledger call paid
        (λ denial e h. elim (team_denial-cases gateway scope ledger.calls e) [
          | inl incomplete ↦ cc (ap (λ r. r.0) h)
          | inr exhausted ↦ cc (ap (λ r. r.0) h)
        ])
        (λ stored found h.
          let (same, matches) = replay-granted stored grant call (ap (λ r. r.0) h) in
          (rw (sym same, sym (ap (λ r. r.1) h)) found, rw (sym same) matches))
        (λ missing h.
          let same : first_grant sha256 gateway scope ledger call ≡ grant = cc (ap (λ r. r.0) h) in
          (
            subst (λ g. find_grant grants call.call_id ≡ some g) same
                (subst
                  (λ gs.
                    find_grant gs call.call_id
                    ≡ some (first_grant sha256 gateway scope ledger call))
                  (ap (λ r. r.1) h) (first-found ledger call ledger.grants)),
            subst (λ g. grant_matches sha256 gateway scope g call ≡ true) same
                (first-matches ledger call),
          ))

  -- Once a call is granted or refused by a row, `authorize` of the same call gives the same grant or
  -- the same refusal and writes nothing, whatever the other tables and the run's spend have become,
  -- while the team's budget lets the call pass.
  pub authorize-replays :
      (ledger later : Ledger) (call : PaidCall) (grant : Grant) (grants : List Grant)
      → call.paid ≡ true
      → authorize sha256 gateway scope ledger call ≡ (granted grant, grants)
      → later.grants ≡ grants
      → team_denial gateway scope later.calls ≡ none
      → authorize sha256 gateway scope later call
        ≡ (if is_allow grant.decision then granted grant else replayed_denial grant.reasons, grants)
  unfolding authorize
  authorize-replays ledger later call grant grants paid h kept passes =
      let (found, matches) = authorize-Recorded ledger call grant grants paid h in
      rw (passes, paid, kept, found, matches, authorize)
        (elim (Bool-cases (is_allow grant.decision)) [
          | inl permitted ↦ rw permitted (ap (λ gs. (granted grant, gs)) kept)
          | inr denied ↦ rw denied (ap (λ gs. (replayed_denial grant.reasons, gs)) kept)
        ])
