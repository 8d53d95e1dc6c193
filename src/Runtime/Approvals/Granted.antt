-- ===== src/Runtime/Approvals/Granted.antt =====
-- What the check of `ProtectedEffect.dispatch` says of the event log.
use jarvis_development.Prelude.{
  ℕ, true, false, not, ◌&&◌, Option, none, some, Dict, get, any, String, string_eq, nat_eq, ◌==◌,
  ◌≡◌, refl, sym, ◌∙◌, subst, ap, inl, inr, Option-cases, and-true, arith,
}
use jarvis_development.Contracts.Workflow.{
  ActionType, github_push_and_pr, git_integrate, worker_execute, ApprovalPolicy,
}
use jarvis_development.Runtime.Approvals.{
  ApprovalDecision, approved, Parameters, Approval, Requested, Rows, same_action, same_time,
  is_approved, has_expired, sha256_digest, find_request, matches_request, validate_request_event,
}
use jarvis_development.Runtime.Approvals.Requests.{
  Dispatch, parameters, wants_cancel, is_grant, is_granting, check_grant, protect,
}
use jarvis_development.Runtime.Approvals.Decisions.{DecisionRequest}
use jarvis_development.Runtime.Approvals.Steps.{replay_events, decision_at, Reach}
use jarvis_development.Runtime.Approvals.Authentic.{validate-found}
use jarvis_development.Runtime.Approvals.Final.{IsUntouched, IsLogged, Reach-untouched}

same_action-eq : (a b : ActionType) → same_action a b ≡ true → a ≡ b
same_action-eq github_push_and_pr github_push_and_pr h = refl
same_action-eq git_integrate git_integrate h = refl
same_action-eq worker_execute worker_execute h = refl
same_action-eq github_push_and_pr git_integrate h = cc
same_action-eq github_push_and_pr worker_execute h = cc
same_action-eq git_integrate github_push_and_pr h = cc
same_action-eq git_integrate worker_execute h = cc
same_action-eq worker_execute github_push_and_pr h = cc
same_action-eq worker_execute git_integrate h = cc

same_time-eq : (a b : Option ℕ) → same_time a b ≡ true → a ≡ b
same_time-eq none none h = refl
same_time-eq none (some b) h = cc
same_time-eq (some a) none h = cc
same_time-eq (some a) (some b) h = ap some ((nat_eq.same_iff a b).0 h)

is_approved-eq : (d : ApprovalDecision) → is_approved d ≡ true → d ≡ approved
is_approved-eq d h = ground (arith, h)

decision_at-stored :
    (d : Dict ℕ Approval) (id : ℕ) (a : Approval)
    → get d id ≡ some a
    → decision_at d id ≡ some a.decision
decision_at-stored d id a h = ground (arith, h)

module _ (canonical_json : Parameters → String) (sha256 : String → String) where
  -- The log grants an effect: the channel names an approval whose request event is of the node that
  -- must grant it, is for the effect's action, carries the digest of the current parameters and has
  -- not expired, and whose decision in the log is an approval; and the run is not to be cancelled.
  pub record IsGranted (grantor : String) (action : ActionType) (d : Dispatch) (now : ℕ) (s : Rows)
      : Type 0 where
    pub id : ℕ
    pub request : Requested
    pub named : d.channel ≡ some id
    pub requested : find_request s.run.id id s.events ≡ some request
    pub from_grantor : request.workflow_node_id ≡ grantor
    pub for_action : request.action_type ≡ action
    pub unchanged :
        request.request_digest
        ≡ sha256_digest canonical_json sha256 (parameters s.run action d.node_id d.context)
    pub in_time : has_expired request.expires_at now ≡ false
    pub granted : replay_events s.run.id id s.events none ≡ some approved
    pub wanted : wants_cancel s.run.desired_state ≡ false

  matches_request-fields :
      (a : Approval) (r : Requested)
      → matches_request canonical_json sha256 a r ≡ true
      → (r.request_digest ≡ a.request_digest)
        × (r.workflow_node_id ≡ a.node_id)
        × (r.action_type ≡ a.action_type)
        × (r.expires_at ≡ a.expires_at)
  unfolding matches_request
  matches_request-fields a r h =
      let (digest, rest) = and-true (r.request_digest == a.request_digest) _ h in
      let (own, rest1) =
        and-true (sha256_digest canonical_json sha256 a.parameters == a.request_digest) _ rest in
      let (same, rest2) =
        and-true (canonical_json r.parameters == canonical_json a.parameters) _ rest1 in
      let (node, rest3) = and-true (r.workflow_node_id == a.node_id) _ rest2 in
      let (action, rest4) = and-true (same_action r.action_type a.action_type) _ rest3 in
      let (created, expires) = and-true (r.created_at == a.created_at) _ rest4 in
      (
        (string_eq.same_iff r.request_digest a.request_digest).0 digest,
        (string_eq.same_iff r.workflow_node_id a.node_id).0 node,
        same_action-eq r.action_type a.action_type action,
        same_time-eq r.expires_at a.expires_at expires,
      )

  check_grant-found :
      (grantor : String) (action : ActionType) (d : Dispatch) (now : ℕ) (s : Rows)
      → check_grant canonical_json sha256 grantor action d now s ≡ true
      → (id : ℕ) × (a : Approval) × (d.channel ≡ some id)
        × (get s.approvals id ≡ some a)
        × (validate_request_event canonical_json sha256 s.events a ≡ true)
        × (is_granting canonical_json sha256 grantor action
              (parameters s.run action d.node_id d.context)
              now
              s.run
              a
            ≡ true)
  unfolding check_grant
  check_grant-found grantor action d now s h = elim (Option-cases d.channel) [
    | inl e ↦ absurd (ground (arith, h, e))
    | inr (id, e) ↦ elim (Option-cases (get s.approvals id)) [
      | inl f ↦ absurd (ground (arith, h, e, f))
      | inr (a, f) ↦
          let checks : (validate_request_event canonical_json sha256 s.events a
                && (is_granting canonical_json sha256 grantor action
                      (parameters s.run action d.node_id d.context) now s.run a
                    && any (is_grant s.run.id a.id a.request_digest) s.events))
              ≡ true =
            ground (arith, h, e, f) in
          let (valid, rest) = and-true _ _ checks in (id, a, e, f, valid, (and-true _ _ rest).0)
    ]
  ]

  is_granting-fields :
      (grantor : String) (action : ActionType) (current : Parameters) (now : ℕ) (s : Rows)
      (a : Approval)
      → is_granting canonical_json sha256 grantor action current now s.run a ≡ true
      → (wants_cancel s.run.desired_state ≡ false)
        × (a.decision ≡ approved)
        × (a.node_id ≡ grantor)
        × (a.action_type ≡ action)
        × (a.request_digest ≡ sha256_digest canonical_json sha256 current)
        × (has_expired a.expires_at now ≡ false)
  unfolding is_granting
  is_granting-fields grantor action current now s a h =
      let (wanted, rest) = and-true (not (wants_cancel s.run.desired_state)) _ h in
      let (approves, rest1) = and-true (is_approved a.decision) _ rest in
      let (node, rest2) = and-true (a.node_id == grantor) _ rest1 in
      let (its, rest3) = and-true (same_action a.action_type action) _ rest2 in
      let (digest, alive) =
        and-true (a.request_digest == sha256_digest canonical_json sha256 current) _ rest3 in
      (
        ground (arith, wanted),
        is_approved-eq a.decision approves,
        (string_eq.same_iff a.node_id grantor).0 node,
        same_action-eq a.action_type action its,
        (string_eq.same_iff a.request_digest (sha256_digest canonical_json sha256 current)).0
            digest,
        ground (arith, alive),
      )

  check_grant-IsGranted :
      (grantor : String) (action : ActionType) (d : Dispatch) (now : ℕ) (s : Rows)
      → IsLogged canonical_json sha256 s
      → check_grant canonical_json sha256 grantor action d now s ≡ true
      → IsGranted grantor action d now s
  check_grant-IsGranted grantor action d now s i h =
      let (id, a, channel, stored, valid, grants) = check_grant-found grantor action d now s h in
      let (r, found, matches) = validate-found canonical_json sha256 s.events a valid in
      let (its_id, its_run) = i.own id a stored in
      let (digest, node, its_action, expiry) = matches_request-fields a r matches in
      let (wanted, approves, from_node, for_action, current, alive) =
        is_granting-fields grantor action (parameters s.run action d.node_id d.context) now s a
          grants in
      record {
        id = id;
        request = r;
        named = channel;
        requested =
            subst (λ n. find_request n id s.events ≡ some r) its_run
              (subst (λ n. find_request a.run_id n s.events ≡ some r) its_id found);
        from_grantor = node ∙ from_node;
        for_action = its_action ∙ for_action;
        unchanged = digest ∙ current;
        in_time = ap (λ t. has_expired t now) expiry ∙ alive;
        granted = sym (i.agrees id) ∙ decision_at-stored s.approvals id a stored ∙ ap some approves;
        wanted = wanted;
      }

  protect-checks :
      (policy : ApprovalPolicy) (grantor : String) (d : Dispatch) (now : ℕ) (s : Rows)
      → policy.required_grant_from ≡ some grantor
      → (grantor == "") ≡ false
      → protect canonical_json sha256 (some policy) d now s ≡ true
      → (action : ActionType) × (policy.action_type ≡ some action)
        × (check_grant canonical_json sha256 grantor action d now s ≡ true)
  unfolding protect
  protect-checks policy grantor d now s requires named h = elim (Option-cases policy.action_type) [
    | inl e ↦ absurd (ground (arith, h, requires, named, e))
    | inr (action, e) ↦ (action, e, ground (arith, h, requires, named, e))
  ]

  module _ (body_digest : DecisionRequest → String) where
    -- After any transactions on a run that had no approvals, an effect whose policy names a grantor
    -- passes the check of `dispatch` only for the action that the policy names, and if the event log
    -- grants it: with a request of the grantor for this action and exactly the current parameters, as
    -- far as their digest tells, which has not expired and which the log's last decision approves,
    -- on a run that is not to be cancelled.
    pub protect-IsGranted :
        {s t : Rows} (policy : ApprovalPolicy) (grantor : String) (d : Dispatch) (now : ℕ)
        → Reach canonical_json sha256 body_digest s t
        → IsUntouched s
        → policy.required_grant_from ≡ some grantor
        → (grantor == "") ≡ false
        → protect canonical_json sha256 (some policy) d now t ≡ true
        → (action : ActionType) × (policy.action_type ≡ some action)
          × IsGranted grantor action d now t
    protect-IsGranted {t = t} policy grantor d now steps u requires named h =
        let (action, its, checked) = protect-checks policy grantor d now t requires named h in
        (
          action,
          its,
          check_grant-IsGranted grantor action d now t
              (Reach-untouched canonical_json sha256 body_digest steps u) checked,
        )
