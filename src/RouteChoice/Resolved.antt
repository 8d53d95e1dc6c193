-- ===== src/RouteChoice/Resolved.antt =====
-- What a resolution that selects a profile, or allows the call, has established.
use jarvis_development.Prelude.{
  ℕ, Bool, true, false, not, ◌&&◌, ◌||◌, List, [], ◌∷◌, Option, none, some, ◌≡◌, ◌≢◌, refl,
  if◌then◌else◌, string_eq, nat_eq, ◌==◌, ltb, length, all, contains, Dict, arith,
}
use jarvis_development.Contracts.Failures.{
  FailureClass, class_eq, security_policy_denied, user_cancelled,
}
use jarvis_development.Contracts.Registry.{
  Decision, data_eq, RoutePolicySpec, RegistrySpec, provider_connection, model_profile,
  route_policy, other_kind, RegistryRecord, RoutePreviewRequest,
}
use jarvis_development.Spend.Laws.{IsAffordable, evaluate_spend-IsAffordable}
use jarvis_development.RouteChoice.Candidates.{
  Choice, CandidateDecision, sort_candidates, route_walk,
}
use jarvis_development.RouteChoice.Selection.{IsBest, Outcome, route_walk-Outcome}
use jarvis_development.RouteChoice.{
  RouteResolution, RouteReason, refused, failover_denied_for, declared_ids, resolve_selected,
  resolve_spec, resolve_route,
}

-- A failover is for a failure that the route lists, and never after a denial or a cancellation.
abbrev pub FailoverAllowed : Option FailureClass → List FailureClass → Type 0
FailoverAllowed none classes = ⊥
FailoverAllowed (some failure) classes =
    (contains classes failure ≡ true)
    × (failure ≢ security_policy_denied)
    × (failure ≢ user_cancelled)

module _ (request : RoutePreviewRequest) (route : RegistryRecord)
    (records : Dict ℕ RegistryRecord) where
  pub record IsResolved (resolution : RouteResolution) (profile_id : ℕ) : Type 0 where
    pub spec : RoutePolicySpec
    pub route_spec : route.spec ≡ route_policy spec
    pub route_revision : route.revision_id ≡ request.route_revision_id
    pub route_enabled : route.enabled ≡ true
    pub route_kept : route.archived ≡ false
    pub purpose_allowed : contains spec.purposes request.requirements.purpose ≡ true
    pub data_allowed : contains spec.allowed_data request.requirements.data_classification ≡ true
    pub failed_declared :
        all (contains (declared_ids spec.candidates)) request.failed_profile_revision_ids ≡ true
    pub failover_allowed :
        request.failed_profile_revision_ids ≢ []
        → FailoverAllowed request.failure_class spec.failover_classes
    pub choice : Choice
    pub best : IsBest request spec records spec.candidates choice
    pub profile_selected : choice.profile_record.revision_id ≡ profile_id
    pub provider_selected :
        resolution.selected_provider_revision_id ≡ some choice.provider_record.revision_id
    pub affordable :
        resolution.decision ≡ Decision.allow
        → IsAffordable spec.spend request.requirements choice.profile.pricing
            choice.provider.egress.paid

  failover-of :
      (failure : Option FailureClass) (classes : List FailureClass)
      → failover_denied_for failure classes ≡ false
      → FailoverAllowed failure classes
  failover-of none classes h = cc
  failover-of (some failure) classes h = (
    ground arith,
    λ e. ground (arith, (class_eq.same_iff failure security_policy_denied).1 e),
    λ e. ground (arith, (class_eq.same_iff failure user_cancelled).1 e),
  )

  failover-read :
      (failed : List ℕ) (denied : Bool)
      → (ltb 0 (length failed) && denied) ≡ false
      → failed ≢ []
      → denied ≡ false
  failover-read [] denied h n = absurd (n refl)
  failover-read (x ∷ xs) denied h n = ground arith

  -- The candidates are reached only past every refusal.
  ladder-selected :
      (a b c d e : Bool) (r1 r2 r3 r4 r5 : RouteReason) (r : RouteResolution) (id : ℕ)
      → (if a
          then refused r1 []
          else if b
          then refused r2 []
          else if c
          then refused r3 []
          else if d
          then refused r4 []
          else if e
          then refused r5 []
          else r).selected_profile_revision_id
        ≡ some id
      → (a ≡ false) × (b ≡ false) × (c ≡ false) × (d ≡ false) × (e ≡ false)
  ladder-selected a b c d e r1 r2 r3 r4 r5 r id h = ground arith

  -- The end of the resolution, by what the loop selected.
  abbrev Selects : RoutePolicySpec → RouteResolution → ℕ → Type 0
  Selects spec resolution id =
      (choice : Choice) × IsBest request spec records spec.candidates choice
      × (choice.profile_record.revision_id ≡ id)
      × (resolution.selected_provider_revision_id ≡ some choice.provider_record.revision_id)
      × (resolution.decision ≡ Decision.allow
          → IsAffordable spec.spend request.requirements choice.profile.pricing
              choice.provider.egress.paid)

  resolve_selected-Selects :
      (spec : RoutePolicySpec) (walk : List CandidateDecision × Option Choice) (id : ℕ)
      → Outcome request spec records spec.candidates walk.1
      → (resolve_selected spec request.requirements walk).selected_profile_revision_id ≡ some id
      → Selects spec (resolve_selected spec request.requirements walk) id
  unfolding resolve_selected
  resolve_selected-Selects spec (decisions, none) id o h = cc
  resolve_selected-Selects spec (decisions, some choice) id o h = (
    choice,
    o,
    cc,
    refl,
    evaluate_spend-IsAffordable spec.spend request.requirements choice.profile.pricing
        choice.provider.egress.paid,
  )

  resolve_spec-IsResolved :
      (kind : RegistrySpec) (id : ℕ)
      → route.spec ≡ kind
      → (resolve_spec request route records kind).selected_profile_revision_id ≡ some id
      → IsResolved (resolve_spec request route records kind) id
  unfolding resolve_spec
  resolve_spec-IsResolved (provider_connection other) id e h = cc
  resolve_spec-IsResolved (model_profile other) id e h = cc
  resolve_spec-IsResolved other_kind id e h = cc
  resolve_spec-IsResolved (route_policy spec) id e h =
      let (same, on, permitted, declared, failover) =
        ladder-selected (not (route.revision_id == request.route_revision_id))
          (not route.enabled || route.archived)
          (not (contains spec.purposes request.requirements.purpose)
            || not (contains spec.allowed_data request.requirements.data_classification))
          (not (all (contains (declared_ids spec.candidates)) request.failed_profile_revision_ids))
          (ltb 0 (length request.failed_profile_revision_ids)
            && failover_denied_for request.failure_class spec.failover_classes)
          _ _ _ _ _ _ id h in
      let (choice, best, profile, provider, cost) =
        resolve_selected-Selects spec
          (route_walk request spec records none (sort_candidates spec.candidates)) id
          (route_walk-Outcome request spec records)
          (rw (same, on, permitted, declared, failover) at h) in
      record {
        spec = spec;
        route_spec = e;
        route_revision =
            ground (arith, (nat_eq.same_iff route.revision_id request.route_revision_id).0);
        route_enabled = ground (arith, on);
        route_kept = ground (arith, on);
        purpose_allowed = ground (arith, permitted);
        data_allowed = ground (arith, permitted);
        failed_declared = ground (arith, declared);
        failover_allowed = λ some_failed. failover-of _ _ (failover-read _ _ failover some_failed);
        choice = choice;
        best = best;
        profile_selected = profile;
        provider_selected = rw (same, on, permitted, declared, failover) provider;
        affordable = rw (same, on, permitted, declared, failover) cost;
      }

  -- A resolution that selects a profile has found the route enabled and permitted for the purpose
  -- and the data, with any failover declared and permitted. The profile is that of an eligible
  -- candidate, whose provider it names too, and no candidate without reasons comes before it. If the
  -- decision is to allow, the call is within every ceiling of the route's spend policy.
  pub resolve_route-IsResolved :
      (id : ℕ)
      → (resolve_route request route records).selected_profile_revision_id ≡ some id
      → IsResolved (resolve_route request route records) id
  unfolding resolve_route
  resolve_route-IsResolved id h = resolve_spec-IsResolved route.spec id refl h
