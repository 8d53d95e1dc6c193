-- ===== src/RouteChoice.antt =====
-- api/app/jarvis_api/routing/policies.py: `resolve_route`. The hash of the inputs is left out. A
-- revision id is a number, which orders as the text of the UUID does.
mod Candidates
mod Sorted
mod Eligible
mod Selection
mod Resolved
mod Tests
use jarvis_development.Prelude.{
  ℕ, ◌+◌, Bool, true, false, not, ◌&&◌, ◌||◌, Option, none, some, List, [], ◌∷◌, ◌++◌, String,
  string_eq, nat_eq, ◌==◌, ltb, leb, all, any, contains, option_is, Dict, get, reported, length,
  map, if◌then◌else◌,
}
use jarvis_development.Contracts.Failures.{
  FailureClass, class_eq, security_policy_denied, user_cancelled,
}
use jarvis_development.Contracts.Registry.{
  Decision, ProviderKind, Locality, locality_eq, remote, DataClassification, data_eq, HealthStatus,
  CircuitState, SecretStatus, ModelProfileSpec, ProviderSpec, RouteCandidate, RoutePolicySpec,
  RegistrySpec, model_profile, provider_connection, route_policy, RegistryRecord, RouteRequirements,
  RoutePreviewRequest,
}
use jarvis_development.Spend.{SpendReason, evaluate_spend}
use jarvis_development.RouteChoice.Candidates.{
  Choice, CandidateDecision, sort_candidates, route_walk,
}

pub data RouteReason : Type 0 where
  invalid_route route_disabled route_denied undeclared_failover failover_denied no_candidate :
      RouteReason
  spend : SpendReason → RouteReason

pub record RouteResolution : Type 0 where
  pub selected_profile_revision_id : Option ℕ
  pub selected_provider_revision_id : Option ℕ
  pub decision : Decision
  pub reasons : List RouteReason
  pub candidates : List CandidateDecision
  pub demo : Bool

-- A resolution that selects nothing and denies.
abbrev pub refused : RouteReason → List CandidateDecision → RouteResolution
refused reason candidates = record {
  selected_profile_revision_id = none;
  selected_provider_revision_id = none;
  decision = Decision.deny;
  reasons = reason ∷ [];
  candidates = candidates;
  demo = false;
}

-- Whether the failed candidates keep the route from being resolved by failover.
abbrev pub failover_denied_for : Option FailureClass → List FailureClass → Bool
failover_denied_for none classes = true
failover_denied_for (some failure) classes =
    not (contains classes failure)
    || (failure == security_policy_denied || failure == user_cancelled)

abbrev pub declared_ids : List RouteCandidate → List ℕ
declared_ids [] = []
declared_ids (c ∷ cs) = c.profile_revision_id ∷ declared_ids cs

abbrev pub is_demo : ProviderKind → Bool
is_demo ProviderKind.demo = true
is_demo kind = false

-- The end of `resolve_route`: the spend policy decides over the selected candidate.
unfoldable pub resolve_selected :
    RoutePolicySpec → RouteRequirements → List CandidateDecision × Option Choice → RouteResolution
resolve_selected spec req (candidates, none) = refused no_candidate candidates
resolve_selected spec req (candidates, some choice) =
    let verdict =
      evaluate_spend spec.spend req choice.profile.pricing choice.provider.egress.paid in
    record {
      selected_profile_revision_id = some choice.profile_record.revision_id;
      selected_provider_revision_id = some choice.provider_record.revision_id;
      decision = verdict.0;
      reasons = map spend verdict.1;
      candidates = candidates;
      demo = is_demo choice.provider.provider_kind;
    }

-- The checks of a route's specification before its candidates.
unfoldable pub resolve_spec :
    RoutePreviewRequest → RegistryRecord → Dict ℕ RegistryRecord → RegistrySpec → RouteResolution
unfolding route_walk resolve_selected sort_candidates
resolve_spec request route records (route_policy spec) =
    let req = request.requirements in
    let failed = request.failed_profile_revision_ids in
    if not (route.revision_id == request.route_revision_id)
    then refused invalid_route []
    else if not route.enabled || route.archived
    then refused route_disabled []
    else if not (contains spec.purposes req.purpose)
        || not (contains spec.allowed_data req.data_classification)
    then refused route_denied []
    else if not (all (contains (declared_ids spec.candidates)) failed)
    then refused undeclared_failover []
    else if ltb 0 (length failed) && failover_denied_for request.failure_class spec.failover_classes
    then refused failover_denied []
    else resolve_selected spec req
        (route_walk request spec records none (sort_candidates spec.candidates))
resolve_spec request route records other = refused invalid_route []

unfoldable pub resolve_route :
    RoutePreviewRequest → RegistryRecord → Dict ℕ RegistryRecord → RouteResolution
unfolding resolve_spec
resolve_route request route records = resolve_spec request route records route.spec
