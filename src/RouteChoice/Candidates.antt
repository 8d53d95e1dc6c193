-- ===== src/RouteChoice/Candidates.antt =====
-- api/app/jarvis_api/routing/policies.py: the loop of `resolve_route` over the declared candidates.
use jarvis_development.Prelude.{
  ℕ, ◌+◌, Bool, true, false, not, ◌&&◌, ◌||◌, Option, none, some, List, [], ◌∷◌, ◌++◌, String,
  string_eq, nat_eq, ◌==◌, ltb, leb, all, contains, Dict, get, reported, if◌then◌else◌,
}
use jarvis_development.Contracts.Failures.{class_eq}
use jarvis_development.Contracts.Registry.{
  Locality, locality_eq, remote, data_eq, HealthStatus, CircuitState, SecretStatus,
  ModelProfileSpec, ProviderSpec, RouteCandidate, RoutePolicySpec, RegistrySpec, model_profile,
  provider_connection, RegistryRecord, RoutePreviewRequest,
}

pub data CandidateReason : Type 0 where
  already_failed profile_missing profile_disabled capabilities_missing purpose_incompatible :
      CandidateReason
  context_exceeded output_exceeded provider_missing provider_disabled credential_missing :
      CandidateReason
  locality_mismatch data_denied remote_denied health_ineligible circuit_not_closed : CandidateReason

-- The key of `sorted`.
abbrev pub precedes : RouteCandidate → RouteCandidate → Bool
precedes c d =
    ltb c.priority d.priority
    || (c.priority == d.priority && leb c.profile_revision_id d.profile_revision_id)

unfoldable pub insert_candidate : RouteCandidate → List RouteCandidate → List RouteCandidate
insert_candidate c [] = c ∷ []
insert_candidate c (d ∷ ds) = if precedes c d then c ∷ (d ∷ ds) else d ∷ insert_candidate c ds

-- `sorted(spec.candidates, ...)`
unfoldable pub sort_candidates : List RouteCandidate → List RouteCandidate
unfolding insert_candidate
sort_candidates [] = []
sort_candidates (c ∷ cs) = insert_candidate c (sort_candidates cs)

-- A profile and its provider: `selected` and `selected_provider`.
pub record Choice : Type 0 where
  pub profile_record : RegistryRecord
  pub profile : ModelProfileSpec
  pub provider_record : RegistryRecord
  pub provider : ProviderSpec

abbrev pub is_usable : HealthStatus → Bool → Bool
is_usable HealthStatus.unavailable allow_unknown = false
is_usable HealthStatus.misconfigured allow_unknown = false
is_usable HealthStatus.unknown allow_unknown = allow_unknown
is_usable status allow_unknown = true

abbrev pub is_closed : CircuitState → Bool
is_closed CircuitState.closed = true
is_closed circuit = false

abbrev pub is_missing : SecretStatus → Bool
is_missing SecretStatus.missing = true
is_missing status = false

abbrev pub is_remote : Locality → Bool
is_remote locality = locality == remote

-- `profile.capabilities`, with the flags that are set.
unfoldable pub capabilities_of : ModelProfileSpec → List String
capabilities_of profile =
    profile.capabilities
    ++ ((if profile.structured_json then "structured_json" ∷ [] else [])
        ++ ((if profile.tool_calls then "tool_calls" ∷ [] else [])
            ++ (if profile.streaming then "streaming" ∷ [] else [])))

-- What a candidate's check finds: its reasons, and the rows where both are there.
abbrev pub Check : Type 0
Check = List CandidateReason × Option Choice

pub record CandidateDecision : Type 0 where
  pub profile_revision_id : ℕ
  pub reasons : List CandidateReason

-- The first candidate without reasons is selected.
abbrev pub take_first : Option Choice → Check → Option Choice
take_first (some choice) check = some choice
take_first none ([], found) = found
take_first none (reason ∷ reasons, found) = none

module _ (request : RoutePreviewRequest) (spec : RoutePolicySpec)
    (records : Dict ℕ RegistryRecord) where
  -- The tests of the provider's row and the reasons they give.
  unfoldable pub provider_checks :
      ModelProfileSpec → RegistryRecord → ProviderSpec → List (Bool × CandidateReason)
  provider_checks profile row provider =
      (not row.enabled || row.archived, provider_disabled)
      ∷ (is_missing row.secret_status, credential_missing)
      ∷ (not (provider.locality == profile.locality), locality_mismatch)
      ∷ (
        not (contains provider.egress.allowed_data request.requirements.data_classification),
        data_denied,
      )
      ∷ (
        is_remote provider.locality && not (spec.allow_remote && provider.egress.remote_allowed),
        remote_denied,
      )
      ∷ (not (is_usable row.health spec.allow_unknown_health), health_ineligible)
      ∷ (not (is_closed row.circuit_state), circuit_not_closed)
      ∷ []

  -- The tests of the profile's row and the reasons they give.
  unfoldable pub profile_checks : RegistryRecord → ModelProfileSpec → List (Bool × CandidateReason)
  unfolding capabilities_of
  profile_checks row profile =
      let req = request.requirements in
      (not row.enabled || row.archived, profile_disabled)
      ∷ (
        not (
            all (contains (capabilities_of profile))
              (req.capabilities ++ spec.required_capabilities)),
        capabilities_missing,
      )
      ∷ (not (contains profile.purposes req.purpose), purpose_incompatible)
      ∷ (ltb profile.context_limit (req.input_tokens + req.output_tokens), context_exceeded)
      ∷ (ltb profile.output_limit req.output_tokens, output_exceeded)
      ∷ []

  unfoldable pub provider_check :
      RegistryRecord → ModelProfileSpec → RegistryRecord → RegistrySpec → Check
  unfolding provider_checks
  provider_check row profile provider_record (provider_connection provider) =
      if not (provider_record.revision_id == profile.provider_revision_id)
      then (provider_missing ∷ [], none)
      else (
        reported (provider_checks profile provider_record provider),
        some (record {
          profile_record = row;
          profile = profile;
          provider_record = provider_record;
          provider = provider;
        }),
      )
  provider_check row profile provider_record other = (provider_missing ∷ [], none)

  unfoldable pub provider_lookup : RegistryRecord → ModelProfileSpec → Check
  unfolding provider_check
  provider_lookup row profile = elim (get records profile.provider_revision_id) [
    | none ↦ (provider_missing ∷ [], none)
    | some provider_record ↦ provider_check row profile provider_record provider_record.spec
  ]

  -- The checks of the profile's row, and of its provider's.
  unfoldable pub profile_check : RouteCandidate → RegistryRecord → RegistrySpec → Check
  unfolding provider_lookup profile_checks
  profile_check candidate row (model_profile profile) =
      let found = provider_lookup row profile in
      if not (row.revision_id == candidate.profile_revision_id)
      then (profile_missing ∷ [], none)
      else (reported (profile_checks row profile) ++ found.0, found.1)
  profile_check candidate row other = (profile_missing ∷ [], none)

  -- The body of the loop over the candidates.
  unfoldable pub candidate_check : RouteCandidate → Check
  unfolding profile_check
  candidate_check candidate =
      let id = candidate.profile_revision_id in
      let found : Check = elim (get records id) [
        | none ↦ (profile_missing ∷ [], none)
        | some row ↦ profile_check candidate row row.spec
      ] in
      (
        reported ((contains request.failed_profile_revision_ids id, already_failed) ∷ [])
            ++ found.0,
        found.1,
      )

  -- The loop over the candidates, with `selected`.
  unfoldable pub route_walk :
      Option Choice → List RouteCandidate → List CandidateDecision × Option Choice
  unfolding candidate_check
  route_walk selected [] = ([], selected)
  route_walk selected (candidate ∷ rest) =
      let check = candidate_check candidate in
      let others = route_walk (take_first selected check) rest in
      (
        record { profile_revision_id = candidate.profile_revision_id; reasons = check.0 }
            ∷ others.0,
        others.1,
      )
