-- ===== src/RouteChoice/Eligible.antt =====
-- What a candidate without reasons has passed.
use jarvis_development.Prelude.{
  ℕ, ◌+◌, ◌≤◌, Bool, true, false, not, ◌||◌, ◌&&◌, List, [], ◌∷◌, ◌++◌, none, some, ◌≡◌, refl, inl,
  inr, string_eq, nat_eq, ◌==◌, all, contains, Dict, get, reported-nil, Bool-cases, Option-cases,
  arith,
}
use jarvis_development.Contracts.Registry.{
  Locality, locality_eq, data_eq, CircuitState, ModelProfileSpec, RouteCandidate, RoutePolicySpec,
  RegistrySpec, model_profile, provider_connection, route_policy, other_kind, RegistryRecord,
  RoutePreviewRequest,
}
use jarvis_development.RouteChoice.Candidates.{
  Choice, Check, CandidateReason, is_usable, is_closed, is_missing, capabilities_of,
  provider_checks, provider_check, provider_lookup, profile_checks, profile_check, candidate_check,
}

module _ (request : RoutePreviewRequest) (spec : RoutePolicySpec)
    (records : Dict ℕ RegistryRecord) where
  -- The provider's row is the one that the profile names, and may be used for the request.
  pub record IsServing (choice : Choice) : Type 0 where
    pub provider_found :
        get records choice.profile.provider_revision_id ≡ some choice.provider_record
    pub provider_revision : choice.provider_record.revision_id ≡ choice.profile.provider_revision_id
    pub provider_spec : choice.provider_record.spec ≡ provider_connection choice.provider
    pub provider_enabled : choice.provider_record.enabled ≡ true
    pub provider_kept : choice.provider_record.archived ≡ false
    pub same_locality : choice.provider.locality ≡ choice.profile.locality
    pub data_allowed :
        contains choice.provider.egress.allowed_data request.requirements.data_classification ≡ true
    pub remote_allowed :
        choice.provider.locality ≡ Locality.remote
        → (spec.allow_remote ≡ true) × (choice.provider.egress.remote_allowed ≡ true)
    pub credential_there : is_missing choice.provider_record.secret_status ≡ false
    pub usable : is_usable choice.provider_record.health spec.allow_unknown_health ≡ true
    pub circuit_closed : choice.provider_record.circuit_state ≡ CircuitState.closed

  -- The candidate's profile is the one that it names, and fits the request.
  pub record IsEligible (candidate : RouteCandidate) (choice : Choice) : Type 0 where
    pub not_failed :
        contains request.failed_profile_revision_ids candidate.profile_revision_id ≡ false
    pub profile_found : get records candidate.profile_revision_id ≡ some choice.profile_record
    pub profile_revision : choice.profile_record.revision_id ≡ candidate.profile_revision_id
    pub profile_spec : choice.profile_record.spec ≡ model_profile choice.profile
    pub profile_enabled : choice.profile_record.enabled ≡ true
    pub profile_kept : choice.profile_record.archived ≡ false
    pub capable :
        all
          (contains (capabilities_of choice.profile))
          (request.requirements.capabilities ++ spec.required_capabilities)
        ≡ true
    pub purposeful : contains choice.profile.purposes request.requirements.purpose ≡ true
    pub context_fits :
        request.requirements.input_tokens + request.requirements.output_tokens
        ≤ choice.profile.context_limit
    pub output_fits : request.requirements.output_tokens ≤ choice.profile.output_limit
    pub serving : IsServing choice

-- A check without reasons finds a choice with a property.
abbrev pub Clear : (Choice → Type 0) → Check → Type 0
Clear P ([], none) = ⊥
Clear P ([], some choice) = P choice
Clear P (reason ∷ reasons, found) = Unit

Clear-found :
    (P : Choice → Type 0) (reasons : List CandidateReason) (choice : Choice)
    → (reasons ≡ [] → P choice)
    → Clear P (reasons, some choice)
Clear-found P [] choice f = f refl
Clear-found P (reason ∷ reasons) choice f = tt

Clear-more :
    (Q P : Choice → Type 0) (reasons : List CandidateReason) (found : Check)
    → Clear Q found
    → (reasons ≡ [] → (choice : Choice) → Q choice → P choice)
    → Clear P (reasons ++ found.0, found.1)
Clear-more Q P [] ([], none) h f = h
Clear-more Q P [] ([], some choice) h f = f refl choice h
Clear-more Q P [] (reason ∷ reasons, found) h f = tt
Clear-more Q P (reason ∷ reasons) found h f = tt

closed-of : (c : CircuitState) → is_closed c ≡ true → c ≡ CircuitState.closed
closed-of CircuitState.closed h = refl
closed-of CircuitState.opened h = cc
closed-of CircuitState.half_open h = cc

not-false : (b : Bool) → not b ≡ false → b ≡ true
not-false b h = ground arith

enabled-of :
    (enabled archived : Bool)
    → (not enabled || archived) ≡ false
    → (enabled ≡ true) × (archived ≡ false)
enabled-of enabled archived h = ground arith

remote-of : (a b c : Bool) → (a && not (b && c)) ≡ false → a ≡ true → (b ≡ true) × (c ≡ true)
remote-of a b c h k = ground arith

module _ (request : RoutePreviewRequest) (spec : RoutePolicySpec)
    (records : Dict ℕ RegistryRecord) where
  abbrev Serves : RegistryRecord → ModelProfileSpec → Choice → Type 0
  Serves row profile choice =
      (choice.profile_record ≡ row)
      × (choice.profile ≡ profile)
      × IsServing request spec records choice

  provider_check-Clear :
      (row : RegistryRecord) (profile : ModelProfileSpec) (provider_row : RegistryRecord)
      (provider_spec : RegistrySpec)
      → get records profile.provider_revision_id ≡ some provider_row
      → provider_row.spec ≡ provider_spec
      → Clear
          (Serves row profile)
          (provider_check request spec records row profile provider_row provider_spec)
  unfolding provider_check
  provider_check-Clear row profile provider_row (provider_connection provider) found kind =
      elim (Bool-cases (provider_row.revision_id == profile.provider_revision_id)) [
        | inr other ↦ rw other tt
        | inl same ↦ rw same (
            Clear-found (Serves row profile) _ _ λ silent.
              let (on, (key, (place, (data_ok, (reach, (health, (circuit, end))))))) =
                reported-nil (provider_checks request spec records profile provider_row provider)
                  silent in
              let (enabled, kept) = enabled-of _ _ on in
              (
                refl,
                refl,
                record {
                  provider_found = found;
                  provider_revision = (nat_eq.same_iff _ _).0 same;
                  provider_spec = kind;
                  provider_enabled = enabled;
                  provider_kept = kept;
                  same_locality = (locality_eq.same_iff _ _).0 (not-false _ place);
                  data_allowed = not-false _ data_ok;
                  remote_allowed = λ far. remote-of _ _ _ reach ((locality_eq.same_iff _ _).1 far);
                  credential_there = key;
                  usable = not-false _ health;
                  circuit_closed = closed-of _ (not-false _ circuit);
                },
              ))
      ]
  provider_check-Clear row profile provider_row (model_profile other) found kind = tt
  provider_check-Clear row profile provider_row (route_policy other) found kind = tt
  provider_check-Clear row profile provider_row other_kind found kind = tt

  provider_lookup-Clear :
      (row : RegistryRecord) (profile : ModelProfileSpec)
      → Clear (Serves row profile) (provider_lookup request spec records row profile)
  unfolding provider_lookup
  provider_lookup-Clear row profile =
      elim (Option-cases (get records profile.provider_revision_id)) [
        | inl missing ↦ rw (missing, provider_lookup) tt
        | inr (provider_row, found) ↦
            rw (found, provider_lookup)
              (provider_check-Clear row profile provider_row provider_row.spec found refl)
      ]

  profile_check-Clear :
      (candidate : RouteCandidate) (row : RegistryRecord) (profile_spec : RegistrySpec)
      → contains request.failed_profile_revision_ids candidate.profile_revision_id ≡ false
      → get records candidate.profile_revision_id ≡ some row
      → row.spec ≡ profile_spec
      → Clear
          (IsEligible request spec records candidate)
          (profile_check request spec records candidate row profile_spec)
  unfolding profile_check
  profile_check-Clear candidate row (model_profile profile) fresh found kind =
      elim (Bool-cases (row.revision_id == candidate.profile_revision_id)) [
        | inr other ↦ rw other tt
        | inl same ↦ rw same (
            Clear-more (Serves row profile) (IsEligible request spec records candidate) _ _
              (provider_lookup-Clear row profile)
              λ silent choice serves.
                let (on, (able, (purpose, (context, (output, end))))) =
                  reported-nil (profile_checks request spec records row profile) silent in
                let (enabled, kept) = enabled-of _ _ on in
                let (its_row, its_profile, serving) = serves in
                record {
                  not_failed = fresh;
                  profile_found = rw its_row found;
                  profile_revision = rw its_row ((nat_eq.same_iff _ _).0 same);
                  profile_spec = rw (its_row, its_profile) kind;
                  profile_enabled = rw its_row enabled;
                  profile_kept = rw its_row kept;
                  capable = rw its_profile (not-false _ able);
                  purposeful = rw its_profile (not-false _ purpose);
                  context_fits = rw its_profile (ground (arith, context));
                  output_fits = rw its_profile (ground (arith, output));
                  serving = serving;
                })
      ]
  profile_check-Clear candidate row (provider_connection other) fresh found kind = tt
  profile_check-Clear candidate row (route_policy other) fresh found kind = tt
  profile_check-Clear candidate row other_kind fresh found kind = tt

  -- A candidate without reasons is eligible, with the rows that its check finds.
  pub candidate_check-Clear :
      (candidate : RouteCandidate)
      → Clear
          (IsEligible request spec records candidate)
          (candidate_check request spec records candidate)
  unfolding candidate_check
  candidate_check-Clear candidate =
      elim (Bool-cases
        (contains request.failed_profile_revision_ids candidate.profile_revision_id)) [
          | inl failed ↦ rw failed tt
          | inr fresh ↦ rw fresh (elim (Option-cases (get records candidate.profile_revision_id)) [
            | inl missing ↦ rw (missing, Clear) tt
            | inr (row, found) ↦
                rw (found, Clear) (profile_check-Clear candidate row row.spec fresh found refl)
          ])
        ]
