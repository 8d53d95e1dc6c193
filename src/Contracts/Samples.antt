-- ===== src/Contracts/Samples.antt =====
-- Registry rows for tests: a paid remote provider, a free local one, their profiles, and a route.
use jarvis_development.Prelude.{true, false, none, some, [], ◌∷◌, ℕ, Dict}
use jarvis_development.Contracts.Registry.{
  remote, public, HealthStatus, CircuitState, SecretStatus, ProviderKind, Restriction, Pricing,
  PricingStatus, ProviderSpec, ModelProfileSpec, SpendPolicy, RoutePolicySpec, RegistrySpec,
  provider_connection, model_profile, RegistryRecord, RoutePreviewRequest,
}

abbrev pub row_of : ℕ → RegistrySpec → RegistryRecord
row_of id spec = record {
  revision_id = id;
  enabled = true;
  archived = false;
  spec = spec;
  secret_status = SecretStatus.configured;
  health = HealthStatus.healthy;
  circuit_state = CircuitState.closed;
}

abbrev pub priced : Pricing
priced = record {
  status = PricingStatus.known;
  currency = "USD";
  input_per_million = some 2;
  cached_per_million = some 1;
  output_per_million = some 10;
}

abbrev pub paid_provider : ProviderSpec
paid_provider = record {
  provider_kind = ProviderKind.openai;
  locality = remote;
  egress = record { allowed_data = public ∷ []; remote_allowed = true; paid = true };
}

abbrev pub paid_profile : ModelProfileSpec
paid_profile = record {
  provider_revision_id = 1;
  purposes = "code" ∷ [];
  capabilities = "chat" ∷ [];
  context_limit = 1000;
  output_limit = 100;
  structured_json = true;
  tool_calls = false;
  streaming = false;
  locality = remote;
  pricing = priced;
}

abbrev pub spending : SpendPolicy
spending = record {
  allow_paid = true;
  max_input_tokens = 1000;
  max_output_tokens = 100;
  max_call_cost = some 1000;
  max_run_cost = some 2000;
  on_exceeded = Restriction.deny;
}

-- Two candidates; the preferred profile, 20, has no row.
abbrev pub route : RoutePolicySpec
route = record {
  candidates =
      record { profile_revision_id = 10; priority = 5 }
      ∷ record { profile_revision_id = 20; priority = 1 }
      ∷ [];
  required_capabilities = "structured_json" ∷ [];
  purposes = "code" ∷ [];
  allowed_data = public ∷ [];
  allow_remote = true;
  allow_unknown_health = false;
  failover_classes = [];
  spend = spending;
}

abbrev pub rows : Dict ℕ RegistryRecord
rows =
    (1, row_of 1 (provider_connection paid_provider))
    ∷ (10, row_of 10 (model_profile paid_profile))
    ∷ []

abbrev pub asking : RoutePreviewRequest
asking = record {
  route_revision_id = 100;
  requirements = record {
    purpose = "code";
    capabilities = "chat" ∷ [];
    input_tokens = 50;
    output_tokens = 20;
    data_classification = public;
    run_spend = some 0;
  };
  failed_profile_revision_ids = [];
  failure_class = none;
}
