-- ===== src/Contracts/Registry.antt =====
-- packages/contracts/src/jarvis_contracts/registry.py: the versioned registry rows that routing and
-- budgets read. An amount of money, a `Decimal`, is a number of 10^-16 units of the currency, and
-- a price of a million tokens a number of 10^-10 units, so that dividing by a million is exact.
use jarvis_development.Prelude.{
  ℕ, Bool, Option, List, String, Equal, nat_beq, ◌≡◌, true, ◌↔◌, arith,
}
use jarvis_development.Contracts.Failures.{FailureClass}

pub data Locality : Type 0 where
  local local_lan remote : Locality

pub data DataClassification : Type 0 where
  public internal confidential restricted : DataClassification

pub data HealthStatus : Type 0 where
  healthy degraded unavailable misconfigured unknown : HealthStatus

pub data CircuitState : Type 0 where
  closed opened half_open : CircuitState

pub data SecretStatus : Type 0 where
  configured missing not_required : SecretStatus

pub data ProviderKind : Type 0 where
  openai ollama demo : ProviderKind

pub data Decision : Type 0 where
  allow deny require_approval : Decision

-- `Literal["deny", "require_approval"]`
pub data Restriction : Type 0 where
  deny require_approval : Restriction

abbrev pub decision_of : Restriction → Decision
decision_of Restriction.deny = Decision.deny
decision_of Restriction.require_approval = Decision.require_approval

abbrev locality_code : Locality → ℕ
locality_code local = 0
locality_code local_lan = 1
locality_code remote = 2

pub locality_beq_iff :
    (a b : Locality) → (nat_beq (locality_code a) (locality_code b) ≡ true) ↔ (a ≡ b)
locality_beq_iff a b = ground arith

instance abbrev pub locality_eq : Equal Locality
locality_eq = record {
  same = λ a b. nat_beq (locality_code a) (locality_code b);
  same_iff = locality_beq_iff;
}

abbrev data_code : DataClassification → ℕ
data_code public = 0
data_code internal = 1
data_code confidential = 2
data_code restricted = 3

pub data_beq_iff :
    (a b : DataClassification) → (nat_beq (data_code a) (data_code b) ≡ true) ↔ (a ≡ b)
data_beq_iff a b = ground arith

instance abbrev pub data_eq : Equal DataClassification
data_eq = record { same = λ a b. nat_beq (data_code a) (data_code b); same_iff = data_beq_iff }

-- `Pricing.status`
pub data PricingStatus : Type 0 where
  known unknown not_applicable : PricingStatus

pub record Pricing : Type 0 where
  pub status : PricingStatus
  pub currency : String
  pub input_per_million : Option ℕ
  pub cached_per_million : Option ℕ
  pub output_per_million : Option ℕ

-- `Usage.provenance`
pub data Provenance : Type 0 where
  exact estimated unknown : Provenance

pub record Usage : Type 0 where
  pub input_tokens : Option ℕ
  pub cached_tokens : Option ℕ
  pub output_tokens : Option ℕ
  pub provenance : Provenance

-- `Cost.status`
pub data CostStatus : Type 0 where
  exact estimated unknown not_applicable : CostStatus

pub record Cost : Type 0 where
  pub amount : Option ℕ
  pub currency : String
  pub status : CostStatus

pub record EgressPolicy : Type 0 where
  pub allowed_data : List DataClassification
  pub remote_allowed : Bool
  pub paid : Bool

pub record ProviderSpec : Type 0 where
  pub provider_kind : ProviderKind
  pub locality : Locality
  pub egress : EgressPolicy

pub record ModelProfileSpec : Type 0 where
  pub provider_revision_id : ℕ
  pub purposes : List String
  pub capabilities : List String
  pub context_limit : ℕ
  pub output_limit : ℕ
  pub structured_json : Bool
  pub tool_calls : Bool
  pub streaming : Bool
  pub locality : Locality
  pub pricing : Pricing

pub record RouteCandidate : Type 0 where
  pub profile_revision_id : ℕ
  pub priority : ℕ

pub record SpendPolicy : Type 0 where
  pub allow_paid : Bool
  pub max_input_tokens : ℕ
  pub max_output_tokens : ℕ
  pub max_call_cost : Option ℕ
  pub max_run_cost : Option ℕ
  pub on_exceeded : Restriction

pub record RoutePolicySpec : Type 0 where
  pub candidates : List RouteCandidate
  pub required_capabilities : List String
  pub purposes : List String
  pub allowed_data : List DataClassification
  pub allow_remote : Bool
  pub allow_unknown_health : Bool
  pub failover_classes : List FailureClass
  pub spend : SpendPolicy

pub record PermissionPolicySpec : Type 0 where
  pub allowed_capabilities : List String
  pub denied_capabilities : List String
  pub approval_required_actions : List String
  pub filesystem_scopes : List String
  pub shell : Decision
  pub git : Decision
  pub docker : Decision
  pub browser : Decision
  pub network : Decision
  pub remote_provider : Decision
  pub sensitive_action : Restriction
  pub destructive_action : Restriction
  pub unknown_action : Restriction

-- `RegistrySpec`; routing tells the kinds it does not read from no other.
pub data RegistrySpec : Type 0 where
  provider_connection : ProviderSpec → RegistrySpec
  model_profile : ModelProfileSpec → RegistrySpec
  route_policy : RoutePolicySpec → RegistrySpec
  other_kind : RegistrySpec

pub record RegistryRecord : Type 0 where
  pub revision_id : ℕ
  pub enabled : Bool
  pub archived : Bool
  pub spec : RegistrySpec
  pub secret_status : SecretStatus
  pub health : HealthStatus
  pub circuit_state : CircuitState

pub record RouteRequirements : Type 0 where
  pub purpose : String
  pub capabilities : List String
  pub input_tokens : ℕ
  pub output_tokens : ℕ
  pub data_classification : DataClassification
  pub run_spend : Option ℕ

pub record RoutePreviewRequest : Type 0 where
  pub route_revision_id : ℕ
  pub requirements : RouteRequirements
  pub failed_profile_revision_ids : List ℕ
  pub failure_class : Option FailureClass
