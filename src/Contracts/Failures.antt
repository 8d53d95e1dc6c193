-- ===== src/Contracts/Failures.antt =====
-- packages/contracts/src/jarvis_contracts/enums.py and failures.py: failure classes, their
-- deterministic classification, and retry rules.
use text.Mathlib.Text.{starts_with}
use jarvis_development.Prelude.{
  ℕ, Bool, true, false, not, Option, none, some, ◌≡◌, ◌↔◌, arith, Equal, nat_beq, if◌then◌else◌,
  String,
}

pub data FailureClass : Type 0 where
  code_build_failure infrastructure_timeout unknown code_implementation_failure : FailureClass
  code_test_failure code_review_failure code_git_conflict : FailureClass
  infrastructure_worker_unavailable infrastructure_worker_transport : FailureClass
  infrastructure_service_unavailable provider_rate_limited provider_transient : FailureClass
  provider_contract_failure configuration_invalid security_policy_denied : FailureClass
  approval_rejected orchestration_runtime_error user_cancelled : FailureClass

-- An enum member's position, which its equality compares.
abbrev class_code : FailureClass → ℕ
class_code code_build_failure = 0
class_code infrastructure_timeout = 1
class_code unknown = 2
class_code code_implementation_failure = 3
class_code code_test_failure = 4
class_code code_review_failure = 5
class_code code_git_conflict = 6
class_code infrastructure_worker_unavailable = 7
class_code infrastructure_worker_transport = 8
class_code infrastructure_service_unavailable = 9
class_code provider_rate_limited = 10
class_code provider_transient = 11
class_code provider_contract_failure = 12
class_code configuration_invalid = 13
class_code security_policy_denied = 14
class_code approval_rejected = 15
class_code orchestration_runtime_error = 16
class_code user_cancelled = 17

pub class_beq_iff : (a b : FailureClass) → (nat_beq (class_code a) (class_code b) ≡ true) ↔ (a ≡ b)
class_beq_iff a b = ground arith

instance abbrev pub class_eq : Equal FailureClass
class_eq = record { same = λ a b. nat_beq (class_code a) (class_code b); same_iff = class_beq_iff }

-- `FailureClass.value`
abbrev pub class_value : FailureClass → String
class_value code_build_failure = "code.build_failure"
class_value infrastructure_timeout = "infrastructure.timeout"
class_value unknown = "unknown"
class_value code_implementation_failure = "code.implementation_failure"
class_value code_test_failure = "code.test_failure"
class_value code_review_failure = "code.review_failure"
class_value code_git_conflict = "code.git_conflict"
class_value infrastructure_worker_unavailable = "infrastructure.worker_unavailable"
class_value infrastructure_worker_transport = "infrastructure.worker_transport"
class_value infrastructure_service_unavailable = "infrastructure.service_unavailable"
class_value provider_rate_limited = "provider.rate_limited"
class_value provider_transient = "provider.transient"
class_value provider_contract_failure = "provider.contract_failure"
class_value configuration_invalid = "configuration.invalid"
class_value security_policy_denied = "security.policy_denied"
class_value approval_rejected = "approval.rejected"
class_value orchestration_runtime_error = "orchestration.runtime_error"
class_value user_cancelled = "user.cancelled"

pub record FailureEvidence : Type 0 where
  pub security_denied : Bool
  pub cancelled : Bool
  pub explicit_class : Option FailureClass
  pub verifier_failed : Bool
  pub rate_limited : Bool
  pub transient : Bool
  pub transport_failed : Bool
  pub code : String
  pub summary : String

pub record FailureClassification : Type 0 where
  pub failure_class : FailureClass
  pub code : String
  pub retryable : Bool
  pub budget_scope : String
  pub consumes_semantic_attempt : Bool
  pub summary : String

-- The `if`/`elif` ladder of `classify_failure`.
select_class : FailureEvidence → FailureClass
select_class e =
    if e.security_denied
    then security_policy_denied
    else if e.cancelled
    then user_cancelled
    else elim e.explicit_class [
      | some c ↦ c
      | none ↦
          if e.verifier_failed
          then code_test_failure
          else if e.rate_limited
          then provider_rate_limited
          else if e.transient
          then provider_transient
          else if e.transport_failed
          then infrastructure_worker_transport
          else orchestration_runtime_error
    ]

-- The set `non_retryable`, which `validation.py` repeats for retry edges.
abbrev pub non_retryable : FailureClass → Bool
non_retryable configuration_invalid = true
non_retryable security_policy_denied = true
non_retryable approval_rejected = true
non_retryable user_cancelled = true
non_retryable _ = false

unfoldable pub classify_failure : FailureEvidence → FailureClassification
unfolding select_class
classify_failure e =
    let selected = select_class e in
    record {
      failure_class = selected;
      code = e.code;
      retryable = not (non_retryable selected);
      budget_scope = class_value selected;
      consumes_semantic_attempt = starts_with (class_value selected) "code.";
      summary = e.summary;
    }

pub data ExhaustionAction : Type 0 where
  fail block approval : ExhaustionAction

-- `RetryRule` of the contracts, without the delay fields, which the compiler does not read.
pub record RetryRule : Type 0 where
  pub failure_class : FailureClass
  pub max_retries : ℕ
  pub exhaustion_action : ExhaustionAction
