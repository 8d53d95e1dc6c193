-- ===== src/Contracts/Classification.antt =====
-- What `classify_failure` of packages/contracts/src/jarvis_contracts/failures.py decides.
mod Tests
use text.Mathlib.Text.{starts_with}
use jarvis_development.Prelude.{
  Bool, true, false, not, ◌&&◌, ◌||◌, Option, none, some, ◌≡◌, ◌∙◌, refl, arith, if◌then◌else◌,
}
use jarvis_development.Contracts.Failures.{
  FailureClass, code_build_failure, infrastructure_timeout, unknown, code_implementation_failure,
  code_test_failure, code_review_failure, code_git_conflict, infrastructure_worker_unavailable,
  infrastructure_worker_transport, infrastructure_service_unavailable, provider_rate_limited,
  provider_transient, provider_contract_failure, configuration_invalid, security_policy_denied,
  approval_rejected, orchestration_runtime_error, user_cancelled, class_value, FailureEvidence,
  non_retryable, classify_failure,
}

-- The classes whose values start with `code.`
abbrev pub is_code : FailureClass → Bool
is_code code_build_failure = true
is_code code_implementation_failure = true
is_code code_test_failure = true
is_code code_review_failure = true
is_code code_git_conflict = true
is_code _ = false

starts_with-is_code : (c : FailureClass) → starts_with (class_value c) "code." ≡ is_code c
starts_with-is_code code_build_failure = refl
starts_with-is_code infrastructure_timeout = refl
starts_with-is_code unknown = refl
starts_with-is_code code_implementation_failure = refl
starts_with-is_code code_test_failure = refl
starts_with-is_code code_review_failure = refl
starts_with-is_code code_git_conflict = refl
starts_with-is_code infrastructure_worker_unavailable = refl
starts_with-is_code infrastructure_worker_transport = refl
starts_with-is_code infrastructure_service_unavailable = refl
starts_with-is_code provider_rate_limited = refl
starts_with-is_code provider_transient = refl
starts_with-is_code provider_contract_failure = refl
starts_with-is_code configuration_invalid = refl
starts_with-is_code security_policy_denied = refl
starts_with-is_code approval_rejected = refl
starts_with-is_code orchestration_runtime_error = refl
starts_with-is_code user_cancelled = refl

-- Whether an explicit class is given that has a property.
abbrev pub explicit : (FailureClass → Bool) → FailureEvidence → Bool
explicit p e = elim e.explicit_class [ none ↦ false | some c ↦ p c ]

abbrev pub unclassified : FailureEvidence → Bool
unclassified e = elim e.explicit_class [ none ↦ true | some c ↦ false ]

-- A failure is retried unless security denied it, the user cancelled it, or its explicit class is
-- not retryable; it costs a semantic attempt exactly if neither of the first two holds and its
-- explicit class is one of the code classes, or it has none and the verifier failed.
pub classify_failure_lem :
    (e : FailureEvidence)
    → ((classify_failure e).retryable
        ≡ not (e.security_denied || (e.cancelled || explicit non_retryable e)))
      × ((classify_failure e).consumes_semantic_attempt ≡ (
          not e.security_denied
          && (not e.cancelled && (explicit is_code e || (unclassified e && e.verifier_failed)))))
unfolding classify_failure
classify_failure_lem e =
    (ground arith, starts_with-is_code (classify_failure e).failure_class ∙ ground arith)
