-- ===== src/Contracts/Classification/Tests.antt =====
-- A failed verification that an explicit class overrides.
use jarvis_development.Prelude.{true, false, some, ◌≡◌}
use jarvis_development.Contracts.Failures.{FailureEvidence, approval_rejected, classify_failure}
use jarvis_development.Contracts.Classification.{classify_failure_lem}

abbrev rejected : FailureEvidence
rejected = record {
  security_denied = false;
  cancelled = false;
  explicit_class = some approval_rejected;
  verifier_failed = true;
  rate_limited = false;
  transient = false;
  transport_failed = false;
  code = "";
  summary = "";
}

classify_failure_lem_example :
    ((classify_failure rejected).retryable ≡ false)
    × ((classify_failure rejected).consumes_semantic_attempt ≡ false)
classify_failure_lem_example = classify_failure_lem rejected
