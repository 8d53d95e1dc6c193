-- ===== src/Permissions/Tests.antt =====
-- A policy that allows the shell, and asks before publishing.
use jarvis_development.Prelude.{true, false, none, some, [], ◌∷◌, ◌≡◌, refl, string_eq}
use jarvis_development.Contracts.Registry.{Decision, Restriction, PermissionPolicySpec}
use jarvis_development.Permissions.{evaluate_permission, settings}
use jarvis_development.Permissions.Laws.{IsPermitted, evaluate_permission-allow_iff}

abbrev builder : PermissionPolicySpec
builder = record {
  allowed_capabilities = "code" ∷ "tests" ∷ [];
  denied_capabilities = "deploy" ∷ [];
  approval_required_actions = "publish" ∷ [];
  filesystem_scopes = "workspace" ∷ [];
  shell = Decision.allow;
  git = Decision.require_approval;
  docker = Decision.deny;
  browser = Decision.deny;
  network = Decision.deny;
  remote_provider = Decision.deny;
  sensitive_action = Restriction.require_approval;
  destructive_action = Restriction.deny;
  unknown_action = Restriction.deny;
}

publish_asks :
    evaluate_permission builder "publish" ("code" ∷ []) none false false ≡ Decision.require_approval
unfolding evaluate_permission settings
publish_asks = refl

destruction_denied :
    evaluate_permission builder "shell" ("code" ∷ []) (some "workspace") false true ≡ Decision.deny
unfolding evaluate_permission settings
destruction_denied = refl

shell_allowed :
    evaluate_permission builder "shell" ("code" ∷ []) (some "workspace") false false
    ≡ Decision.allow
unfolding evaluate_permission settings
shell_allowed = refl

evaluate_permission-allow_iff_example :
    (evaluate_permission builder "shell" ("code" ∷ []) (some "workspace") false false
      ≡ Decision.allow)
    × IsPermitted builder "shell" ("code" ∷ []) (some "workspace") false false
evaluate_permission-allow_iff_example = (
  shell_allowed,
  (evaluate_permission-allow_iff builder "shell" ("code" ∷ []) (some "workspace") false false).0
      shell_allowed,
)
