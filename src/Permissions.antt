-- ===== src/Permissions.antt =====
-- api/app/jarvis_api/routing/policies.py: `evaluate_permission`.
mod Laws
mod Tests
use jarvis_development.Prelude.{
  Bool, true, false, not, ◌&&◌, ◌||◌, Option, none, some, List, [], ◌∷◌, ◌++◌, String, string_eq,
  any, all, contains, Dict, get_or, keys, if◌then◌else◌,
}
use jarvis_development.Contracts.Registry.{Decision, PermissionPolicySpec, decision_of}

-- The dict `actions`.
unfoldable pub settings : PermissionPolicySpec → Dict String Decision
settings policy =
    ("shell", policy.shell)
    ∷ ("git", policy.git)
    ∷ ("docker", policy.docker)
    ∷ ("browser", policy.browser)
    ∷ ("network", policy.network)
    ∷ ("remote_provider", policy.remote_provider)
    ∷ []

abbrev pub is_deny : Decision → Bool
is_deny Decision.deny = true
is_deny d = false

abbrev pub is_approval : Decision → Bool
is_approval Decision.require_approval = true
is_approval d = false

-- The list `decisions`.
unfoldable pub permission_decisions : PermissionPolicySpec → String → Bool → Bool → List Decision
permission_decisions policy action sensitive destructive =
    let required = contains policy.approval_required_actions action in
    let result =
      if required && not (contains (keys (settings policy)) action)
      then Decision.require_approval
      else get_or (settings policy) action (decision_of policy.unknown_action) in
    result
    ∷ ((if destructive then decision_of policy.destructive_action ∷ [] else [])
        ++ ((if sensitive then decision_of policy.sensitive_action ∷ [] else [])
            ++ (if required then Decision.require_approval ∷ [] else [])))

unfoldable pub out_of_scope : PermissionPolicySpec → Option String → Bool
out_of_scope policy none = false
out_of_scope policy (some scope) = not (contains policy.filesystem_scopes scope)

unfoldable pub evaluate_permission :
    PermissionPolicySpec → String → List String → Option String → Bool → Bool → Decision
unfolding permission_decisions out_of_scope
evaluate_permission policy action capabilities filesystem_scope sensitive destructive =
    let decisions = permission_decisions policy action sensitive destructive in
    if any (contains policy.denied_capabilities) capabilities
    then Decision.deny
    else if not (all (contains policy.allowed_capabilities) capabilities)
    then Decision.deny
    else if out_of_scope policy filesystem_scope
    then Decision.deny
    else if any is_deny decisions
    then Decision.deny
    else if any is_approval decisions
    then Decision.require_approval
    else Decision.allow
