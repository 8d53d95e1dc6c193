-- ===== src/Permissions/Laws.antt =====
-- What `evaluate_permission` allows.
use jarvis_development.Prelude.{
  Bool, true, false, not, if◌then◌else◌, ◌≡◌, refl, ◌↔◌, ◌⊎◌, inl, inr, Option, none, some, List,
  [], ◌∷◌, String, string_eq, ◌==◌, any, all, contains, Dict, get, get_or, keys, Bool-cases, arith,
}
use jarvis_development.Contracts.Registry.{Decision, PermissionPolicySpec, decision_of}
use jarvis_development.Permissions.{
  settings, is_deny, is_approval, permission_decisions, out_of_scope, evaluate_permission,
}

-- A scope that is asked for is one of the policy's.
abbrev pub InScope : PermissionPolicySpec → Option String → Type 0
InScope policy none = Unit
InScope policy (some scope) = contains policy.filesystem_scopes scope ≡ true

pub record IsPermitted (policy : PermissionPolicySpec) (action : String)
    (capabilities : List String) (filesystem_scope : Option String) (sensitive destructive : Bool)
    : Type 0 where
  pub none_denied : any (contains policy.denied_capabilities) capabilities ≡ false
  pub all_allowed : all (contains policy.allowed_capabilities) capabilities ≡ true
  pub in_scope : InScope policy filesystem_scope
  pub set_to_allow : get (settings policy) action ≡ some Decision.allow
  pub no_approval : contains policy.approval_required_actions action ≡ false
  pub not_sensitive : sensitive ≡ false
  pub not_destructive : destructive ≡ false

-- The default and the keys of a dict, read from `get`.
get-cases :
    (d : Dict String Decision) (k : String)
    → ((get d k ≡ none) × (contains (keys d) k ≡ false) × ((v : Decision) → get_or d k v ≡ v))
      ⊎ ((w : Decision) × (get d k ≡ some w)
          × (contains (keys d) k ≡ true)
          × ((v : Decision) → get_or d k v ≡ w))
get-cases [] k = inl (refl, refl, λ v. refl)
get-cases ((j, w) ∷ d) k = elim (Bool-cases (j == k)) [
  | inl same ↦ inr (w, rw same, rw same, λ v. rw same)
  | inr other ↦ rw other (get-cases d k)
]

module _ (policy : PermissionPolicySpec) (action : String) (sensitive destructive : Bool) where
  abbrev decisions : List Decision
  decisions = permission_decisions policy action sensitive destructive

  -- Every decision of the list is to allow.
  decisions-all_allow :
      any is_deny decisions ≡ false
      → any is_approval decisions ≡ false
      → (get (settings policy) action ≡ some Decision.allow)
        × (contains policy.approval_required_actions action ≡ false)
        × (sensitive ≡ false)
        × (destructive ≡ false)
  unfolding permission_decisions
  decisions-all_allow undenied unapproved = elim (get-cases (settings policy) action) [
    | inl (missing, unset, default) ↦
        ground (arith, default (decision_of policy.unknown_action), unset)
    | inr (w, found, listed, value) ↦
        ground (arith, value (decision_of policy.unknown_action), listed, found)
  ]

  decisions-allow :
      get (settings policy) action ≡ some Decision.allow
      → contains policy.approval_required_actions action ≡ false
      → sensitive ≡ false
      → destructive ≡ false
      → (any is_deny decisions ≡ false) × (any is_approval decisions ≡ false)
  unfolding permission_decisions
  decisions-allow set unlisted calm safe = elim (get-cases (settings policy) action) [
    | inl (missing, unset, default) ↦ ground (arith, missing)
    | inr (w, found, listed, value) ↦
        ground (arith, value (decision_of policy.unknown_action), found)
  ]

not-false : (b : Bool) → not b ≡ false → b ≡ true
not-false b h = ground arith

-- The early returns of `evaluate_permission`.
ladder-allow :
    (a b c d e : Bool)
    → (if a
        then Decision.deny
        else if b
        then Decision.deny
        else if c
        then Decision.deny
        else if d
        then Decision.deny
        else if e
        then Decision.require_approval
        else Decision.allow)
      ≡ Decision.allow
    → (a ≡ false) × (b ≡ false) × (c ≡ false) × (d ≡ false) × (e ≡ false)
ladder-allow a b c d e h = ground arith

in_scope-of :
    (policy : PermissionPolicySpec) (scope : Option String)
    → out_of_scope policy scope ≡ false
    → InScope policy scope
unfolding out_of_scope
in_scope-of policy none h = tt
in_scope-of policy (some s) h = ground arith

out_of_scope-of :
    (policy : PermissionPolicySpec) (scope : Option String)
    → InScope policy scope
    → out_of_scope policy scope ≡ false
unfolding out_of_scope
out_of_scope-of policy none h = refl
out_of_scope-of policy (some s) h = rw h

-- `evaluate_permission` allows an action exactly if none of the capabilities is denied and all are
-- allowed, the scope asked for, if any, is one of the policy's, the action is one of the six that the
-- policy sets, it is set to allow and is not listed for approval, and it is neither sensitive nor
-- destructive.
pub evaluate_permission-allow_iff :
    (policy : PermissionPolicySpec) (action : String) (capabilities : List String)
    (scope : Option String) (sensitive destructive : Bool)
    → (evaluate_permission policy action capabilities scope sensitive destructive ≡ Decision.allow)
      ↔ IsPermitted policy action capabilities scope sensitive destructive
unfolding evaluate_permission
evaluate_permission-allow_iff policy action capabilities scope sensitive destructive = (
  λ h.
      let (undenied, allowed, inside, clear, unasked) =
        ladder-allow _ (not (all (contains policy.allowed_capabilities) capabilities)) _ _ _ h in
      let (set, unlisted, calm, safe) =
        decisions-all_allow policy action sensitive destructive clear unasked in
      record {
        none_denied = undenied;
        all_allowed = not-false _ allowed;
        in_scope = in_scope-of policy scope inside;
        set_to_allow = set;
        no_approval = unlisted;
        not_sensitive = calm;
        not_destructive = safe;
      },
  λ p.
      let (clear, unasked) =
        decisions-allow policy action sensitive destructive p.set_to_allow p.no_approval
          p.not_sensitive p.not_destructive in
      rw (p.none_denied, p.all_allowed, out_of_scope-of policy scope p.in_scope, clear, unasked)
        refl,
)
