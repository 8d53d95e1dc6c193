-- ===== src/Auth/Steps.antt =====
-- The transactions of auth/service.py on sessions, in any order and by any requests.
use jarvis_development.Prelude.{ℕ, Bool, some, List, String, ◌≡◌}
use jarvis_development.Auth.{
  User, Settings, Accounts, Principal, observe, revoke_expired, logout, rotate_previous, Opening,
  new_session,
}

module _ (sha256_text derive_csrf_token : String → String) (settings : Settings) where
  -- `others` changes the users in any way.
  pub data Step : Accounts → Accounts → Type 0 where
    observes :
        {s : Accounts} (read_only : Bool) (token : String) (now : ℕ)
        → Step s (observe sha256_text derive_csrf_token settings read_only token now s).0
    revokes :
        {s : Accounts} (token_hash reason : String) (now : ℕ)
        → Step s (revoke_expired token_hash reason now s)
    logs_out : {s : Accounts} (id now : ℕ) → Step s (logout id now s).0
    rotates :
        {s : Accounts} (token_hash : String) (now : ℕ) → Step s (rotate_previous token_hash now s)
    opens :
        {s t : Accounts} (opening : Opening) (now : ℕ) (principal : Principal)
        → new_session sha256_text derive_csrf_token settings opening now s ≡ some (t, principal)
        → Step s t
    others : {s : Accounts} (users : List User) → Step s (record s { users = users })

  pub data Reach (s : Accounts) : Accounts → Type 0 where
    here : Reach s s
    next : {t u : Accounts} → Reach s t → Step t u → Reach s u
