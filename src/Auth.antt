-- ===== src/Auth.antt =====
-- api/app/jarvis_api/auth/service.py, `AuthService`, over the rows that
-- api/app/jarvis_api/auth/repository.py reads and writes: the sessions of the owner. The login is in
-- `Auth.Login`. Audit events are left out; a clock reading is an argument. Times are numbers of
-- microseconds, ids are numbers.
pub mod Login
pub mod Steps
mod Lookup
mod Accepted
mod Failures
pub mod Attempts
mod Locked
mod Tests
use Prim.Native.String.{count}
use jarvis_development.Prelude.{
  ℕ, ◌+◌, ◌*◌, min, Bool, true, false, not, ◌&&◌, ◌||◌, Option, none, some, List, [], ◌∷◌, find?,
  String, string_eq, nat_eq, ◌==◌, leb, ltb, is_some, if◌then◌else◌,
}

-- `UserModel`
pub record User : Type 0 where
  pub id : ℕ
  pub username : String
  pub role : String
  pub password_hash : String
  pub enabled : Bool
  pub last_login_at : Option ℕ

-- `SessionModel`
pub record Session : Type 0 where
  pub id : ℕ
  pub user_id : ℕ
  pub token_hash : String
  pub csrf_secret_hash : String
  pub created_at : ℕ
  pub last_seen_at : ℕ
  pub expires_at : ℕ
  pub absolute_expires_at : ℕ
  pub revoked_at : Option ℕ
  pub revoke_reason : Option String
  pub ip_prefix : String
  pub user_agent_hash : Option String

-- The fields of `Settings` that the service reads; durations are numbers of seconds.
pub record Settings : Type 0 where
  pub session_idle_seconds : ℕ
  pub session_absolute_seconds : ℕ
  pub session_touch_interval_seconds : ℕ
  pub login_window_seconds : ℕ
  pub login_account_limit : ℕ
  pub login_network_limit : ℕ
  pub login_base_delay_seconds : ℕ
  pub login_max_delay_seconds : ℕ

pub record Accounts : Type 0 where
  pub users : List User
  pub sessions : List Session

-- `AuthPrincipal`
pub record Principal : Type 0 where
  pub user_id : ℕ
  pub username : String
  pub role : String
  pub session_id : ℕ
  pub idle_expires_at : ℕ
  pub absolute_expires_at : ℕ
  pub session_token : String
  pub csrf_token : String

-- `timedelta(seconds=...)`
abbrev pub seconds : ℕ → ℕ
seconds n = n * 1000000

abbrev pub has_token : String → Session → Bool
has_token token_hash row = row.token_hash == token_hash

abbrev pub has_id : ℕ → Session → Bool
has_id id row = row.id == id

abbrev pub is_user : ℕ → User → Bool
is_user id user = user.id == id

-- `get_session_with_user`
unfoldable pub get_session_with_user : String → Accounts → Option (Session × User)
get_session_with_user token_hash a = elim (find? (has_token token_hash) a.sessions) [
  | none ↦ none
  | some row ↦ elim (find? (is_user row.user_id) a.users) [
    | none ↦ none
    | some user ↦ some (row, user)
  ]
]

-- Write to the row that a lookup found.
unfoldable pub change_session : (Session → Bool) → (Session → Session) → List Session → List Session
change_session test f [] = []
change_session test f (row ∷ rows) =
    if test row then f row ∷ rows else row ∷ change_session test f rows

abbrev pub write_session : (Session → Bool) → (Session → Session) → Accounts → Accounts
write_session test f a = record a { sessions = change_session test f a.sessions }

abbrev pub revoke : String → ℕ → Session → Session
revoke reason now row = record row { revoked_at = some now; revoke_reason = some reason }

-- `_principal`
abbrev pub principal_of : Session → User → String → String → Principal
principal_of row user token csrf = record {
  user_id = user.id;
  username = user.username;
  role = user.role;
  session_id = row.id;
  idle_expires_at = row.expires_at;
  absolute_expires_at = row.absolute_expires_at;
  session_token = token;
  csrf_token = csrf;
}

-- `create_session`; `none` is a violated key.
unfoldable pub create_session : Session → Accounts → Option Accounts
create_session row a =
    if is_some (find? (has_token row.token_hash) a.sessions)
      || is_some (find? (has_id row.id) a.sessions)
    then none
    else some (record a { sessions = row ∷ a.sessions })

-- Why `authenticate` turns a session down that is not revoked.
unfoldable pub revoke_reason_of : ℕ → String → Session → User → Option String
revoke_reason_of now csrf_hash row user =
    if not user.enabled
    then some "user_disabled"
    else if leb row.absolute_expires_at now
    then some "absolute_expired"
    else if leb row.expires_at now
    then some "idle_expired"
    else if not (row.csrf_secret_hash == csrf_hash)
    then some "csrf_key_changed"
    else none

-- The touch of a session that is used.
abbrev pub touch : Settings → Bool → ℕ → Session → Session
touch settings read_only now row =
    if not read_only && leb (row.last_seen_at + seconds settings.session_touch_interval_seconds) now
    then record row {
      last_seen_at = now;
      expires_at = min (now + seconds settings.session_idle_seconds) row.absolute_expires_at;
    }
    else row

-- How the first transaction of `authenticate` ends.
pub data Observed : Type 0 where
  anonymous : Observed
  accepted : Principal → Observed
  turned_down : String → Observed

module _ (sha256_text derive_csrf_token : String → String) (settings : Settings) where
  -- The first transaction of `authenticate`.
  unfoldable pub observe : Bool → String → ℕ → Accounts → Accounts × Observed
  unfolding get_session_with_user revoke_reason_of
  observe read_only token now a =
      if ltb (count token) 32 || ltb 256 (count token)
      then (a, anonymous)
      else elim (get_session_with_user (sha256_text token) a) [
        | none ↦ (a, anonymous)
        | some (row, user) ↦
            if is_some row.revoked_at
            then (a, anonymous)
            else elim (revoke_reason_of now (sha256_text (derive_csrf_token token)) row user) [
              | some reason ↦ (a, turned_down reason)
              | none ↦
                  let touched = touch settings read_only now row in
                  (
                    write_session (has_token (sha256_text token)) (touch settings read_only now) a,
                    accepted (principal_of touched user token (derive_csrf_token token)),
                  )
            ]
      ]

-- Whether `_revoke_expired` leaves the session, which a later touch or an enabled user saved.
abbrev pub is_saved : String → ℕ → Session → User → Bool
is_saved reason now row user =
    (reason == "idle_expired" && ltb now row.expires_at)
    || (reason == "user_disabled" && user.enabled)

-- `_revoke_expired`
unfoldable pub revoke_expired : String → String → ℕ → Accounts → Accounts
unfolding get_session_with_user
revoke_expired token_hash reason now a = elim (get_session_with_user token_hash a) [
  | none ↦ a
  | some (row, user) ↦
      if is_some row.revoked_at || is_saved reason now row user
      then a
      else write_session (has_token token_hash) (revoke reason now) a
]

-- `logout`: whether the session was open.
unfoldable pub logout : ℕ → ℕ → Accounts → Accounts × Bool
logout session_id now a = elim (find? (has_id session_id) a.sessions) [
  | none ↦ (a, false)
  | some row ↦
      if is_some row.revoked_at
      then (a, false)
      else (write_session (has_id session_id) (revoke "owner_logout" now) a, true)
]

-- `_rotate_previous`
unfoldable pub rotate_previous : String → ℕ → Accounts → Accounts
unfolding get_session_with_user
rotate_previous token_hash now a = elim (get_session_with_user token_hash a) [
  | none ↦ a
  | some (row, user) ↦
      if is_some row.revoked_at
      then a
      else write_session (has_token token_hash) (revoke "rotated_on_login" now) a
]

-- What `_new_session` is given beside the time: the user, a new id and token, and the client.
pub record Opening : Type 0 where
  pub user : User
  pub id : ℕ
  pub token : String
  pub network : String
  pub user_agent : Option String

module _ (sha256_text derive_csrf_token : String → String) (settings : Settings) where
  -- The row that `_new_session` adds.
  abbrev pub new_session_row : Opening → ℕ → Session
  new_session_row opening now =
      let absolute = now + seconds settings.session_absolute_seconds in
      record {
        id = opening.id;
        user_id = opening.user.id;
        token_hash = sha256_text opening.token;
        csrf_secret_hash = sha256_text (derive_csrf_token opening.token);
        created_at = now;
        last_seen_at = now;
        expires_at = min (now + seconds settings.session_idle_seconds) absolute;
        absolute_expires_at = absolute;
        revoked_at = none;
        revoke_reason = none;
        ip_prefix = opening.network;
        user_agent_hash = elim opening.user_agent [
          | none ↦ none
          | some agent ↦ if agent == "" then none else some (sha256_text agent)
        ];
      }

  -- `_new_session`; `none` is a violated key.
  unfoldable pub new_session : Opening → ℕ → Accounts → Option (Accounts × Principal)
  unfolding create_session
  new_session opening now a =
      let row = new_session_row opening now in
      elim (create_session row a) [
        | none ↦ none
        | some after ↦
            some
              (after, principal_of row opening.user opening.token (derive_csrf_token opening.token))
      ]
