-- ===== src/Auth/Login.antt =====
-- `AuthService.login` and the limits of failed logins. The password manager is a parameter; a row
-- of the limits is new where it is missing.
use Prim.Native.Nat.{◌/◌}
use jarvis_development.Prelude.{
  ℕ, ◌+◌, ◌-◌, ◌*◌, ◌^◌, min, max, Bool, true, false, ◌&&◌, Option, none, some, find?, Dict, get,
  put, String, string_eq, nat_eq, ◌==◌, leb, ltb, if◌then◌else◌, List, [], ◌∷◌,
}
use jarvis_development.Auth.{
  User, Settings, Accounts, Principal, seconds, rotate_previous, Opening, new_session,
}

-- `LoginRateLimitModel`, without `updated_at`.
pub record LoginRateLimit : Type 0 where
  pub failed_count : ℕ
  pub window_started_at : ℕ
  pub locked_until : Option ℕ

-- The rows of the two scopes, by subject.
pub record Limits : Type 0 where
  pub account : Dict String LoginRateLimit
  pub network : Dict String LoginRateLimit

-- The two rows of a login.
pub record LimitRows : Type 0 where
  pub account : LoginRateLimit
  pub network : LoginRateLimit

abbrev pub new_limit : ℕ → LoginRateLimit
new_limit now = record { failed_count = 0; window_started_at = now; locked_until = none }

-- `lock_rate_limits`, for one scope
abbrev pub limit_at : ℕ → Dict String LoginRateLimit → String → LoginRateLimit
limit_at now rows subject = elim (get rows subject) [ none ↦ new_limit now | some row ↦ row ]

-- `now - row.window_started_at >= window`
abbrev pub is_outside : Settings → ℕ → LoginRateLimit → Bool
is_outside settings now row =
    leb (row.window_started_at + seconds settings.login_window_seconds) now

-- `_reset_windows`, for one row
abbrev pub reset_window : Settings → ℕ → LoginRateLimit → LoginRateLimit
reset_window settings now row = if is_outside settings now row then new_limit now else row

-- `math.ceil` of microseconds, in seconds
abbrev pub ceil_seconds : ℕ → ℕ
ceil_seconds n = (n + 999999) / 1000000

-- How long a row is locked from now on, in microseconds.
abbrev pub locked_for : ℕ → LoginRateLimit → ℕ
locked_for now row = elim row.locked_until [
  | none ↦ 0
  | some locked_until ↦ if ltb now locked_until then locked_until - now else 0
]

-- `_blocked_seconds`
unfoldable pub blocked_seconds : ℕ → LimitRows → ℕ
blocked_seconds now rows =
    ceil_seconds (max (locked_for now rows.account) (locked_for now rows.network))

-- The delay after so many failures, in seconds, if the threshold is reached.
unfoldable pub delay_of : Settings → ℕ → ℕ → ℕ
delay_of settings threshold failed_count =
    min settings.login_max_delay_seconds
      (settings.login_base_delay_seconds * 2 ^ min (failed_count - threshold) 30)

-- `_record_failure`, for one row
unfoldable pub fail_row : Settings → ℕ → ℕ → LoginRateLimit → LoginRateLimit
unfolding delay_of
fail_row settings threshold now row =
    let failed_count = row.failed_count + 1 in
    record row {
      failed_count = failed_count;
      locked_until =
          if leb threshold failed_count && ltb 0 settings.login_base_delay_seconds
          then some (now + seconds (delay_of settings threshold failed_count))
          else row.locked_until;
    }

-- `_record_failure`
abbrev pub record_failure : Settings → ℕ → LimitRows → LimitRows
record_failure settings now rows = record {
  account = fail_row settings settings.login_account_limit now rows.account;
  network = fail_row settings settings.login_network_limit now rows.network;
}

-- The rows of the service.
pub record Service : Type 0 where
  pub accounts : Accounts
  pub limits : Limits

-- A request to log in: the subjects of its two rows, the normalized username if there is one, the
-- password, the hash of the previous session's token, and what a new session is given.
pub record Login : Type 0 where
  pub account_hash : String
  pub network_hash : String
  pub username : Option String
  pub password : String
  pub previous_token_hash : Option String
  pub id : ℕ
  pub token : String
  pub network : String
  pub user_agent : Option String

-- `LoginResult`
pub record LoginResult : Type 0 where
  pub principal : Option Principal
  pub retry_after_seconds : ℕ

abbrev pub find_user : Option String → List User → Option User
find_user none users = none
find_user (some username) users = find? (λ user. user.username == username) users

abbrev pub save_user : List User → User → List User
save_user [] user = []
save_user (u ∷ us) user = if u.id == user.id then user ∷ us else u ∷ save_user us user

-- `lock_rate_limits` and `_reset_windows`
unfoldable pub rows_at : Settings → ℕ → Login → Limits → LimitRows
rows_at settings now login limits = record {
  account = reset_window settings now (limit_at now limits.account login.account_hash);
  network = reset_window settings now (limit_at now limits.network login.network_hash);
}

abbrev pub save_rows : Login → LimitRows → Limits → Limits
save_rows login rows limits = record {
  account = put limits.account login.account_hash rows.account;
  network = put limits.network login.network_hash rows.network;
}

-- `PasswordManager`
pub record Passwords : Type 0 where
  pub verify : String → String → Bool
  pub needs_rehash : String → Bool
  pub hash : String → String
  pub dummy_hash : String

-- The hash that a password is verified against.
abbrev pub hash_of : Passwords → Option User → String
hash_of passwords none = passwords.dummy_hash
hash_of passwords (some user) = if user.enabled then user.password_hash else passwords.dummy_hash

-- `if previous_session_token:`
unfoldable pub rotate_if : Option String → ℕ → Accounts → Accounts
rotate_if none now a = a
rotate_if (some token_hash) now a = rotate_previous token_hash now a

-- The end of the branch of a valid password; the failures of the account are forgotten.
unfoldable pub finish_login :
    Login → ℕ → LimitRows → Service → Option (Accounts × Principal) → Option (Service × LoginResult)
finish_login login now rows s none = none
finish_login login now rows s (some (accounts, principal)) = some (
  record {
    accounts = accounts;
    limits = save_rows login (record rows { account = new_limit now }) s.limits;
  },
  record { principal = some principal; retry_after_seconds = 0 },
)

module _ (sha256_text derive_csrf_token : String → String) (settings : Settings)
    (passwords : Passwords) where
  -- The user after a login.
  abbrev pub logged_in : Login → ℕ → User → User
  logged_in login now user = record user {
    password_hash =
        if passwords.needs_rehash user.password_hash
        then passwords.hash login.password
        else user.password_hash;
    last_login_at = some now;
  }

  -- The branch of a valid password; `none` is a violated key, which rolls back.
  unfoldable pub admit_login :
      Login → ℕ → LimitRows → User → Service → Option (Service × LoginResult)
  unfolding finish_login rotate_if
  admit_login login now rows user s =
      let after = logged_in login now user in
      let users = record s.accounts { users = save_user s.accounts.users after } in
      let rotated = rotate_if login.previous_token_hash now users in
      let opening : Opening = record {
        user = after;
        id = login.id;
        token = login.token;
        network = login.network;
        user_agent = login.user_agent;
      } in
      finish_login login now rows s
        (new_session sha256_text derive_csrf_token settings opening now rotated)

  abbrev pub refuse_login : Login → LimitRows → ℕ → Service → Option (Service × LoginResult)
  refuse_login login rows retry_after s = some (
    record s { limits = save_rows login rows s.limits },
    record { principal = none; retry_after_seconds = retry_after },
  )

  -- A login that is not locked out, for the user that its username leads to.
  unfoldable pub try_login :
      Login → ℕ → LimitRows → Option User → Service → Option (Service × LoginResult)
  unfolding admit_login
  try_login login now rows none s =
      let failed = record_failure settings now rows in
      refuse_login login failed (blocked_seconds now failed) s
  try_login login now rows (some user) s =
      let failed = record_failure settings now rows in
      elim (user.enabled && passwords.verify (hash_of passwords (some user)) login.password) [
        | true ↦ admit_login login now rows user s
        | false ↦ refuse_login login failed (blocked_seconds now failed) s
      ]

  -- The transaction of `login`, which verifies the password against the row of the user that it
  -- reads; `login` verifies it before, and again if that row has changed.
  unfoldable pub login_user : Login → ℕ → Service → Option (Service × LoginResult)
  unfolding rows_at try_login
  login_user login now s =
      let rows = rows_at settings now login s.limits in
      let blocked = blocked_seconds now rows in
      if ltb 0 blocked
      then refuse_login login rows blocked s
      else try_login login now rows (find_user login.username s.accounts.users) s
