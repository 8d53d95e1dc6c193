-- ===== src/Auth/Tests.antt =====
-- An owner who logs in, uses the session and logs out, and whose account is locked after a failure.
use jarvis_development.Prelude.{
  Option, ℕ, ◌+◌, ◌≤◌, ◌<◌, true, false, none, some, [], ◌∷◌, find?, String, string_eq, nat_eq,
  ◌==◌, is_some, ◌≡◌, refl, arith,
}
use jarvis_development.Auth.{
  new_session, create_session, User, Session, Settings, Accounts, Principal, seconds, is_user,
  get_session_with_user, change_session, revoke_reason_of, accepted, anonymous, observe, logout,
}
use jarvis_development.Auth.Login.{
  rotate_if, finish_login, admit_login, blocked_seconds, delay_of, fail_row, Service, Login,
  LoginResult, rows_at, Passwords, try_login, login_user,
}
use jarvis_development.Auth.Steps.{Reach, here, next, observes}
use jarvis_development.Auth.Accepted.{observe-IsOpen}
use jarvis_development.Auth.Attempts.{no_attempt, logs_in}
use jarvis_development.Auth.Locked.{login_user-backs_off}

abbrev hash : String → String
hash text = text

abbrev settings : Settings
settings = record {
  session_idle_seconds = 60;
  session_absolute_seconds = 300;
  session_touch_interval_seconds = 1;
  login_window_seconds = 900;
  login_account_limit = 1;
  login_network_limit = 20;
  login_base_delay_seconds = 2;
  login_max_delay_seconds = 300;
}

abbrev owner : User
owner = record {
  id = 1;
  username = "owner";
  role = "owner";
  password_hash = "secret";
  enabled = true;
  last_login_at = none;
}

abbrev token : String
token = "0123456789abcdef0123456789abcdef"

abbrev row : Session
row = record {
  id = 7;
  user_id = 1;
  token_hash = token;
  csrf_secret_hash = token;
  created_at = 0;
  last_seen_at = 0;
  expires_at = 60000000;
  absolute_expires_at = 300000000;
  revoked_at = none;
  revoke_reason = none;
  ip_prefix = "10.0.0.0/24";
  user_agent_hash = none;
}

abbrev accounts : Accounts
accounts = record { users = owner ∷ []; sessions = row ∷ [] }

abbrev touched : Accounts
touched = record {
  users = owner ∷ [];
  sessions = record row { last_seen_at = 50000000; expires_at = 110000000 } ∷ [];
}

abbrev principal : ℕ → Principal
principal idle = record {
  user_id = 1;
  username = "owner";
  role = "owner";
  session_id = 7;
  idle_expires_at = idle;
  absolute_expires_at = 300000000;
  session_token = token;
  csrf_token = token;
}

touches :
    observe hash hash settings false token 50000000 accounts
    ≡ (touched, accepted (principal 110000000))
unfolding observe get_session_with_user revoke_reason_of change_session
touches = refl

ends_after_logout : (observe hash hash settings false token 2 (logout 7 1 accounts).0).1 ≡ anonymous
unfolding observe get_session_with_user revoke_reason_of change_session logout
ends_after_logout = refl

used : Reach hash hash settings accounts touched
unfolding observe get_session_with_user revoke_reason_of change_session
used = next here (observes false token 50000000)

still_open :
    observe hash hash settings true token 100000000 touched
    ≡ (touched, accepted (principal 110000000))
unfolding observe get_session_with_user revoke_reason_of change_session
still_open = refl

observe-IsOpen_example :
    (is_some row.revoked_at ≡ false)
    × (100000000 < row.absolute_expires_at)
    × ((principal 110000000).user_id ≡ row.user_id)
    × ((user : User) × (find? (is_user row.user_id) touched.users ≡ some user)
        × (user.enabled ≡ true))
observe-IsOpen_example = observe-IsOpen hash hash settings true token 100000000 refl used still_open

abbrev passwords : Passwords
passwords = record {
  verify = λ stored password. stored == password;
  needs_rehash = λ stored. false;
  hash = hash;
  dummy_hash = "-";
}

abbrev login : String → Login
login password = record {
  account_hash = "a";
  network_hash = "n";
  username = some "owner";
  password = password;
  previous_token_hash = none;
  id = 8;
  token = "t";
  network = "10.0.0.0/24";
  user_agent = none;
}

abbrev service : Service
service = record { accounts = accounts; limits = record { account = []; network = [] } }

abbrev after : Service
after = record service {
  limits = record {
    account =
        ("a", record { failed_count = 1; window_started_at = 0; locked_until = some 2000000 }) ∷ [];
    network = ("n", record { failed_count = 1; window_started_at = 0; locked_until = none }) ∷ [];
  };
}

abbrev refused : LoginResult
refused = record { principal = none; retry_after_seconds = 2 }

fails : login_user hash hash settings passwords (login "guess") 0 service ≡ some (after, refused)
unfolding login_user try_login rows_at blocked_seconds fail_row delay_of
fails = refl

-- The principal of a login's answer.
principal_id : Option (Service × LoginResult) → Option ℕ
principal_id none = none
principal_id (some (s, result)) = elim result.principal [ none ↦ none | some p ↦ some p.session_id ]

admits :
    principal_id (login_user hash hash settings passwords (login "secret") 2000000 after) ≡ some 8
unfolding principal_id login_user try_login rows_at blocked_seconds admit_login finish_login
    rotate_if new_session create_session
admits = refl

-- A password is tried again while the account is locked.
abbrev refused_again : LoginResult
refused_again = record { principal = none; retry_after_seconds = 2 }

tries_again :
    login_user hash hash settings passwords (login "other guess") 500000 after
    ≡ some (after, refused_again)
unfolding login_user try_login rows_at blocked_seconds fail_row delay_of
tries_again = refl

login_user-backs_off_example :
    (last : Service) × (answer : LoginResult) × (login_user hash hash settings passwords
        (login "secret")
        1000000
        after
      ≡ some (last, answer))
    × (last.accounts ≡ after.accounts)
    × (answer.principal ≡ none)
    × (2000000 ≤ 1000000 + seconds answer.retry_after_seconds)
unfolding rows_at blocked_seconds
login_user-backs_off_example =
    login_user-backs_off hash hash settings passwords (login "guess") (login "secret") 0 1000000
      2000000 0 service fails refl refl (omega arith) refl (omega arith) (omega arith)
      (logs_in no_attempt (login "other guess") 500000 refused_again (omega arith) tries_again) refl
      (omega arith)
