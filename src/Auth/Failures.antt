-- ===== src/Auth/Failures.antt =====
-- What a login does to the limits: a failure is recorded, and a locked account is refused.
use jarvis_development.Prelude.{
  ℕ, ◌+◌, ◌≤◌, ◌<◌, max, true, false, ◌&&◌, Option, none, some, [], String, string_eq, leb, ltb,
  ◌≡◌, refl, sym, ◌∙◌, ap, inl, inr, Bool-cases, arith,
}
use jarvis_development.Auth.{Settings, Accounts, seconds, User, Principal}
use jarvis_development.Auth.Login.{
  LoginRateLimit, Limits, LimitRows, is_outside, reset_window, ceil_seconds, locked_for,
  blocked_seconds, delay_of, fail_row, record_failure, Service, Login, LoginResult, rows_at,
  save_rows, Passwords, hash_of, find_user, finish_login, admit_login, try_login, login_user,
}

ceil-covers : (n : ℕ) → n ≤ seconds (ceil_seconds n)
ceil-covers n = omega arith

locked_for-le :
    (now : ℕ) (rows : LimitRows) → locked_for now rows.account ≤ seconds (blocked_seconds now rows)
unfolding blocked_seconds
locked_for-le now rows =
    omega (arith, ceil-covers (max (locked_for now rows.account) (locked_for now rows.network)))

pub fail_row-locks :
    (settings : Settings) (threshold now : ℕ) (row : LoginRateLimit)
    → leb threshold (row.failed_count + 1) ≡ true
    → 0 < settings.login_base_delay_seconds
    → (fail_row settings threshold now row).locked_until
      ≡ some (now + seconds (delay_of settings threshold (row.failed_count + 1)))
unfolding fail_row
fail_row-locks settings threshold now row h positive = ground (arith, h, positive)

locked_for-until :
    (now until : ℕ) (row : LoginRateLimit)
    → row.locked_until ≡ some until
    → until ≤ now + locked_for now row
locked_for-until now until row h = ground (arith, h)

pub reset_window-inside :
    (settings : Settings) (now : ℕ) (row : LoginRateLimit)
    → is_outside settings now row ≡ false
    → reset_window settings now row ≡ row
reset_window-inside settings now row h = rw h refl

principal_of : Option (Service × LoginResult) → Option Principal
principal_of none = none
principal_of (some (s, result)) = result.principal

finish_login-principal :
    (login : Login) (now : ℕ) (rows : LimitRows) (s : Service)
    (opened : Option (Accounts × Principal)) {after : Service} {result : LoginResult}
    → finish_login login now rows s opened ≡ some (after, result)
    → result.principal ≡ none
    → ⊥
unfolding finish_login principal_of
finish_login-principal login now rows s none h failed = cc
finish_login-principal login now rows s (some (accounts, principal)) {after} {result} h failed =
    let there : some principal ≡ result.principal = ap principal_of h in
    let clash : some principal ≡ none = there ∙ failed in cc

limits_of : Option (Service × LoginResult) → Limits
limits_of none = record { account = []; network = [] }
limits_of (some (s, result)) = s.limits

module _ (sha256_text derive_csrf_token : String → String) (settings : Settings)
    (passwords : Passwords) where
  admit_login-principal :
      (login : Login) (now : ℕ) (rows : LimitRows) (user : User) (s : Service) {after : Service}
      {result : LoginResult}
      → admit_login sha256_text derive_csrf_token settings passwords login now rows user s
        ≡ some (after, result)
      → result.principal ≡ none
      → ⊥
  unfolding admit_login
  admit_login-principal login now rows user s {after} {result} h failed =
      finish_login-principal login now rows s _ h failed

  -- A login that is not locked out and fails records the failure in both rows.
  try_login-fails :
      (login : Login) (now : ℕ) (rows : LimitRows) (user : Option User) (s : Service)
      {after : Service} {result : LoginResult}
      → try_login sha256_text derive_csrf_token settings passwords login now rows user s
        ≡ some (after, result)
      → result.principal ≡ none
      → after.limits ≡ save_rows login (record_failure settings now rows) s.limits
  unfolding try_login limits_of
  try_login-fails login now rows none s {after} {result} h failed = ap limits_of (sym h)
  try_login-fails login now rows (some user) s {after} {result} h failed =
      elim (Bool-cases
        (user.enabled && passwords.verify (hash_of passwords (some user)) login.password)) [
          | inl valid ↦ absurd (
              admit_login-principal login now rows user s {after = after} {result = result}
                (ground (arith, h, valid)) failed)
          | inr wrong ↦ ap limits_of (sym h) ∙ rw (wrong, try_login) refl
        ]

  pub login_user-fails :
      (login : Login) (now : ℕ) (s : Service) {after : Service} {result : LoginResult}
      → login_user sha256_text derive_csrf_token settings passwords login now s
        ≡ some (after, result)
      → blocked_seconds now (rows_at settings now login s.limits) ≡ 0
      → result.principal ≡ none
      → after.limits
        ≡ save_rows login
            (record_failure settings now (rows_at settings now login s.limits))
            s.limits
  unfolding login_user
  login_user-fails login now s {after} {result} h idle failed =
      try_login-fails login now (rows_at settings now login s.limits)
        (find_user login.username s.accounts.users) s {after = after} {result = result}
        (ground (arith, h, idle)) failed

  -- A login whose account is locked is refused, whatever the password.
  pub login_user-locked :
      (login : Login) (now until : ℕ) (s : Service)
      → (rows_at settings now login s.limits).account.locked_until ≡ some until
      → now < until
      → (after : Service) × (result : LoginResult) × (login_user sha256_text derive_csrf_token
            settings passwords login now s
          ≡ some (after, result))
        × (after.accounts ≡ s.accounts)
        × (after.limits ≡ save_rows login (rows_at settings now login s.limits) s.limits)
        × (result.principal ≡ none)
        × (until ≤ now + seconds result.retry_after_seconds)
  unfolding login_user
  login_user-locked login now until s h early =
      let rows = rows_at settings now login s.limits in
      let covered : until ≤ now + seconds (blocked_seconds now rows) =
        omega (arith, locked_for-until now until rows.account h, locked_for-le now rows) in
      let blocked : ltb 0 (blocked_seconds now rows) ≡ true = ground (arith, covered, early) in
      rw (blocked, login_user) (_, _, refl, refl, refl, refl, covered)
