-- ===== src/Auth/Locked.antt =====
-- After enough failures, an account is locked for a time that doubles with each.
use jarvis_development.Prelude.{
  ℕ, ◌+◌, ◌-◌, ◌*◌, ◌^◌, ◌≤◌, ◌<◌, min, none, some, get, get-put, String, string_eq, ◌≡◌, refl, sym,
  ◌∙◌, ap, subst, arith, ==-refl,
}
use jarvis_development.Auth.{Settings, seconds}
use jarvis_development.Auth.Login.{
  LoginRateLimit, Limits, blocked_seconds, delay_of, fail_row, Service, Login, LoginResult, rows_at,
  Passwords, login_user,
}
use jarvis_development.Auth.Failures.{fail_row-locks, login_user-fails, login_user-locked}
use jarvis_development.Auth.Attempts.{Attempts, rows_at-found, not_outside, Attempts-keeps}

-- The delay of a failure past the limit.
delay_of-doubles :
    (settings : Settings) (threshold past failed_count : ℕ)
    → failed_count ≡ threshold + past
    → delay_of settings threshold failed_count
      ≡ min settings.login_max_delay_seconds (settings.login_base_delay_seconds * 2 ^ min past 30)
unfolding delay_of
delay_of-doubles settings threshold past failed_count e =
    let past_is : failed_count - threshold ≡ past = omega (arith, e) in
    ap
      (λ n. min settings.login_max_delay_seconds (settings.login_base_delay_seconds * 2 ^ min n 30))
      past_is

module _ (sha256_text derive_csrf_token : String → String) (settings : Settings)
    (passwords : Passwords) where
  -- The row after a failed login that was not locked out.
  failed-stored :
      (login : Login) (now : ℕ) (s : Service) {after : Service} {result : LoginResult}
      → login_user sha256_text derive_csrf_token settings passwords login now s
        ≡ some (after, result)
      → blocked_seconds now (rows_at settings now login s.limits) ≡ 0
      → result.principal ≡ none
      → get after.limits.account login.account_hash
        ≡ some (
            fail_row settings settings.login_account_limit now
              (rows_at settings now login s.limits).account)
  failed-stored login now s {after} {result} h idle failed =
      let row =
        fail_row settings settings.login_account_limit now
          (rows_at settings now login s.limits).account in
      ap (λ (l : Limits). get l.account login.account_hash)
        (login_user-fails sha256_text derive_csrf_token settings passwords login now s
          {after = after} {result = result} h idle failed)
      ∙ get-put s.limits.account login.account_hash login.account_hash row
      ∙ rw (==-refl login.account_hash) refl

  -- If a login that is not locked out fails, and its account has then failed `past` times more than
  -- the limit in the window, then its account is locked for the base delay doubled `past` times, 30
  -- at most, up to a maximum: whatever logins of whatever accounts and other transactions follow,
  -- every login of the account before this delay and the window are over is refused and changes no
  -- session or user, whatever the password, and is told to wait at least until the delay is over.
  pub login_user-backs_off :
      (login later : Login) (now now' deadline past : ℕ) (s : Service) {after t : Service}
      {result : LoginResult}
      → login_user sha256_text derive_csrf_token settings passwords login now s
        ≡ some (after, result)
      → blocked_seconds now (rows_at settings now login s.limits) ≡ 0
      → result.principal ≡ none
      → 0 < settings.login_base_delay_seconds
      → (rows_at settings now login s.limits).account.failed_count + 1
        ≡ settings.login_account_limit + past
      → deadline
        ≤ now
          + seconds (
              min settings.login_max_delay_seconds
                (settings.login_base_delay_seconds * 2 ^ min past 30))
      → deadline
        ≤ (rows_at settings now login s.limits).account.window_started_at
          + seconds settings.login_window_seconds
      → Attempts sha256_text derive_csrf_token settings passwords deadline after t
      → later.account_hash ≡ login.account_hash
      → now' < deadline
      → (last : Service) × (answer : LoginResult) × (login_user sha256_text derive_csrf_token
            settings passwords later now' t
          ≡ some (last, answer))
        × (last.accounts ≡ t.accounts)
        × (answer.principal ≡ none)
        × (now
              + seconds (
                  min settings.login_max_delay_seconds
                    (settings.login_base_delay_seconds * 2 ^ min past 30))
            ≤ now' + seconds answer.retry_after_seconds)
  unfolding fail_row
  login_user-backs_off login later now now' deadline past s {after} {t} {result} h idle failed
        positive often lasts inside steps same early =
      let old = (rows_at settings now login s.limits).account in
      let row = fail_row settings settings.login_account_limit now old in
      let until =
        now
        + seconds (
            min settings.login_max_delay_seconds
              (settings.login_base_delay_seconds * 2 ^ min past 30)) in
      let locked : row.locked_until ≡ some until =
        fail_row-locks settings settings.login_account_limit now old (ground (arith, often))
          positive
        ∙ ap (λ n. some (now + seconds n))
            (delay_of-doubles settings settings.login_account_limit past (old.failed_count + 1)
              often) in
      let there =
        Attempts-keeps sha256_text derive_csrf_token settings passwords login.account_hash row until
          deadline locked lasts inside steps
          (failed-stored login now s {after = after} {result = result} h idle failed) in
      let found =
        rows_at-found sha256_text derive_csrf_token settings passwords later now' t.limits row
          (subst (λ k. get t.limits.account k ≡ some row) (sym same) there)
          (not_outside sha256_text derive_csrf_token settings passwords login.account_hash row until
            deadline locked lasts inside now' early) in
      let (last, answer, ran, accounts, limits, principal, covered) =
        login_user-locked sha256_text derive_csrf_token settings passwords later now' until t
          (ap (λ (r : LoginRateLimit). r.locked_until) found ∙ locked) (omega arith) in
      (last, answer, ran, accounts, principal, covered)
