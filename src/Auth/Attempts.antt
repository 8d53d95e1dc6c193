-- ===== src/Auth/Attempts.antt =====
-- Sequences of logins and other transactions, and what they leave of the row of a locked account.
use jarvis_development.Prelude.{
  ℕ, ◌+◌, ◌≤◌, ◌<◌, false, Option, none, some, Dict, get, put, get-put, get-put_other, String,
  string_eq, ◌==◌, ltb, ◌≡◌, refl, sym, ◌∙◌, ap, subst, inl, inr, Bool-cases, arith, ◌&&◌,
}
use jarvis_development.Auth.{Settings, Accounts, seconds, User, Principal}
use jarvis_development.Auth.Login.{
  LoginRateLimit, Limits, LimitRows, limit_at, is_outside, reset_window, blocked_seconds, Service,
  Login, LoginResult, rows_at, Passwords, hash_of, find_user, finish_login, admit_login, try_login,
  login_user,
}
use jarvis_development.Auth.Failures.{login_user-locked, reset_window-inside}

limit_at-found :
    (now : ℕ) (rows : Dict String LoginRateLimit) (subject : String) (row : LoginRateLimit)
    → get rows subject ≡ some row
    → limit_at now rows subject ≡ row
limit_at-found now rows subject row there = ground (arith, there)

-- A login writes one row of the accounts' limits, its own.
Writes : Login → Service → Service → Type 0
Writes login s after =
    (row : LoginRateLimit) × (after.limits.account ≡ put s.limits.account login.account_hash row)

written : (s : Service) (result : LoginResult) → Option (Service × LoginResult) → Service
written s result none = s
written s result (some (after, answer)) = after

written-by :
    (s after : Service) (result : LoginResult) {outcome : Option (Service × LoginResult)}
    → outcome ≡ some (after, result)
    → written s result outcome ≡ after
unfolding written
written-by s after result e = ap (written s result) e

finish_login-Writes :
    (login : Login) (now : ℕ) (rows : LimitRows) (s : Service)
    (opened : Option (Accounts × Principal)) {after : Service} {result : LoginResult}
    → finish_login login now rows s opened ≡ some (after, result)
    → Writes login s after
unfolding finish_login Writes written
finish_login-Writes login now rows s none h = cc
finish_login-Writes login now rows s (some (accounts, principal)) {after} {result} h =
    (_, ap (λ (t : Service). t.limits.account) (sym (written-by s after result h)))

module _ (sha256_text derive_csrf_token : String → String) (settings : Settings)
    (passwords : Passwords) where
  admit_login-Writes :
      (login : Login) (now : ℕ) (rows : LimitRows) (user : User) (s : Service) {after : Service}
      {result : LoginResult}
      → admit_login sha256_text derive_csrf_token settings passwords login now rows user s
        ≡ some (after, result)
      → Writes login s after
  unfolding admit_login
  admit_login-Writes login now rows user s h = finish_login-Writes login now rows s _ h

  try_login-Writes :
      (login : Login) (now : ℕ) (rows : LimitRows) (user : Option User) (s : Service)
      {after : Service} {result : LoginResult}
      → try_login sha256_text derive_csrf_token settings passwords login now rows user s
        ≡ some (after, result)
      → Writes login s after
  unfolding try_login Writes written
  try_login-Writes login now rows none s {after} {result} h =
      (_, ap (λ (t : Service). t.limits.account) (sym (written-by s after result h)))
  try_login-Writes login now rows (some user) s {after} {result} h =
      elim (Bool-cases
        (user.enabled && passwords.verify (hash_of passwords (some user)) login.password)) [
          | inl valid ↦
              admit_login-Writes login now rows user s {after = after} {result = result}
                (rw (valid, try_login) at h)
          | inr wrong ↦ (
            _,
            ap (λ (t : Service). t.limits.account)
                (sym (written-by s after result (rw (wrong, try_login) at h))),
          )
        ]

  login_user-Writes :
      (login : Login) (now : ℕ) (s : Service) {after : Service} {result : LoginResult}
      → login_user sha256_text derive_csrf_token settings passwords login now s
        ≡ some (after, result)
      → Writes login s after
  unfolding login_user Writes written
  login_user-Writes login now s {after} {result} h =
      elim (Bool-cases (ltb 0 (blocked_seconds now (rows_at settings now login s.limits)))) [
        | inl blocked ↦ (
          _,
          ap (λ (t : Service). t.limits.account)
              (sym (written-by s after result (rw blocked at h))),
        )
        | inr idle ↦
            try_login-Writes login now (rows_at settings now login s.limits)
              (find_user login.username s.accounts.users) s {after = after} {result = result}
              (rw idle at h)
      ]

  -- Any logins of any accounts before a deadline, as `login` commits them, and between them any
  -- other transactions, none of which writes the limits.
  pub data Attempts (deadline : ℕ) (s : Service) : Service → Type 0 where
    no_attempt : Attempts deadline s s
    logs_in :
        {t u : Service}
        → Attempts deadline s t
        → (login : Login) (now : ℕ) (result : LoginResult) → now < deadline
        → login_user sha256_text derive_csrf_token settings passwords login now t ≡ some (u, result)
        → Attempts deadline s u
    writes :
        {t : Service}
        → Attempts deadline s t
        → (accounts : Accounts) → Attempts deadline s (record t { accounts = accounts })

  pub rows_at-found :
      (login : Login) (now : ℕ) (limits : Limits) (row : LoginRateLimit)
      → get limits.account login.account_hash ≡ some row
      → is_outside settings now row ≡ false
      → (rows_at settings now login limits).account ≡ row
  unfolding rows_at
  rows_at-found login now limits row there inside =
      ap (reset_window settings now)
        (limit_at-found now limits.account login.account_hash row there)
      ∙ reset_window-inside settings now row inside

  -- The row of a locked account, which no login before the deadline changes.
  module _ (key : String) (row : LoginRateLimit) (until deadline : ℕ)
      (locked : row.locked_until ≡ some until) (lasts : deadline ≤ until)
      (inside : deadline ≤ row.window_started_at + seconds settings.login_window_seconds) where
    pub not_outside : (now : ℕ) → now < deadline → is_outside settings now row ≡ false
    not_outside now early = ground (arith, early, inside)

    locked-put :
        (login : Login) (now : ℕ) (s : Service) {after : Service} {result : LoginResult}
        → login.account_hash ≡ key
        → get s.limits.account key ≡ some row
        → now < deadline
        → login_user sha256_text derive_csrf_token settings passwords login now s
          ≡ some (after, result)
        → after.limits.account ≡ put s.limits.account login.account_hash row
    unfolding written
    locked-put login now s {after} {result} same there early h =
        let found =
          rows_at-found login now s.limits row
            (subst (λ k. get s.limits.account k ≡ some row) (sym same) there)
            (not_outside now early) in
        let (last, answer, ran, accounts, limits, principal, covered) =
          login_user-locked sha256_text derive_csrf_token settings passwords login now until s
            (ap (λ (r : LoginRateLimit). r.locked_until) found ∙ locked) (omega arith) in
        let last_is : last ≡ after = ap (written s result) (sym ran ∙ h) in
        ap (λ (t : Service). t.limits.account) (sym last_is)
        ∙ ap (λ (l : Limits). l.account) limits
        ∙ ap (put s.limits.account login.account_hash) found

    login_user-keeps :
        (login : Login) (now : ℕ) (s : Service) {after : Service} {result : LoginResult}
        → get s.limits.account key ≡ some row
        → now < deadline
        → login_user sha256_text derive_csrf_token settings passwords login now s
          ≡ some (after, result)
        → get after.limits.account key ≡ some row
    unfolding Writes
    login_user-keeps login now s {after} {result} there early h =
        elim (Bool-cases (login.account_hash == key)) [
          | inl hit ↦
              let same = (string_eq.same_iff login.account_hash key).0 hit in
              rw (locked-put login now s {after = after} {result = result} same there early h)
                (get-put s.limits.account login.account_hash key row ∙ rw hit refl)
          | inr miss ↦
              let (new, wrote) =
                login_user-Writes login now s {after = after} {result = result} h in
              rw wrote (get-put_other s.limits.account login.account_hash key new miss ∙ there)
        ]

    pub Attempts-keeps :
        {s t : Service}
        → Attempts deadline s t
        → get s.limits.account key ≡ some row
        → get t.limits.account key ≡ some row
    Attempts-keeps no_attempt there = there
    Attempts-keeps (logs_in {t} {u} steps login now result early h) there =
        login_user-keeps login now t {after = u} {result = result} (Attempts-keeps steps there)
          early h
    Attempts-keeps (writes steps accounts) there = Attempts-keeps steps there
