-- ===== src/Auth/Accepted.antt =====
-- Which sessions `authenticate` accepts.
use Prim.Native.String.{count}
use jarvis_development.Prelude.{
  ℕ, ◌<◌, Bool, true, false, ◌||◌, Option, none, some, find?, find?-eq_some, String, string_eq,
  nat_eq, ltb, is_some, ◌≡◌, refl, sym, ◌∙◌, ap, subst, inl, inr, Bool-cases, Option-cases, arith,
}
use jarvis_development.Auth.{
  User, Session, Settings, Accounts, Principal, has_token, is_user, get_session_with_user,
  revoke_reason_of, Observed, accepted, observe,
}
use jarvis_development.Auth.Steps.{Reach}
use jarvis_development.Auth.Lookup.{IsKept, Reach-Keeps}

get_session-found :
    (token_hash : String) (a : Accounts) {row : Session} {user : User}
    → get_session_with_user token_hash a ≡ some (row, user)
    → (find? (has_token token_hash) a.sessions ≡ some row)
      × (find? (is_user row.user_id) a.users ≡ some user)
unfolding get_session_with_user
get_session-found token_hash a {row} {user} h =
    elim (Option-cases (find? (has_token token_hash) a.sessions)) [
      | inl e ↦ absurd (ground (arith, h, e))
      | inr (r, e) ↦ elim (Option-cases (find? (is_user r.user_id) a.users)) [
        | inl f ↦ absurd (ground (arith, h, e, f))
        | inr (u, f) ↦
            let same : ◌≡◌ {A = Option (Session × User)} (some (r, u)) (some (row, user)) =
              ground (arith, h, e, f) in
            let its_row : r ≡ row = cc in
            let its_user : u ≡ user = cc in
            (
              e ∙ ap some its_row,
              subst (λ (x : Session). find? (is_user x.user_id) a.users ≡ some user) its_row
                  (f ∙ ap some its_user),
            )
      ]
    ]

revoke_reason-none :
    (now : ℕ) (csrf_hash : String) (row : Session) (user : User)
    → revoke_reason_of now csrf_hash row user ≡ none
    → (user.enabled ≡ true) × (now < row.absolute_expires_at) × (now < row.expires_at)
unfolding revoke_reason_of
revoke_reason-none now csrf_hash row user h =
    (ground (arith, h), ground (arith, h), ground (arith, h))

unrevoked :
    {row later : Session}
    → IsKept row later
    → is_some later.revoked_at ≡ false
    → is_some row.revoked_at ≡ false
unrevoked {row} kept valid = elim (Bool-cases (is_some row.revoked_at)) [
  | inl over ↦ absurd (ground (arith, valid, kept.revoked over))
  | inr fine ↦ fine
]

user_of : Observed → Option ℕ
user_of (accepted p) = some p.user_id
user_of observed = none

module _ (sha256_text derive_csrf_token : String → String) (settings : Settings) where
  observe-accepted :
      (read_only : Bool) (token : String) (now : ℕ) (a : Accounts) {after : Accounts}
      {p : Principal}
      → observe sha256_text derive_csrf_token settings read_only token now a ≡ (after, accepted p)
      → (row : Session) × (user : User) × (get_session_with_user (sha256_text token) a
          ≡ some (row, user))
        × (is_some row.revoked_at ≡ false)
        × (revoke_reason_of now (sha256_text (derive_csrf_token token)) row user ≡ none)
        × (user.id ≡ p.user_id)
  unfolding observe user_of
  observe-accepted read_only token now a {after} {p} h =
      elim (Bool-cases (ltb (count token) 32 || ltb 256 (count token))) [
        | inl odd ↦ absurd (ground (arith, h, odd))
        | inr fine ↦ elim (Option-cases (get_session_with_user (sha256_text token) a)) [
          | inl e ↦ absurd (ground (arith, h, fine, e))
          | inr ((row, user), e) ↦ elim (Bool-cases (is_some row.revoked_at)) [
            | inl over ↦ absurd (ground (arith, h, fine, e, over))
            | inr valid ↦
                elim (Option-cases
                  (revoke_reason_of now (sha256_text (derive_csrf_token token)) row user)) [
                    | inl passes ↦
                        let reads : user_of
                              (observe sha256_text derive_csrf_token settings read_only token now
                                a).1
                            ≡ some user.id =
                          rw (fine, e, valid, passes, observe) refl in
                        let same : some user.id ≡ some p.user_id =
                          sym reads ∙ ap (λ (x : Accounts × Observed). user_of x.1) h in
                        let its : user.id ≡ p.user_id = cc in (row, user, e, valid, passes, its)
                    | inr (reason, f) ↦ absurd (ground (arith, h, fine, e, valid, f))
                  ]
          ]
        ]
      ]

  -- If `authenticate` accepts a token at some time, then of the session that the token led to at any
  -- time before, whatever transactions came in between, this holds: it was not revoked even then,
  -- its absolute time is not over, and the principal is its user, who is enabled.
  pub observe-IsOpen :
      {s t after : Accounts} {p : Principal} {row : Session} (read_only : Bool) (token : String)
      (now : ℕ)
      → find? (has_token (sha256_text token)) s.sessions ≡ some row
      → Reach sha256_text derive_csrf_token settings s t
      → observe sha256_text derive_csrf_token settings read_only token now t ≡ (after, accepted p)
      → (is_some row.revoked_at ≡ false)
        × (now < row.absolute_expires_at)
        × (p.user_id ≡ row.user_id)
        × ((user : User) × (find? (is_user row.user_id) t.users ≡ some user)
            × (user.enabled ≡ true))
  observe-IsOpen {s} {t} {after} {p} {row} read_only token now first steps h =
      let (later, user, found, valid, passes, its) = observe-accepted read_only token now t h in
      let (at, owner) = get_session-found (sha256_text token) t found in
      let (row', at', kept) =
        Reach-Keeps sha256_text derive_csrf_token settings steps (sha256_text token) row first in
      let same_row : some row' ≡ some later = sym at' ∙ at in
      let kept' : IsKept row later = subst (IsKept row) (let e : row' ≡ later = cc in e) kept in
      let (enabled, absolute, idle) =
        revoke_reason-none now (sha256_text (derive_csrf_token token)) later user passes in
      let (is_it, _) = nat_eq.same_iff user.id later.user_id in
      let owned : user.id ≡ later.user_id =
        is_it (find?-eq_some (is_user later.user_id) t.users owner) in
      (
        unrevoked kept' valid,
        subst (λ n. now < n) kept'.absolute absolute,
        sym its ∙ owned ∙ kept'.user,
        (user, subst (λ n. find? (is_user n) t.users ≡ some user) kept'.user owner, enabled),
      )
