-- ===== src/Auth/Lookup.antt =====
-- A session that a token leads to is led to after every transaction.
use Prim.Native.String.{count}
use jarvis_development.Prelude.{
  ℕ, ◌+◌, Bool, true, false, not, ◌&&◌, ◌||◌, some, List, [], ◌∷◌, find?, String, string_eq, nat_eq,
  ◌==◌, leb, ltb, is_some, ◌≡◌, refl, sym, ◌∙◌, ap, subst, inl, inr, Bool-cases, Option-cases,
  or-false, arith, if◌then◌else◌,
}
use jarvis_development.Auth.{
  Session, Settings, Accounts, Principal, seconds, has_token, has_id, get_session_with_user,
  change_session, write_session, revoke, create_session, revoke_reason_of, touch, observe, is_saved,
  revoke_expired, logout, rotate_previous, Opening, new_session_row, new_session,
}
use jarvis_development.Auth.Steps.{
  Step, observes, revokes, logs_out, rotates, opens, others, Reach, here, next,
}

-- What a transaction keeps of a session: its user, its token and its last time, and that it is
-- revoked, if it is.
pub record IsKept (row later : Session) : Type 0 where
  pub user : later.user_id ≡ row.user_id
  pub token : later.token_hash ≡ row.token_hash
  pub absolute : later.absolute_expires_at ≡ row.absolute_expires_at
  pub revoked : is_some row.revoked_at ≡ true → is_some later.revoked_at ≡ true

IsKept-refl : (row : Session) → IsKept row row
IsKept-refl row = record { user = refl; token = refl; absolute = refl; revoked = λ h. h }

IsKept-trans : {a b c : Session} → IsKept a b → IsKept b c → IsKept a c
IsKept-trans k l = record {
  user = l.user ∙ k.user;
  token = l.token ∙ k.token;
  absolute = l.absolute ∙ k.absolute;
  revoked = λ h. l.revoked (k.revoked h);
}

-- Every session of the first accounts is kept in the second.
abbrev pub Keeps : Accounts → Accounts → Type 0
Keeps s t =
    (token_hash : String) (row : Session)
    → find? (has_token token_hash) s.sessions ≡ some row
    → (later : Session) × (find? (has_token token_hash) t.sessions ≡ some later) × IsKept row later

module _ (test : Session → Bool) where
  find?-hit : (x : Session) (xs : List Session) → test x ≡ true → find? test (x ∷ xs) ≡ some x
  find?-hit x xs h = rw h refl

  find?-miss :
      (x : Session) (xs : List Session) → test x ≡ false → find? test (x ∷ xs) ≡ find? test xs
  find?-miss x xs h = rw h refl

change_session-IsKept :
    (test : Session → Bool) (f : Session → Session)
    → ((row : Session) → IsKept row (f row))
    → (token_hash : String) (rows : List Session) (row : Session)
    → find? (has_token token_hash) rows ≡ some row
    → (later : Session) × (find? (has_token token_hash) (change_session test f rows) ≡ some later)
      × IsKept row later
unfolding change_session
change_session-IsKept test f keeps token_hash [] row h = cc
change_session-IsKept test f keeps token_hash (x ∷ rows) row h =
    elim (Bool-cases (has_token token_hash x)) [
      | inl same ↦
          let its : some x ≡ some row = sym (find?-hit (has_token token_hash) x rows same) ∙ h in
          let found : x ≡ row = cc in
          elim (Bool-cases (test x)) [
            | inl hit ↦
                rw (hit, change_session)
                  (
                    f x,
                    find?-hit (has_token token_hash) (f x) rows
                        (ap (λ t. t == token_hash) (keeps x).token ∙ same),
                    subst (λ r. IsKept r (f x)) found (keeps x),
                  )
            | inr miss ↦
                rw (miss, change_session)
                  (
                    x,
                    find?-hit (has_token token_hash) x (change_session test f rows) same,
                    subst (λ r. IsKept r x) found (IsKept-refl x),
                  )
          ]
      | inr other ↦
          let rest = sym (find?-miss (has_token token_hash) x rows other) ∙ h in
          elim (Bool-cases (test x)) [
            | inl hit ↦
                rw (hit, change_session)
                  (
                    row,
                    find?-miss (has_token token_hash) (f x) rows
                          (ap (λ t. t == token_hash) (keeps x).token ∙ other)
                        ∙ rest,
                    IsKept-refl row,
                  )
            | inr miss ↦
                let (later, found, kept) =
                  change_session-IsKept test f keeps token_hash rows row rest in
                rw (miss, change_session)
                  (
                    later,
                    find?-miss (has_token token_hash) x (change_session test f rows) other ∙ found,
                    kept,
                  )
          ]
    ]

touch-IsKept :
    (settings : Settings) (read_only : Bool) (now : ℕ) (row : Session)
    → IsKept row (touch settings read_only now row)
touch-IsKept settings read_only now row =
    elim (Bool-cases (
      not read_only
      && leb (row.last_seen_at + seconds settings.session_touch_interval_seconds) now)) [
        | inl due ↦ rw due (record { user = refl; token = refl; absolute = refl; revoked = λ h. h })
        | inr fresh ↦ rw fresh (IsKept-refl row)
      ]

revoke-IsKept : (reason : String) (now : ℕ) (row : Session) → IsKept row (revoke reason now row)
revoke-IsKept reason now row = record {
  user = refl;
  token = refl;
  absolute = refl;
  revoked = λ h. refl;
}

same-Keeps : (s : Accounts) → Keeps s s
same-Keeps s token_hash row h = (row, h, IsKept-refl row)

write-Keeps :
    (test : Session → Bool) (f : Session → Session)
    → ((row : Session) → IsKept row (f row))
    → (s : Accounts) → Keeps s (write_session test f s)
write-Keeps test f keeps s token_hash row h =
    change_session-IsKept test f keeps token_hash s.sessions row h

-- A write behind a test.
either-Keeps :
    (test : Bool) (s t u : Accounts) → Keeps s t → Keeps s u → Keeps s (if test then t else u)
either-Keeps true s t u k l = k
either-Keeps false s t u k l = l

revoke_expired-Keeps :
    (token_hash reason : String) (now : ℕ) (s : Accounts)
    → Keeps s (revoke_expired token_hash reason now s)
unfolding revoke_expired
revoke_expired-Keeps token_hash reason now s =
    elim (Option-cases (get_session_with_user token_hash s)) [
      | inl e ↦ rw (e, revoke_expired) (same-Keeps s)
      | inr ((row, user), e) ↦
          rw (e, revoke_expired)
            (either-Keeps (is_some row.revoked_at || is_saved reason now row user) s s _
              (same-Keeps s)
              (write-Keeps (has_token token_hash) (revoke reason now) (revoke-IsKept reason now) s))
    ]

rotate_previous-Keeps :
    (token_hash : String) (now : ℕ) (s : Accounts) → Keeps s (rotate_previous token_hash now s)
unfolding rotate_previous
rotate_previous-Keeps token_hash now s = elim (Option-cases (get_session_with_user token_hash s)) [
  | inl e ↦ rw (e, rotate_previous) (same-Keeps s)
  | inr ((row, user), e) ↦
      rw (e, rotate_previous)
        (either-Keeps (is_some row.revoked_at) s s _ (same-Keeps s) (
          write-Keeps (has_token token_hash) (revoke "rotated_on_login" now)
            (revoke-IsKept "rotated_on_login" now) s))
]

logout-Keeps : (id now : ℕ) (s : Accounts) → Keeps s (logout id now s).0
unfolding logout
logout-Keeps id now s = elim (Option-cases (find? (has_id id) s.sessions)) [
  | inl e ↦ rw (e, logout) (same-Keeps s)
  | inr (row, e) ↦ elim (Bool-cases (is_some row.revoked_at)) [
    | inl over ↦ rw (e, over, logout) (same-Keeps s)
    | inr valid ↦
        rw (e, valid, logout)
          (write-Keeps (has_id id) (revoke "owner_logout" now) (revoke-IsKept "owner_logout" now) s)
  ]
]

unused-token :
    (new : Session) (s : Accounts) (token_hash : String) (row : Session)
    → is_some (find? (has_token new.token_hash) s.sessions) ≡ false
    → find? (has_token token_hash) s.sessions ≡ some row
    → has_token token_hash new ≡ false
unused-token new s token_hash row unused found = elim (Bool-cases (has_token token_hash new)) [
  | inl same ↦
      let there : find? (has_token new.token_hash) s.sessions ≡ some row =
        ap (λ h. find? (has_token h) s.sessions)
          ((string_eq.same_iff new.token_hash token_hash).0 same)
        ∙ found in
      absurd (ground (arith, unused, there))
  | inr other ↦ other
]

create_session-Keeps :
    (new : Session) (s : Accounts) {t : Accounts} → create_session new s ≡ some t → Keeps s t
unfolding create_session
create_session-Keeps new s {t} h token_hash row found =
    elim (Bool-cases (
      is_some (find? (has_token new.token_hash) s.sessions)
      || is_some (find? (has_id new.id) s.sessions))) [
        | inl taken ↦ absurd (ground (arith, h, taken))
        | inr vacant ↦
            let after : record s { sessions = new ∷ s.sessions } ≡ t = ground (arith, h, vacant) in
            let other = unused-token new s token_hash row (or-false _ _ vacant).0 found in
            (
              row,
              ap (λ (a : Accounts). find? (has_token token_hash) a.sessions) (sym after)
                  ∙ find?-miss (has_token token_hash) new s.sessions other
                  ∙ found,
              IsKept-refl row,
            )
      ]

module _ (sha256_text derive_csrf_token : String → String) (settings : Settings) where
  observe-Keeps :
      (read_only : Bool) (token : String) (now : ℕ) (s : Accounts)
      → Keeps s (observe sha256_text derive_csrf_token settings read_only token now s).0
  unfolding observe
  observe-Keeps read_only token now s =
      elim (Bool-cases (ltb (count token) 32 || ltb 256 (count token))) [
        | inl odd ↦ rw (odd, observe) (same-Keeps s)
        | inr fine ↦ elim (Option-cases (get_session_with_user (sha256_text token) s)) [
          | inl e ↦ rw (fine, e, observe) (same-Keeps s)
          | inr ((row, user), e) ↦ elim (Bool-cases (is_some row.revoked_at)) [
            | inl over ↦ rw (fine, e, over, observe) (same-Keeps s)
            | inr valid ↦
                elim (Option-cases
                  (revoke_reason_of now (sha256_text (derive_csrf_token token)) row user)) [
                    | inl passes ↦
                        rw (fine, e, valid, passes, observe)
                          (write-Keeps (has_token (sha256_text token))
                            (touch settings read_only now) (touch-IsKept settings read_only now) s)
                    | inr (reason, f) ↦ rw (fine, e, valid, f, observe) (same-Keeps s)
                  ]
          ]
        ]
      ]

  new_session-Keeps :
      (opening : Opening) (now : ℕ) (s : Accounts) {t : Accounts} {p : Principal}
      → new_session sha256_text derive_csrf_token settings opening now s ≡ some (t, p)
      → Keeps s t
  unfolding new_session
  new_session-Keeps opening now s {t} {p} h =
      elim (Option-cases
        (create_session (new_session_row sha256_text derive_csrf_token settings opening now) s)) [
          | inl e ↦ absurd (ground (arith, h, e))
          | inr (after, e) ↦
              let same : after ≡ t = ground (arith, h, e) in
              subst (Keeps s) same (
                create_session-Keeps
                  (new_session_row sha256_text derive_csrf_token settings opening now) s e)
        ]

  Step-Keeps : {s t : Accounts} → Step sha256_text derive_csrf_token settings s t → Keeps s t
  Step-Keeps {s} (observes read_only token now) = observe-Keeps read_only token now s
  Step-Keeps {s} (revokes token_hash reason now) = revoke_expired-Keeps token_hash reason now s
  Step-Keeps {s} (logs_out id now) = logout-Keeps id now s
  Step-Keeps {s} (rotates token_hash now) = rotate_previous-Keeps token_hash now s
  Step-Keeps {s} (opens opening now principal h) = new_session-Keeps opening now s h
  Step-Keeps {s} (others users) = same-Keeps s

  pub Reach-Keeps : {s t : Accounts} → Reach sha256_text derive_csrf_token settings s t → Keeps s t
  Reach-Keeps {s} here token_hash row h = same-Keeps s token_hash row h
  Reach-Keeps (next steps step) token_hash row h =
      let (mid, found, kept) = Reach-Keeps steps token_hash row h in
      let (later, found', kept') = Step-Keeps step token_hash mid found in
      (later, found', IsKept-trans kept kept')
