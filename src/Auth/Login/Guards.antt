-- ===== src/Auth/Login/Guards.antt =====
-- What a login that returns has checked.
use lms_backend.Base.{
  codes, max, ◌-◌, ◌≡◌, refl, Text, true, false, ◌&&◌, some, List, ok, arith, inl, inr,
  Option-cases, Result-cases, Bool-cases,
}
use lms_backend.Core.Lockout.{Settings, check_account_lockout, reset_failed_attempts}
use mathlib.Core.Path.{subst}
use lms_backend.Auth.Tokens.{Outside, create_mfa_challenge_token, decode_token}
use lms_backend.Auth.Sessions.{Account, Store, Draw, issue_tokens}
use lms_backend.Auth.Login.{
  Process, Json, LoginDraw, LoginReply, get_by_email, is_none, authenticate, try_login,
  or_count_failure, login, sign_in, create_mfa_login_challenge, touch_last_login, commit_plain,
}

-- The account of this address, whose password this is, and which may sign in.
abbrev pub IsEntitled : Outside → Text → Text → List Account → Account → Type 0
IsEntitled o email password accounts user =
    (get_by_email email accounts ≡ some user)
    × (o.verify_password password user.password_hash ≡ true)
    × (user.is_active ≡ true)
    × ((o.require_email_verification && is_none user.email_verified_at) ≡ false)

authenticate-IsEntitled :
    (o : Outside) (email password : Text) (s : Store) {user : Account}
    → (authenticate o email password s).0 ≡ ok user
    → IsEntitled o email password s.accounts user × ((authenticate o email password s).1 ≡ s)
unfolding authenticate
authenticate-IsEntitled o email password s {user} h =
    elim (Option-cases (get_by_email email s.accounts)) [
      | inl n ↦ absurd (ground arith)
      | inr (a, f) ↦ elim (Bool-cases (o.verify_password password a.password_hash)) [
        | inr n ↦ absurd (ground arith)
        | inl v ↦ elim (Bool-cases a.is_active) [
          | inr n ↦ absurd (ground arith)
          | inl y ↦
              elim (Bool-cases (o.require_email_verification && is_none a.email_verified_at)) [
                | inl n ↦ absurd (ground arith)
                | inr w ↦
                    let same : a ≡ user = ground arith in
                    ((rw same at f, rw same at v, rw same at y, rw same at w), ground arith)
              ]
        ]
      ]
    ]

-- How a login without a second factor ends: with tokens for the account.
abbrev pub IsReply : Account → LoginReply → Type 0
IsReply user (LoginReply.signed_in row tokens) = (user.mfa_enabled ≡ false) × (row.id ≡ user.id)
IsReply user (LoginReply.challenged row token code ttl) = (user.mfa_enabled ≡ true) × (row ≡ user)

sign_in-IsReply :
    (o : Outside) (d : Draw) (user : Account) (s : Store) {r : LoginReply}
    → user.mfa_enabled ≡ false
    → (sign_in o d user s).0 ≡ ok r
    → IsReply user r
unfolding sign_in touch_last_login
sign_in-IsReply o d user s {r} m h =
    let touched = (touch_last_login user d.now s).1 in
    let issue = issue_tokens o d user.id user.role touched in
    elim (Result-cases issue.0) [
      | inr (x, e) ↦ absurd (ground arith)
      | inl (tokens, e) ↦ elim (Result-cases (commit_plain issue.1).0) [
        | inr (x, f) ↦ absurd (ground arith)
        | inl (done, f) ↦
            let same : LoginReply.signed_in (record user { last_login_at = some d.now }) tokens
                ≡ r =
              ground arith in
            subst (IsReply user) same (m, refl)
      ]
    ]

challenge-IsReply :
    (o : Outside) (j : Json) (d : LoginDraw) (user : Account) (p : Process) {r : LoginReply}
    → user.mfa_enabled ≡ true
    → (create_mfa_login_challenge o j d user p).0 ≡ ok r
    → IsReply user r
unfolding create_mfa_login_challenge
challenge-IsReply o j d user p {r} m h =
    let token = create_mfa_challenge_token o d.challenge_jti d.challenge_now (o.show_id user.id) in
    elim (Result-cases
      (decode_token o token (some (codes "mfa_challenge")) false d.challenge_clock
        p.store.blacklist).0) [
          | inr (x, e) ↦ absurd (ground arith)
          | inl (payload, e) ↦ elim (Option-cases payload.jti) [
            | inl n ↦ absurd (ground arith)
            | inr (jti, f) ↦ elim (Option-cases payload.exp) [
              | inl n ↦ absurd (ground arith)
              | inr (exp, g) ↦
                  let same : LoginReply.challenged user token d.code (max 1 (exp - d.cached_at))
                      ≡ r =
                    ground arith in
                  subst (IsReply user) same (m, refl)
            ]
          ]
        ]

try_login-IsReply :
    (o : Outside) (j : Json) (d : LoginDraw) (email password ip : Text) (p : Process)
    {r : LoginReply}
    → (try_login o j d email password ip p).0 ≡ ok r
    → (user : Account) × IsEntitled o email password p.store.accounts user × IsReply user r
unfolding try_login
try_login-IsReply o j d email password ip p {r} h =
    elim (Result-cases (authenticate o email password p.store).0) [
      | inr (x, e) ↦ absurd (ground arith)
      | inl (user, e) ↦
          let (entitled, kept) = authenticate-IsEntitled o email password p.store e in
          let q : Process = record p { cache = reset_failed_attempts email ip p.cache } in
          elim (Bool-cases user.mfa_enabled) [
            | inl m ↦ (user, entitled, challenge-IsReply o j d user q m (ground arith))
            | inr m ↦ (user, entitled, sign_in-IsReply o d.draw user p.store m (ground arith))
          ]
    ]

-- A login that returns was not locked out; the address, in lower letters, is that of an account whose password was
-- given, which is active and, if the settings ask for it, verified; and it returns tokens if the account has no
-- second factor, and a challenge if it has one.
pub login-IsEntitled :
    (o : Outside) (settings : Settings) (j : Json) (d : LoginDraw) (email password ip : Text)
    (p : Process) {r : LoginReply}
    → (login o settings j d email password ip p).0 ≡ ok r
    → ((check_account_lockout settings email ip d.checked_at p.cache).0 ≡ ok tt)
      × ((user : Account) × IsEntitled o email password p.store.accounts user × IsReply user r)
unfolding login or_count_failure
login-IsEntitled o settings j d email password ip p h =
    let check = check_account_lockout settings email ip d.checked_at p.cache in
    let q : Process = record p { cache = check.1 } in
    elim (Result-cases check.0) [
      | inr (x, e) ↦ absurd (ground arith)
      | inl (done, e) ↦ elim (Result-cases (try_login o j d email password ip q).0) [
        | inr (x, f) ↦ absurd (ground arith)
        | inl (reply, f) ↦ (e, try_login-IsReply o j d email password ip q (ground arith))
      ]
    ]
