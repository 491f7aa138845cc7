-- ===== src/Auth/Verification/Confirmed.antt =====
-- A requested verification, confirmed in time, verifies the account.
use lms_backend.Base.{
  ap, ◌∙◌, String, ℕ, ◌+◌, ◌*◌, ◌/◌, ◌≡◌, refl, Text, codes, true, false, none, some, List, [], ◌∷◌,
  ok, arith, inl, inr, find, ◌==◌, Bool-cases,
}
use lms_backend.Auth.Tokens.{
  second, Clock, Blacklist, Outside, Claims, Payload, is_missing, decode_token, check_access,
  create_email_verification_token,
}
use lms_backend.Auth.Sessions.{Account, Store, Draw, commit, parse_user_id, get_user}
use lms_backend.Auth.Login.{get_by_email, update_account}
use lms_backend.Auth.Verification.{
  request_email_verification, mark_verified, confirm_account, confirm_email_verification,
}

-- A signed token gives its claims back at this time.
abbrev pub IsReadable : Outside → ℕ → Claims → Type 0
IsReadable o t c =
    o.decode t (o.encode c)
    ≡ some (record {
      sub = some c.sub;
      jti = some c.jti;
      typ = some c.typ;
      exp = some (c.exp / second);
    })

-- The claims of the token that is mailed.
abbrev pub verification_claims : Outside → Text → ℕ → ℕ → Claims
verification_claims o jti now user_id = record {
  sub = o.show_id user_id;
  role = none;
  jti = jti;
  typ = codes "email_verification";
  iat = now;
  exp = now + o.email_verification_minutes * 60 * second;
}

find-update_account :
    (f : Account → Account) (id : ℕ)
    → ((a : Account) → (f a).id ≡ a.id)
    → (accounts : List Account) {a : Account} → find (λ x. x.id == id) accounts ≡ some a
    → find (λ x. x.id == id) (update_account f id accounts) ≡ some (f a)
find-update_account f id same [] h = cc
find-update_account f id same (x ∷ accounts) {a} h = elim (Bool-cases (x.id == id)) [
  | inl e ↦ ground (arith, same x)
  | inr e ↦ ground (arith, find-update_account f id same accounts {a = a} (ground arith))
]

decoded :
    (o : Outside) (c : Clock) (claims : Claims) (b : Blacklist)
    → IsReadable o c.verify claims
    → claims.typ ≡ codes "email_verification"
    → is_missing (some claims.sub) ≡ false
    → (payload : Payload) × (decode_token o
          (o.encode claims)
          (some (codes "email_verification"))
          false
          c
          b
        ≡ (ok payload, b))
      × (payload.sub ≡ some claims.sub)
unfolding decode_token check_access
decoded o c claims b readable typ there = (
  record {
    sub = some claims.sub;
    jti = some claims.jti;
    typ = some claims.typ;
    exp = some (claims.exp / second);
  },
  rw (readable, typ, there) refl,
  refl,
)

parsed_id :
    (o : Outside) (id : ℕ) (message : String)
    → is_missing (some (o.show_id id)) ≡ false
    → o.parse_id (o.show_id id) ≡ some id
    → parse_user_id o (some (o.show_id id)) message ≡ ok id
unfolding parse_user_id
parsed_id o id message there parsed = through (o.show_id id) there parsed
  where
    through :
        (shown : Text)
        → is_missing (some shown) ≡ false
        → o.parse_id shown ≡ some id
        → parse_user_id o (some shown) message ≡ ok id
    through [] there parsed = cc
    through (c ∷ shown) there parsed = rw parsed refl

marked :
    (user : Account) (now : ℕ) (s : Store)
    → s.commit_error ≡ none
    → let (r, t) = mark_verified user now s in
      (r ≡ ok tt)
      × (t.committed_accounts
          ≡ update_account (λ a. record a { email_verified_at = some now }) user.id s.accounts)
unfolding mark_verified commit
marked user now s c = ground arith

confirm_through :
    (o : Outside) (d : Draw) (token : Text) (s : Store) (id : ℕ) (payload : Payload)
    → decode_token o token (some (codes "email_verification")) false d.refresh_clock s.blacklist
      ≡ (ok payload, s.blacklist)
    → parse_user_id o payload.sub "Malformed email verification token" ≡ ok id
    → confirm_email_verification o d token s ≡ confirm_account d.now id s
unfolding confirm_email_verification
confirm_through o d token s id payload read parsed = ground arith

account_through :
    (now : ℕ) (s : Store) (user : Account)
    → find (λ a. a.id == user.id) s.accounts ≡ some user
    → user.is_active ≡ true
    → user.email_verified_at ≡ none
    → confirm_account now user.id s ≡ mark_verified user now s
unfolding confirm_account get_user
account_through now s user g on n = ground arith

-- When an account that is active and not verified asks for a verification, and the token it is mailed is confirmed
-- while the token can be read and the commit goes through, the call returns, and the account is committed with its
-- address verified at that time.
pub confirm-request :
    (o : Outside) (d : Draw) (jti email address name token : Text) (now : ℕ) (s : Store)
    (user : Account)
    → get_by_email email s.accounts ≡ some user
    → find (λ a. a.id == user.id) s.accounts ≡ some user
    → user.email_verified_at ≡ none
    → s.commit_error ≡ none
    → is_missing (some (o.show_id user.id)) ≡ false
    → o.parse_id (o.show_id user.id) ≡ some user.id
    → IsReadable o d.refresh_clock.verify (verification_claims o jti now user.id)
    → request_email_verification o jti now email s ≡ some (address, name, token)
    → let (r, t) = confirm_email_verification o d token s in
      (r ≡ ok tt)
      × (find (λ a. a.id == user.id) t.committed_accounts
          ≡ some (record user { email_verified_at = some d.now }))
unfolding request_email_verification create_email_verification_token
confirm-request o d jti email address name token now s user f g n c shown parsed readable h =
    elim (Bool-cases user.is_active) [
      | inr off ↦ absurd (ground arith)
      | inl on ↦
          let same : token ≡ o.encode (verification_claims o jti now user.id) = ground arith in
          let written =
            find-update_account (λ a. record a { email_verified_at = some d.now }) user.id
              (λ a. refl) s.accounts g in
          let (payload, read, sub) =
            decoded o d.refresh_clock (verification_claims o jti now user.id) s.blacklist readable
              refl shown in
          let id = parsed_id o user.id "Malformed email verification token" shown parsed in
          let done = marked user d.now s c in
          let through =
            confirm_through o d token s user.id payload (rw same read) (rw sub id)
            ∙ account_through d.now s user g on n in
          (
            ap (λ x. x.0) through ∙ done.0,
            ap (λ x. find (λ a. a.id == user.id) x.1.committed_accounts) through
                ∙ ap (find (λ a. a.id == user.id)) done.1
                ∙ written,
          )
    ]
