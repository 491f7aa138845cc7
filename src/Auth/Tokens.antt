-- ===== src/Auth/Tokens.antt =====
-- app/core/security.py: the blacklist in memory, and tokens made and read. What `jose.jwt`, `uuid` and
-- `passlib` compute is an argument, and so are the settings and the readings of the clock.
pub mod Revoked
use lms_backend.Base.{
  ℕ, zero, suc, ◌+◌, ◌-◌, ◌*◌, ◌/◌, Text, codes, text_eq, Bool, true, false, ◌&&◌, not, Option,
  none, some, List, [], ◌∷◌, ◌++◌, Result, ok, err, unauthorized, Action, ◌>>=◌, ◌>>◌, pure,
  require, lift, raise_if, ltb, leb, keep, if◌then◌else◌,
}
use lms_backend.Base.Eq.{list_eq}
use lms_backend.Base.Dict.{Dict, lookup, insert, erase}

abbrev pub second : ℕ
second = 1000000

-- The claims of a token as they are signed; times are in microseconds.
pub record Claims : Type 0 where
  pub sub : Text
  pub role : Option Text
  pub jti : Text
  pub typ : Text
  pub iat : ℕ
  pub exp : ℕ

-- The claims that are read from a token, where it has them; `exp` is in seconds.
pub record Payload : Type 0 where
  pub sub : Option Text
  pub jti : Option Text
  pub typ : Option Text
  pub exp : Option ℕ

-- `jwt.encode`; `jwt.decode` at a time in seconds, with `none` for `JWTError`; `str(id)` and `UUID(text)`,
-- with `none` for `ValueError`; `pwd_context.hash` and `pwd_context.verify`; and the settings that are read.
pub record Outside : Type 0 where
  pub encode : Claims → Text
  pub decode : ℕ → Text → Option Payload
  pub show_id : ℕ → Text
  pub parse_id : Text → Option ℕ
  pub hash_password : Text → Text
  pub verify_password : Text → Text → Bool
  pub access_minutes : ℕ
  pub refresh_days : ℕ
  pub mfa_challenge_minutes : ℕ
  pub password_reset_minutes : ℕ
  pub email_verification_minutes : ℕ
  pub require_email_verification : Bool

-- `AccessTokenBlacklist` without Redis; times are in seconds.
pub record Blacklist : Type 0 where
  pub enabled : Bool
  pub memory : Dict Text ℕ

-- `revoke`; `now` and `later` are its two readings of the clock.
unfoldable pub revoke : Text → ℕ → ℕ → ℕ → Blacklist → Blacklist
unfolding insert
revoke jti exp now later b =
    if b.enabled && ltb now exp
    then record b { memory = insert jti (later + (exp - now)) b.memory }
    else b

-- `_cleanup_memory`
unfoldable pub cleanup_memory : ℕ → Dict Text ℕ → Dict Text ℕ
cleanup_memory now [] = []
cleanup_memory now ((jti, expires_at) ∷ rest) =
    let kept = cleanup_memory now rest in
    if leb expires_at now then kept else (jti, expires_at) ∷ kept

-- The rest of `is_revoked`, once the memory is clean.
unfoldable pub still_revoked : Text → ℕ → Blacklist → Option ℕ → Bool × Blacklist
unfolding erase
still_revoked jti later b none = (false, b)
still_revoked jti later b (some zero) = (false, b)
still_revoked jti later b (some (suc t)) =
    if leb (suc t) later then (false, record b { memory = erase jti b.memory }) else (true, b)

-- `is_revoked`; `now` and `later` are the readings of the clock in the cleanup and after it.
unfoldable pub is_revoked : Text → ℕ → ℕ → Blacklist → Bool × Blacklist
unfolding cleanup_memory still_revoked lookup
is_revoked jti now later b =
    let memory = cleanup_memory now b.memory in
    if b.enabled
    then still_revoked jti later (record b { memory = memory }) (lookup jti memory)
    else (false, b)

-- `not x` of a claim: it is missing or empty.
abbrev pub is_missing : Option Text → Bool
is_missing none = true
is_missing (some []) = true
is_missing (some (c ∷ s)) = false

-- `expected_type and token_type != expected_type`
abbrev pub is_other_type : Option Text → Option Text → Bool
is_other_type none typ = false
is_other_type (some []) typ = false
is_other_type (some (c ∷ s)) none = true
is_other_type (some (c ∷ s)) (some typ) = not (text_eq typ (c ∷ s))

abbrev pub has_type : Option Text → Text → Bool
has_type none expected = false
has_type (some typ) expected = text_eq typ expected

-- The readings of the clock while a token is decoded.
pub record Clock : Type 0 where
  pub verify : ℕ
  pub cleanup : ℕ
  pub check : ℕ

unfoldable pub not_revoked : Bool → Option Text → Clock → Action Blacklist (Unit {0})
unfolding is_revoked
not_revoked false jti c b = (ok tt, b)
not_revoked true none c b = (ok tt, b)
not_revoked true (some jti) c b =
    let (revoked, b') = is_revoked jti c.cleanup c.check b in
    if revoked then (err (unauthorized "Token has been revoked"), b') else (ok tt, b')

-- The checks of access tokens in `decode_token`.
unfoldable pub check_access : Bool → Bool → Option Text → Clock → Action Blacklist (Unit {0})
unfolding not_revoked
check_access false check_blacklist jti c = pure tt
check_access true check_blacklist jti c =
    raise_if (is_missing jti) (unauthorized "Malformed token") >> not_revoked check_blacklist jti c

unfoldable pub decode_token : Outside → Text → Option Text → Bool → Clock → Action Blacklist Payload
unfolding check_access
decode_token o token expected check_blacklist c = do
  p ← require (o.decode c.verify token) (unauthorized "Could not validate credentials")
  raise_if (is_other_type expected p.typ) (unauthorized "Invalid token type")
  raise_if (is_missing p.sub) (unauthorized "Malformed token")
  check_access (has_type p.typ (codes "access")) check_blacklist p.jti c
  pure p

-- `_create_token` for each kind; `now` is in microseconds.
unfoldable pub create_access_token : Outside → Text → ℕ → Text → Text → Text
create_access_token o jti now subject role = o.encode (record {
  sub = subject;
  role = some role;
  jti = jti;
  typ = codes "access";
  iat = now;
  exp = now + o.access_minutes * 60 * second;
})

unfoldable pub create_refresh_token : Outside → Text → ℕ → Text → Text
create_refresh_token o jti now subject = o.encode (record {
  sub = subject;
  role = none;
  jti = jti;
  typ = codes "refresh";
  iat = now;
  exp = now + o.refresh_days * 86400 * second;
})

unfoldable pub create_password_reset_token : Outside → Text → ℕ → Text → Text
create_password_reset_token o jti now subject = o.encode (record {
  sub = subject;
  role = none;
  jti = jti;
  typ = codes "password_reset";
  iat = now;
  exp = now + o.password_reset_minutes * 60 * second;
})

unfoldable pub create_email_verification_token : Outside → Text → ℕ → Text → Text
create_email_verification_token o jti now subject = o.encode (record {
  sub = subject;
  role = none;
  jti = jti;
  typ = codes "email_verification";
  iat = now;
  exp = now + o.email_verification_minutes * 60 * second;
})

unfoldable pub create_mfa_challenge_token : Outside → Text → ℕ → Text → Text
create_mfa_challenge_token o jti now subject = o.encode (record {
  sub = subject;
  role = none;
  jti = jti;
  typ = codes "mfa_challenge";
  iat = now;
  exp = now + o.mfa_challenge_minutes * 60 * second;
})

abbrev revocable : Payload → Result (Text × ℕ)
revocable p = elim p.jti [
  | none ↦ err (unauthorized "Malformed token")
  | some jti ↦ elim p.exp [ none ↦ err (unauthorized "Malformed token") | some exp ↦ ok (jti, exp) ]
]

-- `blacklist_access_token`; `now` and `later` are the readings of the clock in `revoke`.
unfoldable pub blacklist_access_token : Outside → Text → Clock → ℕ → ℕ → Action Blacklist (Unit {0})
unfolding decode_token revoke
blacklist_access_token o token c now later = do
  p ← decode_token o token (some (codes "access")) false c
  raise_if (is_missing p.jti) (unauthorized "Malformed token")
  r ← lift (revocable p)
  λ b. (ok tt, revoke r.0 r.1 now later b)
