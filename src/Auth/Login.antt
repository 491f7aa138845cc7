-- ===== src/Auth/Login.antt =====
-- app/modules/auth/service.py: login with the lockout of accounts, the second factor, and verified addresses. The
-- service has the store and the cache of the process.
pub mod Guards
pub mod Locked
pub mod Factor
mod Tests
use lms_backend.Base.{
  ℕ, ◌-◌, max, ◌/◌, Text, codes, text_eq, Bool, true, false, ◌&&◌, ◌||◌, not, Option, none, some,
  List, [], ◌∷◌, ◌++◌, Result, ok, err, Error, unauthorized, value_error, type_error, Action, ◌>>=◌,
  ◌>>◌, pure, gets, modify, require, lift, raise_if, ltb, ◌==◌, find, if◌then◌else◌,
}
use lms_backend.Base.Strip.{strip, lower}
use lms_backend.Core.Cache.{AppCache, set_json, get_json, delete_by_prefix}
use lms_backend.Core.Lockout.{
  Settings, check_account_lockout, reset_failed_attempts, increment_failed_attempts,
}
use lms_backend.Auth.Tokens.{
  second, Outside, Payload, Clock, is_missing, decode_token, create_mfa_challenge_token,
}
use lms_backend.Auth.Sessions.{
  Account, Store, Draw, TokenResponse, on_blacklist, or_rollback, commit, parse_user_id, get_user,
  issue_tokens,
}

pub record Process : Type 0 where
  pub store : Store
  pub cache : AppCache

abbrev pub on_store : {A : Type 0} → Action Store A → Action Process A
on_store m p = let (r, s) = m p.store in (r, record p { store = s })

abbrev pub on_cache : {A : Type 0} → Action AppCache A → Action Process A
on_cache m p = let (r, c) = m p.cache in (r, record p { cache = c })

-- `json.dumps` and `json.loads` of what the cache holds of a challenge; a key may be missing or no text.
pub record Challenge : Type 0 where
  pub user_id : Option Text
  pub code : Option Text

pub record Json : Type 0 where
  pub dumps : Challenge → Text
  pub loads : Text → Option Challenge

-- What a call takes from outside: the identifier of the challenge, the code that `secrets` draws, and the readings
-- of the clock, those of the cache in seconds.
pub record LoginDraw : Type 0 where
  pub draw : Draw
  pub challenge_jti : Text
  pub challenge_now : ℕ
  pub challenge_clock : Clock
  pub code : Text
  pub checked_at : ℕ
  pub failed_at : ℕ
  pub cached_at : ℕ

-- `UserRepository.get_by_email`
unfoldable pub get_by_email : Text → List Account → Option Account
get_by_email email accounts = find (λ a. text_eq a.email (lower email)) accounts

abbrev pub is_none : Option ℕ → Bool
is_none none = true
is_none (some n) = false

-- `UserService.authenticate` with `update_last_login=False`
unfoldable pub authenticate : Outside → Text → Text → Action Store Account
authenticate o email password = do
  accounts ← gets (λ s. s.accounts)
  user ← require (get_by_email email accounts) (value_error "Invalid email or password")
  raise_if (not (o.verify_password password user.password_hash))
      (value_error "Invalid email or password")
  raise_if (not user.is_active) (value_error "User account is disabled")
  raise_if (o.require_email_verification && is_none user.email_verified_at)
      (value_error "Email is not verified")
  pure user

abbrev pub update_account : (Account → Account) → ℕ → List Account → List Account
update_account f id [] = []
update_account f id (a ∷ accounts) =
    let rest = update_account f id accounts in if a.id == id then f a ∷ rest else a ∷ rest

-- `_touch_last_login`
unfoldable pub touch_last_login : Account → ℕ → Action Store Account
touch_last_login user now = do
  modify (λ s. record s {
    accounts = update_account (λ a. record a { last_login_at = some now }) user.id s.accounts;
  })
  pure (record user { last_login_at = some now })

-- `db.commit()` with no handler: the session keeps its unfinished writes after a failure.
unfoldable pub commit_plain : Action Store (Unit {0})
commit_plain s = elim s.commit_error [
  | none ↦ (ok tt, record s { committed_accounts = s.accounts; committed_tokens = s.tokens })
  | some e ↦ (err e, s)
]

-- `_mfa_login_cache_key`
unfoldable pub mfa_login_cache_key : Text → Text
mfa_login_cache_key challenge_jti = codes "auth:mfa:login:" ++ challenge_jti

-- `user, tokens, challenge`
pub data LoginReply : Type 0 where
  signed_in : Account → TokenResponse → LoginReply
  challenged : Account → Text → Text → ℕ → LoginReply

-- `_create_mfa_login_challenge`
unfoldable pub create_mfa_login_challenge :
    Outside → Json → LoginDraw → Account → Action Process LoginReply
create_mfa_login_challenge o j d user = do
  let token = create_mfa_challenge_token o d.challenge_jti d.challenge_now (o.show_id user.id)
  p ←
      on_store
        (on_blacklist (decode_token o token (some (codes "mfa_challenge")) false d.challenge_clock))
  raise_if (is_missing p.jti) (unauthorized "Malformed MFA challenge token")
  jti ← require p.jti (unauthorized "Malformed MFA challenge token")
  exp ← require p.exp (unauthorized "Malformed MFA challenge token")
  let ttl_seconds = max 1 (exp - d.cached_at)
  on_cache (
      modify (
        set_json j.dumps (mfa_login_cache_key jti)
          (record { user_id = some (o.show_id user.id); code = some d.code }) (some ttl_seconds)
          d.cached_at))
  pure (LoginReply.challenged user token d.code ttl_seconds)

-- The end of a login without a second factor.
unfoldable pub sign_in : Outside → Draw → Account → Action Store LoginReply
sign_in o d user = do
  row ← touch_last_login user d.now
  tokens ← issue_tokens o d user.id user.role
  commit_plain
  pure (LoginReply.signed_in row tokens)

-- The body of the `try` in `login`.
unfoldable pub try_login :
    Outside → Json → LoginDraw → Text → Text → Text → Action Process LoginReply
try_login o j d email password ip_address = do
  user ← on_store (authenticate o email password)
  on_cache (modify (reset_failed_attempts email ip_address))
  if user.mfa_enabled
      then create_mfa_login_challenge o j d user
      else on_store (sign_in o d.draw user)

-- `except Exception as exc: increment_failed_attempts; raise exc`
unfoldable pub or_count_failure :
    {A : Type 0} → Settings → Text → Text → ℕ → Action Process A → Action Process A
or_count_failure settings email ip_address now call p =
    let (r, p') = call p in
    elim r [
      | ok a ↦ (ok a, p')
      | err e ↦ (
        err e,
        record p' { cache = (increment_failed_attempts settings email ip_address now p'.cache).1 },
      )
    ]

-- `login`
unfoldable pub login :
    Outside → Settings → Json → LoginDraw → Text → Text → Text → Action Process LoginReply
login o settings j d email password ip_address = do
  on_cache (check_account_lockout settings email ip_address d.checked_at)
  or_count_failure settings email ip_address d.failed_at (try_login o j d email password ip_address)

abbrev pub is_ascii : Text → Bool
is_ascii [] = true
is_ascii (c ∷ s) = ltb c 128 && is_ascii s

-- `hmac.compare_digest` of texts, which raises unless both are ASCII.
unfoldable pub compare_digest : Text → Text → Result Bool
compare_digest a b = if is_ascii a && is_ascii b then ok (text_eq a b) else err type_error

-- `not isinstance(expected_code, str) or not hmac.compare_digest(expected_code, code.strip())`
unfoldable pub check_code : Option Text → Text → Result (Unit {0})
check_code none code = err (unauthorized "Invalid MFA code")
check_code (some expected) code = elim (compare_digest expected (strip code)) [
  | err e ↦ err e
  | ok same ↦ if same then ok tt else err (unauthorized "Invalid MFA code")
]

abbrev pub or_empty : Option Text → Text
or_empty none = []
or_empty (some s) = s

-- `self.cache.get_json(key)`
abbrev pub cached : Json → Text → ℕ → Action AppCache (Option Challenge)
cached j key now c = let (v, c') = get_json j.loads key now c in (ok v, c')

-- `verify_mfa_login`, from the account on.
unfoldable pub finish_mfa_login : Outside → LoginDraw → ℕ → Action Store (Account × TokenResponse)
finish_mfa_login o d user_id = do
  user ← get_user user_id
  raise_if (not user.is_active) (unauthorized "User is inactive")
  raise_if (not user.mfa_enabled) (unauthorized "MFA is not enabled for this account")
  row ← touch_last_login user d.draw.now
  tokens ← issue_tokens o d.draw user.id user.role
  commit
  pure (row, tokens)

-- `verify_mfa_login`, up to the identifiers that the challenge names.
unfoldable pub read_challenge : Outside → LoginDraw → Text → Action Process (Text × ℕ)
read_challenge o d challenge_token = do
  p ← on_store (
      on_blacklist
        (decode_token o challenge_token (some (codes "mfa_challenge")) false d.challenge_clock))
  raise_if (is_missing p.jti) (unauthorized "Malformed MFA challenge token")
  jti ← require p.jti (unauthorized "Malformed MFA challenge token")
  user_id ← lift (parse_user_id o p.sub "Malformed MFA challenge token")
  pure (jti, user_id)

-- `verify_mfa_login`, the comparison with the cache.
unfoldable pub answer_challenge :
    Outside → Json → LoginDraw → Text → ℕ → Text → Action Process (Account × TokenResponse)
answer_challenge o j d jti user_id code = do
  found ← on_cache (cached j (mfa_login_cache_key jti) d.cached_at)
  c ← require found (unauthorized "MFA challenge expired or invalid")
  raise_if (not (text_eq (or_empty c.user_id) (o.show_id user_id)))
      (unauthorized "MFA challenge is invalid")
  lift (check_code c.code code)
  on_cache (modify (delete_by_prefix (mfa_login_cache_key jti)))
  on_store (finish_mfa_login o d user_id)

-- `verify_mfa_login`
unfoldable pub verify_mfa_login :
    Outside → Json → LoginDraw → Text → Text → Action Process (Account × TokenResponse)
verify_mfa_login o j d challenge_token code = do
  named ← read_challenge o d challenge_token
  answer_challenge o j d named.0 named.1 code
