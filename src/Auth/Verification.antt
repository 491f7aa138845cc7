-- ===== src/Auth/Verification.antt =====
-- app/modules/auth/service.py: requests of a reset and of a verification, the verification of an address, and the
-- second factor switched on and off.
pub mod Confirmed
use lms_backend.Base.{
  ℕ, ◌*◌, max, Text, codes, text_eq, Bool, true, false, not, Option, none, some, List, [], ◌∷◌,
  ◌++◌, ok, err, unauthorized, Action, ◌>>=◌, ◌>>◌, pure, modify, lift, raise_if, if◌then◌else◌,
}
use lms_backend.Core.Cache.{AppCache, set_json, delete_by_prefix}
use lms_backend.Auth.Tokens.{
  Outside, decode_token, create_password_reset_token, create_email_verification_token,
}
use lms_backend.Auth.Sessions.{Account, Store, Draw, on_blacklist, commit, parse_user_id, get_user}
use lms_backend.Auth.Login.{
  Process, Challenge, Json, on_store, on_cache, cached, check_code, get_by_email, update_account,
}

-- What a request returns: the address, the name, and the token.
abbrev Mail : Type 0
Mail = Text × Text × Text

abbrev mail_to : (Account → Text) → Option Account → Option Mail
mail_to token none = none
mail_to token (some user) =
    if user.is_active then some (user.email, user.full_name, token user) else none

-- `request_password_reset`
unfoldable pub request_password_reset : Outside → Text → ℕ → Text → Store → Option Mail
request_password_reset o jti now email s =
    mail_to (λ user. create_password_reset_token o jti now (o.show_id user.id))
      (get_by_email email s.accounts)

-- `request_email_verification`
unfoldable pub request_email_verification : Outside → Text → ℕ → Text → Store → Option Mail
request_email_verification o jti now email s =
    mail_to (λ user. create_email_verification_token o jti now (o.show_id user.id))
      (get_by_email email s.accounts)

unfoldable pub mark_verified : Account → ℕ → Action Store (Unit {0})
mark_verified user now = do
  modify (λ s. record s {
    accounts = update_account (λ a. record a { email_verified_at = some now }) user.id s.accounts;
  })
  commit

-- `confirm_email_verification`, from the account on.
unfoldable pub confirm_account : ℕ → ℕ → Action Store (Unit {0})
confirm_account now user_id = do
  user ← get_user user_id
  raise_if (not user.is_active) (unauthorized "User is inactive")
  elim user.email_verified_at [ some at ↦ pure tt | none ↦ mark_verified user now ]

-- `confirm_email_verification`
unfoldable pub confirm_email_verification : Outside → Draw → Text → Action Store (Unit {0})
confirm_email_verification o d token = do
  p ← on_blacklist (decode_token o token (some (codes "email_verification")) false d.refresh_clock)
  user_id ← lift (parse_user_id o p.sub "Malformed email verification token")
  confirm_account d.now user_id

-- `_mfa_setup_cache_key`
unfoldable pub mfa_setup_cache_key : Outside → ℕ → Text
mfa_setup_cache_key o user_id = codes "auth:mfa:setup:" ++ o.show_id user_id

-- `request_enable_mfa` for the setting of so many minutes; `code` is what `_generate_numeric_code` draws.
unfoldable pub request_enable_mfa :
    Outside → Json → ℕ → Text → ℕ → Account → Text → Action AppCache (Text × Text × Text × ℕ)
request_enable_mfa o j minutes code now user password = do
  raise_if (not (o.verify_password password user.password_hash)) (unauthorized "Invalid password")
  if user.mfa_enabled then pure (user.email, user.full_name, [], minutes) else (do
    modify (
        set_json j.dumps (mfa_setup_cache_key o user.id)
          (record { user_id = none; code = some code }) (some (max 60 (minutes * 60))) now)
    pure (user.email, user.full_name, code, minutes))

abbrev code_of : Option Challenge → Option Text
code_of none = none
code_of (some c) = c.code

unfoldable pub set_mfa : Bool → Account → Action Store (Unit {0})
set_mfa on user = do
  modify (λ s. record s {
    accounts = update_account (λ a. record a { mfa_enabled = on }) user.id s.accounts;
  })
  commit

-- `confirm_enable_mfa`
unfoldable pub confirm_enable_mfa : Outside → Json → ℕ → Account → Text → Action Process (Unit {0})
confirm_enable_mfa o j now user code = do
  found ← on_cache (cached j (mfa_setup_cache_key o user.id) now)
  lift (check_code (code_of found) code)
  on_store (set_mfa true user)
  on_cache (modify (delete_by_prefix (mfa_setup_cache_key o user.id)))

-- `disable_mfa`
unfoldable pub disable_mfa : Outside → Account → Text → Action Store (Unit {0})
disable_mfa o user password = do
  raise_if (not (o.verify_password password user.password_hash)) (unauthorized "Invalid password")
  if user.mfa_enabled then set_mfa false user else pure tt
