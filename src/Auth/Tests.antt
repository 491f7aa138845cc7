-- ===== src/Auth/Tests.antt =====
-- Tokens and sessions on concrete data, with a signer that writes the claims as they are.
use lms_backend.Base.{
  ℕ, ◌/◌, ◌≡◌, ◌≢◌, refl, Text, codes, text_eq, true, false, Option, none, some, List, [], ◌∷◌,
  ◌++◌, arith, ok, ltb, ◌==◌, if◌then◌else◌,
}
use lms_backend.Base.Eq.{list_eq}
use lms_backend.Auth.Tokens.{
  Payload, Outside, Blacklist, Clock, revoke, check_access, decode_token, create_access_token,
  create_refresh_token,
}
use lms_backend.Auth.Tokens.Revoked.{Since, revoked_access_refused}
use lms_backend.Auth.Sessions.{
  Account, RefreshToken, Store, Draw, TokenResponse, rollback, commit, has_jti, open_with,
  get_valid_refresh_token, revoke_row, revoke_token, parse_user_id,
  ensure_access_token_matches_user, get_user, insert_token, issue_tokens, retire_access_token,
  replace_token, refresh_tokens, revoke_all, set_password, reset_password,
}
use lms_backend.Auth.Sessions.Once.{IsStable, refresh_tokens_once}
use lms_backend.Auth.Sessions.Reset.{reset_ends_sessions}

abbrev tag : Text → ℕ
tag typ =
    if text_eq typ (codes "access")
    then 2
    else if text_eq typ (codes "refresh")
    then 1
    else if text_eq typ (codes "mfa_challenge")
    then 4
    else if text_eq typ (codes "email_verification")
    then 5
    else 3

abbrev tagged : ℕ → Text
tagged n =
    if n == 2
    then codes "access"
    else if n == 1
    then codes "refresh"
    else if n == 4
    then codes "mfa_challenge"
    else if n == 5
    then codes "email_verification"
    else codes "password_reset"

abbrev read : ℕ → Text → Option Payload
read now (n ∷ exp ∷ user ∷ jti) =
    if ltb exp now
    then none
    else some
        (record { sub = some (user ∷ []); jti = some jti; typ = some (tagged n); exp = some exp })
read now _ = none

abbrev number : Text → Option ℕ
number (n ∷ []) = some n
number _ = none

abbrev pub plain : Outside
plain = record {
  encode = λ c. tag c.typ ∷ c.exp / 1000000 ∷ (c.sub ++ c.jti);
  decode = read;
  show_id = λ n. n ∷ [];
  parse_id = number;
  hash_password = λ password. 0 ∷ password;
  verify_password = λ password hash. text_eq (0 ∷ password) hash;
  access_minutes = 30;
  refresh_days = 7;
  mfa_challenge_minutes = 5;
  password_reset_minutes = 15;
  email_verification_minutes = 60;
  require_email_verification = false;
}

abbrev pub clock : Clock
clock = record { verify = 10; cleanup = 10; check = 10 }

abbrev pub draw : Draw
draw = record {
  row_id = 2;
  access_jti = 81 ∷ [];
  refresh_jti = 82 ∷ [];
  refresh_clock = clock;
  access_clock = clock;
  valid_now = 10;
  now = 10;
  access_now = 10;
  refresh_now = 10;
  issued_clock = clock;
  blacklist_clock = clock;
  revoke_now = 10;
  revoke_later = 10;
}

abbrev rows : List RefreshToken
rows =
    record { id = 1; user_id = 7; token_jti = 80 ∷ []; expires_at = 1000000000; revoked_at = none }
    ∷ []

abbrev pub accounts : List Account
accounts =
    record {
      id = 7;
      role = codes "student";
      is_active = true;
      password_hash = [];
      email = codes "a@b.c";
      full_name = codes "Ann";
      mfa_enabled = false;
      email_verified_at = none;
      last_login_at = none;
    }
    ∷ []

abbrev pub store : Store
store = record {
  accounts = accounts;
  tokens = rows;
  committed_accounts = accounts;
  committed_tokens = rows;
  commit_error = none;
  blacklist = record { enabled = true; memory = [] };
}

-- The refresh token of the row, and a reset token of its user.
abbrev refresh : Text
refresh = 1 ∷ 1000 ∷ 7 ∷ 80 ∷ []

abbrev reset : Text
reset = 3 ∷ 1000 ∷ 7 ∷ 90 ∷ []

pub plain-IsStable : IsStable plain
plain-IsStable t t' (n ∷ exp ∷ user ∷ jti) p p' h h' = ground arith
plain-IsStable t t' (n ∷ exp ∷ []) p p' h h' = ground arith
plain-IsStable t t' (n ∷ []) p p' h h' = ground arith
plain-IsStable t t' [] p p' h h' = ground arith

abbrev pair : TokenResponse
pair = record {
  access_token = 2 ∷ 1800 ∷ 7 ∷ 81 ∷ [];
  refresh_token = 1 ∷ 604800 ∷ 7 ∷ 82 ∷ [];
  expires_in = 1800;
}

refreshed : (refresh_tokens plain draw refresh none store).0 ≡ ok pair
unfolding refresh_tokens replace_token issue_tokens insert_token commit rollback retire_access_token
    get_user ensure_access_token_matches_user parse_user_id revoke_token revoke_row
    get_valid_refresh_token open_with has_jti decode_token check_access create_access_token
    create_refresh_token
refreshed = refl

refresh_tokens_once_example :
    (refresh_tokens plain draw refresh none (refresh_tokens plain draw refresh none store).1).0
    ≢ ok pair
refresh_tokens_once_example =
    refresh_tokens_once plain draw draw refresh none none store plain-IsStable (refl, tt) refreshed

was_reset : (reset_password plain draw reset (codes "new") store).0 ≡ ok tt
unfolding reset_password revoke_all set_password commit get_user parse_user_id decode_token
    check_access
was_reset = refl

reset_ends_sessions_example :
    (refresh_tokens plain draw refresh none
      (reset_password plain draw reset (codes "new") store).1).0
    ≢ ok pair
unfolding parse_user_id decode_token check_access
reset_ends_sessions_example =
    reset_ends_sessions plain draw draw reset (codes "new") refresh none store
      (record {
        sub = some (7 ∷ []);
        jti = some (90 ∷ []);
        typ = some (codes "password_reset");
        exp = some 1000;
      })
      (record {
        sub = some (7 ∷ []);
        jti = some (80 ∷ []);
        typ = some (codes "refresh");
        exp = some 1000;
      })
      7 was_reset refl refl refl refl

-- An access token that expires at 1000, revoked at 5.
abbrev listed : Blacklist
listed = revoke (81 ∷ []) 1000 5 5 (record { enabled = true; memory = [] })

abbrev access : Payload
access = record {
  sub = some (7 ∷ []);
  jti = some (81 ∷ []);
  typ = some (codes "access");
  exp = some 1000;
}

revoked_access_refused_example :
    (decode_token plain (2 ∷ 1000 ∷ 7 ∷ 81 ∷ []) (some (codes "access")) true clock listed).0
    ≢ ok access
revoked_access_refused_example =
    revoked_access_refused plain (2 ∷ 1000 ∷ 7 ∷ 81 ∷ []) (81 ∷ []) 1000 5 listed clock
      (Since.revoked (record { enabled = true; memory = [] }) 5 5 refl (omega arith) (omega arith))
      refl refl refl (omega arith) (omega arith) (omega arith)
