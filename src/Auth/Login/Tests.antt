-- ===== src/Auth/Login/Tests.antt =====
-- Logins of an account, with and without a second factor, and the theorems on logins at this data.
use lms_backend.Base.{
  ℕ, ◌≡◌, ◌≢◌, refl, Text, codes, true, false, Option, none, some, [], ◌∷◌, ◌++◌, ok, err,
  unauthorized, arith, find, ◌==◌,
}
use lms_backend.Base.Strip.{strip, lower}
use lms_backend.Base.Dict.{lookup, insert}
use lms_backend.Core.Cache.{
  build_key, get_memory, set_memory, get_json, set_json, get_int, incr, expire, cleaned, evicted,
}
use lms_backend.Core.Lockout.{
  user_key, ip_key, increment_failed_attempts, is_account_locked, check_account_lockout,
}
use lms_backend.Core.Lockout.Tests.{settings, empty, roomy}
use lms_backend.Auth.Tokens.{
  decode_token, check_access, create_access_token, create_refresh_token, create_mfa_challenge_token,
  create_email_verification_token,
}
use lms_backend.Auth.Sessions.{
  Account, Store, TokenResponse, has_jti, commit, parse_user_id, get_user, insert_token,
  issue_tokens,
}
use lms_backend.Auth.Tests.{plain, plain-IsStable, clock, draw, store}
use lms_backend.Auth.Login.{
  Process, Challenge, Json, LoginDraw, LoginReply, get_by_email, authenticate, touch_last_login,
  commit_plain, mfa_login_cache_key, sign_in, try_login, or_count_failure, login, compare_digest,
  check_code, finish_mfa_login, read_challenge, answer_challenge, verify_mfa_login, or_empty,
}
use lms_backend.Auth.Login.Guards.{IsEntitled, IsReply, login-IsEntitled}
use lms_backend.Auth.Login.Locked.{Attempt, HaveFailed, log_in_all, login-locked}
use lms_backend.Auth.Login.Factor.{verify_mfa_login_once}
use lms_backend.Auth.Verification.{confirm_email_verification, request_email_verification}
use lms_backend.Auth.Verification.Confirmed.{confirm-request}

-- The password is empty.
abbrev ann : Account
ann = record {
  id = 7;
  role = codes "student";
  is_active = true;
  password_hash = 0 ∷ [];
  email = codes "a@b.c";
  full_name = codes "Ann";
  mfa_enabled = false;
  email_verified_at = none;
  last_login_at = none;
}

abbrev with : Account → Store
with a = record store { accounts = a ∷ []; committed_accounts = a ∷ [] }

abbrev split : Text → Option Challenge
split [] = none
split (user ∷ code) = some (record { user_id = some (user ∷ []); code = some code })

abbrev json : Json
json = record { dumps = λ c. or_empty c.user_id ++ or_empty c.code; loads = split }

abbrev login_draw : LoginDraw
login_draw = record {
  draw = draw;
  challenge_jti = 90 ∷ [];
  challenge_now = 10000000;
  challenge_clock = clock;
  code = codes "1234";
  checked_at = 10;
  failed_at = 10;
  cached_at = 10;
}

abbrev process : Process
process = record { store = with ann; cache = empty }

abbrev tokens : TokenResponse
tokens = record {
  access_token = create_access_token plain (81 ∷ []) 10 (7 ∷ []) (codes "student");
  refresh_token = create_refresh_token plain (82 ∷ []) 10 (7 ∷ []);
  expires_in = 1800;
}

login-IsEntitled_example :
    ((check_account_lockout settings (codes "A@b.c") (codes "10.0.0.9") 10 empty).0 ≡ ok tt)
    × ((user : Account) × IsEntitled plain (codes "A@b.c") [] (ann ∷ []) user
        × IsReply user (LoginReply.signed_in (record ann { last_login_at = some 10 }) tokens))
unfolding login or_count_failure try_login authenticate get_by_email lower sign_in touch_last_login
    issue_tokens decode_token check_access create_access_token create_refresh_token insert_token
    has_jti commit_plain check_account_lockout is_account_locked get_int get_memory lookup
login-IsEntitled_example =
    login-IsEntitled plain settings json login_draw (codes "A@b.c") [] (codes "10.0.0.9") process
      refl

-- Two logins with a wrong password, from two clients, and a right one after them.
abbrev wrong : Text → ℕ → Attempt
wrong ip at = record {
  draw = record login_draw { checked_at = at; failed_at = at };
  password = codes "guess";
  ip_address = ip;
}

abbrev first : Attempt
first = wrong (codes "10.0.0.1") 100

abbrev second : Attempt
second = wrong (codes "10.0.0.2") 500

both_failed : HaveFailed plain settings json (codes "a@b.c") (first ∷ second ∷ []) process
unfolding HaveFailed login or_count_failure try_login authenticate get_by_email lower
    check_account_lockout is_account_locked increment_failed_attempts user_key ip_key incr expire
    get_int get_memory set_memory cleaned evicted insert lookup build_key
both_failed = (λ user e. ground arith, refl, (λ user e. ground arith, refl, tt))

login-locked_example :
    let q = log_in_all plain settings json (codes "a@b.c") (first ∷ second ∷ []) process in
    let (r, q') =
      login plain settings json
        (record login_draw { checked_at = 1000 })
        (codes "a@b.c")
        []
        (codes "10.0.0.9")
        q in
    (r
      ≡ err (
          unauthorized
            "Account temporarily locked due to multiple failed login attempts. Please try again later."))
    × (q'.store ≡ process.store)
login-locked_example =
    login-locked plain settings json (codes "a@b.c") first (second ∷ [])
      (record login_draw { checked_at = 1000 }) [] (codes "10.0.0.9") process
      (roomy 8 (omega arith)) (omega arith) (omega arith)
      (omega arith, omega arith, omega arith, (omega arith, omega arith)) both_failed (omega arith)

-- An account with a second factor, and what a login leaves in the cache.
abbrev careful : Account
careful = record ann { mfa_enabled = true }

abbrev challenged : Process
challenged = record {
  store = with careful;
  cache =
      set_json json.dumps (mfa_login_cache_key (90 ∷ []))
        (record { user_id = some (7 ∷ []); code = some (codes "1234") }) (some 300) 10 empty;
}

abbrev challenge_token : Text
challenge_token = create_mfa_challenge_token plain (90 ∷ []) 10000000 (7 ∷ [])

verify_mfa_login_once_example :
    (verify_mfa_login plain json login_draw challenge_token
      (codes "9999")
      (verify_mfa_login plain json login_draw challenge_token (codes " 1234") challenged).1).0
    ≢ ok (record careful { last_login_at = some 10 }, tokens)
unfolding verify_mfa_login read_challenge answer_challenge finish_mfa_login decode_token
    check_access create_mfa_challenge_token mfa_login_cache_key parse_user_id get_json set_json
    get_memory set_memory cleaned evicted insert lookup build_key check_code compare_digest strip
    get_user touch_last_login issue_tokens create_access_token create_refresh_token insert_token
    has_jti commit
verify_mfa_login_once_example =
    verify_mfa_login_once plain json login_draw login_draw challenge_token (codes " 1234")
      (codes "9999") challenged {r = (record careful { last_login_at = some 10 }, tokens)}
      plain-IsStable refl

confirm-request_example :
    let (r, t) =
      confirm_email_verification plain draw
        (create_email_verification_token plain (91 ∷ []) 10000000 (7 ∷ []))
        (with ann) in
    (r ≡ ok tt)
    × (find (λ a. a.id == 7) t.committed_accounts
        ≡ some (record ann { email_verified_at = some 10 }))
unfolding get_by_email lower request_email_verification
confirm-request_example =
    confirm-request plain draw (91 ∷ []) (codes "A@b.c") (codes "a@b.c") (codes "Ann")
      (create_email_verification_token plain (91 ∷ []) 10000000 (7 ∷ [])) 10000000 (with ann) ann
      refl refl refl refl refl refl refl refl
