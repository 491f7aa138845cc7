-- ===== src/Core/Lockout.antt =====
-- `AccountLockoutManager` (app/core/account_lockout.py) on a cache without Redis. Failed logins are counted for
-- the address of the account and for the address of the client.
pub mod Counts
pub mod Locks
pub mod Resets
pub mod Tests
use lms_backend.Base.{
  ℕ, ◌+◌, max, Text, codes, Bool, true, false, ◌||◌, Option, none, some, List, [], ◌∷◌, ◌++◌, leb,
  Result, ok, err, unauthorized, if◌then◌else◌,
}
use lms_backend.Core.Cache.{AppCache, incr, expire, get_int, delete, or_zero}

-- `ACCOUNT_LOCKOUT_DURATION_SECONDS`, `MAX_FAILED_LOGIN_ATTEMPTS`
pub record Settings : Type 0 where
  pub lockout_duration : ℕ
  pub max_failed_login_attempts : ℕ

unfoldable pub user_key : Text → Text
user_key email = codes "auth:failed_attempts:user:" ++ email

unfoldable pub ip_key : Text → Text
ip_key ip_address = codes "auth:failed_attempts:ip:" ++ ip_address

-- `increment_failed_attempts`
unfoldable pub increment_failed_attempts : Settings → Text → Text → ℕ → AppCache → ℕ × AppCache
increment_failed_attempts o email ip_address now c =
    let (user_attempts, c1) = incr (user_key email) 1 now c in
    let (ip_attempts, c2) = incr (ip_key ip_address) 1 now c1 in
    let (done, c3) = expire (user_key email) o.lockout_duration now c2 in
    let (done', c4) = expire (ip_key ip_address) o.lockout_duration now c3 in
    (max user_attempts ip_attempts, c4)

-- `get_failed_attempts`
unfoldable pub get_failed_attempts : Text → Text → ℕ → AppCache → (ℕ × ℕ) × AppCache
get_failed_attempts email ip_address now c =
    let (user_attempts, c1) = get_int (user_key email) now c in
    let (ip_attempts, c2) = get_int (ip_key ip_address) now c1 in
    ((or_zero user_attempts, or_zero ip_attempts), c2)

-- `is_account_locked`
unfoldable pub is_account_locked : Settings → Text → Text → ℕ → AppCache → Bool × AppCache
is_account_locked o email ip_address now c =
    let (user_attempts, c1) = get_int (user_key email) now c in
    let (ip_attempts, c2) = get_int (ip_key ip_address) now c1 in
    (
      leb o.max_failed_login_attempts (or_zero user_attempts)
          || leb o.max_failed_login_attempts (or_zero ip_attempts),
      c2,
    )

-- `reset_failed_attempts`
unfoldable pub reset_failed_attempts : Text → Text → AppCache → AppCache
reset_failed_attempts email ip_address c = delete (ip_key ip_address) (delete (user_key email) c)

-- `check_account_lockout`
unfoldable pub check_account_lockout :
    Settings → Text → Text → ℕ → AppCache → Result (Unit {0}) × AppCache
check_account_lockout o email ip_address now c =
    let (locked, c') = is_account_locked o email ip_address now c in
    (
      if locked
          then err (
              unauthorized
                "Account temporarily locked due to multiple failed login attempts. Please try again later.")
          else ok tt,
      c',
    )
