-- ===== src/Core/RateLimit.antt =====
-- app/core/middleware/rate_limit.py: the in-memory limiter. Times are in microseconds; the readings of
-- the clock and the handler behind the middleware are arguments.
pub mod Window
pub mod Cleanup
use lms_backend.Base.{
  ℕ, zero, suc, ◌+◌, ◌-◌, ◌*◌, ◌/◌, max, Text, codes, text_eq, starts_with, Bool, true, false, ◌||◌,
  not, Option, none, some, List, [], ◌∷◌, ◌++◌, map, find, any, keep, ltb, leb, length,
  if◌then◌else◌,
}
use lms_backend.Base.Eq.{list_eq}
use lms_backend.Base.Dict.{Dict, lookup, insert, erase}

abbrev pub second : ℕ
second = 1000000

abbrev pub cleanup_interval_seconds : ℕ
cleanup_interval_seconds = 300

pub data KeyMode : Type 0 where
  ip user_or_ip : KeyMode

pub record RateLimitRule : Type 0 where
  pub name : Text
  pub path_prefixes : List Text
  pub limit : ℕ
  pub period_seconds : ℕ
  pub key_mode : KeyMode

-- The fields of `RateLimitMiddleware` that the in-memory path reads and writes.
pub record Limiter : Type 0 where
  pub limit : ℕ
  pub period_seconds : ℕ
  pub key_prefix : Text
  pub excluded_paths : List Text
  pub custom_rules : List RateLimitRule
  pub requests : Dict Text (List ℕ)
  pub last_cleanup_time : ℕ

-- `path == prefix or path.startswith(f"{prefix}/")`
pub under : Text → Text → Bool
under path prefix = text_eq path prefix || starts_with (prefix ++ codes "/") path

pub is_excluded : Limiter → Text → Bool
unfolding under
is_excluded l path = any (under path) l.excluded_paths

pub resolve_rule : Limiter → Text → Option RateLimitRule
unfolding under
resolve_rule l path = find (λ r. any (under path) r.path_prefixes) l.custom_rules

-- `_build_client_key`: the user of a valid token if the rule asks for it, else the address.
unfoldable pub build_client_key : KeyMode → Option Text → Option Text → Text
build_client_key KeyMode.user_or_ip (some (c ∷ user)) host = codes "user:" ++ (c ∷ user)
build_client_key mode user host = codes "ip:" ++ elim host [ none ↦ codes "unknown" | some h ↦ h ]

-- `while window and now - window[0] > period_seconds: window.popleft()`
unfoldable pub drop_old : ℕ → ℕ → List ℕ → List ℕ
drop_old period now [] = []
drop_old period now (t ∷ window) =
    let rest = drop_old period now window in
    if ltb (t + period * second) now then rest else t ∷ window

unfoldable pub put_window : Text → List ℕ → Dict Text (List ℕ) → Dict Text (List ℕ)
put_window key [] d = d
put_window key (t ∷ kept) d = (key, t ∷ kept) ∷ d

-- The windows of all keys without their old entries, and without the keys that have none left.
unfoldable pub sweep : ℕ → ℕ → Dict Text (List ℕ) → Dict Text (List ℕ)
unfolding put_window
sweep period now [] = []
sweep period now ((key, window) ∷ rest) =
    put_window key (drop_old period now window) (sweep period now rest)

-- `_maybe_cleanup`
unfoldable pub maybe_cleanup : ℕ → Limiter → Limiter
unfolding sweep
maybe_cleanup now l =
    if ltb now (l.last_cleanup_time + cleanup_interval_seconds * second)
    then l
    else record l { last_cleanup_time = now; requests = sweep l.period_seconds now l.requests }

-- What the client is told: let through, or not, with the three headers.
pub record Verdict : Type 0 where
  pub allowed : Bool
  pub limit : ℕ
  pub remaining : ℕ
  pub reset_epoch : ℕ
  pub retry_after : Option ℕ

-- `self._requests[key]`, a `defaultdict`.
abbrev pub window_of : Option (List ℕ) → List ℕ
window_of none = []
window_of (some window) = window

abbrev first_or : List ℕ → ℕ → ℕ
first_or [] now = now
first_or (t ∷ window) now = t

-- `_dispatch_in_memory` up to the call of the handler; `later` is the clock in
-- `_rate_limited_response`.
unfoldable pub dispatch_in_memory : Text → ℕ → ℕ → ℕ → ℕ → Limiter → Verdict × Limiter
unfolding maybe_cleanup drop_old
dispatch_in_memory key limit period now later l =
    let l' = maybe_cleanup now l in
    let window = drop_old period now (window_of (lookup key l'.requests)) in
    let reset = (first_or window now + period * second) / second in
    if leb limit (length window)
    then (
      record {
        allowed = false;
        limit = limit;
        remaining = 0;
        reset_epoch = reset;
        retry_after = some (max 1 (reset - later / second));
      },
      record l' { requests = insert key window l'.requests },
    )
    else (
      record {
        allowed = true;
        limit = limit;
        remaining = limit - length (window ++ now ∷ []);
        reset_epoch = reset;
        retry_after = none;
      },
      record l' { requests = insert key (window ++ now ∷ []) l'.requests },
    )

-- A request, as far as the middleware reads it.
pub record Request : Type 0 where
  pub path : Text
  pub host : Option Text
  pub user : Option Text

-- The key, limit and period that `dispatch` chooses.
pub request_key : Limiter → Request → Text
unfolding resolve_rule build_client_key
request_key l r = elim (resolve_rule l r.path) [
  | none ↦
      l.key_prefix
      ++ (codes ":" ++ (build_client_key KeyMode.ip r.user r.host ++ (codes ":" ++ r.path)))
  | some rule ↦
      l.key_prefix
      ++ (codes ":"
          ++ (rule.name
              ++ (codes ":"
                  ++ (build_client_key rule.key_mode r.user r.host ++ (codes ":" ++ r.path)))))
]

pub rule_limit : Limiter → Request → ℕ
unfolding resolve_rule
rule_limit l r = elim (resolve_rule l r.path) [ none ↦ l.limit | some rule ↦ rule.limit ]

pub rule_period : Limiter → Request → ℕ
unfolding resolve_rule
rule_period l r = elim (resolve_rule l r.path) [
  | none ↦ l.period_seconds
  | some rule ↦ rule.period_seconds
]

-- `dispatch` with Redis disabled: `none` is a request that is not limited.
pub dispatch : Request → ℕ → ℕ → Limiter → Option Verdict × Limiter
unfolding is_excluded request_key rule_limit rule_period dispatch_in_memory
dispatch r now later l =
    if is_excluded l r.path
    then (none, l)
    else let (v, l') =
        dispatch_in_memory (request_key l r) (rule_limit l r) (rule_period l r) now later l in
      (some v, l')
