-- ===== src/Core/Tests.antt =====
-- The limiter on concrete requests.
use lms_backend.Base.{◌≤◌, refl, Text, codes, [], ◌∷◌, arith}
use lms_backend.Base.Eq.{list_eq}
use lms_backend.Base.Dict.{insert, lookup}
use lms_backend.Core.RateLimit.{Limiter, drop_old, sweep, maybe_cleanup, dispatch_in_memory}
use lms_backend.Core.RateLimit.Window.{recent}
use lms_backend.Core.RateLimit.Cleanup.{Serves, Serves-limit}

abbrev host : Text
host = codes "ip:a"

abbrev empty_limiter : Limiter
empty_limiter = record {
  limit = 100;
  period_seconds = 60;
  key_prefix = codes "ratelimit";
  excluded_paths = [];
  custom_rules = [];
  requests = [];
  last_cleanup_time = 0;
}

abbrev after_first : Limiter
after_first = (dispatch_in_memory host 1 60 5 5 empty_limiter).1

-- One request is let through, the second is refused.
abbrev two_calls : Serves host 1 60 60 (dispatch_in_memory host 1 60 9 9 after_first).1 9 (5 ∷ [])
unfolding drop_old sweep maybe_cleanup dispatch_in_memory insert lookup
two_calls =
    Serves.call host 1 60 9 9
      (Serves.call host 1 60 5 5 (Serves.start empty_limiter refl refl) (omega arith)
        (λ _. (refl, refl)))
      (omega arith) (λ _. (refl, refl))

Serves-limit_example : recent 60 20 (5 ∷ []) ≤ 1
Serves-limit_example =
    Serves-limit host 1 60 60 (dispatch_in_memory host 1 60 9 9 after_first).1 9 (5 ∷ []) two_calls
      (omega arith) 20 (omega arith)

-- One upload 400 seconds ago, with a rule of one upload per hour.
abbrev after_upload : Limiter
after_upload = record empty_limiter { requests = (host, 0 ∷ []) ∷ [] }
