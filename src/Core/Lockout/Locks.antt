-- ===== src/Core/Lockout/Locks.antt =====
-- When an account is locked.
use mathlib.Core.Path.{subst}
use lms_backend.Base.{
  ℕ, ◌+◌, max, ◌≤◌, ◌<◌, ◌≡◌, refl, sym, ap, ◌∙◌, Text, codes, text_eq, true, false, some, List, [],
  ◌∷◌, ◌++◌, arith, err, unauthorized,
}
use lms_backend.Base.Decimal.{str, int-str}
use lms_backend.Core.Cache.{AppCache, get_int, build_key, or_zero}
use lms_backend.Core.Cache.Size.{Call, run}
use lms_backend.Core.Cache.Reads.{View, reads, Agree, get_memory-reads}
use lms_backend.Core.Cache.Refines.{promise, number}
use lms_backend.Core.Cache.Chains.{HasRoom, SameSettings, run_at, promise_at, run_at-Agree}
use lms_backend.Core.Lockout.Counts.{both, both-reads}
use lms_backend.Core.Lockout.{
  Settings, user_key, ip_key, increment_failed_attempts, is_account_locked, check_account_lockout,
}

-- The failures that count against a key at a time.
abbrev pub failures : Text → AppCache → ℕ → ℕ
failures key c t = number (reads c (build_key c key) t)

pub apart : (prefix s t : Text) → text_eq s t ≡ false → text_eq (prefix ++ s) (prefix ++ t) ≡ false
apart [] s t h = h
apart (c ∷ prefix) s t h = ground (arith, apart prefix s t h)

pub keys_apart :
    (c : AppCache) (email ip : Text)
    → text_eq (build_key c (user_key email)) (build_key c (ip_key ip)) ≡ false
unfolding build_key user_key ip_key
keys_apart c email ip =
    apart c.key_prefix (58 ∷ codes "auth:failed_attempts:user:" ++ email)
      (58 ∷ codes "auth:failed_attempts:ip:" ++ ip) refl

-- The four calls of `increment_failed_attempts`.
abbrev pub calls : Settings → Text → Text → List Call
calls o email ip =
    Call.increase (user_key email) 1
    ∷ Call.increase (ip_key ip) 1
    ∷ Call.expire_in (user_key email) o.lockout_duration
    ∷ Call.expire_in (ip_key ip) o.lockout_duration
    ∷ []

increment-run_at :
    (o : Settings) (email ip : Text) (now : ℕ) (c : AppCache)
    → (increment_failed_attempts o email ip now c).1 ≡ run_at (calls o email ip) now c
unfolding increment_failed_attempts run_at run
increment-run_at o email ip now c = refl

pub promise-both :
    (o : Settings) (email ip : Text) (now : ℕ) (c : AppCache) (v : View)
    (lives : now < now + c.default_ttl_seconds)
    → promise_at c (calls o email ip) now v
      ≡ both
          (build_key c (user_key email))
          (build_key c (ip_key ip))
          (keys_apart c email ip)
          v
          now
          (now + c.default_ttl_seconds)
          (now + max 1 o.lockout_duration)
          lives
unfolding promise_at promise
promise-both o email ip now c v lives = refl

number-str : (n : ℕ) → number (some (str n)) ≡ n
number-str n = ap or_zero (int-str n)

pub failures_as :
    (key : Text) (c c' : AppCache) (t : ℕ) {n : ℕ}
    → c'.key_prefix ≡ c.key_prefix
    → reads c' (build_key c key) t ≡ some (str n)
    → failures key c' t ≡ n
unfolding build_key
failures_as key c c' t {n} same r =
    ap (λ p. number (reads c' (p ++ 58 ∷ key) t)) same ∙ ap number r ∙ number-str n

module _ (o : Settings) (email ip : Text) (now : ℕ) (c : AppCache) (free : ℕ)
    (room : HasRoom (4 + free) c) (ttl : 1 ≤ c.default_ttl_seconds) where
  abbrev pub incremented : AppCache
  incremented = (increment_failed_attempts o email ip now c).1

  pub after :
      HasRoom free incremented
      × SameSettings c incremented
      × Agree now (reads incremented) (promise_at c (calls o email ip) now (reads c))
  after =
      subst
        (λ c'.
          HasRoom free c'
          × SameSettings c c'
          × Agree now (reads c') (promise_at c (calls o email ip) now (reads c)))
        (sym (increment-run_at o email ip now c))
        (run_at-Agree c (calls o email ip) now free c (reads c) room (refl, refl, refl)
          (λ k t le. refl))

  -- A failure counts once for the account and once for the client, until the lockout is over.
  pub increment-failures :
      (t : ℕ)
      → now ≤ t
      → t < now + max 1 o.lockout_duration
      → (failures (user_key email) incremented t ≡ failures (user_key email) c now + 1)
        × (failures (ip_key ip) incremented t ≡ failures (ip_key ip) c now + 1)
  increment-failures t le lt =
      let (kept, same, agree) = after in
      let u = build_key c (user_key email) in
      let i = build_key c (ip_key ip) in
      let differ = keys_apart c email ip in
      let until = now + max 1 o.lockout_duration in
      let (for_user, for_ip) =
        both-reads u i differ (reads c) now (now + c.default_ttl_seconds) until (omega arith) t
          lt in
      (
        failures_as (user_key email) c incremented t same.1 (
            agree u t le
            ∙ ap (λ w. w u t) (promise-both o email ip now c (reads c) (omega arith))
            ∙ for_user),
        failures_as (ip_key ip) c incremented t same.1 (
            agree i t le
            ∙ ap (λ w. w i t) (promise-both o email ip now c (reads c) (omega arith))
            ∙ for_ip),
      )

-- Failed logins at this address of an account, each from some client at some time.
pub record Failure : Type 0 where
  pub ip_address : Text
  pub at : ℕ

unfoldable pub fail_all : Settings → Text → List Failure → AppCache → AppCache
fail_all o email [] c = c
fail_all o email (f ∷ fs) c =
    fail_all o email fs (increment_failed_attempts o email f.ip_address f.at c).1

pub get_int-failures :
    (key : Text) (t : ℕ) (c : AppCache)
    → c.enabled ≡ true
    → or_zero (get_int key t c).0 ≡ failures key c t
unfolding get_int
get_int-failures key t c on = ground (arith, (get_memory-reads (build_key c key) t c).0)

-- The lock reads the two counts.
pub locked_by :
    (o : Settings) (email ip : Text) (t : ℕ) (c : AppCache)
    → HasRoom 0 c
    → o.max_failed_login_attempts ≤ failures (user_key email) c t
    → (check_account_lockout o email ip t c).0
      ≡ err (
          unauthorized
            "Account temporarily locked due to multiple failed login attempts. Please try again later.")
unfolding check_account_lockout is_account_locked
locked_by o email ip t c h le = ground (arith, get_int-failures (user_key email) t c h.on)
