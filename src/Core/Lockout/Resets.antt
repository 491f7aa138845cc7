-- ===== src/Core/Lockout/Resets.antt =====
-- When an account is open: after a reset, and whatever happens to other accounts and clients.
use mathlib.Core.Path.{subst}
use lms_backend.Base.{
  ℕ, ◌+◌, ◌*◌, max, ◌≤◌, ◌<◌, ◌≡◌, refl, sym, ap, ◌∙◌, Text, codes, text_eq, text_eq_iff, true,
  false, none, List, [], ◌∷◌, ◌++◌, arith, length, All, ok,
}
use lms_backend.Core.Cache.{AppCache, get_int, build_key}
use lms_backend.Core.Cache.Size.{Call, run}
use lms_backend.Core.Cache.Reads.{View, reads, get_memory-reads}
use lms_backend.Core.Cache.Refines.{promise, number}
use lms_backend.Core.Cache.Chains.{HasRoom, run_at, promise_at, run_at-Agree}
use lms_backend.Core.Lockout.Counts.{both_other}
use lms_backend.Core.Lockout.{
  Settings, user_key, ip_key, increment_failed_attempts, is_account_locked, reset_failed_attempts,
  check_account_lockout,
}
use lms_backend.Core.Lockout.Locks.{
  apart, Failure, fail_all, failures, keys_apart, get_int-failures, after, incremented,
  promise-both,
}
use lms_backend.Core.Cache.Chains.{settings-get_memory}

-- The two calls of `reset_failed_attempts`.
abbrev removals : Text → Text → List Call
removals email ip = Call.delete_key (user_key email) ∷ Call.delete_key (ip_key ip) ∷ []

reset-run_at :
    (email ip : Text) (now : ℕ) (c : AppCache)
    → reset_failed_attempts email ip c ≡ run_at (removals email ip) now c
unfolding reset_failed_attempts run_at run
reset-run_at email ip now c = refl

removed :
    (email ip : Text) (now : ℕ) (c : AppCache) (v : View)
    → let w = promise_at c (removals email ip) now v in
      (w (build_key c (user_key email)) now ≡ none) × (w (build_key c (ip_key ip)) now ≡ none)
unfolding promise_at promise
removed email ip now c v =
    let own = λ (k : Text). (text_eq_iff k k).1 refl in
    (
      ground (arith, own (build_key c (user_key email))),
      ground (arith, own (build_key c (ip_key ip))),
    )

failures-none :
    (key : Text) (c c' : AppCache) (t : ℕ)
    → c'.key_prefix ≡ c.key_prefix
    → reads c' (build_key c key) t ≡ none
    → failures key c' t ≡ 0
unfolding build_key
failures-none key c c' t same r = ap (λ p. number (reads c' (p ++ 58 ∷ key) t)) same ∙ ap number r

-- A read changes neither the settings nor what is counted.
enabled_after : (key : Text) (t : ℕ) (c : AppCache) → (get_int key t c).1.enabled ≡ c.enabled
unfolding get_int
enabled_after key t c = ground (arith, settings-get_memory (build_key c key) t c)

failures_after :
    (other key : Text) (t : ℕ) (c : AppCache)
    → c.enabled ≡ true
    → failures key (get_int other t c).1 t ≡ failures key c t
unfolding get_int build_key
failures_after other key t c on = ground (
  arith,
  settings-get_memory (build_key c other) t c,
  (get_memory-reads (build_key c other) t c).1 (build_key c key) t (omega arith),
)

unlocked_by :
    (o : Settings) (email ip : Text) (t : ℕ) (c : AppCache)
    → c.enabled ≡ true
    → failures (user_key email) c t < o.max_failed_login_attempts
    → failures (ip_key ip) c t < o.max_failed_login_attempts
    → (check_account_lockout o email ip t c).0 ≡ ok tt
unfolding check_account_lockout is_account_locked
unlocked_by o email ip t c on lt lt' = ground (
  arith,
  get_int-failures (user_key email) t c on,
  get_int-failures (ip_key ip) t (get_int (user_key email) t c).1
      (enabled_after (user_key email) t c ∙ on),
  failures_after (user_key email) (ip_key ip) t c on,
)

-- After a reset the account is open for the client at once, when the cache is enabled with room for three
-- entries and one failure at least is allowed.
pub reset_unlocks :
    (o : Settings) (email ip : Text) (now : ℕ) (c : AppCache)
    → HasRoom 2 c
    → 0 < o.max_failed_login_attempts
    → (check_account_lockout o email ip now (reset_failed_attempts email ip c)).0 ≡ ok tt
reset_unlocks o email ip now c room allowed =
    let c' = run_at (removals email ip) now c in
    let (kept, same, agree) =
      run_at-Agree c (removals email ip) now 0 c (reads c) room (refl, refl, refl)
        (λ k t le. refl) in
    let (for_user, for_ip) = removed email ip now c (reads c) in
    let none_user =
      failures-none (user_key email) c c' now same.1 (agree _ now (omega arith) ∙ for_user) in
    let none_ip = failures-none (ip_key ip) c c' now same.1 (agree _ now (omega arith) ∙ for_ip) in
    rw (reset-run_at email ip now c) (
      unlocked_by o email ip now c' kept.on (omega (arith, none_user, allowed))
        (omega (arith, none_ip, allowed)))

reversed : (s t : Text) → text_eq t s ≡ false → text_eq s t ≡ false
reversed s t h = ground (arith, text_eq_iff s t, text_eq_iff t s)

-- A failure leaves the counts of other accounts and clients as they are.
module _ (o : Settings) (email ip other_email other_ip : Text) (now : ℕ) (c : AppCache) (free : ℕ)
    (room : HasRoom (4 + free) c) (ttl : 1 ≤ c.default_ttl_seconds)
    (other : text_eq email other_email ≡ false) (elsewhere : text_eq ip other_ip ≡ false) where
  abbrev u : Text
  u = build_key c (user_key email)

  abbrev i : Text
  i = build_key c (ip_key ip)

  untouched :
      (key : Text)
      → text_eq u (build_key c key) ≡ false
      → text_eq i (build_key c key) ≡ false
      → (t : ℕ) → now ≤ t
      → failures key (incremented o email ip now c free room ttl) t ≡ failures key c t
  unfolding build_key
  untouched key nu ni t le =
      let (kept, same, agree) = after o email ip now c free room ttl in
      let k = build_key c key in
      let c' = incremented o email ip now c free room ttl in
      ap (λ p. number (reads c' (p ++ 58 ∷ key) t)) same.1
      ∙ ap number (
          agree k t le
          ∙ ap (λ w. w k t) (promise-both o email ip now c (reads c) (omega arith))
          ∙ both_other u i (keys_apart c email ip) (reads c) now (now + c.default_ttl_seconds)
              (now + max 1 o.lockout_duration) (omega arith) k t nu ni)

  users_apart : text_eq u (build_key c (user_key other_email)) ≡ false
  unfolding build_key user_key
  users_apart =
      apart c.key_prefix (58 ∷ codes "auth:failed_attempts:user:" ++ email)
        (58 ∷ codes "auth:failed_attempts:user:" ++ other_email)
        (apart (58 ∷ codes "auth:failed_attempts:user:") email other_email other)

  ips_apart : text_eq i (build_key c (ip_key other_ip)) ≡ false
  unfolding build_key ip_key
  ips_apart =
      apart c.key_prefix (58 ∷ codes "auth:failed_attempts:ip:" ++ ip)
        (58 ∷ codes "auth:failed_attempts:ip:" ++ other_ip)
        (apart (58 ∷ codes "auth:failed_attempts:ip:") ip other_ip elsewhere)

  both_untouched :
      (t : ℕ)
      → now ≤ t
      → (failures (user_key other_email) (incremented o email ip now c free room ttl) t
          ≡ failures (user_key other_email) c t)
        × (failures (ip_key other_ip) (incremented o email ip now c free room ttl) t
            ≡ failures (ip_key other_ip) c t)
  both_untouched t le = (
    untouched (user_key other_email) users_apart
        (reversed i (build_key c (user_key other_email)) (keys_apart c other_email ip)) t le,
    untouched (ip_key other_ip) (keys_apart c email other_ip) ips_apart t le,
  )

-- Failed logins at one spelling of an address, from some clients, do not lock another spelling of it for
-- another client: the counts of these two stay as they are at all times after the failures, when the cache is
-- enabled and has room for four entries for each failure and one more.
pub failures_elsewhere :
    (o : Settings) (email other_email other_ip : Text) (fs : List Failure) (t : ℕ) (c : AppCache)
    → HasRoom (4 * length fs) c
    → 1 ≤ c.default_ttl_seconds
    → text_eq email other_email ≡ false
    → All (λ f. (text_eq f.ip_address other_ip ≡ false) × (f.at ≤ t)) fs
    → (failures (user_key other_email) (fail_all o email fs c) t
        ≡ failures (user_key other_email) c t)
      × (failures (ip_key other_ip) (fail_all o email fs c) t ≡ failures (ip_key other_ip) c t)
unfolding fail_all
failures_elsewhere o email other_email other_ip [] t c room ttl other far = (refl, refl)
failures_elsewhere o email other_email other_ip (f ∷ fs) t c room ttl other far =
    let room' : HasRoom (4 + 4 * length fs) c = subst (λ m. HasRoom m c) (omega arith) room in
    let (kept, same, agree) = after o email f.ip_address f.at c (4 * length fs) room' ttl in
    let c' = (increment_failed_attempts o email f.ip_address f.at c).1 in
    let (a, b) =
      both_untouched o email f.ip_address other_email other_ip f.at c (4 * length fs) room' ttl
        other far.0.0 t far.0.1 in
    let (x, y) =
      failures_elsewhere o email other_email other_ip fs t c' kept
        (subst (λ m. 1 ≤ m) (sym same.2) ttl) other far.1 in
    (x ∙ a, y ∙ b)
