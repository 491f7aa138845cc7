-- ===== src/Auth/Login/Locked.antt =====
-- Failed logins lock the account that they name.
use lms_backend.Base.{
  ℕ, suc, ◌+◌, ◌*◌, max, ◌≤◌, ◌<◌, ◌≡◌, refl, sym, ap, ◌∙◌, Text, false, some, List, [], ◌∷◌, ◌++◌,
  err, value_error, unauthorized, arith, inl, inr, Option-cases, Bool-cases, length,
}
use mathlib.Core.Path.{subst}
use lms_backend.Core.Cache.{AppCache, build_key, get_int}
use lms_backend.Core.Cache.Size.{Call, run, run-IsCache}
use lms_backend.Core.Cache.Reads.{reads, Agree}
use lms_backend.Core.Cache.Refines.{promise, number, run-Agree}
use lms_backend.Core.Cache.Chains.{HasRoom, SameSettings, settings-get_memory, length-get_memory}
use lms_backend.Core.Lockout.{
  Settings, user_key, ip_key, increment_failed_attempts, is_account_locked, check_account_lockout,
}
use lms_backend.Core.Lockout.Locks.{failures, after, increment-failures, locked_by}
use lms_backend.Auth.Tokens.{Outside}
use lms_backend.Auth.Sessions.{Account}
use lms_backend.Auth.Login.{
  Process, Json, LoginDraw, get_by_email, authenticate, try_login, or_count_failure, login,
}

-- What a read leaves, and two of them.
abbrev IsKept : ℕ → ℕ → AppCache → AppCache → Type 0
IsKept free now c c' = HasRoom free c' × SameSettings c c' × Agree now (reads c') (reads c)

get_int-IsKept :
    (free : ℕ) (key : Text) (now : ℕ) (c : AppCache)
    → HasRoom free c
    → IsKept free now c (get_int key now c).1
unfolding get_int run promise build_key
get_int-IsKept free key now c h =
    let settings = settings-get_memory (build_key c key) now c in
    (
      record {
        on = ground (arith, settings, h.on);
        cache = run-IsCache (Call.get_number key) now c h.cache;
        room = ground (arith, length-get_memory (build_key c key) now c, h.room);
      },
      ground (arith, settings, h.on),
      λ k t le.
          run-Agree c (Call.get_number key) now (reads c) h.on h.cache (omega (arith, h.room))
            (λ k t le. refl) k t le,
    )

check-IsKept :
    (o : Settings) (email ip : Text) (free now : ℕ) (c : AppCache)
    → HasRoom free c
    → IsKept free now c (check_account_lockout o email ip now c).1
unfolding check_account_lockout is_account_locked
check-IsKept o email ip free now c h =
    let c' = (get_int (user_key email) now c).1 in
    let (h', (e, f, g), agree) = get_int-IsKept free (user_key email) now c h in
    let (h'', (e', f', g'), agree') = get_int-IsKept free (ip_key ip) now c' h' in
    (h'', (e' ∙ e, f' ∙ f, g' ∙ g), λ k t le. agree' k t le ∙ agree k t le)

failures-kept :
    (key : Text) (free now t : ℕ) (c c' : AppCache)
    → IsKept free now c c'
    → now ≤ t
    → failures key c' t ≡ failures key c t
unfolding build_key
failures-kept key free now t c c' (room, same, agree) le =
    ap (λ p. number (reads c' (p ++ 58 ∷ key) t)) same.1 ∙ ap number (agree _ t le)

-- A login with this address: what it takes from outside, the password and the client.
pub record Attempt : Type 0 where
  pub draw : LoginDraw
  pub password : Text
  pub ip_address : Text

-- No account of this address has this password.
abbrev pub IsWrong : Outside → Text → Text → List Account → Type 0
IsWrong o email password accounts =
    (user : Account)
    → get_by_email email accounts ≡ some user
    → o.verify_password password user.password_hash ≡ false

failed_login :
    (o : Outside) (settings : Settings) (j : Json) (d : LoginDraw) (email password ip : Text)
    (p : Process)
    → IsWrong o email password p.store.accounts
    → (login o settings j d email password ip p).0 ≡ err (value_error "Invalid email or password")
    → (login o settings j d email password ip p).1 ≡ record p {
      cache =
          (increment_failed_attempts settings email ip d.failed_at
            (check_account_lockout settings email ip d.checked_at p.cache).1).1;
    }
unfolding login or_count_failure try_login authenticate check_account_lockout
failed_login o settings j d email password ip p wrong h =
    elim (Bool-cases (is_account_locked settings email ip d.checked_at p.cache).0) [
      | inl locked ↦ absurd (ground arith)
      | inr free ↦ elim (Option-cases (get_by_email email p.store.accounts)) [
        | inl n ↦ ground arith
        | inr (user, f) ↦ ground (arith, wrong user f)
      ]
    ]

module _ (o : Outside) (settings : Settings) (j : Json) (email : Text) where
  -- The logins one after another.
  unfoldable pub log_in_all : List Attempt → Process → Process
  log_in_all [] p = p
  log_in_all (a ∷ attempts) p =
      log_in_all attempts (login o settings j a.draw email a.password a.ip_address p).1

  -- Each of the logins has a wrong password and was refused for it.
  unfoldable pub HaveFailed : List Attempt → Process → Type 0
  HaveFailed [] p = Unit
  HaveFailed (a ∷ attempts) p =
      IsWrong o email a.password p.store.accounts
      × ((login o settings j a.draw email a.password a.ip_address p).0
          ≡ err (value_error "Invalid email or password"))
      × HaveFailed attempts (login o settings j a.draw email a.password a.ip_address p).1

-- Each login fails after it has checked, and before the lockout after the failure before it is over; so does the
-- time in question come.
abbrev pub IsPaced : Settings → ℕ → List Attempt → ℕ → Type 0
IsPaced o last [] t = (last ≤ t) × (t < last + max 1 o.lockout_duration)
IsPaced o last (a ∷ attempts) t =
    (a.draw.checked_at ≤ a.draw.failed_at)
    × (last ≤ a.draw.failed_at)
    × (a.draw.failed_at < last + max 1 o.lockout_duration)
    × IsPaced o a.draw.failed_at attempts t

-- So many failures count against the account in the lockout after this time.
abbrev HasFailures : Settings → Text → ℕ → ℕ → AppCache → Type 0
HasFailures o email last n c =
    (s : ℕ) → last ≤ s → s < last + max 1 o.lockout_duration → n ≤ failures (user_key email) c s

-- A failure on a cache that was checked.
one_more :
    (o : Settings) (email ip : Text) (checked failed last n free : ℕ) (c : AppCache)
    → HasRoom (4 + free) c
    → 1 ≤ c.default_ttl_seconds
    → checked ≤ failed
    → last ≤ failed
    → failed < last + max 1 o.lockout_duration
    → HasFailures o email last n c
    → let c' =
        (increment_failed_attempts o email ip failed
          (check_account_lockout o email ip checked c).1).1 in
      HasRoom free c' × (1 ≤ c'.default_ttl_seconds) × HasFailures o email failed (suc n) c'
one_more o email ip checked failed last n free c room ttl le lo hi before =
    let c1 = (check_account_lockout o email ip checked c).1 in
    let kept = check-IsKept o email ip (4 + free) checked c room in
    let ttl' : 1 ≤ c1.default_ttl_seconds = subst (λ m. 1 ≤ m) (sym kept.1.2) ttl in
    let (room', same, agree) = after o email ip failed c1 free kept.0 ttl' in
    (
      room',
      subst (λ m. 1 ≤ m) (sym same.2) ttl',
      λ s ge lt. omega (
        arith,
        (increment-failures o email ip failed c1 free kept.0 ttl' s ge lt).0,
        failures-kept (user_key email) (4 + free) checked failed c c1 kept le,
        before failed lo hi,
      ),
    )

module _ (o : Outside) (settings : Settings) (j : Json) (email : Text) where
  failures_add :
      (attempts : List Attempt) (last t n : ℕ) (p : Process)
      → HasRoom (4 * length attempts) p.cache
      → 1 ≤ p.cache.default_ttl_seconds
      → IsPaced settings last attempts t
      → HaveFailed o settings j email attempts p
      → HasFailures settings email last n p.cache
      → let q = log_in_all o settings j email attempts p in
        (length attempts + n ≤ failures (user_key email) q.cache t)
        × HasRoom 0 q.cache
        × (q.store ≡ p.store)
  unfolding log_in_all HaveFailed
  failures_add [] last t n p room ttl paced failed before =
      (omega (arith, before t paced.0 paced.1), room, refl)
  failures_add (a ∷ attempts) last t n p room ttl (le, lo, hi, paced) (wrong, refused, failed)
        before =
      let next = (login o settings j a.draw email a.password a.ip_address p).1 in
      let is_next =
        failed_login o settings j a.draw email a.password a.ip_address p wrong refused in
      let (room', ttl', more) =
        one_more settings email a.ip_address a.draw.checked_at a.draw.failed_at last n
          (4 * length attempts) p.cache (subst (λ m. HasRoom m p.cache) (omega arith) room) ttl le
          lo hi before in
      let same = ap (λ q. q.cache) is_next in
      let (count, left, stored) =
        failures_add attempts a.draw.failed_at t (suc n) next
          (subst (HasRoom (4 * length attempts)) (sym same) room')
          (subst (λ c. 1 ≤ c.default_ttl_seconds) (sym same) ttl') paced failed
          (subst (HasFailures settings email a.draw.failed_at (suc n)) (sym same) more) in
      (omega (arith, count), left, stored ∙ ap (λ q. q.store) is_next)

  -- After as many logins with wrong passwords for an address as the lockout allows, from any clients, each refused
  -- for its password, counted no earlier than it was checked, and counted before the lockout after the one before
  -- it is over, a login with this address is refused until the lockout after the last one is over, whatever the
  -- password and the client, and the store is as it was before them all. The cache is enabled, has room for four
  -- entries per login and one more, and keeps an entry for a second at least.
  pub login-locked :
      (a : Attempt) (attempts : List Attempt) (d : LoginDraw) (password ip : Text) (p : Process)
      → HasRoom (4 * length (a ∷ attempts)) p.cache
      → 1 ≤ p.cache.default_ttl_seconds
      → a.draw.checked_at ≤ a.draw.failed_at
      → IsPaced settings a.draw.failed_at attempts d.checked_at
      → HaveFailed o settings j email (a ∷ attempts) p
      → settings.max_failed_login_attempts ≤ length (a ∷ attempts)
      → let q = log_in_all o settings j email (a ∷ attempts) p in
        let (r, q') = login o settings j d email password ip q in
        (r
          ≡ err (
              unauthorized
                "Account temporarily locked due to multiple failed login attempts. Please try again later."))
        × (q'.store ≡ p.store)
  unfolding login
  login-locked a attempts d password ip p room ttl le paced failed enough =
      let q = log_in_all o settings j email (a ∷ attempts) p in
      let (many, left, stored) =
        failures_add (a ∷ attempts) a.draw.failed_at d.checked_at 0 p room ttl
          (le, omega arith, omega arith, paced) failed (λ s ge lt. omega arith) in
      let refused =
        locked_by settings email ip d.checked_at q.cache left (omega (arith, many, enough)) in
      ground (arith, refused, stored)
