-- ===== src/Auth/Login/Factor.antt =====
-- The second factor: what an accepted code was compared with, and that a challenge is used up by it.
use lms_backend.Base.{
  ℕ, ◌≡◌, ◌≢◌, refl, Text, codes, text_eq, starts_with, true, false, not, Option, none, some, [],
  ◌∷◌, ok, arith, inl, inr, keep, Option-cases, Result-cases, Bool-cases, text_eq_iff,
}
use lms_backend.Base.Strip.{strip}
use lms_backend.Base.Dict.{lookup}
use lms_backend.Base.Eq.{list_eq}
use lms_backend.Core.Cache.{AppCache, Memory, build_key, get_json, get_memory, delete_by_prefix}
use lms_backend.Auth.Tokens.{Outside, Payload, decode_token}
use lms_backend.Auth.Sessions.{Account, TokenResponse, parse_user_id}
use lms_backend.Auth.Sessions.Once.{IsStable, payload-decode}
use lms_backend.Auth.Login.{
  Process, Challenge, Json, LoginDraw, check_code, compare_digest, or_empty, mfa_login_cache_key,
  read_challenge, answer_challenge, verify_mfa_login,
}

starts_with_self : (s : Text) → starts_with s s ≡ true
starts_with_self [] = refl
starts_with_self (c ∷ s) = ground (arith, starts_with_self s)

lookup_gone :
    (key : Text) (memory : Memory)
    → lookup key (keep (λ x. not (starts_with key x.0)) memory) ≡ none
unfolding lookup
lookup_gone key [] = refl
lookup_gone key ((k, item) ∷ memory) = elim (Bool-cases (starts_with key k)) [
  | inl y ↦ rw y (lookup_gone key memory)
  | inr n ↦ elim (Bool-cases (text_eq k key)) [
    | inr o ↦ ground (arith, lookup_gone key memory)
    | inl e ↦ absurd (ground (arith, text_eq_iff k key, starts_with_self key))
  ]
]

-- Nothing is read under a key that `delete_by_prefix` has removed.
get_json-delete_by_prefix :
    {V : Type 0} (loads : Text → Option V) (key : Text) (now : ℕ) (c : AppCache)
    → (get_json loads key now (delete_by_prefix key c)).0 ≡ none
unfolding get_json get_memory delete_by_prefix build_key
get_json-delete_by_prefix loads key now c = elim (Bool-cases c.enabled) [
  | inr off ↦ ground arith
  | inl on ↦ ground (arith, lookup_gone (build_key c key) c.memory)
]

-- What a call that returns has compared: the cache held a challenge for this user and this code.
abbrev pub IsAnswered : Outside → Json → LoginDraw → Text → ℕ → Text → AppCache → Type 0
IsAnswered o j d jti user_id code cache =
    (c : Challenge) × (expected : Text) × ((get_json j.loads (mfa_login_cache_key jti) d.cached_at
        cache).0
      ≡ some c)
    × (or_empty c.user_id ≡ o.show_id user_id)
    × (c.code ≡ some expected)
    × (compare_digest expected (strip code) ≡ ok true)

answer-IsAnswered :
    (o : Outside) (j : Json) (d : LoginDraw) (jti : Text) (user_id : ℕ) (code : Text) (p : Process)
    {r : Account × TokenResponse}
    → (answer_challenge o j d jti user_id code p).0 ≡ ok r
    → IsAnswered o j d jti user_id code p.cache
      × ((t : ℕ)
          → (get_json j.loads
              (mfa_login_cache_key jti)
              t
              (answer_challenge o j d jti user_id code p).1.cache).0
            ≡ none)
unfolding answer_challenge check_code
answer-IsAnswered o j d jti user_id code p h =
    elim (Option-cases (get_json j.loads (mfa_login_cache_key jti) d.cached_at p.cache).0) [
      | inl n ↦ absurd (ground arith)
      | inr (c, f) ↦ elim (Bool-cases (text_eq (or_empty c.user_id) (o.show_id user_id))) [
        | inr n ↦ absurd (ground arith)
        | inl u ↦ elim (Option-cases c.code) [
          | inl n ↦ absurd (ground arith)
          | inr (expected, e) ↦ elim (Result-cases (compare_digest expected (strip code))) [
            | inr (x, n) ↦ absurd (ground arith)
            | inl (same, m) ↦ elim (Bool-cases same) [
              | inr n ↦ absurd (ground arith)
              | inl y ↦ (
                (
                  c,
                  expected,
                  f,
                  ground (arith, text_eq_iff (or_empty c.user_id) (o.show_id user_id)),
                  e,
                  ground arith,
                ),
                λ t.
                    let left : (answer_challenge o j d jti user_id code p).1.cache
                        ≡ delete_by_prefix (mfa_login_cache_key jti)
                            (get_json j.loads (mfa_login_cache_key jti) d.cached_at p.cache).1 =
                      ground arith in
                    rw left (
                      get_json-delete_by_prefix j.loads (mfa_login_cache_key jti) t
                        (get_json j.loads (mfa_login_cache_key jti) d.cached_at p.cache).1),
              )
            ]
          ]
        ]
      ]
    ]

-- What `read_challenge` returns stands in the token, and it leaves the cache.
read_challenge-decode :
    (o : Outside) (d : LoginDraw) (token : Text) (p : Process) {jti : Text} {user_id : ℕ}
    → (read_challenge o d token p).0 ≡ ok (jti, user_id)
    → ((payload : Payload) × (o.decode d.challenge_clock.verify token ≡ some payload)
        × (payload.jti ≡ some jti))
      × ((read_challenge o d token p).1.cache ≡ p.cache)
unfolding read_challenge
read_challenge-decode o d token p {jti} {user_id} h =
    elim (Result-cases
      (decode_token o token (some (codes "mfa_challenge")) false d.challenge_clock
        p.store.blacklist).0) [
          | inr (x, e) ↦ absurd (ground arith)
          | inl (payload, e) ↦ elim (Option-cases payload.jti) [
            | inl n ↦ absurd (ground arith)
            | inr (k, f) ↦
                elim (Result-cases (parse_user_id o payload.sub "Malformed MFA challenge token")) [
                  | inr (x, n) ↦ absurd (ground arith)
                  | inl (id, u) ↦ (
                    (
                      payload,
                      payload-decode o token (codes "mfa_challenge") false d.challenge_clock
                          p.store.blacklist e,
                      ground arith,
                    ),
                    ground arith,
                  )
                ]
          ]
        ]

-- A second factor is used up: if the claims read from a token do not depend on the time, then after a call that
-- returned, no call with the same challenge token returns, at any time and with whatever code.
pub verify_mfa_login_once :
    (o : Outside) (j : Json) (d d' : LoginDraw) (token code code' : Text) (p : Process)
    {r r' : Account × TokenResponse}
    → IsStable o
    → (verify_mfa_login o j d token code p).0 ≡ ok r
    → (verify_mfa_login o j d' token code' (verify_mfa_login o j d token code p).1).0 ≢ ok r'
unfolding verify_mfa_login
verify_mfa_login_once o j d d' token code code' p {r} {r'} stable h h' =
    let q = (verify_mfa_login o j d token code p).1 in
    elim (Result-cases (read_challenge o d token p).0) [
      | inr (x, e) ↦ absurd (ground arith)
      | inl ((jti, user_id), e) ↦ elim (Result-cases (read_challenge o d' token q).0) [
        | inr (x, e') ↦ absurd (ground arith)
        | inl ((jti', user_id'), e') ↦
            let ((first, f, k), same) = read_challenge-decode o d token p e in
            let ((again, f', k'), same') = read_challenge-decode o d' token q e' in
            let one : first ≡ again =
              stable d.challenge_clock.verify d'.challenge_clock.verify token first again f f' in
            let one_jti : jti ≡ jti' = ground arith in
            let m = (read_challenge o d token p).1 in
            let m' = (read_challenge o d' token q).1 in
            let went : (answer_challenge o j d jti user_id code m).0 ≡ ok r = ground arith in
            let went' : (answer_challenge o j d' jti' user_id' code' m').0 ≡ ok r' = ground arith in
            let left : q.cache ≡ (answer_challenge o j d jti user_id code m).1.cache =
              ground arith in
            let gone = (answer-IsAnswered o j d jti user_id code m went).1 d'.cached_at in
            let found = (answer-IsAnswered o j d' jti' user_id' code' m' went').0.2 in
            ground (arith, one_jti, same', left, gone, found)
      ]
    ]
