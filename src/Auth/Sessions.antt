-- ===== src/Auth/Sessions.antt =====
-- app/modules/auth/service.py: the sessions that refresh tokens keep. Row locks are not modelled.
pub mod Once
pub mod Reset
use lms_backend.Base.{
  String, ℕ, ◌+◌, ◌*◌, Text, codes, text_eq, Bool, true, false, ◌&&◌, not, Option, none, some, List,
  [], ◌∷◌, ◌++◌, map, Result, ok, err, Error, unauthorized, not_found, integrity_error, key_error,
  Action, ◌>>=◌, ◌>>◌, pure, raise, gets, modify, require, lift, raise_if, leb, ◌==◌, find, any,
  if◌then◌else◌,
}
use lms_backend.Auth.Tokens.{
  second, Outside, Payload, Blacklist, Clock, is_missing, decode_token, create_access_token,
  create_refresh_token, blacklist_access_token,
}

-- app/modules/users/models.py: the columns that this service reads.
pub record Account : Type 0 where
  pub id : ℕ
  pub role : Text
  pub is_active : Bool
  pub password_hash : Text
  pub email : Text
  pub full_name : Text
  pub mfa_enabled : Bool
  pub email_verified_at : Option ℕ
  pub last_login_at : Option ℕ

-- app/modules/auth/models.py; times are in microseconds.
pub record RefreshToken : Type 0 where
  pub id : ℕ
  pub user_id : ℕ
  pub token_jti : Text
  pub expires_at : ℕ
  pub revoked_at : Option ℕ

-- What the session sees, what the database has committed, what it answers to the next commit, and the
-- blacklist of the process.
pub record Store : Type 0 where
  pub accounts : List Account
  pub tokens : List RefreshToken
  pub committed_accounts : List Account
  pub committed_tokens : List RefreshToken
  pub commit_error : Option Error
  pub blacklist : Blacklist

unfoldable pub rollback : Store → Store
rollback s = record s { accounts = s.committed_accounts; tokens = s.committed_tokens }

-- `try: db.commit() except Exception: db.rollback(); raise`
unfoldable pub commit : Action Store (Unit {0})
unfolding rollback
commit s = elim s.commit_error [
  | none ↦ (ok tt, record s { committed_accounts = s.accounts; committed_tokens = s.tokens })
  | some e ↦ (err e, rollback s)
]

-- A step of the blacklist, in the store.
abbrev pub on_blacklist : {A : Type 0} → Action Blacklist A → Action Store A
on_blacklist m s = let (r, b) = m s.blacklist in (r, record s { blacklist = b })

-- `try: ... except UnauthorizedException: pass`
abbrev pub ignore_unauthorized : Action Blacklist (Unit {0}) → Action Blacklist (Unit {0})
ignore_unauthorized m b =
    let (r, b') = m b in
    elim r [
      | ok done ↦ (ok tt, b')
      | err e ↦ elim e [ unauthorized text ↦ (ok tt, b') | other ↦ (err other, b') ]
    ]

-- `try: ... except Exception: self.db.rollback(); raise`
abbrev pub or_rollback : {A : Type 0} → Action Store A → Action Store A
or_rollback m s = let (r, s') = m s in elim r [ ok a ↦ (ok a, s') | err e ↦ (err e, rollback s') ]

abbrev pub is_open : RefreshToken → Bool
is_open row = elim row.revoked_at [ none ↦ true | some t ↦ false ]

unfoldable pub has_jti : Text → RefreshToken → Bool
has_jti jti row = text_eq row.token_jti jti

unfoldable pub open_with : Text → RefreshToken → Bool
unfolding has_jti
open_with jti row = has_jti jti row && is_open row

abbrev unexpired : ℕ → RefreshToken → Option RefreshToken
unexpired now row = if leb row.expires_at now then none else some row

-- `_get_valid_refresh_token`
unfoldable pub get_valid_refresh_token : Text → ℕ → List RefreshToken → Option RefreshToken
unfolding open_with
get_valid_refresh_token jti now rows = elim (find (open_with jti) rows) [
  | none ↦ none
  | some row ↦ unexpired now row
]

-- The row with this identifier, revoked at this time.
unfoldable pub revoke_row : ℕ → ℕ → List RefreshToken → List RefreshToken
revoke_row id now [] = []
revoke_row id now (row ∷ rows) =
    let rest = revoke_row id now rows in
    if row.id == id then record row { revoked_at = some now } ∷ rest else row ∷ rest

unfoldable pub revoke_token : RefreshToken → ℕ → Action Store (Unit {0})
unfolding revoke_row
revoke_token row now = modify (λ s. record s { tokens = revoke_row row.id now s.tokens })

abbrev parsed : Option ℕ → String → Result ℕ
parsed none message = err (unauthorized message)
parsed (some id) message = ok id

-- `_parse_user_id`
unfoldable pub parse_user_id : Outside → Option Text → String → Result ℕ
parse_user_id o none message = err (unauthorized message)
parse_user_id o (some []) message = err (unauthorized message)
parse_user_id o (some (c ∷ sub)) message = parsed (o.parse_id (c ∷ sub)) message

-- `_ensure_access_token_matches_user`, for a token that may be missing or empty.
unfoldable pub ensure_access_token_matches_user :
    Outside → Option Text → ℕ → Clock → Action Store (Unit {0})
ensure_access_token_matches_user o none user_id c = pure tt
ensure_access_token_matches_user o (some []) user_id c = pure tt
ensure_access_token_matches_user o (some (a ∷ token)) user_id c = do
  p ← on_blacklist (decode_token o (a ∷ token) (some (codes "access")) false c)
  id ← lift (parse_user_id o p.sub "Malformed access token")
  raise_if (not (id == user_id)) (unauthorized "Access token does not match refresh token")

-- `user_service.get_user`
unfoldable pub get_user : ℕ → Action Store Account
get_user user_id = do
  accounts ← gets (λ s. s.accounts)
  require (find (λ a. a.id == user_id) accounts) (not_found "User not found")

pub record TokenResponse : Type 0 where
  pub access_token : Text
  pub refresh_token : Text
  pub expires_in : ℕ

-- What a call takes from outside: identifiers for the row and the two tokens, and the readings of the
-- clock, in the order of the source.
pub record Draw : Type 0 where
  pub row_id : ℕ
  pub access_jti : Text
  pub refresh_jti : Text
  pub refresh_clock : Clock
  pub access_clock : Clock
  pub valid_now : ℕ
  pub now : ℕ
  pub access_now : ℕ
  pub refresh_now : ℕ
  pub issued_clock : Clock
  pub blacklist_clock : Clock
  pub revoke_now : ℕ
  pub revoke_later : ℕ

-- The flush meets the unique constraint on `token_jti`.
unfoldable pub insert_token : RefreshToken → Action Store (Unit {0})
unfolding has_jti
insert_token row = do
  rows ← gets (λ s. s.tokens)
  raise_if (any (has_jti row.token_jti) rows) integrity_error
  modify (λ s. record s { tokens = s.tokens ++ row ∷ [] })

-- `_issue_tokens`
unfoldable pub issue_tokens : Outside → Draw → ℕ → Text → Action Store TokenResponse
issue_tokens o d user_id role = do
  let access = create_access_token o d.access_jti d.access_now (o.show_id user_id) role
  let refresh = create_refresh_token o d.refresh_jti d.refresh_now (o.show_id user_id)
  p ← on_blacklist (decode_token o refresh (some (codes "refresh")) true d.issued_clock)
  jti ← require p.jti key_error
  exp ← require p.exp key_error
  insert_token (record {
    id = d.row_id;
    user_id = user_id;
    token_jti = jti;
    expires_at = exp * second;
    revoked_at = none;
  })
  pure (record {
    access_token = access;
    refresh_token = refresh;
    expires_in = o.access_minutes * 60;
  })

-- The access token of the session that ends is blacklisted if it can be.
unfoldable pub retire_access_token : Outside → Option Text → Draw → Action Store (Unit {0})
retire_access_token o none d = pure tt
retire_access_token o (some []) d = pure tt
retire_access_token o (some (c ∷ token)) d = on_blacklist (
    ignore_unauthorized
      (blacklist_access_token o (c ∷ token) d.blacklist_clock d.revoke_now d.revoke_later))

-- The end of `refresh_tokens`: the row is revoked, and a new pair of tokens issued.
unfoldable pub replace_token :
    Outside → Draw → RefreshToken → Account → Option Text → Action Store TokenResponse
replace_token o d row user previous = do
  revoke_token row d.now
  issued ← or_rollback (issue_tokens o d user.id user.role >>= λ r. commit >> pure r)
  retire_access_token o previous d
  pure issued

-- `refresh_tokens`
unfoldable pub refresh_tokens : Outside → Draw → Text → Option Text → Action Store TokenResponse
refresh_tokens o d token previous = do
  p ← on_blacklist (decode_token o token (some (codes "refresh")) true d.refresh_clock)
  raise_if (is_missing p.jti) (unauthorized "Malformed refresh token")
  jti ← require p.jti (unauthorized "Malformed refresh token")
  user_id ← lift (parse_user_id o p.sub "Malformed refresh token")
  ensure_access_token_matches_user o previous user_id d.access_clock
  rows ← gets (λ s. s.tokens)
  row ←
      require (get_valid_refresh_token jti d.valid_now rows)
        (unauthorized "Refresh token is invalid or revoked")
  raise_if (not (row.user_id == user_id)) (unauthorized "Malformed refresh token")
  user ← get_user user_id
  raise_if (not user.is_active) (unauthorized "User is inactive")
  replace_token o d row user previous

unfoldable pub revoke_own : Option RefreshToken → ℕ → ℕ → Action Store (Unit {0})
revoke_own none user_id now = pure tt
revoke_own (some row) user_id now =
    raise_if (not (row.user_id == user_id)) (unauthorized "Malformed refresh token")
    >> revoke_token row now
    >> commit

-- `logout`
unfoldable pub logout : Outside → Draw → Text → Option Text → Action Store (Unit {0})
logout o d token access = do
  p ← on_blacklist (decode_token o token (some (codes "refresh")) true d.refresh_clock)
  raise_if (is_missing p.jti) (unauthorized "Malformed refresh token")
  jti ← require p.jti (unauthorized "Malformed refresh token")
  user_id ← lift (parse_user_id o p.sub "Malformed refresh token")
  ensure_access_token_matches_user o access user_id d.access_clock
  rows ← gets (λ s. s.tokens)
  revoke_own (get_valid_refresh_token jti d.valid_now rows) user_id d.now
  retire_access_token o access d

unfoldable pub revoke_all : ℕ → ℕ → List RefreshToken → List RefreshToken
revoke_all user_id now [] = []
revoke_all user_id now (row ∷ rows) =
    let rest = revoke_all user_id now rows in
    if (row.user_id == user_id) && is_open row
    then record row { revoked_at = some now } ∷ rest
    else row ∷ rest

unfoldable pub set_password : ℕ → Text → List Account → List Account
set_password user_id hash [] = []
set_password user_id hash (a ∷ accounts) =
    let rest = set_password user_id hash accounts in
    if a.id == user_id then record a { password_hash = hash } ∷ rest else a ∷ rest

-- `reset_password`
unfoldable pub reset_password : Outside → Draw → Text → Text → Action Store (Unit {0})
reset_password o d token new_password = do
  p ← on_blacklist (decode_token o token (some (codes "password_reset")) false d.refresh_clock)
  user_id ← lift (parse_user_id o p.sub "Malformed password reset token")
  user ← get_user user_id
  raise_if (not user.is_active) (unauthorized "User is inactive")
  modify (λ s. record s {
    accounts = set_password user.id (o.hash_password new_password) s.accounts;
    tokens = revoke_all user.id d.now s.tokens;
  })
  commit
