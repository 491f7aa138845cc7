-- ===== src/Auth/Sessions/Reset.antt =====
-- A password reset ends all sessions of the user.
use lms_backend.Base.{
  ℕ, ◌≡◌, ◌≢◌, ap, sym, ◌∙◌, Text, codes, true, false, Option, some, List, [], ◌∷◌, arith, ok, ◌==◌,
  find, inl, inr, Option-cases, find_passes,
}
use lms_backend.Auth.Tokens.{Outside, Payload, decode_token}
use lms_backend.Auth.Sessions.{
  RefreshToken, Store, Draw, TokenResponse, open_with, revoke_all, refresh_tokens, reset_password,
  parse_user_id, get_user, commit,
}
use lms_backend.Auth.Sessions.Once.{IsRefresh-cases, payload-decode}

-- An open row that is left belongs to another user.
open_left :
    (jti : Text) (user_id now : ℕ) (rows : List RefreshToken) {row : RefreshToken}
    → find (open_with jti) (revoke_all user_id now rows) ≡ some row
    → row.user_id ≢ user_id
unfolding revoke_all open_with
open_left jti user_id now [] h = λ e. cc
open_left jti user_id now (r ∷ rows) {row} h =
    λ e. ground (arith, open_left jti user_id now rows {row = row})

tokens-reset :
    (o : Outside) (d : Draw) (token new_password : Text) (s : Store) {p : Payload} {user_id : ℕ}
    → (reset_password o d token new_password s).0 ≡ ok tt
    → (decode_token o token (some (codes "password_reset")) false d.refresh_clock s.blacklist).0
      ≡ ok p
    → parse_user_id o p.sub "Malformed password reset token" ≡ ok user_id
    → (reset_password o d token new_password s).1.tokens ≡ revoke_all user_id d.now s.tokens
unfolding reset_password get_user commit
tokens-reset o d token new_password s {p} {user_id} h e u =
    elim (Option-cases (find (λ a. a.id == user_id) s.accounts)) [
      | inl n ↦ absurd (ground arith)
      | inr (user, g) ↦ ground (arith, find_passes (λ a. a.id == user_id) s.accounts {a = user} g)
    ]

-- After a password reset that went through, no call with a refresh token of the same user gives new
-- tokens.
pub reset_ends_sessions :
    (o : Outside) (d d' : Draw) (token new_password refresh : Text) (previous : Option Text)
    (s : Store) (p p' : Payload) (user_id : ℕ) {r : TokenResponse}
    → (reset_password o d token new_password s).0 ≡ ok tt
    → (decode_token o token (some (codes "password_reset")) false d.refresh_clock s.blacklist).0
      ≡ ok p
    → parse_user_id o p.sub "Malformed password reset token" ≡ ok user_id
    → o.decode d'.refresh_clock.verify refresh ≡ some p'
    → parse_user_id o p'.sub "Malformed refresh token" ≡ ok user_id
    → (refresh_tokens o d' refresh previous (reset_password o d token new_password s).1).0 ≢ ok r
reset_ends_sessions o d d' token new_password refresh previous s p p' user_id reset e u e' u' h =
    let t = (reset_password o d token new_password s).1 in
    let c = IsRefresh-cases o d' refresh previous t h in
    let read =
      payload-decode o refresh (codes "refresh") true d'.refresh_clock t.blacklist c.decoded in
    let same : some p' ≡ some c.payload = sym e' ∙ read in
    let left = open_left c.jti user_id d.now s.tokens {row = c.row} (
      ap (λ rows. find (open_with c.jti) rows)
        (sym (tokens-reset o d token new_password s reset e u))
      ∙ c.found) in
    ground (arith, left, same, c.of_user, c.same_user)
