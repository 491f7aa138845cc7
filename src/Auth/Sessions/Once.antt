-- ===== src/Auth/Sessions/Once.antt =====
-- A refresh token that was used or whose user reset the password is of no more use.
use lms_backend.Base.{
  ℕ, ◌*◌, ◌≡◌, ◌≢◌, refl, Text, codes, text_eq, text_eq_iff, Bool, true, false, Option, none, some,
  List, [], ◌∷◌, ◌++◌, arith, ok, ◌==◌, find, any, inl, inr, sym, ap, ◌∙◌, Option-cases,
  Result-cases, Bool-cases,
}
use lms_backend.Auth.Tokens.{
  Clock, Blacklist, check_access, not_revoked, second, create_refresh_token, Outside, Payload,
  decode_token,
}
use lms_backend.Auth.Sessions.{
  Account, replace_token, revoke_token, commit, ensure_access_token_matches_user, get_user,
  RefreshToken, Store, Draw, TokenResponse, has_jti, open_with, get_valid_refresh_token, revoke_row,
  refresh_tokens, issue_tokens, insert_token, retire_access_token, parse_user_id,
}

-- A row has the identifier, and no open row has it.
record IsSpent (jti : Text) (rows : List RefreshToken) : Type 0 where
  listed : any (has_jti jti) rows ≡ true
  closed : find (open_with jti) rows ≡ none

-- The constraint on `token_jti`.
abbrev pub UniqueJti : List RefreshToken → Type 0
UniqueJti [] = Unit
UniqueJti (row ∷ rows) = (any (has_jti row.token_jti) rows ≡ false) × UniqueJti rows

closed_none :
    (jti : Text) (id now : ℕ) (rows : List RefreshToken)
    → any (has_jti jti) rows ≡ false
    → find (open_with jti) (revoke_row id now rows) ≡ none
unfolding revoke_row open_with has_jti
closed_none jti id now [] h = refl
closed_none jti id now (r ∷ rows) h = ground (arith, closed_none jti id now rows)

listed-revoke_row :
    (jti : Text) (id now : ℕ) (rows : List RefreshToken)
    → any (has_jti jti) (revoke_row id now rows) ≡ any (has_jti jti) rows
unfolding revoke_row has_jti
listed-revoke_row jti id now [] = refl
listed-revoke_row jti id now (r ∷ rows) = ground (arith, listed-revoke_row jti id now rows)

find_listed :
    (jti : Text) (rows : List RefreshToken) {row : RefreshToken}
    → find (open_with jti) rows ≡ some row
    → any (has_jti jti) rows ≡ true
unfolding open_with has_jti
find_listed jti [] h = cc
find_listed jti (r ∷ rows) {row} h = ground (arith, find_listed jti rows {row = row})

find_revoked :
    (jti : Text) (now : ℕ) (rows : List RefreshToken) {row : RefreshToken}
    → UniqueJti rows
    → find (open_with jti) rows ≡ some row
    → find (open_with jti) (revoke_row row.id now rows) ≡ none
unfolding revoke_row open_with has_jti
find_revoked jti now [] u h = cc
find_revoked jti now (r ∷ rows) {row} u h = ground (
  arith,
  find_revoked jti now rows {row = row},
  closed_none jti row.id now rows,
  find_listed jti rows {row = row},
  text_eq_iff r.token_jti jti,
)

-- A row with another identifier, added behind, changes nothing.
find_append :
    (jti : Text) (new : RefreshToken) (rows : List RefreshToken)
    → text_eq new.token_jti jti ≡ false
    → find (open_with jti) rows ≡ none
    → find (open_with jti) (rows ++ new ∷ []) ≡ none
unfolding open_with has_jti
find_append jti new [] d h = ground arith
find_append jti new (r ∷ rows) d h = ground (arith, find_append jti new rows)

differs :
    (jti : Text) (new : RefreshToken) (rows : List RefreshToken)
    → any (has_jti jti) rows ≡ true
    → any (has_jti new.token_jti) rows ≡ false
    → text_eq new.token_jti jti ≡ false
unfolding has_jti
differs jti new rows h n = elim (Bool-cases (text_eq new.token_jti jti)) [
  | inr e ↦ e
  | inl e ↦ absurd (clash ((text_eq_iff new.token_jti jti).0 e))
]
  where
    clash : new.token_jti ≡ jti → ⊥
    clash same = ground (arith, ap (λ j. any (has_jti j) rows) same)

spent_after :
    (jti : Text) (now : ℕ) (new : RefreshToken) (rows : List RefreshToken) {row : RefreshToken}
    → UniqueJti rows
    → find (open_with jti) rows ≡ some row
    → any (has_jti new.token_jti) (revoke_row row.id now rows) ≡ false
    → find (open_with jti) (revoke_row row.id now rows ++ new ∷ []) ≡ none
spent_after jti now new rows {row} u f n =
    let listed = listed-revoke_row jti row.id now rows ∙ find_listed jti rows f in
    find_append jti new (revoke_row row.id now rows)
      (differs jti new (revoke_row row.id now rows) listed n) (find_revoked jti now rows u f)

tokens-issue :
    (o : Outside) (d : Draw) (user_id : ℕ) (role : Text) (s : Store) {r : TokenResponse}
    → (issue_tokens o d user_id role s).0 ≡ ok r
    → (new : RefreshToken) × ((issue_tokens o d user_id role s).1.tokens ≡ s.tokens ++ new ∷ [])
      × (any (has_jti new.token_jti) s.tokens ≡ false)
unfolding issue_tokens insert_token
tokens-issue o d user_id role s h =
    let refresh = create_refresh_token o d.refresh_jti d.refresh_now (o.show_id user_id) in
    elim (Result-cases
      (decode_token o refresh (some (codes "refresh")) true d.issued_clock s.blacklist).0) [
        | inr (c, e) ↦ absurd (ground arith)
        | inl (p, e) ↦ elim (Option-cases p.jti) [
          | inl n ↦ absurd (ground arith)
          | inr (jti, j) ↦ elim (Option-cases p.exp) [
            | inl n ↦ absurd (ground arith)
            | inr (exp, x) ↦ (
              record {
                id = d.row_id;
                user_id = user_id;
                token_jti = jti;
                expires_at = exp * second;
                revoked_at = none;
              },
              ground arith,
              ground arith,
            )
          ]
        ]
      ]

tokens-retire :
    (o : Outside) (token : Option Text) (d : Draw) (s : Store)
    → (retire_access_token o token d s).1.tokens ≡ s.tokens
unfolding retire_access_token
tokens-retire o none d s = refl
tokens-retire o (some []) d s = refl
tokens-retire o (some (c ∷ token)) d s = refl

tokens-decode :
    (o : Outside) (token expected : Text) (c : Clock) (b : Blacklist)
    → (decode_token o token (some expected) false c b).1 ≡ b
unfolding decode_token check_access not_revoked
tokens-decode o token expected c b = ground arith

tokens-ensure :
    (o : Outside) (token : Option Text) (user_id : ℕ) (c : Clock) (s : Store)
    → (ensure_access_token_matches_user o token user_id c s).1.tokens ≡ s.tokens
unfolding ensure_access_token_matches_user
tokens-ensure o none user_id c s = refl
tokens-ensure o (some []) user_id c s = refl
tokens-ensure o (some (a ∷ token)) user_id c s = ground arith

-- After the rows are replaced, the identifier is spent.
replace-spends :
    (o : Outside) (d : Draw) (row : RefreshToken) (user : Account) (previous : Option Text)
    (jti : Text) (s : Store) {r : TokenResponse}
    → (replace_token o d row user previous s).0 ≡ ok r
    → UniqueJti s.tokens
    → find (open_with jti) s.tokens ≡ some row
    → find (open_with jti) (replace_token o d row user previous s).1.tokens ≡ none
unfolding replace_token revoke_token commit
replace-spends o d row user previous jti s h u f =
    let closed = (revoke_token row d.now s).1 in
    let issued = (issue_tokens o d user.id user.role closed).1 in
    elim (Result-cases (issue_tokens o d user.id user.role closed).0) [
      | inr (c, e) ↦ absurd (ground arith)
      | inl (r, e) ↦
          let (new, added, fresh) = tokens-issue o d user.id user.role closed e in
          ground (
            arith,
            added,
            spent_after jti d.now new s.tokens u f fresh,
            tokens-retire o previous d (record issued {
              committed_accounts = issued.accounts;
              committed_tokens = issued.tokens;
            }),
          )
    ]

-- What a refresh that goes through has done.
pub record IsRefresh (o : Outside) (d : Draw) (token : Text) (s t : Store) : Type 0 where
  pub payload : Payload
  pub jti : Text
  pub user_id : ℕ
  pub row : RefreshToken
  pub decoded :
      (decode_token o token (some (codes "refresh")) true d.refresh_clock s.blacklist).0
      ≡ ok payload
  pub has_id : payload.jti ≡ some jti
  pub of_user : parse_user_id o payload.sub "Malformed refresh token" ≡ ok user_id
  pub found : find (open_with jti) s.tokens ≡ some row
  pub same_user : row.user_id ≡ user_id
  pub spent : UniqueJti s.tokens → find (open_with jti) t.tokens ≡ none

-- The store after the refresh token was decoded.
abbrev after : Outside → Draw → Text → Store → Store
after o d token s = record s {
  blacklist = (decode_token o token (some (codes "refresh")) true d.refresh_clock s.blacklist).1;
}

pub IsRefresh-cases :
    (o : Outside) (d : Draw) (token : Text) (previous : Option Text) (s : Store) {r : TokenResponse}
    → (refresh_tokens o d token previous s).0 ≡ ok r
    → IsRefresh o d token s (refresh_tokens o d token previous s).1
unfolding refresh_tokens get_valid_refresh_token get_user
IsRefresh-cases o d token previous s {r} h =
    elim (Result-cases
      (decode_token o token (some (codes "refresh")) true d.refresh_clock s.blacklist).0) [
        | inr (c, e) ↦ absurd (ground arith)
        | inl (p, e) ↦ elim (Option-cases p.jti) [
          | inl n ↦ absurd (ground arith)
          | inr (jti, j) ↦ elim (Result-cases (parse_user_id o p.sub "Malformed refresh token")) [
            | inr (c, n) ↦ absurd (ground arith)
            | inl (user_id, u) ↦ elim (Option-cases (find (open_with jti) s.tokens)) [
              | inl n ↦ absurd (
                  ground
                    (arith, tokens-ensure o previous user_id d.access_clock (after o d token s)))
              | inr (row, f) ↦ record {
                payload = p;
                jti = jti;
                user_id = user_id;
                row = row;
                decoded = e;
                has_id = j;
                of_user = u;
                found = f;
                same_user =
                    ground
                      (arith, tokens-ensure o previous user_id d.access_clock (after o d token s));
                spent = λ unique.
                    let st =
                      (ensure_access_token_matches_user o previous user_id d.access_clock
                        (after o d token s)).1 in
                    let same =
                      tokens-ensure o previous user_id d.access_clock (after o d token s) in
                    elim (Option-cases (find (λ a. a.id == user_id) st.accounts)) [
                      | inl n ↦ absurd (ground (arith, same))
                      | inr (user, g) ↦
                          let went : (replace_token o d row user previous st).0 ≡ ok r =
                            ground (arith, same) in
                          ground (
                            arith,
                            same,
                            replace-spends o d row user previous jti st went (rw same unique)
                                (rw same f),
                          )
                    ];
              }
            ]
          ]
        ]
      ]

-- `jwt.decode` gives the same claims at any time at which it accepts the token.
abbrev pub IsStable : Outside → Type 0
IsStable o =
    (t t' : ℕ) (token : Text) (p p' : Payload)
    → o.decode t token ≡ some p
    → o.decode t' token ≡ some p'
    → p ≡ p'

pub payload-decode :
    (o : Outside) (token : Text) (expected : Text) (check : Bool) (c : Clock) (b : Blacklist)
    {p : Payload}
    → (decode_token o token (some expected) check c b).0 ≡ ok p
    → o.decode c.verify token ≡ some p
unfolding decode_token
payload-decode o token expected check c b h = ground arith

-- If no two rows have one token identifier and the claims read from a token do not depend on the
-- time, a refresh token gives new tokens at most once: after a call that went through, a second call
-- with the same refresh token does not, at any time and with whatever access token.
pub refresh_tokens_once :
    (o : Outside) (d d' : Draw) (token : Text) (previous previous' : Option Text) (s : Store)
    {r r' : TokenResponse}
    → IsStable o
    → UniqueJti s.tokens
    → (refresh_tokens o d token previous s).0 ≡ ok r
    → (refresh_tokens o d' token previous' (refresh_tokens o d token previous s).1).0 ≢ ok r'
refresh_tokens_once o d d' token previous previous' s stable u h h' =
    let t = (refresh_tokens o d token previous s).1 in
    let first = IsRefresh-cases o d token previous s h in
    let again = IsRefresh-cases o d' token previous' t h' in
    let same : first.payload ≡ again.payload =
      stable d.refresh_clock.verify d'.refresh_clock.verify token first.payload again.payload
        (payload-decode o token (codes "refresh") true d.refresh_clock s.blacklist first.decoded)
        (payload-decode o token (codes "refresh") true d'.refresh_clock t.blacklist
          again.decoded) in
    let same_id : some first.jti ≡ some again.jti =
      sym first.has_id ∙ ap (λ p. p.jti) same ∙ again.has_id in
    ground (arith, same_id, first.spent u, again.found)
