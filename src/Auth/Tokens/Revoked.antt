-- ===== src/Auth/Tokens/Revoked.antt =====
-- How long a revoked token stays revoked.
use lms_backend.Base.{
  ℕ, ◌+◌, ◌-◌, Bool-cases, inl, inr, ◌≡◌, ◌≢◌, ok, codes, ◌≤◌, ◌<◌, Text, text_eq, text_eq_iff,
  true, some, [], ◌∷◌, arith, ltb, ltb_iff,
}
use lms_backend.Base.Eq.{list_eq}
use lms_backend.Base.Dict.{Dict, lookup, lookup-insert, lookup-erase}
use lms_backend.Auth.Tokens.{
  Outside, Payload, Clock, decode_token, Blacklist, revoke, is_revoked, cleanup_memory,
  still_revoked,
}

-- The identifier is listed until `exp` at least.
record Holds (jti : Text) (exp : ℕ) (b : Blacklist) : Type 0 where
  on : b.enabled ≡ true
  until : (t : ℕ) × (lookup jti b.memory ≡ some t) × (exp ≤ t)

lookup-cleanup_memory :
    (jti : Text) (now t : ℕ) (d : Dict Text ℕ)
    → lookup jti d ≡ some t
    → now < t
    → lookup jti (cleanup_memory now d) ≡ some t
unfolding lookup cleanup_memory
lookup-cleanup_memory jti now t [] h n = cc
lookup-cleanup_memory jti now t ((j, u) ∷ d) h n = ground (arith, lookup-cleanup_memory jti now t d)

-- A history of the blacklist since the identifier was revoked, with the time of the last call; the times
-- do not go back, and a token that is revoked again still expires at the same time.
pub data Since (jti : Text) (exp : ℕ) : Blacklist → ℕ → Type 0 where
  revoked :
      (b : Blacklist) (now later : ℕ)
      → b.enabled ≡ true
      → now < exp
      → now ≤ later
      → Since jti exp (revoke jti exp now later b) later
  revoked_more :
      {b : Blacklist} {last : ℕ} (other : Text) (other_exp now later : ℕ)
      → Since jti exp b last
      → last ≤ now
      → now ≤ later
      → (other ≡ jti → other_exp ≡ exp)
      → Since jti exp (revoke other other_exp now later b) later
  asked :
      {b : Blacklist} {last : ℕ} (other : Text) (now later : ℕ)
      → Since jti exp b last
      → last ≤ now
      → now ≤ later
      → Since jti exp (is_revoked other now later b).1 later

Holds-revoke :
    (jti : Text) (exp : ℕ) (other : Text) (other_exp now later : ℕ) (b : Blacklist)
    → Holds jti exp b
    → now ≤ later
    → (other ≡ jti → other_exp ≡ exp)
    → Holds jti exp (revoke other other_exp now later b)
unfolding revoke
Holds-revoke jti exp other oe now later b h n same = record {
  on = ground (arith, h.on);
  until = elim (Bool-cases (ltb now oe)) [
    | inr past ↦ (h.until.0, ground arith, h.until.2)
    | inl ahead ↦ elim (Bool-cases (text_eq other jti)) [
      | inl is_jti ↦ (
        later + (oe - now),
        ground (
          arith,
          h.on,
          lookup-insert other jti (later + (oe - now)) b.memory,
          same ((text_eq_iff other jti).0 is_jti),
        ),
        omega (arith, same ((text_eq_iff other jti).0 is_jti), (ltb_iff now oe).0 ahead),
      )
      | inr differs ↦ (
        h.until.0,
        ground (arith, h.on, lookup-insert other jti (later + (oe - now)) b.memory),
        h.until.2,
      )
    ]
  ];
}

Holds-is_revoked :
    (jti : Text) (exp : ℕ) (other : Text) (now later : ℕ) (b : Blacklist)
    → Holds jti exp b
    → now ≤ later
    → later < exp
    → Holds jti exp (is_revoked other now later b).1
unfolding is_revoked still_revoked
Holds-is_revoked jti exp other now later b h n e = record {
  on = ground (arith, h.on);
  until = (
    h.until.0,
    ground (
      arith,
      h.on,
      text_eq_iff other jti,
      lookup-cleanup_memory jti now h.until.0 b.memory,
      lookup-erase other jti (cleanup_memory now b.memory),
    ),
    h.until.2,
  );
}

true_of_Holds :
    (jti : Text) (exp now later : ℕ) (b : Blacklist)
    → Holds jti exp b
    → now ≤ later
    → later < exp
    → (is_revoked jti now later b).0 ≡ true
unfolding is_revoked still_revoked
true_of_Holds jti exp now later b h n e =
    ground (arith, h.on, h.until.1, lookup-cleanup_memory jti now h.until.0 b.memory)

Since-Holds :
    {jti : Text} {exp : ℕ} {b : Blacklist} {last : ℕ}
    → Since jti exp b last
    → last < exp
    → Holds jti exp b
unfolding revoke
Since-Holds {jti} {exp} (Since.revoked b now later on ahead order) e = record {
  on = ground arith;
  until = (
    later + (exp - now),
    ground (arith, lookup-insert jti jti (later + (exp - now)) b.memory, text_eq_iff jti jti),
    omega arith,
  );
}
Since-Holds {jti} {exp} (Since.revoked_more {b} {last} other oe now later s before order same) e =
    Holds-revoke jti exp other oe now later b (Since-Holds s (omega arith)) order same
Since-Holds {jti} {exp} (Since.asked {b} {last} other now later s before order) e =
    Holds-is_revoked jti exp other now later b (Since-Holds s (omega arith)) order e

-- If the blacklist is enabled and the clock does not go back, an access token that was revoked is
-- refused whenever the blacklist is checked before it expires, whatever was revoked or asked in
-- between.
pub revoked_access_refused :
    (o : Outside) (token jti : Text) (exp last : ℕ) (b : Blacklist) (c : Clock) {p q : Payload}
    → Since jti exp b last
    → o.decode c.verify token ≡ some p
    → p.typ ≡ some (codes "access")
    → p.jti ≡ some jti
    → last ≤ c.cleanup
    → c.cleanup ≤ c.check
    → c.check < exp
    → (decode_token o token (some (codes "access")) true c b).0 ≢ ok q
unfolding decode_token
revoked_access_refused o token jti exp last b c {p} s d typ is_jti l1 l2 e h =
    let caught = true_of_Holds jti exp c.cleanup c.check b (Since-Holds s (omega arith)) l2 e in
    ground (arith, caught)
