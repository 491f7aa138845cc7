-- ===== src/Utils/Folders/Safe.antt =====
-- A folder that was normalized stays below the directory of uploads, and is not changed again.
use lms_backend.Base.{
  ℕ, ◌==◌, ==_iff, ap, ◌∙◌, ◌≤◌, ◌≡◌, ◌⊎◌, refl, Text, codes, true, false, List, [], ◌∷◌, ◌++◌, ok,
  arith, map, keep, All, starts_with, Bool-cases, Result-cases, inl, inr,
}
use mathlib.Core.Path.{subst}
use lms_backend.Base.Strip.{is_empty, is_space, lstrip, rstrip, strip}
use lms_backend.Utils.Folders.{
  forward, split, counts, is_dots, is_safe_code, is_safe, from_parts, raw_parts, safe_parts, join,
  normalize_storage_folder,
}

-- A letter, a digit, an underscore or a dash of ASCII.
abbrev pub IsNameCode : ℕ → Type 0
IsNameCode c =
    ((65 ≤ c) × (c ≤ 90))
    ⊎ (((97 ≤ c) × (c ≤ 122)) ⊎ (((48 ≤ c) × (c ≤ 57)) ⊎ ((c ≡ 95) ⊎ (c ≡ 45))))

-- One or more names of such characters, with one slash between two names.
pub data IsSafePath : Text → Type 0 where
  last : {c : ℕ} → IsNameCode c → IsSafePath (c ∷ [])
  within : {c : ℕ} {s : Text} → IsNameCode c → IsSafePath s → IsSafePath (c ∷ s)
  slash : {c d : ℕ} {s : Text} → IsNameCode c → d ≡ 47 → IsSafePath s → IsSafePath (c ∷ d ∷ s)

safe_code : (c : ℕ) → is_safe_code c ≡ true → IsNameCode c
safe_code c h = ground arith

name_code : (c : ℕ) → IsNameCode c → is_safe_code c ≡ true
name_code c h = ground arith

name-IsSafePath : (part : Text) → is_safe part ≡ true → IsSafePath part
name-IsSafePath [] h = cc
name-IsSafePath (c ∷ []) h = IsSafePath.last (safe_code c (ground arith))
name-IsSafePath (c ∷ d ∷ s) h =
    IsSafePath.within (safe_code c (ground arith)) (name-IsSafePath (d ∷ s) (ground arith))

next-IsSafePath :
    (part rest : Text) → is_safe part ≡ true → IsSafePath rest → IsSafePath (part ++ 47 ∷ rest)
next-IsSafePath [] rest h p = cc
next-IsSafePath (c ∷ []) rest h p = IsSafePath.slash (safe_code c (ground arith)) refl p
next-IsSafePath (c ∷ d ∷ s) rest h p =
    IsSafePath.within (safe_code c (ground arith)) (next-IsSafePath (d ∷ s) rest (ground arith) p)

join-IsSafePath :
    (part : Text) (parts : List Text)
    → All (λ p. is_safe p ≡ true) (part ∷ parts)
    → IsSafePath (join (part ∷ parts))
unfolding join
join-IsSafePath part [] h = name-IsSafePath part h.0
join-IsSafePath part (next ∷ parts) h = next-IsSafePath part _ h.0 (join-IsSafePath next parts h.1)

safe_parts-All :
    (parts : List Text) {safe : List Text}
    → safe_parts parts ≡ ok safe
    → (safe ≡ parts) × All (λ p. is_safe p ≡ true) parts
unfolding safe_parts
safe_parts-All [] h = (ground arith, tt)
safe_parts-All (part ∷ parts) {safe} h = elim (Result-cases (safe_parts parts)) [
  | inr (e, r) ↦ absurd (ground arith)
  | inl (rest, r) ↦ let (same, all) = safe_parts-All parts r in (ground arith, (ground arith, all))
]

uploads-IsSafePath : {path : Text} → ok (codes "uploads") ≡ ok path → IsSafePath path
uploads-IsSafePath {path} h =
    let same : codes "uploads" ≡ path = ground arith in
    subst IsSafePath same (name-IsSafePath (codes "uploads") refl)

from_parts-IsSafePath :
    (parts : List Text) {path : Text} → from_parts parts ≡ ok path → IsSafePath path
from_parts-IsSafePath [] h = uploads-IsSafePath h
from_parts-IsSafePath (part ∷ parts) {path} h = elim (Result-cases (safe_parts (part ∷ parts))) [
  | inr (e, r) ↦ absurd (ground arith)
  | inl (safe, r) ↦
      let (same, all) = safe_parts-All (part ∷ parts) r in
      let joined : join (part ∷ parts) ≡ path = ground arith in
      subst IsSafePath joined (join-IsSafePath part parts all)
]

normalized-IsSafePath :
    (folder path : Text) → normalize_storage_folder folder ≡ ok path → IsSafePath path
unfolding normalize_storage_folder
normalized-IsSafePath folder path h = elim (Bool-cases (is_empty (map forward (strip folder)))) [
  | inl e ↦ uploads-IsSafePath (ground arith)
  | inr e ↦ elim (Bool-cases (starts_with (codes "/") (map forward (strip folder)))) [
    | inl s ↦ absurd (ground arith)
    | inr s ↦ from_parts-IsSafePath (raw_parts (map forward (strip folder))) (ground arith)
  ]
]

abbrev AllSafe : List Text → Type 0
AllSafe parts = All (λ p. is_safe p ≡ true) parts

longer_name :
    (c : ℕ) (part : Text) (parts : List Text)
    → IsNameCode c
    → AllSafe (part ∷ parts)
    → AllSafe ((c ∷ part) ∷ parts) × (join ((c ∷ part) ∷ parts) ≡ c ∷ join (part ∷ parts))
unfolding join
longer_name c part [] n all = ((ground (arith, name_code c n, all.0), tt), refl)
longer_name c part (next ∷ parts) n all = ((ground (arith, name_code c n, all.0), all.1), refl)

not_slash : (c : ℕ) → IsNameCode c → (c == 47) ≡ false
not_slash c n = elim (Bool-cases (c == 47)) [
  | inl e ↦ absurd (omega (arith, (==_iff c 47).0 e, n))
  | inr e ↦ e
]

-- The parts of a path are its names.
split-join :
    {s : Text}
    → IsSafePath s
    → let (part, parts) = split s in AllSafe (part ∷ parts) × (join (part ∷ parts) ≡ s)
unfolding split join
split-join (IsSafePath.last {c} n) = rw (not_slash c n) ((ground (arith, name_code c n), tt), refl)
split-join (IsSafePath.within {c} {s} n p) =
    let (all, joined) = split-join p in
    let (more, same) = longer_name c (split s).0 (split s).1 n all in
    rw (not_slash c n) (more, same ∙ ap (λ t. c ∷ t) joined)
split-join (IsSafePath.slash {c} {d} {s} n same p) =
    let (all, joined) = split-join p in
    rw same (rw (not_slash c n) ((ground (arith, name_code c n), all), ap (λ t. c ∷ 47 ∷ t) joined))

counts-safe : (part : Text) → is_safe part ≡ true → counts part ≡ true
counts-safe [] h = cc
counts-safe (c ∷ s) h = ground arith

dots-safe : (part : Text) → is_safe part ≡ true → is_dots part ≡ false
dots-safe [] h = cc
dots-safe (c ∷ s) h = ground arith

keep-safe : (parts : List Text) → AllSafe parts → keep counts parts ≡ parts
keep-safe [] all = refl
keep-safe (part ∷ parts) all = ground (arith, counts-safe part all.0, keep-safe parts all.1)

safe_parts-safe : (parts : List Text) → AllSafe parts → safe_parts parts ≡ ok parts
unfolding safe_parts
safe_parts-safe [] all = refl
safe_parts-safe (part ∷ parts) all =
    ground (arith, dots-safe part all.0, all.0, safe_parts-safe parts all.1)

from_parts-path : {s : Text} → IsSafePath s → from_parts (raw_parts s) ≡ ok s
unfolding raw_parts
from_parts-path {s} p =
    let (part, parts) = split s in
    let (all, joined) = split-join p in
    rw (keep-safe ((split s).0 ∷ (split s).1) all)
      (rw (safe_parts-safe ((split s).0 ∷ (split s).1) all) (ap ok joined))

forward-path : {s : Text} → IsSafePath s → map forward s ≡ s
forward-path (IsSafePath.last n) = ground arith
forward-path (IsSafePath.within n p) = ground (arith, forward-path p)
forward-path (IsSafePath.slash n same p) = ground (arith, forward-path p)

name_no_space : (c : ℕ) → IsNameCode c → is_space c ≡ false
unfolding is_space
name_no_space c n = ground arith

rstrip-path : {s : Text} → IsSafePath s → rstrip s ≡ s
unfolding rstrip
rstrip-path (IsSafePath.last {c} n) = ground (arith, name_no_space c n)
rstrip-path (IsSafePath.within {c} n p) = ground (arith, name_no_space c n, rstrip-path p)
rstrip-path (IsSafePath.slash {c} n same p) = ground (arith, name_no_space c n, rstrip-path p)

strip-path : {s : Text} → IsSafePath s → strip s ≡ s
unfolding strip lstrip
strip-path (IsSafePath.last {c} n) =
    ground (arith, name_no_space c n, rstrip-path (IsSafePath.last n))
strip-path (IsSafePath.within {c} n p) =
    ground (arith, name_no_space c n, rstrip-path (IsSafePath.within n p))
strip-path (IsSafePath.slash {c} n same p) =
    ground (arith, name_no_space c n, rstrip-path (IsSafePath.slash n same p))

path-cases : {s : Text} → IsSafePath s → (is_empty s ≡ false) × (starts_with (codes "/") s ≡ false)
path-cases (IsSafePath.last n) = (refl, ground arith)
path-cases (IsSafePath.within n p) = (refl, ground arith)
path-cases (IsSafePath.slash n same p) = (refl, ground arith)

path_unchanged : {s : Text} → IsSafePath s → normalize_storage_folder s ≡ ok s
unfolding normalize_storage_folder
path_unchanged {s} p =
    let (full, relative) = path-cases p in
    rw (strip-path p, forward-path p, full, relative) (from_parts-path p)

-- A folder that is accepted becomes a relative path of one or more names, each of letters, digits, dashes and
-- underscores of ASCII only, with one slash between two names; and this path is accepted again, as it is.
pub normalize-IsSafePath :
    (folder path : Text)
    → normalize_storage_folder folder ≡ ok path
    → IsSafePath path × (normalize_storage_folder path ≡ ok path)
normalize-IsSafePath folder path h =
    let p = normalized-IsSafePath folder path h in (p, path_unchanged p)
