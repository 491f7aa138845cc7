-- ===== src/Base/Changes.antt =====
-- Changes of the rows of a list, and searches in it before and after.
use Prim.Native.Nat.{ℕ}
use mathlib.Core.Path.{◌≡◌, refl, ap}
use mathlib.Core.Logic.{◌≢◌, inl, inr}
use mathlib.Core.Bool.{Bool, true, false}
use mathlib.Core.Option.{some}
use mathlib.Core.List.{List, [], ◌∷◌, ◌++◌, map}
use native.Mathlib.Omega.{arith}
use lms_backend.Base.Tests.{◌==◌, ==_iff, if◌then◌else◌, Bool-cases}
use lms_backend.Base.Codes.{Text, text_eq, text_eq_iff}
use lms_backend.Base.Lists.{All, find, keep, any}

-- The changes of a row that the session has loaded.
abbrev pub update_by : {A : Type 0} → (A → ℕ) → ℕ → (A → A) → List A → List A
update_by key id f [] = []
update_by key id f (x ∷ xs) =
    let rest = update_by key id f xs in if key x == id then f x ∷ rest else x ∷ rest

pub any-append :
    {A : Type 0} (p : A → Bool) (xs ys : List A) → any p xs ≡ true → any p (xs ++ ys) ≡ true
any-append p [] ys h = cc
any-append p (x ∷ xs) ys h = ground (arith, any-append p xs ys)

pub any-find :
    {A : Type 0} (p q : A → Bool) (xs : List A) {a : A}
    → find p xs ≡ some a
    → q a ≡ true
    → any q xs ≡ true
any-find p q [] f h = cc
any-find p q (x ∷ xs) {a} f h = elim (Bool-cases (p x)) [
  | inl e ↦ let same : x ≡ a = ground arith in ground (arith, same)
  | inr e ↦ ground (arith, any-find p q xs {a = a} (ground arith) h)
]

pub any-update_by :
    {A : Type 0} (key : A → ℕ) (id : ℕ) (f : A → A) (p : A → Bool)
    → ((x : A) → p (f x) ≡ p x)
    → (xs : List A) → any p (update_by key id f xs) ≡ any p xs
any-update_by key id f p same [] = refl
any-update_by key id f p same (x ∷ xs) = ground (arith, any-update_by key id f p same xs, same x)

pub any-keep :
    {A : Type 0} (p q : A → Bool)
    → ((x : A) → p x ≡ true → q x ≡ true)
    → (xs : List A) → any p xs ≡ true
    → any p (keep q xs) ≡ true
any-keep p q passes [] h = cc
any-keep p q passes (x ∷ xs) h = ground (arith, any-keep p q passes xs, passes x)

pub All-keep :
    {A : Type 0} (P : A → Type 0) (q : A → Bool) (xs : List A)
    → All P xs
    → All (λ x. P x × (q x ≡ true)) (keep q xs)
All-keep P q [] h = tt
All-keep P q (x ∷ xs) h = elim (Bool-cases (q x)) [
  | inl e ↦ rw e ((h.0, e), All-keep P q xs h.1)
  | inr e ↦ rw e (All-keep P q xs h.1)
]

pub All-imp :
    {A : Type 0} (P Q : A → Type 0) → ((x : A) → P x → Q x) → (xs : List A) → All P xs → All Q xs
All-imp P Q f [] h = tt
All-imp P Q f (x ∷ xs) h = (f x h.0, All-imp P Q f xs h.1)

pub All-update_by :
    {A : Type 0} (P : A → Type 0) (key : A → ℕ) (id : ℕ) (f : A → A)
    → ((x : A) → P x → P (f x))
    → (xs : List A) → All P xs
    → All P (update_by key id f xs)
All-update_by P key id f keeps [] h = tt
All-update_by P key id f keeps (x ∷ xs) h = elim (Bool-cases (key x == id)) [
  | inl e ↦ rw e (keeps x h.0, All-update_by P key id f keeps xs h.1)
  | inr e ↦ rw e (h.0, All-update_by P key id f keeps xs h.1)
]

pub find-append :
    {A : Type 0} (p : A → Bool) (xs ys : List A) {a : A}
    → find p xs ≡ some a
    → find p (xs ++ ys) ≡ some a
find-append p [] ys h = cc
find-append p (x ∷ xs) ys {a} h = elim (Bool-cases (p x)) [
  | inl e ↦ ground arith
  | inr e ↦ ground (arith, find-append p xs ys {a = a} (ground arith))
]

-- What is found first is still found first when others are taken out.
pub find-keep :
    {A : Type 0} (p q : A → Bool) (xs : List A) {a : A}
    → find p xs ≡ some a
    → q a ≡ true
    → find p (keep q xs) ≡ some a
find-keep p q [] h y = cc
find-keep p q (x ∷ xs) {a} h y = elim (Bool-cases (p x)) [
  | inl e ↦ let same : x ≡ a = ground arith in ground (arith, same)
  | inr e ↦ ground (arith, find-keep p q xs {a = a} (ground arith) y)
]

-- A change of one row leaves the rows of other keys.
pub find-update_by :
    {A : Type 0} (key : A → ℕ) (id k : ℕ) (f : A → A)
    → ((x : A) → key (f x) ≡ key x)
    → (k ≢ id)
    → (xs : List A) → find (λ x. key x == k) (update_by key id f xs) ≡ find (λ x. key x == k) xs
find-update_by key id k f same n [] = refl
find-update_by key id k f same n (x ∷ xs) =
    ground (arith, find-update_by key id k f same n xs, same x, ==_iff (key x) k, ==_iff (key x) id)

-- No two of the texts are the same.
abbrev pub IsDistinct : List Text → Type 0
IsDistinct [] = Unit
IsDistinct (t ∷ ts) = (any (text_eq t) ts ≡ false) × IsDistinct ts

any_last_text :
    (t u : Text) (ts : List Text)
    → text_eq t u ≡ false
    → any (text_eq t) ts ≡ false
    → any (text_eq t) (ts ++ u ∷ []) ≡ false
any_last_text t u [] n h = ground arith
any_last_text t u (x ∷ ts) n h = ground (arith, any_last_text t u ts)

pub append-IsDistinct :
    (ts : List Text) (t : Text)
    → IsDistinct ts
    → any (text_eq t) ts ≡ false
    → IsDistinct (ts ++ t ∷ [])
append-IsDistinct [] t h n = (refl, tt)
append-IsDistinct (x ∷ ts) t h n = (
  any_last_text x t ts (ground (arith, text_eq_iff x t, text_eq_iff t x)) h.0,
  append-IsDistinct ts t h.1 (ground arith),
)

pub map-last :
    {A B : Type 0} (f : A → B) (xs : List A) (x : A) → map f (xs ++ x ∷ []) ≡ map f xs ++ f x ∷ []
map-last f [] x = refl
map-last f (y ∷ xs) x = ap (◌∷◌ (f y)) (map-last f xs x)
