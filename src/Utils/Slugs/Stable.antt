-- ===== src/Utils/Slugs/Stable.antt =====
-- What slugs look like, and that `slugify` leaves a slug as it is.
use lms_backend.Base.{
  ℕ, ◌≡◌, ◌⊎◌, refl, Text, Bool, true, false, ◌&&◌, ◌||◌, not, [], ◌∷◌, arith, inl, inr, ◌==◌, keep,
  if◌then◌else◌,
}
use lms_backend.Base.Strip.{strip, lower, lstrip, rstrip, lower_code, is_space}
use lms_backend.Utils.Slugs.{
  is_word, is_gap, collapse, drop_dashes, is_nothing, trim_dashes, slugify,
}

-- Letters and digits with single dashes between them; the flag says that no dash may come next.
single : Bool → Text → Bool
single dash [] = true
single dash (c ∷ s) =
    let word = single false s in
    let gap = single true s in if is_word c then word else not dash && (c == 45) && gap

abbrev is_slug : Bool → Text → Bool
is_slug dash [] = not dash
is_slug dash (c ∷ s) =
    let word = is_slug false s in
    let gap = is_slug true s in if is_word c then word else not dash && (c == 45) && gap

-- Letters and digits, with single dashes between them and none at the ends.
abbrev pub IsSlug : Text → Type 0
IsSlug s = (s ≡ []) ⊎ (is_slug true s ≡ true)

abbrev wanted : ℕ → Bool
wanted c = is_word c || is_gap c

collapse-single :
    (inside : Bool) (s : Text) → single inside (collapse inside (keep wanted s)) ≡ true
unfolding single collapse is_word is_gap is_space
collapse-single inside [] = ground arith
collapse-single true (c ∷ s) = ground (arith, collapse-single true s, collapse-single false s)
collapse-single false (c ∷ s) = ground (arith, collapse-single true s, collapse-single false s)

drop_dashes-single :
    (dash : Bool) (s : Text) → single dash s ≡ true → single true (drop_dashes s) ≡ true
unfolding single drop_dashes is_word
drop_dashes-single dash [] h = refl
drop_dashes-single dash (c ∷ s) h =
    ground (arith, drop_dashes-single true s, drop_dashes-single false s)

trim_dashes-is_slug :
    (dash : Bool) (s : Text)
    → single dash s ≡ true
    → (is_nothing (trim_dashes s) || is_slug dash (trim_dashes s)) ≡ true
unfolding single trim_dashes is_word
trim_dashes-is_slug dash [] h = ground arith
trim_dashes-is_slug dash (c ∷ s) h =
    ground (arith, trim_dashes-is_slug true s, trim_dashes-is_slug false s)

trimmed-IsSlug : (s : Text) → (is_nothing s || is_slug true s) ≡ true → IsSlug s
trimmed-IsSlug [] h = inl refl
trimmed-IsSlug (c ∷ s) h = inr h

slugify-IsSlug : (value : Text) → IsSlug (slugify value)
unfolding slugify
slugify-IsSlug value =
    let kept = lower (strip value) in
    let dashed = collapse false (keep wanted kept) in
    trimmed-IsSlug (trim_dashes (drop_dashes dashed)) (
      trim_dashes-is_slug true (drop_dashes dashed)
        (drop_dashes-single false dashed (collapse-single false kept)))

-- A slug has no white space and no capital letter, so each step leaves it.
lstrip-slug : (dash : Bool) (s : Text) → is_slug dash s ≡ true → lstrip s ≡ s
unfolding lstrip is_space is_word
lstrip-slug dash [] h = refl
lstrip-slug dash (c ∷ s) h = ground arith

rstrip-slug : (dash : Bool) (s : Text) → is_slug dash s ≡ true → rstrip s ≡ s
unfolding rstrip is_space is_word
rstrip-slug dash [] h = refl
rstrip-slug dash (c ∷ s) h = ground (arith, rstrip-slug true s, rstrip-slug false s)

lower-slug : (dash : Bool) (s : Text) → is_slug dash s ≡ true → lower s ≡ s
unfolding lower lower_code is_word
lower-slug dash [] h = refl
lower-slug dash (c ∷ s) h = ground (arith, lower-slug true s, lower-slug false s)

keep-slug : (dash : Bool) (s : Text) → is_slug dash s ≡ true → keep wanted s ≡ s
unfolding is_word is_gap is_space
keep-slug dash [] h = refl
keep-slug dash (c ∷ s) h = ground (arith, keep-slug true s, keep-slug false s)

collapse-slug : (dash : Bool) (s : Text) → is_slug dash s ≡ true → collapse dash s ≡ s
unfolding collapse is_word is_gap is_space
collapse-slug dash [] h = refl
collapse-slug true (c ∷ s) h = ground (arith, collapse-slug true s, collapse-slug false s)
collapse-slug false (c ∷ s) h = ground (arith, collapse-slug true s, collapse-slug false s)

trim_dashes-slug : (dash : Bool) (s : Text) → is_slug dash s ≡ true → trim_dashes s ≡ s
unfolding trim_dashes is_word
trim_dashes-slug dash [] h = refl
trim_dashes-slug dash (c ∷ s) h = ground (arith, trim_dashes-slug true s, trim_dashes-slug false s)

after_start : (s : Text) → is_slug true s ≡ true → is_slug false s ≡ true
after_start [] h = cc
after_start (c ∷ s) h = ground arith

drop_dashes-slug : (s : Text) → is_slug true s ≡ true → drop_dashes s ≡ s
unfolding drop_dashes is_word
drop_dashes-slug [] h = refl
drop_dashes-slug (c ∷ s) h = ground arith

slug-slugify : (s : Text) → is_slug true s ≡ true → slugify s ≡ s
unfolding slugify strip
slug-slugify s h =
    rw
      (
        lstrip-slug true s h,
        rstrip-slug true s h,
        lower-slug true s h,
        keep-slug true s h,
        collapse-slug false s (after_start s h),
        drop_dashes-slug s h,
        trim_dashes-slug true s h,
      )
      refl

slugify-nil : slugify [] ≡ []
unfolding slugify trim_dashes drop_dashes collapse lower strip lstrip rstrip
slugify-nil = refl

-- A slug is empty, or letters and digits with single dashes between them; and the slug of a slug is itself.
pub slugify_stable :
    (value : Text) → IsSlug (slugify value) × (slugify (slugify value) ≡ slugify value)
slugify_stable value = (slugify-IsSlug value, stable (slugify value) (slugify-IsSlug value))
  where
    stable : (s : Text) → IsSlug s → slugify s ≡ s
    stable s (inl e) = rw e slugify-nil
    stable s (inr h) = slug-slugify s h
