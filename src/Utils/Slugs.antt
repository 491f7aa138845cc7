-- ===== src/Utils/Slugs.antt =====
-- `slugify` of app/utils/validators.py. `\s` is ASCII white space here, as in `strip`.
pub mod Stable
use lms_backend.Base.{
  ℕ, Text, Bool, true, false, ◌&&◌, ◌||◌, not, [], ◌∷◌, ◌==◌, leb, keep, if◌then◌else◌,
}
use lms_backend.Base.Strip.{strip, lower, is_space}

-- `[a-z0-9]`, and `[\s-]`
unfoldable pub is_word : ℕ → Bool
is_word c = (leb 97 c && leb c 122) || (leb 48 c && leb c 57)

unfoldable pub is_gap : ℕ → Bool
is_gap c = is_space c || (c == 45)

-- `re.sub(r"[\s-]+", "-", value)`; the flag says whether the run of gaps has its dash.
unfoldable pub collapse : Bool → Text → Text
collapse inside [] = []
collapse inside (c ∷ s) =
    let gap = collapse true s in
    let word = collapse false s in if is_gap c then (if inside then gap else 45 ∷ gap) else c ∷ word

-- `value.strip("-")`
unfoldable pub drop_dashes : Text → Text
drop_dashes [] = []
drop_dashes (c ∷ s) = let rest = drop_dashes s in if c == 45 then rest else c ∷ s

abbrev pub is_nothing : Text → Bool
is_nothing [] = true
is_nothing (c ∷ s) = false

unfoldable pub trim_dashes : Text → Text
trim_dashes [] = []
trim_dashes (c ∷ s) =
    let rest = trim_dashes s in if is_nothing rest && (c == 45) then [] else c ∷ rest

-- `slugify`
unfoldable pub slugify : Text → Text
slugify value =
    trim_dashes
      (drop_dashes (collapse false (keep (λ c. is_word c || is_gap c) (lower (strip value)))))
