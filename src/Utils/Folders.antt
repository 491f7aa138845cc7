-- ===== src/Utils/Folders.antt =====
-- `normalize_storage_folder` (app/utils/validators.py): the folder that an upload names.
pub mod Safe
use lms_backend.Base.{
  ℕ, zero, suc, ◌≡◌, refl, Text, codes, text_eq, Bool, true, false, ◌&&◌, ◌||◌, not, Option, none,
  some, List, [], ◌∷◌, ◌++◌, Result, ok, err, value_error, arith, leb, ◌==◌, if◌then◌else◌, keep,
  map, All, starts_with, Bool-cases, Result-cases, inl, inr,
}
use lms_backend.Base.Fallible.{◌>>=◌}
use lms_backend.Base.Strip.{is_empty, strip}

-- `.replace("\\", "/")`
abbrev pub forward : ℕ → ℕ
forward c = if c == 92 then 47 else c

-- The first part and the others, of `value.split("/")`.
unfoldable pub split : Text → Text × List Text
split [] = ([], [])
split (c ∷ s) =
    let (part, parts) = split s in if c == 47 then ([], part ∷ parts) else (c ∷ part, parts)

abbrev pub is_dots : Text → Bool
is_dots part = text_eq part (codes "..")

-- `part and part != "."`
abbrev pub counts : Text → Bool
counts part = not (is_empty part) && not (text_eq part (codes "."))

unfoldable pub raw_parts : Text → List Text
unfolding split
raw_parts value = let (part, parts) = split value in keep counts (part ∷ parts)

-- `[A-Za-z0-9_-]`
abbrev pub is_safe_code : ℕ → Bool
is_safe_code c =
    (leb 65 c && leb c 90)
    || ((leb 97 c && leb c 122) || ((leb 48 c && leb c 57) || ((c == 95) || (c == 45))))

abbrev all_safe : Text → Bool
all_safe [] = true
all_safe (c ∷ s) = if is_safe_code c then all_safe s else false

-- `re.fullmatch(r"[A-Za-z0-9_-]+", part)`
abbrev pub is_safe : Text → Bool
is_safe part = not (is_empty part) && all_safe part

-- The loop over the parts.
unfoldable pub safe_parts : List Text → Result (List Text)
safe_parts [] = ok []
safe_parts (part ∷ parts) =
    let rest = safe_parts parts in
    if is_dots part
    then err (value_error "Invalid folder path")
    else if is_safe part
    then rest >>= (λ safe. ok (part ∷ safe))
    else err (value_error "Folder path contains unsupported characters")

-- `"/".join(safe_parts)`
unfoldable pub join : List Text → Text
join [] = []
join (part ∷ []) = part
join (part ∷ (next ∷ parts)) = part ++ 47 ∷ join (next ∷ parts)

abbrev pub from_parts : List Text → Result Text
from_parts [] = ok (codes "uploads")
from_parts (part ∷ parts) = safe_parts (part ∷ parts) >>= (λ safe. ok (join safe))

-- `normalize_storage_folder`
unfoldable pub normalize_storage_folder : Text → Result Text
unfolding strip raw_parts safe_parts join
normalize_storage_folder folder =
    let value = map forward (strip folder) in
    if is_empty value
    then ok (codes "uploads")
    else if starts_with (codes "/") value
    then err (value_error "Invalid folder path")
    else from_parts (raw_parts value)
