-- ===== src/Utils/Tests.antt =====
-- Five rows in pages of two, and a folder.
use lms_backend.Base.{ℕ, ok, ◌≡◌, ◌↔◌, ◌<◌, ◌≤◌, refl, codes, List, [], ◌∷◌, arith}
use lms_backend.Base.Strip.{strip}
use lms_backend.Utils.Pagination.{offset, total_pages, first_pages, pages_complete}
use lms_backend.Utils.Folders.{normalize_storage_folder, raw_parts, split, safe_parts, join}
use lms_backend.Utils.Slugs.{slugify}
use lms_backend.Utils.Slugs.Stable.{IsSlug, slugify_stable}
use lms_backend.Utils.Folders.Safe.{IsSafePath, normalize-IsSafePath}

abbrev rows : List ℕ
rows = 1 ∷ 2 ∷ 3 ∷ 4 ∷ 5 ∷ []

pages_complete_example :
    (first_pages rows 2 (total_pages 5 2) ≡ rows)
    × ((page : ℕ)
        → 0 < page
        → (page ≤ total_pages 5 2) ↔ (offset (record { page = page; page_size = 2 }) < 5))
pages_complete_example = pages_complete rows 2 (omega arith)

three_pages : total_pages 5 2 ≡ 3
unfolding total_pages
three_pages = refl

normalize-IsSafePath_example :
    IsSafePath (codes "a/b_1") × (normalize_storage_folder (codes "a/b_1") ≡ ok (codes "a/b_1"))
unfolding normalize_storage_folder raw_parts split safe_parts join strip
normalize-IsSafePath_example = normalize-IsSafePath (codes " a//./b_1/") (codes "a/b_1") refl

slugify_stable_example :
    IsSlug (slugify (codes " My Course: 2nd -- part!"))
    × (slugify (slugify (codes " My Course: 2nd -- part!"))
        ≡ slugify (codes " My Course: 2nd -- part!"))
slugify_stable_example = slugify_stable (codes " My Course: 2nd -- part!")
