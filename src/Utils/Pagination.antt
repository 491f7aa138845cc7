-- ===== src/Utils/Pagination.antt =====
-- app/utils/pagination.py, and the `offset` and `limit` of the queries that use it. Pages count from 1, and have a positive size.
use native.Mathlib.Nat.{div-add-mod, mod-lt, mul-le-mul_left}
use lms_backend.Base.{
  ℕ, zero, suc, ◌+◌, ◌-◌, ◌*◌, ◌/◌, ◌≤◌, ◌<◌, ◌≡◌, ◌↔◌, refl, ap, sym, ◌∙◌, List, [], ◌∷◌, ◌++◌,
  length, drop, if◌then◌else◌, ltb, leb, leb_iff, ltb_iff, false, Bool-cases, inl, inr, arith,
}

pub record PageParams : Type 0 where
  pub page : ℕ
  pub page_size : ℕ

-- `offset`
unfoldable pub offset : PageParams → ℕ
offset params = (params.page - 1) * params.page_size

pub record Page (A : Type 0) : Type 0 where
  pub items : List A
  pub total : ℕ
  pub page : ℕ
  pub page_size : ℕ
  pub total_pages : ℕ

unfoldable pub total_pages : ℕ → ℕ → ℕ
total_pages total page_size = if ltb 0 total then (total + page_size - 1) / page_size else 0

-- `paginate`
unfoldable pub paginate : {A : Type 0} → List A → ℕ → PageParams → Page A
unfolding total_pages
paginate items total params = record {
  items = items;
  total = total;
  page = params.page;
  page_size = params.page_size;
  total_pages = total_pages total params.page_size;
}

-- `LIMIT n`
abbrev pub take : {A : Type 0} → ℕ → List A → List A
take zero xs = []
take (suc n) [] = []
take (suc n) (x ∷ xs) = x ∷ take n xs

-- `.offset(params.offset).limit(params.page_size)`, and the page it is put on.
unfoldable pub page_of : {A : Type 0} → List A → PageParams → Page A
unfolding offset
page_of rows params =
    paginate (take params.page_size (drop (offset params) rows)) (length rows) params

take_nil : {A : Type 0} (n : ℕ) → take {A = A} n [] ≡ []
take_nil zero = refl
take_nil (suc n) = refl

take_as : {A : Type 0} (n m : ℕ) (xs : List A) → n ≡ m → take n xs ≡ take m xs
take_as n m xs e = ap (λ k. take k xs) e

take-append_drop :
    {A : Type 0} (n m : ℕ) (xs : List A) → take n xs ++ take m (drop n xs) ≡ take (n + m) xs
take-append_drop zero m xs = take_as m (0 + m) xs (omega arith)
take-append_drop (suc n) m [] = take_nil m ∙ sym (take_nil (suc n + m))
take-append_drop (suc n) m (x ∷ xs) =
    ap (λ ys. x ∷ ys) (take-append_drop n m xs)
    ∙ take_as (suc (n + m)) (suc n + m) (x ∷ xs) (omega arith)

take_all : {A : Type 0} (n : ℕ) (xs : List A) → length xs ≤ n → take n xs ≡ xs
take_all zero [] le = refl
take_all zero (x ∷ xs) le = absurd (omega (arith, le))
take_all (suc n) [] le = refl
take_all (suc n) (x ∷ xs) le = ap (λ ys. x ∷ ys) (take_all n xs (omega (arith, le)))

-- The pages hold all rows, and the last of them is not empty.
total_pages-bounds :
    (total page_size : ℕ)
    → 0 < page_size
    → (total ≤ page_size * total_pages total page_size)
      × (0 < total → page_size * total_pages total page_size < total + page_size)
unfolding total_pages
total_pages-bounds total page_size h = elim (Bool-cases (ltb 0 total)) [
  | inr e ↦ rw e (ground arith, λ lt. ground arith)
  | inl e ↦
      let n = total + page_size - 1 in
      rw e (
        omega (arith, div-add-mod n page_size, mod-lt n h),
        λ lt. omega (arith, div-add-mod n page_size, mod-lt n h),
      )
]

-- The items of pages 1 to `n`, one after another.
unfoldable pub first_pages : {A : Type 0} → List A → ℕ → ℕ → List A
first_pages rows page_size zero = []
first_pages rows page_size (suc n) =
    first_pages rows page_size n
    ++ (page_of rows (record { page = suc n; page_size = page_size })).items

first_pages-take :
    {A : Type 0} (rows : List A) (page_size n : ℕ)
    → first_pages rows page_size n ≡ take (n * page_size) rows
unfolding first_pages page_of paginate offset
first_pages-take rows page_size zero = take_as 0 (0 * page_size) rows (omega arith)
first_pages-take rows page_size (suc n) =
    let start : suc n - 1 ≡ n = omega arith in
    ap (λ ys. ys ++ take page_size (drop ((suc n - 1) * page_size) rows))
      (first_pages-take rows page_size n)
    ∙ ap (λ (k : ℕ). take (n * page_size) rows ++ take page_size (drop (k * page_size) rows)) start
    ∙ take-append_drop (n * page_size) page_size rows
    ∙ take_as (n * page_size + page_size) (suc n * page_size) rows (omega arith)

-- The items of the pages from the first to the last, one after another, are the rows, each once and in order,
-- and a page number is among these exactly if its offset is below the number of rows, when pages count from 1
-- and have a positive size.
pub pages_complete :
    {A : Type 0} (rows : List A) (page_size : ℕ)
    → 0 < page_size
    → let n = total_pages (length rows) page_size in
      (first_pages rows page_size n ≡ rows)
      × ((page : ℕ)
          → 0 < page
          → (page ≤ n) ↔ (offset (record { page = page; page_size = page_size }) < length rows))
unfolding offset total_pages
pages_complete rows page_size h =
    let (all, last) = total_pages-bounds (length rows) page_size h in
    let n = total_pages (length rows) page_size in
    (
      first_pages-take rows page_size n ∙ take_all (n * page_size) rows (omega (arith, all)),
      λ page p. (within page p, below page p),
    )
  where
    rest : (q : ℕ) → (suc q - 1) * page_size ≡ q * page_size
    rest q = ap (λ (k : ℕ). k * page_size) {x = suc q - 1} {y = q} (omega arith)

    over : (m k : ℕ) → leb (suc k) m ≡ false → m ≤ k
    over m k e = ground arith

    within :
        (page : ℕ)
        → 0 < page
        → page ≤ total_pages (length rows) page_size
        → offset (record { page = page; page_size = page_size }) < length rows
    within zero p le = absurd (omega (arith, p))
    within (suc q) p le = elim (Bool-cases (ltb 0 (length rows))) [
      | inr e ↦ absurd (ground arith)
      | inl e ↦ omega (
        arith,
        rest q,
        (total_pages-bounds (length rows) page_size h).1 ((ltb_iff 0 (length rows)).0 e),
        mul-le-mul_left {m = suc q} {n = total_pages (length rows) page_size} page_size le,
      )
    ]

    below :
        (page : ℕ)
        → 0 < page
        → offset (record { page = page; page_size = page_size }) < length rows
        → page ≤ total_pages (length rows) page_size
    below zero p lt = absurd (omega (arith, p))
    below (suc q) p lt = elim (Bool-cases (leb (suc q) (total_pages (length rows) page_size))) [
      | inl e ↦ (leb_iff _ _).0 e
      | inr e ↦
          let few : total_pages (length rows) page_size ≤ q =
            over (total_pages (length rows) page_size) q e in
          absurd (
            omega (
              arith,
              rest q,
              (total_pages-bounds (length rows) page_size h).0,
              mul-le-mul_left {m = total_pages (length rows) page_size} {n = q} page_size few,
              lt,
            ))
    ]
