-- ===== src/Assignments/Reads.antt =====
-- What the reading calls return to a student.
use lms_backend.Base.{
  ℕ, ◌≤◌, ◌≡◌, Bool, true, ◌&&◌, some, List, [], ◌∷◌, ok, arith, inl, inr, keep, length, drop, All,
  Bool-cases, Option-cases, ◌==◌,
}
use Prim.Native.Nat.{zero, suc}
use mathlib.Core.Path.{subst}
use lms_backend.Core.Permissions.{Role}
use lms_backend.Utils.Pagination.{take}
use lms_backend.Db.{User, Tables, Session}
use lms_backend.Enrollments.Repository.{get_by_student_and_course}
use lms_backend.Assignments.Rows.{Assignment}
use lms_backend.Assignments.Commit.{is_set}
use lms_backend.Assignments.Service.{get_assignment, is_open, get_assignments_by_course}
use lms_backend.Assignments.Routes.{
  may_list, page_of, list_assignments, student_sees, read_assignment,
}

All-passes : {A : Type 0} (p : A → Bool) (xs : List A) → All (λ x. p x ≡ true) (keep p xs)
All-passes p [] = tt
All-passes p (x ∷ xs) = elim (Bool-cases (p x)) [
  | inl e ↦ rw e (e, All-passes p xs)
  | inr e ↦ rw e (All-passes p xs)
]

All-drop : {A : Type 0} (P : A → Type 0) (n : ℕ) (xs : List A) → All P xs → All P (drop n xs)
All-drop P zero xs h = h
All-drop P (suc n) [] h = tt
All-drop P (suc n) (x ∷ xs) h = All-drop P n xs h.1

All-take : {A : Type 0} (P : A → Type 0) (n : ℕ) (xs : List A) → All P xs → All P (take n xs)
All-take P zero xs h = tt
All-take P (suc n) [] h = tt
All-take P (suc n) (x ∷ xs) h = (h.0, All-take P n xs h.1)

length-take :
    {A : Type 0} (n : ℕ) (xs : List A) → (length (take n xs) ≤ n) × (length (take n xs) ≤ length xs)
length-take zero xs = ground arith
length-take (suc n) [] = ground arith
length-take (suc n) (x ∷ xs) = ground (arith, length-take n xs)

length-drop : {A : Type 0} (n : ℕ) (xs : List A) → length (drop n xs) ≤ length xs
length-drop zero xs = omega arith
length-drop (suc n) [] = omega arith
length-drop (suc n) (x ∷ xs) = omega (arith, length-drop n xs)

-- An assignment of the course that its students may see.
abbrev pub IsShown : ℕ → Assignment → Type 0
IsShown course_id a = ((a.course_id == course_id) && is_open a) ≡ true

shown_page :
    (course_id skip limit : ℕ) (t : Tables)
    → let (rows, total) = get_assignments_by_course course_id skip limit true t in
      All (IsShown course_id) rows × (length rows ≤ limit) × (length rows ≤ total)
unfolding get_assignments_by_course
shown_page course_id skip limit t =
    let rows = keep (λ (a : Assignment). (a.course_id == course_id) && is_open a) t.assignments in
    (
      All-take (IsShown course_id) limit (drop skip rows)
          (All-drop (IsShown course_id) skip rows (All-passes _ t.assignments)),
      (length-take limit (drop skip rows)).0,
      omega (arith, (length-take limit (drop skip rows)).1, length-drop skip rows),
    )

-- The list that a student gets of a course: the student is enrolled in it, every assignment is published and of
-- the course, they are at most `limit` and at most the total, the limit is not zero, and the page is the one that
-- starts at `skip`.
pub list_assignments-All :
    (course_id skip limit : ℕ) (user : User) (s : Session) {rows : List Assignment} {total page : ℕ}
    → user.role ≡ Role.student
    → (list_assignments course_id skip limit user s).0 ≡ ok (rows, total, page)
    → (is_set (get_by_student_and_course user.id course_id s.tables) ≡ true)
      × All (IsShown course_id) rows
      × (length rows ≤ limit)
      × (length rows ≤ total)
      × (1 ≤ limit)
      × (page_of skip limit ≡ ok page)
unfolding list_assignments may_list page_of
list_assignments-All course_id skip zero user s r h =
    elim (Bool-cases (is_set (get_by_student_and_course user.id course_id s.tables))) [
      | inr e ↦ absurd (ground arith)
      | inl e ↦ absurd (ground arith)
    ]
list_assignments-All course_id skip (suc n) user s {rows} {total} {page} r h =
    let shown = shown_page course_id skip (suc n) s.tables in
    elim (Bool-cases (is_set (get_by_student_and_course user.id course_id s.tables))) [
      | inr e ↦ absurd (ground arith)
      | inl e ↦
          let same_rows : (get_assignments_by_course course_id skip (suc n) true s.tables).0
              ≡ rows =
            ground arith in
          let same_total : (get_assignments_by_course course_id skip (suc n) true s.tables).1
              ≡ total =
            ground arith in
          (
            e,
            subst (All (IsShown course_id)) same_rows shown.0,
            ground (arith, shown.1),
            ground (arith, shown.2),
            omega arith,
            ground arith,
          )
    ]

-- What `GET /assignments/{assignment_id}` returns to a student is published, in a course of the student's.
pub read_assignment-IsShown :
    (id : ℕ) (user : User) (s : Session) {a : Assignment}
    → user.role ≡ Role.student
    → (read_assignment id user s).0 ≡ ok a
    → (get_assignment id s.tables ≡ some a)
      × (is_set (get_by_student_and_course user.id a.course_id s.tables) ≡ true)
      × (is_open a ≡ true)
unfolding read_assignment student_sees
read_assignment-IsShown id user s {a} r h = elim (Option-cases (get_assignment id s.tables)) [
  | inl n ↦ absurd (ground arith)
  | inr (b, f) ↦
      elim (Bool-cases (is_set (get_by_student_and_course user.id b.course_id s.tables))) [
        | inr e ↦ absurd (ground arith)
        | inl e ↦ elim (Bool-cases (is_open b)) [
          | inr o ↦ absurd (ground arith)
          | inl o ↦ let same : b ≡ a = ground arith in (rw same at f, rw same at e, rw same at o)
        ]
      ]
]
