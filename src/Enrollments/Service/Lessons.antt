-- ===== src/Enrollments/Service/Lessons.antt =====
-- What `update_lesson_progress` keeps, who may call it, and that it is all or nothing.
use lms_backend.Base.{
  ℕ, ◌≡◌, ◌≢◌, ◌⊎◌, Bool, Option, none, some, List, [], ◌∷◌, ◌++◌, ok, err, Error, Result, ◌==◌,
  arith, All, All-append, find, inl, inr, Result-cases, Bool-cases, Option-cases,
}
use lms_backend.Core.Permissions.{Role}
use lms_backend.Db.{User, Enrollment, LessonProgress, Session}
use lms_backend.Enrollments.Repository.{get_by_id, get_lesson_progress, put_progress}
use lms_backend.Base.Patch.{given}
use lms_backend.Enrollments.Progress.{LessonProgressUpdate, updated_row}
use lms_backend.Enrollments.Progress.Valid.{IsValid, IsStoredBelow, IsValidRow, updated_row-IsValid}
use lms_backend.Enrollments.Service.{
  update_lesson_progress, write_progress, can_edit_lesson_progress,
}
use lms_backend.Enrollments.Service.Enroll.Promises.{IsClean}

-- A call that raises leaves the session and the database as they were; one that returns has
-- committed what it wrote.
abbrev pub IsAtomic : {A : Type 0} → Session → Result A × Session → Type 0
IsAtomic s (ok a, t) = t.committed ≡ t.tables
IsAtomic s (err e, t) = (t.tables ≡ s.tables) × (t.committed ≡ s.committed) × (t.events ≡ s.events)

write_progress-IsAtomic :
    (id t1 t2 enrollment_id lesson_id : ℕ) (e : Enrollment) (old : Option LessonProgress)
    (row : LessonProgress) (s : Session)
    → IsClean s
    → IsAtomic s (write_progress id t1 t2 enrollment_id lesson_id e old row s)
unfolding write_progress
write_progress-IsAtomic id t1 t2 eid lid e old row s clean = ground arith

module _ (id now t1 t2 enrollment_id lesson_id : ℕ) (u : LessonProgressUpdate) (user : User)
    (s : Session) where
  abbrev call : Result LessonProgress × Session
  call = update_lesson_progress id now t1 t2 enrollment_id lesson_id u user s

  abbrev found : Option LessonProgress
  found = get_lesson_progress enrollment_id lesson_id s.tables

  -- From a session with no unfinished writes, a call that raises has changed neither the session nor
  -- the database and announced nothing, and one that returns has committed.
  pub update-IsAtomic : IsClean s → IsAtomic s call
  unfolding update_lesson_progress
  update-IsAtomic clean = elim (Option-cases (get_by_id enrollment_id s.tables)) [
    | inl n ↦ ground arith
    | inr (e, f) ↦ elim (Result-cases (updated_row id enrollment_id lesson_id found u now)) [
      | inr (c, w) ↦ ground arith
      | inl (row, w) ↦
          ground
            (arith, write_progress-IsAtomic id t1 t2 enrollment_id lesson_id e found row s clean)
    ]
  ]

  -- A call that goes through is for an enrollment that exists, by an administrator or by the student
  -- of the enrollment.
  pub update_allowed :
      {p : LessonProgress}
      → call.0 ≡ ok p
      → (e : Enrollment) × (get_by_id enrollment_id s.tables ≡ some e)
        × ((user.role ≡ Role.admin) ⊎ ((user.role ≡ Role.student) × (e.student_id ≡ user.id)))
  unfolding update_lesson_progress can_edit_lesson_progress
  update_allowed h = ground arith

attempts-write_progress :
    (id t1 t2 enrollment_id lesson_id : ℕ) (e : Enrollment) (old : Option LessonProgress)
    (row : LessonProgress) (s : Session) {p : LessonProgress}
    → (write_progress id t1 t2 enrollment_id lesson_id e old row s).0 ≡ ok p
    → (write_progress id t1 t2 enrollment_id lesson_id e old row s).1.tables.attempts
      ≡ s.tables.attempts
unfolding write_progress
attempts-write_progress id t1 t2 eid lid e old row s h = ground arith

-- A call that returns leaves the other tables alone.
pub attempts-update :
    (id now t1 t2 enrollment_id lesson_id : ℕ) (u : LessonProgressUpdate) (user : User)
    (s : Session) {p : LessonProgress}
    → (update_lesson_progress id now t1 t2 enrollment_id lesson_id u user s).0 ≡ ok p
    → (update_lesson_progress id now t1 t2 enrollment_id lesson_id u user s).1.tables.attempts
      ≡ s.tables.attempts
unfolding update_lesson_progress
attempts-update id now t1 t2 eid lid u user s {p} h =
    let old = get_lesson_progress eid lid s.tables in
    elim (Option-cases (get_by_id eid s.tables)) [
      | inl n ↦ ground arith
      | inr (e, f) ↦ elim (Result-cases (updated_row id eid lid old u now)) [
        | inr (c, w) ↦ ground arith
        | inl (row, w) ↦
            ground (arith, attempts-write_progress id t1 t2 eid lid e old row s {p = p})
      ]
    ]

find-All :
    (p : LessonProgress → Bool) (rows : List LessonProgress)
    → All IsValid rows
    → IsValidRow (find p rows)
find-All p [] v = tt
find-All p (r ∷ rows) v = elim (Bool-cases (p r)) [
  | inl e ↦ rw e v.0
  | inr e ↦ rw e (find-All p rows v.1)
]

All-put_progress :
    (p : LessonProgress) (rows : List LessonProgress)
    → IsValid p
    → All IsValid rows
    → All IsValid (put_progress p rows)
unfolding put_progress
All-put_progress p [] h v = tt
All-put_progress p (r ∷ rows) h v = elim (Bool-cases (r.id == p.id)) [
  | inl e ↦ rw e (h, All-put_progress p rows h v.1)
  | inr e ↦ rw e (v.0, All-put_progress p rows h v.1)
]

-- The rows after the row of `old` was written as `p`.
written : Option LessonProgress → LessonProgress → List LessonProgress → List LessonProgress
written none p rows = rows ++ p ∷ []
written (some old) p rows = put_progress p rows

written-All :
    (old : Option LessonProgress) (p : LessonProgress) (rows : List LessonProgress)
    → IsValid p
    → All IsValid rows
    → All IsValid (written old p rows)
unfolding written
written-All none p rows h v = All-append IsValid rows v h
written-All (some old) p rows h v = All-put_progress p rows h v

rows-write_progress :
    (id t1 t2 enrollment_id lesson_id : ℕ) (e : Enrollment) (old : Option LessonProgress)
    (row : LessonProgress) (s : Session)
    → IsClean s
    → let t = (write_progress id t1 t2 enrollment_id lesson_id e old row s).1 in
      (t.tables.lesson_progress ≡ s.tables.lesson_progress)
      ⊎ (t.tables.lesson_progress ≡ written old row s.tables.lesson_progress)
unfolding write_progress written
rows-write_progress id t1 t2 eid lid e none row s clean = ground arith
rows-write_progress id t1 t2 eid lid e (some old) row s clean = ground arith

module _ (id now t1 t2 enrollment_id lesson_id : ℕ) (u : LessonProgressUpdate) (user : User)
    (s : Session) where
  abbrev old : Option LessonProgress
  old = get_lesson_progress enrollment_id lesson_id s.tables

  abbrev result : Result LessonProgress × Session
  result = update_lesson_progress id now t1 t2 enrollment_id lesson_id u user s

  rows-err :
      IsClean s
      → {e : Error} → updated_row id enrollment_id lesson_id old u now ≡ err e
      → result.1.tables.lesson_progress ≡ s.tables.lesson_progress
  unfolding update_lesson_progress
  rows-err clean h = ground arith

  rows-ok :
      IsClean s
      → {p : LessonProgress} → updated_row id enrollment_id lesson_id old u now ≡ ok p
      → (result.1.tables.lesson_progress ≡ s.tables.lesson_progress)
        ⊎ (result.1.tables.lesson_progress ≡ written old p s.tables.lesson_progress)
  unfolding update_lesson_progress
  rows-ok clean {p} h = elim (Option-cases (get_by_id enrollment_id s.tables)) [
    | inl n ↦ ground arith
    | inr (e, f) ↦
        ground (arith, rows-write_progress id t1 t2 enrollment_id lesson_id e old p s clean)
  ]

  old_valid : All IsValid s.tables.lesson_progress → IsValidRow old
  unfolding get_lesson_progress
  old_valid v = find-All _ s.tables.lesson_progress v

  -- From a session with no unfinished writes in which all progress rows are well formed, every call,
  -- failing or not, leaves them all well formed, unless its status is an explicit null, or its percentage is
  -- below 100 and the column rounds it up to 100.
  pub update-All :
      IsClean s
      → u.status ≢ given none
      → IsStoredBelow u
      → All IsValid s.tables.lesson_progress
      → All IsValid result.1.tables.lesson_progress
  update-All clean n b v = elim (Result-cases (updated_row id enrollment_id lesson_id old u now)) [
    | inr (e, h) ↦ rw (rows-err clean h) v
    | inl (p, h) ↦ elim (rows-ok clean h) [
      | inl same ↦ rw same v
      | inr wrote ↦ rw wrote (
          written-All old p s.tables.lesson_progress
            (updated_row-IsValid id enrollment_id lesson_id now u old n b (old_valid v) h) v)
    ]
  ]
