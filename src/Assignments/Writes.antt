-- ===== src/Assignments/Writes.antt =====
-- What a call commits: nothing, or one write that its user may make.
use lms_backend.Base.{
  ℕ, ◌≡◌, ◌⊎◌, true, some, [], ◌∷◌, ◌++◌, Error, ok, err, arith, inl, inr, Option-cases, Bool-cases,
  sym, integrity_error,
}
use mathlib.Core.Path.{subst}
use lms_backend.Db.{User, Enrollment, Tables, Session}
use lms_backend.Assignments.Rows.{
  Assignment, Submission, AssignmentCreate, AssignmentUpdate, SubmissionCreate, SubmissionUpdate,
  SubmissionGradeRequest,
}
use lms_backend.Assignments.Commit.{commit_checked, meets_constraints}
use lms_backend.Assignments.Service.{
  get_assignment, is_open, new_assignment, updated_assignment, write_assignment, without_assignment,
}
use lms_backend.Assignments.Submissions.{
  own_enrollment, course_assignment, new_submission, get_submission, write_submission,
  updated_submission, graded_submission, touch_enrollment,
}
use lms_backend.Assignments.Routes.{teacher_of}

-- The writes on the tables, each with what the code has checked of its user.
pub data Write (user : User) : Tables → Tables → Type 0 where
  kept : (t : Tables) → Write user t t
  added :
      (t : Tables) (id now : ℕ) (p : AssignmentCreate)
      → Write user t
          (record t { assignments = t.assignments ++ new_assignment id now p user.id ∷ [] })
  changed :
      (t : Tables) (id now : ℕ) (u : AssignmentUpdate) (a : Assignment)
      → get_assignment id t ≡ some a
      → a.instructor_id ≡ user.id
      → Write user t (write_assignment id (updated_assignment now u) t)
  removed :
      (t : Tables) (id : ℕ) (a : Assignment)
      → get_assignment id t ≡ some a
      → a.instructor_id ≡ user.id
      → Write user t (without_assignment id t)
  submitted :
      (t : Tables) (id now : ℕ) (p : SubmissionCreate) (e : Enrollment) (a : Assignment)
      → own_enrollment p.enrollment_id user.id t ≡ some e
      → course_assignment p.assignment_id e.course_id t ≡ some a
      → is_open a ≡ true
      → Write user t (record t { submissions = t.submissions ++ new_submission id now p ∷ [] })
  revised :
      (t : Tables) (id now : ℕ) (u : SubmissionUpdate) (row : Submission)
      → get_submission id t ≡ some row
      → teacher_of row t ≡ some user.id
      → Write user t (write_submission id (updated_submission now u) t)
  graded :
      (t : Tables) (id now : ℕ) (p : SubmissionGradeRequest) (row : Submission)
      → get_submission id t ≡ some row
      → teacher_of row t ≡ some user.id
      → Write user t
          (touch_enrollment now row.enrollment_id (write_submission id (graded_submission now p) t))

pub commit_checked-cases :
    (s : Session)
    → (commit_checked s ≡ (ok tt, record s { committed = s.tables }))
      ⊎ ((e : Error) × (commit_checked s ≡ (err e, s)))
unfolding commit_checked
commit_checked-cases s = elim (Option-cases s.commit_error) [
  | inr (e, c) ↦ inr (e, ground arith)
  | inl n ↦ elim (Bool-cases (meets_constraints s.tables)) [
    | inl m ↦ inl (ground arith)
    | inr m ↦ inr (integrity_error, ground arith)
  ]
]

-- A call after whose guard comes a commit: what it commits is what it wrote, or nothing.
pub moved : {user : User} {t t' t'' : Tables} → t'' ≡ t' → Write user t t' → Write user t t''
moved {user} {t} e w = subst (λ x. Write user t x) (sym e) w
