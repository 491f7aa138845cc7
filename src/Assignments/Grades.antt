-- ===== src/Assignments/Grades.antt =====
-- Grading: what passes the check of the grade, and what a call that returns has done.
use lms_backend.Base.{
  ℕ, ◌≤◌, ◌≡◌, ◌≢◌, refl, codes, List, [], ◌∷◌, find, ◌↔◌, ◌⊎◌, false, Option, some, ◌∙◌, sym, ap,
  Result, value_error, ok, err, arith, inl, inr, Option-cases, Bool-cases, ◌==◌, ==_iff, Error,
  String,
}
use lms_backend.Base.Float.{Float, nan, infinity, minus_infinity, plus, minus, float_lt}
use lms_backend.Core.Permissions.{Role, role_eq}
use lms_backend.Db.{User, Enrollment, Tables, Session}
use lms_backend.Base.Changes.{update_by, find-update_by}
use lms_backend.Enrollments.Repository.{get_by_id}
use lms_backend.Assignments.Rows.{Assignment, Submission, SubmissionGradeRequest}
use lms_backend.Assignments.Service.{get_assignment}
use lms_backend.Assignments.Submissions.{
  get_submission, write_submission, graded_submission, touch_enrollment, out_of_range,
  grade_submission,
}
use lms_backend.Assignments.Routes.{
  translated, on_value_error, teacher_of, grade_route, grade_error,
}
use lms_backend.Assignments.Calls.{opened}
use mathlib.Core.Path.{subst}
use lms_backend.Assignments.Writes.{commit_checked-cases}

-- `a ≤ b` of the extended reals; `nan` is not comparable.
abbrev pub IsLe : Float → Float → Type 0
IsLe minus_infinity minus_infinity = Unit
IsLe minus_infinity infinity = Unit
IsLe minus_infinity (plus b) = Unit
IsLe minus_infinity (minus b) = Unit
IsLe infinity infinity = Unit
IsLe (plus a) infinity = Unit
IsLe (minus a) infinity = Unit
IsLe (plus a) (plus b) = a ≤ b
IsLe (minus a) (plus b) = Unit
IsLe (minus a) (minus b) = b ≤ a
IsLe _ _ = ⊥

-- What `grade_submission` lets pass: a grade from zero to the maximum, and also whatever is not a number, as the
-- grade or as the maximum.
pub out_of_range_iff :
    (grade max_grade : Float)
    → (out_of_range grade max_grade ≡ false)
      ↔ ((grade ≡ nan) ⊎ ((IsLe (plus 0) grade) × ((max_grade ≡ nan) ⊎ IsLe grade max_grade)))
unfolding out_of_range float_lt
out_of_range_iff nan nan = ground arith
out_of_range_iff nan m = ground arith
out_of_range_iff g nan = ground arith
out_of_range_iff infinity infinity = ground arith
out_of_range_iff minus_infinity m = ground arith
out_of_range_iff (minus a) m = ground arith
out_of_range_iff (plus a) (plus b) = ground arith
out_of_range_iff g m = ground arith

-- The grade is from zero to the maximum, or what is not a number stands in its place or in the maximum's.
abbrev pub IsGrade : Float → Float → Type 0
IsGrade grade max_grade =
    (grade ≡ nan) ⊎ ((IsLe (plus 0) grade) × ((max_grade ≡ nan) ⊎ IsLe grade max_grade))

-- The row is the old one with the grade, its maximum, the feedback, the status and the times.
abbrev pub IsGradedRow : ℕ → SubmissionGradeRequest → Submission → Submission → Type 0
IsGradedRow now p old row = row ≡ record old {
  grade = some p.grade;
  max_grade = some p.max_grade;
  feedback = some p.feedback;
  feedback_attachments = some p.feedback_attachments;
  status = some (codes "graded");
  graded_at = some now;
  updated_at = now;
}

-- The tables differ in the submission of this identifier, which is now this row, and in the enrollment of that
-- identifier, which is as before but for the time of its last access.
pub record IsWritten (id now enrollment_id : ℕ) (row : Submission) (t w : Tables) : Type 0 where
  pub row_stored : get_submission id w ≡ some row
  pub others_kept : (k : ℕ) → k ≢ id → get_submission k w ≡ get_submission k t
  pub enrollment_touched :
      (e : Enrollment)
      → get_by_id enrollment_id t ≡ some e
      → get_by_id enrollment_id w ≡ some (record e { last_accessed_at = some now })
  pub enrollments_kept : (k : ℕ) → k ≢ enrollment_id → get_by_id k w ≡ get_by_id k t
  pub rest_kept : w ≡ record t { submissions = w.submissions; enrollments = w.enrollments }

-- What a call of `grade_route` that returns has checked and done.
abbrev pub IsGraded : ℕ → ℕ → SubmissionGradeRequest → User → Tables → Submission → Session → Type 0
IsGraded id now p user t row s =
    (user.role ≡ Role.instructor)
    × IsGrade p.grade p.max_grade
    × ((old : Submission) × (get_submission id t ≡ some old)
        × ((a : Assignment) × (get_assignment old.assignment_id t ≡ some a)
            × (a.instructor_id ≡ user.id))
        × IsGradedRow now p old row
        × IsWritten id now old.enrollment_id row t s.committed)

find_updated :
    {A : Type 0} (key : A → ℕ) (id : ℕ) (f : A → A)
    → ((x : A) → key (f x) ≡ key x)
    → (xs : List A) {a : A} → find (λ x. key x == id) xs ≡ some a
    → find (λ x. key x == id) (update_by key id f xs) ≡ some (f a)
find_updated key id f same [] h = cc
find_updated key id f same (x ∷ xs) {a} h = elim (Bool-cases (key x == id)) [
  | inl e ↦ let first : x ≡ a = ground arith in ground (arith, same x, first)
  | inr e ↦ ground (arith, find_updated key id f same xs {a = a} (ground arith))
]

-- The two writes of a grading, one after the other.
graded-IsWritten :
    (id now : ℕ) (p : SubmissionGradeRequest) (t : Tables) {old : Submission}
    → get_submission id t ≡ some old
    → IsWritten id now old.enrollment_id
        (graded_submission now p old)
        t
        (touch_enrollment now old.enrollment_id (write_submission id (graded_submission now p) t))
unfolding get_submission get_by_id touch_enrollment write_submission graded_submission
graded-IsWritten id now p t {old} f =
    let key : Submission → ℕ = λ s. s.id in
    let owner : Enrollment → ℕ = λ e. e.id in
    let touch : Enrollment → Enrollment = λ e. record e { last_accessed_at = some now } in
    record {
      row_stored =
          find_updated key id (graded_submission now p) (λ s. refl) t.submissions {a = old} f;
      others_kept =
          λ k n. find-update_by key id k (graded_submission now p) (λ s. refl) n t.submissions;
      enrollment_touched =
          λ e g. find_updated owner old.enrollment_id touch (λ x. refl) t.enrollments {a = e} g;
      enrollments_kept =
          λ k n. find-update_by owner old.enrollment_id k touch (λ x. refl) n t.enrollments;
      rest_kept = refl;
    }

-- The same in the words of the code.
abbrev IsGradedBy : ℕ → ℕ → SubmissionGradeRequest → User → Tables → Submission → Session → Type 0
IsGradedBy id now p user t row s =
    (user.role ≡ Role.instructor)
    × (out_of_range p.grade p.max_grade ≡ false)
    × ((old : Submission) × (get_submission id t ≡ some old)
        × ((a : Assignment) × (get_assignment old.assignment_id t ≡ some a)
            × (a.instructor_id ≡ user.id))
        × (row ≡ graded_submission now p old)
        × (s.committed
            ≡ touch_enrollment now old.enrollment_id
                (write_submission id (graded_submission now p) t)))

IsGradedBy-IsGraded :
    (id now : ℕ) (p : SubmissionGradeRequest) (user : User) (t : Tables) (row : Submission)
    (s : Session)
    → IsGradedBy id now p user t row s
    → IsGraded id now p user t row s
IsGradedBy-IsGraded id now p user t row s (instructor, range, (old, f, teacher, same, stored)) = (
  instructor,
  (out_of_range_iff p.grade p.max_grade).0 range,
  (
    old,
    f,
    teacher,
    same ∙ unfold graded_submission in refl,
    subst (IsWritten id now old.enrollment_id row t) (sym stored) (
        subst
          (λ r. IsWritten id now old.enrollment_id r t (
            touch_enrollment now old.enrollment_id
              (write_submission id (graded_submission now p) t)))
          (sym same) (graded-IsWritten id now p t f)),
  ),
)

grading-IsGradedBy :
    (id now : ℕ) (p : SubmissionGradeRequest) (user : User) (t : Tables) (e : Option Error)
    {row : Submission}
    → user.role ≡ Role.instructor
    → (grade_submission id now p user.id (opened t e)).0 ≡ ok row
    → IsGradedBy id now p user t row (grade_submission id now p user.id (opened t e)).1
unfolding grade_submission teacher_of
grading-IsGradedBy id now p user t e r h = elim (Bool-cases (out_of_range p.grade p.max_grade)) [
  | inl n ↦ absurd (ground arith)
  | inr range ↦ elim (Option-cases (get_submission id t)) [
    | inl n ↦ absurd (ground arith)
    | inr (old, f) ↦ elim (Option-cases (get_assignment old.assignment_id t)) [
      | inl n ↦ absurd (ground arith)
      | inr (a, g) ↦ elim (Bool-cases (a.instructor_id == user.id)) [
        | inr n ↦ absurd (ground arith)
        | inl own ↦ elim (Option-cases (get_by_id old.enrollment_id t)) [
          | inl n ↦ absurd (ground arith)
          | inr (en, k) ↦
              let w : Session = record (opened t e) {
                tables =
                    touch_enrollment now old.enrollment_id
                      (write_submission id (graded_submission now p) t);
              } in
              elim (commit_checked-cases w) [
                | inr (x, q) ↦ absurd (ground arith)
                | inl q ↦ (
                  r,
                  range,
                  (
                    old,
                    f,
                    (a, g, (==_iff a.instructor_id user.id).0 own),
                    ground arith,
                    ground arith,
                  ),
                )
              ]
        ]
      ]
    ]
  ]
]

translated-ok :
    {A : Type 0} (f : String → Error) (r : Result A) {a : A} → translated f r ≡ ok a → r ≡ ok a
translated-ok f (ok b) h = h
translated-ok f (err (value_error d)) h = cc
translated-ok f (err x) h = cc

-- When `POST /assignments/submissions/{id}/grade` returns, the caller is an instructor and teaches the assignment;
-- the grade is not a number, or is at least zero and at most the maximum, if that is a number; the row returned is
-- the old one with the requested grade, maximum and feedback, the status `graded` and the time of the call; and
-- the committed tables hold this row, and differ from those before in it and in the time of the last access to its
-- enrollment only.
pub grade_route-IsGraded :
    (id now : ℕ) (p : SubmissionGradeRequest) (user : User) (t : Tables) (e : Option Error)
    {row : Submission}
    → (grade_route id now p user (opened t e)).0 ≡ ok row
    → IsGraded id now p user t row (grade_route id now p user (opened t e)).1
unfolding grade_route
grade_route-IsGraded id now p user t e {row} h =
    elim (Bool-cases (role_eq user.role Role.instructor)) [
      | inr n ↦ absurd (ground arith)
      | inl r ↦
          let same : grade_route id now p user (opened t e)
              ≡ on_value_error grade_error (grade_submission id now p user.id) (opened t e) =
            ground arith in
          subst (λ x. IsGraded id now p user t row x.1) (sym same)
            (IsGradedBy-IsGraded id now p user t row
              (grade_submission id now p user.id (opened t e)).1
              (grading-IsGradedBy id now p user t e (ground arith) (
                translated-ok grade_error (grade_submission id now p user.id (opened t e)).0
                  (ap (λ x. x.0) (sym same) ∙ h))))
    ]
