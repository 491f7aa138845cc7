-- ===== src/Assignments/Submissions.antt =====
-- `SubmissionService` of app/modules/assignments/services/services.py.
use lms_backend.Base.{
  ℕ, Text, codes, text_eq, Bool, true, false, ◌&&◌, ◌||◌, not, Option, none, some, List, [], ◌∷◌,
  ◌++◌, Error, Result, ok, err, value_error, integrity_error, attribute_error, Action, ◌>>=◌, ◌>>◌,
  pure, gets, modify, require, raise_if, ◌==◌, if◌then◌else◌, find, keep, length, drop,
}
use lms_backend.Base.Float.{Float, plus, float_lt}
use lms_backend.Base.Patch.{Update, unset, given, get_or}
use lms_backend.Utils.Pagination.{take}
use lms_backend.Db.{Enrollment, Tables, Session, rollback}
use lms_backend.Enrollments.Repository.{get_by_id}
use lms_backend.Base.Changes.{update_by}
use lms_backend.Assignments.Rows.{
  Assignment, Submission, SubmissionCreate, SubmissionUpdate, SubmissionGradeRequest,
}
use lms_backend.Assignments.Commit.{commit_checked}
use lms_backend.Assignments.Service.{get_assignment, is_open}

unfoldable pub new_submission : ℕ → ℕ → SubmissionCreate → Submission
new_submission id now payload = record {
  id = id;
  enrollment_id = payload.enrollment_id;
  assignment_id = payload.assignment_id;
  submitted_at = elim payload.submitted_at [ some at ↦ at | none ↦ now ];
  graded_at = none;
  returned_at = none;
  status = some payload.status;
  grade = none;
  max_grade = none;
  feedback = none;
  feedback_attachments = none;
  submission_metadata = payload.submission_metadata;
  content = payload.content;
  file_urls = payload.file_urls;
  submission_type = payload.submission_type;
  updated_at = now;
}

-- The enrollment of the student, and the assignment in its course.
unfoldable pub own_enrollment : ℕ → ℕ → Tables → Option Enrollment
own_enrollment id student_id t =
    find (λ e. (e.id == id) && (e.student_id == student_id)) t.enrollments

unfoldable pub course_assignment : ℕ → ℕ → Tables → Option Assignment
course_assignment id course_id t =
    find (λ a. (a.id == id) && (a.course_id == course_id)) t.assignments

-- The handler of `create_submission`, which takes every integrity error for a second submission.
unfoldable pub second_submission : Error → Session → Result (Unit {0}) × Session
second_submission integrity_error s =
    (err (value_error "A submission already exists for this assignment and enrollment"), rollback s)
second_submission other s = (err other, s)

unfoldable pub commit_submission : Action Session (Unit {0})
commit_submission s =
    let (r, s') = commit_checked s in
    elim r [ ok done ↦ (ok tt, s') | err e ↦ second_submission e s' ]

unfoldable pub add_submission : Submission → Session → Session
add_submission row s = record s {
  tables = record s.tables { submissions = s.tables.submissions ++ row ∷ [] };
}

-- `create_submission`
unfoldable pub create_submission : ℕ → ℕ → SubmissionCreate → ℕ → Action Session Submission
create_submission id now payload student_id = do
  t ← gets (λ s. s.tables)
  enrollment ←
      require (own_enrollment payload.enrollment_id student_id t)
        (value_error "Enrollment not found")
  assignment ←
      require (course_assignment payload.assignment_id enrollment.course_id t)
        (value_error "Assignment not found or does not belong to the course")
  raise_if (not (is_open assignment)) (value_error "Assignment is not published")
  modify (add_submission (new_submission id now payload))
  commit_submission
  pure (new_submission id now payload)

-- `get_submission`
unfoldable pub get_submission : ℕ → Tables → Option Submission
get_submission id t = find (λ s. s.id == id) t.submissions

-- `get_submissions_by_assignment`
unfoldable pub get_submissions_by_assignment : ℕ → ℕ → ℕ → Tables → List Submission × ℕ
get_submissions_by_assignment assignment_id skip limit t =
    let rows = keep (λ s. s.assignment_id == assignment_id) t.submissions in
    (take limit (drop skip rows), length rows)

-- `get_submissions_by_enrollment`
unfoldable pub get_submissions_by_enrollment : ℕ → ℕ → ℕ → Tables → List Submission × ℕ
get_submissions_by_enrollment enrollment_id skip limit t =
    let rows = keep (λ s. s.enrollment_id == enrollment_id) t.submissions in
    (take limit (drop skip rows), length rows)

unfoldable pub write_submission : ℕ → (Submission → Submission) → Tables → Tables
write_submission id f t = record t {
  submissions = update_by (λ (s : Submission). s.id) id f t.submissions;
}

-- `payload.status == name`
abbrev pub asks_status : Text → Update Text → Bool
asks_status name unset = false
asks_status name (given none) = false
asks_status name (given (some v)) = text_eq v name

-- `if asked and column is None: column = now`
abbrev pub set_once : Bool → ℕ → Option ℕ → Option ℕ
set_once asked now (some at) = some at
set_once asked now none = if asked then some now else none

-- What `update_submission` does to the row.
unfoldable pub updated_submission : ℕ → SubmissionUpdate → Submission → Submission
updated_submission now u s = record s {
  grade = get_or u.grade s.grade;
  max_grade = get_or u.max_grade s.max_grade;
  feedback = get_or u.feedback s.feedback;
  feedback_attachments = get_or u.feedback_attachments s.feedback_attachments;
  status = get_or u.status s.status;
  graded_at = set_once (asks_status (codes "graded") u.status) now (get_or u.graded_at s.graded_at);
  returned_at =
      set_once (asks_status (codes "returned") u.status) now (get_or u.returned_at s.returned_at);
  updated_at = now;
}

-- `update_submission`
unfoldable pub update_submission : ℕ → ℕ → SubmissionUpdate → Action Session (Option Submission)
update_submission id now u = do
  t ← gets (λ s. s.tables)
  elim (get_submission id t) [
    | none ↦ pure none
    | some row ↦ do
      modify (λ s. record s { tables = write_submission id (updated_submission now u) s.tables })
      commit_checked
      pure (some (updated_submission now u row))
  ]

-- `delete_submission`
unfoldable pub delete_submission : ℕ → Action Session Bool
delete_submission id = do
  t ← gets (λ s. s.tables)
  elim (get_submission id t) [
    | none ↦ pure false
    | some row ↦ do
      modify (λ s. record s {
        tables = record s.tables {
          submissions = keep (λ (x : Submission). not (x.id == id)) s.tables.submissions;
        };
      })
      commit_checked
      pure true
  ]

-- What `grade_submission` does to the row.
unfoldable pub graded_submission : ℕ → SubmissionGradeRequest → Submission → Submission
graded_submission now p s = record s {
  grade = some p.grade;
  max_grade = some p.max_grade;
  feedback = some p.feedback;
  feedback_attachments = some p.feedback_attachments;
  status = some (codes "graded");
  graded_at = some now;
  updated_at = now;
}

unfoldable pub touch_enrollment : ℕ → ℕ → Tables → Tables
touch_enrollment now id t = record t {
  enrollments =
      update_by (λ (e : Enrollment). e.id) id (λ e. record e { last_accessed_at = some now })
        t.enrollments;
}

-- `grade < 0 or grade > max_grade`
unfoldable pub out_of_range : Float → Float → Bool
out_of_range grade max_grade = float_lt grade (plus 0) || float_lt max_grade grade

-- `grade_submission`; the upper limit at the end of the first message is left out.
unfoldable pub grade_submission : ℕ → ℕ → SubmissionGradeRequest → ℕ → Action Session Submission
grade_submission id now p instructor_id = do
  raise_if (out_of_range p.grade p.max_grade) (value_error "Grade must be between 0 and ")
  t ← gets (λ s. s.tables)
  row ← require (get_submission id t) (value_error "Submission not found")
  assignment ← require (get_assignment row.assignment_id t) attribute_error
  raise_if (not (assignment.instructor_id == instructor_id))
      (value_error "You don't have permission to grade this submission")
  modify (λ s. record s { tables = write_submission id (graded_submission now p) s.tables })
  enrollment ← require (get_by_id row.enrollment_id t) attribute_error
  modify (λ s. record s { tables = touch_enrollment now row.enrollment_id s.tables })
  commit_checked
  pure (graded_submission now p row)
