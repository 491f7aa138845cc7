-- ===== src/Assignments/Routes.antt =====
-- app/modules/assignments/routers/routers.py: who may make which call, and the HTTP errors.
use lms_backend.Base.{
  ℕ, ◌+◌, ◌/◌, Text, codes, text_eq, starts_with, Bool, true, false, ◌&&◌, not, Option, none, some,
  List, [], ◌∷◌, Result, ok, err, Error, value_error, zero_division_error, http_exception,
  attribute_error, Action, ◌>>=◌, ◌>>◌, pure, gets, lift, require, raise_if, ◌==◌, if◌then◌else◌,
  any, String,
}
use Prim.Native.Nat.{zero, suc}
use lms_backend.Base.Strip.{lower}
use lms_backend.Core.Permissions.{Role, role_eq}
use lms_backend.Db.{User, Course, Tables, Session}
use lms_backend.Enrollments.Repository.{find_course, get_by_id, get_by_student_and_course}
use lms_backend.Assignments.Rows.{
  Assignment, Submission, AssignmentCreate, AssignmentUpdate, SubmissionCreate, SubmissionUpdate,
  SubmissionGradeRequest,
}
use lms_backend.Assignments.Commit.{is_set}
use lms_backend.Assignments.Service.{
  get_assignment, is_open, get_assignments_by_course, create_assignment, update_assignment,
  delete_assignment,
}
use lms_backend.Assignments.Submissions.{
  get_submission, get_submissions_by_assignment, get_submissions_by_enrollment, create_submission,
  update_submission, grade_submission,
}

-- `HTTPException(status_code, detail)`, `raise`d on a condition.
abbrev pub refuse_if : Bool → ℕ → String → Action Session (Unit {0})
refuse_if condition status_code detail = raise_if condition (http_exception status_code detail)

abbrev pub translated : {A : Type 0} → (String → Error) → Result A → Result A
translated translate (err (value_error detail)) = err (translate detail)
translated translate r = r

-- `except ValueError as exc`
abbrev pub on_value_error : {A : Type 0} → (String → Error) → Action Session A → Action Session A
on_value_error translate call s = let (r, s') = call s in (translated translate r, s')

-- `part in text`
abbrev pub contains : Text → Text → Bool
contains part [] = starts_with part []
contains part (c ∷ text) = if starts_with part (c ∷ text) then true else contains part text

-- `POST /assignments`
unfoldable pub post_assignment : ℕ → ℕ → AssignmentCreate → User → Action Session Assignment
post_assignment id now payload user = do
  refuse_if (not (role_eq user.role Role.instructor)) 403 "Only instructors can create assignments"
  t ← gets (λ s. s.tables)
  course ← require (find_course payload.course_id t) (http_exception 404 "Course not found")
  refuse_if (not (course.instructor_id == user.id)) 403
      "You don't have permission to create assignments for this course"
  create_assignment id now payload user.id

-- The guard of a student, who must be enrolled in the course of an open assignment.
unfoldable pub student_sees : User → Assignment → Tables → Result (Unit {0})
student_sees user a t =
    if not (is_set (get_by_student_and_course user.id a.course_id t))
    then err (http_exception 403 "You don't have access to this assignment")
    else if is_open a
    then ok tt
    else err (http_exception 403 "Assignment is not available to students")

-- `GET /assignments/{assignment_id}`
unfoldable pub read_assignment : ℕ → User → Action Session Assignment
read_assignment id user = do
  t ← gets (λ s. s.tables)
  a ← require (get_assignment id t) (http_exception 404 "Assignment not found")
  lift (elim user.role [
    | Role.student ↦ student_sees user a t
    | Role.instructor ↦
        if a.instructor_id == user.id
        then ok tt
        else err (http_exception 403 "You don't have access to this assignment")
    | Role.admin ↦ ok tt
  ])
  pure a

-- `skip // limit + 1`, the page of each list response.
unfoldable pub page_of : ℕ → ℕ → Result ℕ
page_of skip zero = err zero_division_error
page_of skip (suc n) = ok (skip / suc n + 1)

-- The guard of `GET /assignments/course/{course_id}`.
unfoldable pub may_list : ℕ → User → Tables → Bool
may_list course_id user t = elim user.role [
  | Role.student ↦ is_set (get_by_student_and_course user.id course_id t)
  | Role.instructor ↦ elim (find_course course_id t) [
    | none ↦ false
    | some c ↦ c.instructor_id == user.id
  ]
  | Role.admin ↦ true
]

-- `GET /assignments/course/{course_id}`: the assignments, their number, and the page.
unfoldable pub list_assignments : ℕ → ℕ → ℕ → User → Action Session (List Assignment × ℕ × ℕ)
list_assignments course_id skip limit user = do
  t ← gets (λ s. s.tables)
  refuse_if (not (may_list course_id user t)) 403 "You don't have access to this course"
  let found = get_assignments_by_course course_id skip limit (role_eq user.role Role.student) t
  page ← lift (page_of skip limit)
  pure (found.0, found.1, page)

-- The guard of the two routes that change an assignment.
unfoldable pub own_assignment : ℕ → String → User → Action Session Assignment
own_assignment id detail user = do
  t ← gets (λ s. s.tables)
  a ← require (get_assignment id t) (http_exception 404 "Assignment not found")
  refuse_if (not (role_eq user.role Role.instructor && (a.instructor_id == user.id))) 403 detail
  pure a

-- `PUT /assignments/{assignment_id}`
unfoldable pub put_assignment : ℕ → ℕ → AssignmentUpdate → User → Action Session Assignment
put_assignment id now u user = do
  own_assignment id "You don't have permission to update this assignment" user
  updated ← update_assignment id now u
  require updated (http_exception 400 "Failed to update assignment")

-- `DELETE /assignments/{assignment_id}`
unfoldable pub remove_assignment : ℕ → User → Action Session (Unit {0})
remove_assignment id user = do
  own_assignment id "You don't have permission to delete this assignment" user
  success ← delete_assignment id
  refuse_if (not success) 400 "Failed to delete assignment"

-- The statuses that `submit_assignment` gives to the messages of the service.
unfoldable pub submit_error : String → Error
submit_error detail =
    if text_eq (codes detail) (codes "Enrollment not found")
    then http_exception 404 detail
    else if text_eq (codes detail) (codes "Assignment is not published")
    then http_exception 403 detail
    else http_exception 400 detail

-- `POST /assignments/submit`
unfoldable pub submit_assignment : ℕ → ℕ → SubmissionCreate → User → Action Session Submission
submit_assignment id now payload user = do
  refuse_if (not (role_eq user.role Role.student)) 403 "Only students can submit assignments"
  on_value_error submit_error (create_submission id now payload user.id)

-- The relationship `submission.assignment`, and `submission.enrollment`.
unfoldable pub teacher_of : Submission → Tables → Option ℕ
teacher_of row t = elim (get_assignment row.assignment_id t) [
  | none ↦ none
  | some a ↦ some a.instructor_id
]

unfoldable pub student_of : Submission → Tables → Option ℕ
student_of row t = elim (get_by_id row.enrollment_id t) [ none ↦ none | some e ↦ some e.student_id ]

-- `GET /assignments/submissions/{submission_id}`
unfoldable pub read_submission : ℕ → User → Action Session Submission
read_submission id user = do
  t ← gets (λ s. s.tables)
  row ← require (get_submission id t) (http_exception 404 "Submission not found")
  owner ←
      require
        (elim user.role [
          | Role.student ↦ student_of row t
          | Role.instructor ↦ teacher_of row t
          | Role.admin ↦ some user.id
        ])
        attribute_error
  refuse_if (not (owner == user.id)) 403 "You don't have access to this submission"
  pure row

-- `GET /assignments/submissions/assignment/{assignment_id}`
unfoldable pub list_by_assignment : ℕ → ℕ → ℕ → User → Action Session (List Submission × ℕ × ℕ)
list_by_assignment id skip limit user = do
  refuse_if (not (role_eq user.role Role.instructor)) 403
      "Only instructors can view submissions for an assignment"
  t ← gets (λ s. s.tables)
  a ←
      require (get_assignment id t)
        (http_exception 404 "Assignment not found or you don't have access")
  refuse_if (not (a.instructor_id == user.id)) 404 "Assignment not found or you don't have access"
  let found = get_submissions_by_assignment id skip limit t
  page ← lift (page_of skip limit)
  pure (found.0, found.1, page)

unfoldable pub teaches : User → ℕ → Tables → Bool
teaches user course_id t =
    any (λ (c : Course). (c.id == course_id) && (c.instructor_id == user.id)) t.courses

-- `GET /assignments/submissions/enrollment/{enrollment_id}`
unfoldable pub list_by_enrollment : ℕ → ℕ → ℕ → User → Action Session (List Submission × ℕ × ℕ)
list_by_enrollment id skip limit user = do
  t ← gets (λ s. s.tables)
  e ← require (get_by_id id t) (http_exception 404 "Enrollment not found")
  lift (elim user.role [
    | Role.student ↦
        if e.student_id == user.id
        then ok tt
        else err (http_exception 403 "You can only access your own submissions")
    | Role.instructor ↦
        if teaches user e.course_id t
        then ok tt
        else err (http_exception 403 "You don't have access to this enrollment")
    | Role.admin ↦ ok tt
  ])
  let found = get_submissions_by_enrollment id skip limit t
  page ← lift (page_of skip limit)
  pure (found.0, found.1, page)

-- `PUT /assignments/submissions/{submission_id}`
unfoldable pub put_submission : ℕ → ℕ → SubmissionUpdate → User → Action Session Submission
put_submission id now u user = do
  t ← gets (λ s. s.tables)
  row ← require (get_submission id t) (http_exception 404 "Submission not found")
  refuse_if (not (role_eq user.role Role.instructor)) 403
      "You don't have permission to update this submission"
  teacher ← require (teacher_of row t) attribute_error
  refuse_if (not (teacher == user.id)) 403 "You don't have permission to update this submission"
  updated ← update_submission id now u
  require updated (http_exception 400 "Failed to update submission")

-- The statuses that `grade_submission` gives to the messages of the service.
unfoldable pub grade_error : String → Error
grade_error detail =
    if text_eq (codes detail) (codes "Submission not found")
    then http_exception 404 detail
    else if contains (codes "permission") (lower (codes detail))
    then http_exception 403 detail
    else http_exception 400 detail

-- `POST /assignments/submissions/{submission_id}/grade`
unfoldable pub grade_route : ℕ → ℕ → SubmissionGradeRequest → User → Action Session Submission
grade_route id now p user = do
  refuse_if (not (role_eq user.role Role.instructor)) 403 "Only instructors can grade submissions"
  on_value_error grade_error (grade_submission id now p user.id)
