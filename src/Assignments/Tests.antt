-- ===== src/Assignments/Tests.antt =====
-- A course with an assignment and a submission to it, and the theorems on assignments at this data.
use lms_backend.Base.{
  ◌≡◌, refl, inr, codes, true, none, some, List, [], ◌∷◌, ok, err, http_exception, All,
}
use lms_backend.Base.Float.{plus}
use lms_backend.Core.Permissions.{Role}
use lms_backend.Db.{User, EnrollmentStatus, Tables}
use lms_backend.Enrollments.Repository.{get_by_id}
use lms_backend.Assignments.Rows.{Assignment, Submission, SubmissionCreate, SubmissionGradeRequest}
use lms_backend.Assignments.Commit.{
  commit_checked, meets_constraints, assignment_allowed, submission_allowed, same_key, unique_keys,
}
use lms_backend.Assignments.Service.{get_assignment, is_open}
use lms_backend.Assignments.Submissions.{
  get_submission, write_submission, updated_submission, graded_submission, touch_enrollment,
  out_of_range, grade_submission, own_enrollment, course_assignment, new_submission,
}
use lms_backend.Base.Float.{float_lt}
use lms_backend.Assignments.Routes.{teacher_of, submit_assignment, put_submission, grade_route}
use lms_backend.Assignments.Calls.{Call, Request, opened, serve}
use lms_backend.Assignments.Owners.{serve-keeps}
use lms_backend.Assignments.Placed.{IsPlaced, serve-IsPlaced}
use lms_backend.Assignments.Second.{refused_as_second}
use lms_backend.Assignments.Grades.{IsGraded, grade_route-IsGraded}
use lms_backend.Assignments.Unchecked.{only_grade, put_submission_unchecked}

abbrev teacher : User
teacher = record { id = 9; role = Role.instructor }

abbrev student : User
student = record { id = 7; role = Role.student }

abbrev stranger : User
stranger = record { id = 8; role = Role.instructor }

abbrev essay : Assignment
essay = record {
  id = 20;
  title = some (codes "essay");
  description = none;
  instructions = none;
  course_id = 1;
  instructor_id = 9;
  status = some (codes "published");
  is_published = some true;
  due_date = none;
  max_points = none;
  grading_type = none;
  assignment_metadata = none;
  created_at = 5;
  updated_at = 5;
}

abbrev payload : SubmissionCreate
payload = record {
  content = some (codes "text");
  file_urls = none;
  submission_type = none;
  submission_metadata = none;
  assignment_id = 20;
  enrollment_id = 5;
  submitted_at = none;
  status = codes "submitted";
}

abbrev handed_in : Submission
handed_in = record {
  id = 40;
  enrollment_id = 5;
  assignment_id = 20;
  submitted_at = 30;
  graded_at = none;
  returned_at = none;
  status = some (codes "submitted");
  grade = none;
  max_grade = none;
  feedback = none;
  feedback_attachments = none;
  submission_metadata = none;
  content = some (codes "text");
  file_urls = none;
  submission_type = none;
  updated_at = 30;
}

abbrev tables : Tables
tables = record {
  courses = record { id = 1; instructor_id = 9; is_published = true } ∷ [];
  lessons = [];
  enrollments =
      record {
        id = 5;
        student_id = 7;
        course_id = 1;
        enrolled_at = 1;
        started_at = some 1;
        completed_at = none;
        status = EnrollmentStatus.active;
        progress_percentage = 0;
        completed_lessons_count = 0;
        total_lessons_count = 0;
        total_time_spent_seconds = 0;
        last_accessed_at = none;
        certificate_issued_at = none;
        rating = none;
        review = none;
      }
      ∷ [];
  lesson_progress = [];
  quizzes = [];
  attempts = [];
  assignments = essay ∷ [];
  submissions = handed_in ∷ [];
}

abbrev full_marks : SubmissionGradeRequest
full_marks = record {
  grade = plus 10;
  max_grade = plus 10;
  feedback = codes "good";
  feedback_attachments = [];
}

-- Another instructor tries to delete the assignment and to grade, and the student hands in again.
abbrev others : List Request
others =
    record { user = stranger; call = Call.remove 20; commit_error = none }
    ∷ record { user = stranger; call = Call.grade 40 50 full_marks; commit_error = none }
    ∷ record { user = student; call = Call.submit 41 60 payload; commit_error = none }
    ∷ []

serve-keeps_example :
    (get_assignment 20 (serve others tables) ≡ some essay)
    × (get_submission 40 (serve others tables) ≡ some handed_in)
unfolding get_assignment get_submission
serve-keeps_example =
    serve-keeps others tables 20 40 essay handed_in refl refl refl (cc, (cc, (cc, tt)))

-- The teacher grades, and deletes the assignment.
abbrev own_calls : List Request
own_calls =
    record { user = teacher; call = Call.grade 40 50 full_marks; commit_error = none }
    ∷ record { user = teacher; call = Call.remove 20; commit_error = none }
    ∷ []

serve-IsPlaced_example :
    All (IsPlaced (serve own_calls tables)) (serve own_calls tables).submissions
serve-IsPlaced_example = serve-IsPlaced own_calls tables ((1, refl, refl), tt)

refused_as_second_example : submit_assignment 41 60 payload student (opened tables none) ≡ (
  err (http_exception 400 "A submission already exists for this assignment and enrollment"),
  opened tables none,
)
unfolding own_enrollment course_assignment is_open new_submission same_key
refused_as_second_example =
    refused_as_second 41 60 payload student tables refl refl refl refl (inr refl)

grade_route-IsGraded_example :
    IsGraded 40 50 full_marks teacher tables
      (graded_submission 50 full_marks handed_in)
      (grade_route 40 50 full_marks teacher (opened tables none)).1
unfolding grade_route grade_submission get_submission get_assignment get_by_id commit_checked
    meets_constraints assignment_allowed submission_allowed unique_keys out_of_range float_lt
    graded_submission touch_enrollment write_submission
grade_route-IsGraded_example = grade_route-IsGraded 40 50 full_marks teacher tables none refl

put_submission_unchecked_example :
    let (r, s) =
      put_submission 40 50 (only_grade (plus 11) (plus 10)) teacher (opened tables none) in
    (row : Submission) × (r ≡ ok row)
    × (row.grade ≡ some (plus 11))
    × (row.max_grade ≡ some (plus 10))
    × (s.committed
        ≡ write_submission 40 (updated_submission 50 (only_grade (plus 11) (plus 10))) tables)
unfolding get_submission teacher_of get_assignment meets_constraints assignment_allowed
    submission_allowed unique_keys
put_submission_unchecked_example =
    put_submission_unchecked 40 50 (plus 11) (plus 10) teacher tables refl refl refl refl
