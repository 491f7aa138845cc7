-- ===== src/Enrollments/Tests.antt =====
-- A course with two lessons and one student, and the theorems on enrollments at this data.
use lms_backend.Base.{
  false, ℕ, ◌≡◌, ◌⊎◌, ◌↔◌, ◌≤◌, ◌<◌, refl, true, Option, none, some, List, [], ◌∷◌, arith, All,
}
use lms_backend.Base.Sets.{Subset}
use lms_backend.Core.Permissions.{Role}
use lms_backend.Db.{
  LessonType, User, Course, Enrollment, EnrollmentStatus, LessonProgress, ProgressStatus, Tables,
  Session,
}
use lms_backend.Enrollments.Repository.{find_course, matches, get_by_id, put_progress}
use lms_backend.Base.Patch.{unset, given}
use lms_backend.Enrollments.Progress.{hundredths, LessonProgressUpdate, updated_row}
use lms_backend.Enrollments.Progress.Valid.{IsStoredBelow, IsValid}
use lms_backend.Enrollments.Summary.{refresh_enrollment_summary}
use lms_backend.Enrollments.Summary.Lessons.{completed_lessons, refresh_completed_iff}
use lms_backend.Enrollments.Service.{enroll, update_lesson_progress}
use lms_backend.Enrollments.Service.Enroll.Promises.{Returns, enroll-Returns}
use lms_backend.Enrollments.Service.Lessons.{IsAtomic, update-IsAtomic, update_allowed, update-All}

abbrev student : User
student = record { id = 7; role = Role.student }

abbrev course : Course
course = record { id = 1; instructor_id = 9; is_published = true }

abbrev enrollment : Enrollment
enrollment = record {
  id = 5;
  student_id = 7;
  course_id = 1;
  enrolled_at = 100;
  started_at = some 100;
  completed_at = none;
  status = EnrollmentStatus.active;
  progress_percentage = 5000;
  completed_lessons_count = 1;
  total_lessons_count = 2;
  total_time_spent_seconds = 60;
  last_accessed_at = none;
  certificate_issued_at = none;
  rating = none;
  review = none;
}

abbrev progress : ℕ → ℕ → ProgressStatus → Option ℕ → Option ℕ → ℕ → LessonProgress
progress id lesson status started finished percentage = record {
  id = id;
  enrollment_id = 5;
  lesson_id = lesson;
  status = status;
  started_at = started;
  completed_at = finished;
  time_spent_seconds = 60;
  last_position_seconds = 0;
  completion_percentage = percentage;
  attempts_count = 0;
  progress_metadata = none;
}

abbrev finished_row : LessonProgress
finished_row = progress 20 10 ProgressStatus.completed (some 110) (some 120) 10000

abbrev open_row : LessonProgress
open_row = progress 21 11 ProgressStatus.in_progress (some 130) none 4000

abbrev tables : List Enrollment → List LessonProgress → Tables
tables enrollments rows = record {
  courses = course ∷ [];
  lessons =
      record {
        id = 10;
        course_id = 1;
        lesson_type = LessonType.text;
        order_index = 1;
        parent_lesson_id = none;
        video_url = none;
        is_preview = false;
      }
      ∷ record {
        id = 11;
        course_id = 1;
        lesson_type = LessonType.text;
        order_index = 2;
        parent_lesson_id = none;
        video_url = none;
        is_preview = false;
      }
      ∷ [];
  enrollments = enrollments;
  lesson_progress = rows;
  quizzes = [];
  attempts = [];
  assignments = [];
  submissions = [];
}

abbrev session : Tables → Session
session t = record { tables = t; committed = t; commit_error = none; events = [] }

abbrev running : Session
running = session (tables (enrollment ∷ []) (finished_row ∷ open_row ∷ []))

abbrev request : LessonProgressUpdate
request = record {
  status = given (some ProgressStatus.completed);
  time_spent_seconds = unset;
  last_position_seconds = unset;
  completion_percentage = unset;
  notes = unset;
}

abbrev null_request : LessonProgressUpdate
null_request = record {
  status = given none;
  time_spent_seconds = unset;
  last_position_seconds = unset;
  completion_percentage = given (some (hundredths 5000));
  notes = unset;
}

abbrev reset : LessonProgressUpdate
reset = record {
  status = given (some ProgressStatus.not_started);
  time_spent_seconds = given (some 0);
  last_position_seconds = given (some 0);
  completion_percentage = given (some (hundredths 0));
  notes = unset;
}

finished-IsValid : IsValid finished_row
finished-IsValid = ground arith

open-IsValid : IsValid open_row
open-IsValid = ground arith

refresh_completed_iff_example :
    let e = record enrollment {
      completed_lessons_count = 1;
      total_lessons_count = 2;
      total_time_spent_seconds = 120;
      last_accessed_at = some 300;
    } in
    ((e.status ≡ EnrollmentStatus.completed) ↔ ((0 < 2) × Subset (10 ∷ 11 ∷ []) (10 ∷ [])))
    × (e.progress_percentage ≤ 10000)
unfolding refresh_enrollment_summary completed_lessons
refresh_completed_iff_example =
    refresh_completed_iff 300 300 enrollment running
      (record {
        lessons_distinct = (refl, (refl, tt));
        rows_distinct = (refl, tt);
        rows_within = λ a h. ground arith;
      })
      refl

update-IsAtomic_example :
    IsAtomic running (update_lesson_progress 30 200 201 202 5 11 request student running)
update-IsAtomic_example = update-IsAtomic 30 200 201 202 5 11 request student running refl

update_allowed_example :
    (e : Enrollment) × (get_by_id 5 running.tables ≡ some e)
    × ((student.role ≡ Role.admin) ⊎ ((student.role ≡ Role.student) × (e.student_id ≡ 7)))
unfolding update_lesson_progress updated_row put_progress
update_allowed_example = update_allowed 30 200 201 202 5 11 request student running refl

-- 99.991 percent, which the column keeps as 99.99.
abbrev nearly : LessonProgressUpdate
nearly = record request {
  status = unset;
  completion_percentage = given (some (record { digits = 99991; places = 3; stored = 9999 }));
}

nearly-IsStoredBelow : IsStoredBelow nearly
nearly-IsStoredBelow c e below = ground arith

update-All_example :
    All IsValid
      (update_lesson_progress 30 200 201 202 5 11 nearly student running).1.tables.lesson_progress
update-All_example =
    update-All 30 200 201 202 5 11 nearly student running refl (λ e. cc) nearly-IsStoredBelow
      (finished-IsValid, (open-IsValid, tt))

abbrev empty : Session
empty = session (tables [] [])

abbrev rival : Enrollment
rival = record enrollment { id = 6 }

enroll-Returns_example :
    (e : Enrollment) × Returns 7 1 empty e (enroll 5 (rival ∷ []) 100 101 102 7 1 empty)
unfolding find_course matches
enroll-Returns_example =
    enroll-Returns 5 (rival ∷ []) 100 101 102 7 1 empty course refl refl refl refl refl (refl, tt)
