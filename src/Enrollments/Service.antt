-- ===== src/Enrollments/Service.antt =====
-- `EnrollmentService` (app/modules/enrollments/service.py), method by method. `current_user` is the
-- caller; identifiers that the program draws at random, readings of the clock, and rows that other
-- transactions commit meanwhile are arguments.
pub mod Enroll
pub mod Lessons
use lms_backend.Base.{
  ℕ, ◌+◌, ◌-◌, ◌*◌, ◌/◌, Text, Bool, true, false, ◌&&◌, not, Option, none, some, List, [], ◌∷◌,
  ◌++◌, ok, err, not_found, forbidden, Error, integrity_error, Action, ◌>>=◌, ◌>>◌, pure, raise,
  lift, gets, modify, require, raise_if, ltb, leb, ◌==◌, if◌then◌else◌, keep, length, drop,
}
use lms_backend.Core.Permissions.{Role, role_eq}
use lms_backend.Db.{
  User, Course, Enrollment, EnrollmentStatus, LessonProgress, ProgressStatus, Tables, Session,
  Event, commit, rollback, emit,
}
use lms_backend.Enrollments.Repository.{
  put_progress, find_course, find_lesson, get_by_id, get_by_student_and_course, create, update,
  get_lesson_progress, get_course_stats,
}
use lms_backend.Base.Patch.{Update, unset, given}
use lms_backend.Enrollments.Progress.{hundredths, LessonProgressUpdate, updated_row}
use lms_backend.Enrollments.Summary.{has_completed, refresh_enrollment_summary}

abbrev pub has_role : User → Role → Bool
has_role user role = role_eq user.role role

pub can_manage_course : Course → User → Bool
can_manage_course course user =
    if has_role user Role.admin
    then true
    else has_role user Role.instructor && (course.instructor_id == user.id)

pub can_edit_lesson_progress : Enrollment → User → Bool
can_edit_lesson_progress e user =
    if has_role user Role.admin
    then true
    else has_role user Role.student && (e.student_id == user.id)

abbrev pub is_none : {A : Type 0} → Option A → Bool
is_none none = true
is_none (some a) = false

abbrev owns : Option Course → User → Bool
owns none user = false
owns (some course) user = course.instructor_id == user.id

unfoldable pub can_view_enrollment : Enrollment → User → Tables → Bool
unfolding find_course
can_view_enrollment e user t =
    if has_role user Role.admin
    then true
    else if has_role user Role.student && (e.student_id == user.id)
    then true
    else if has_role user Role.instructor
    then owns (find_course e.course_id t) user
    else false

-- `except IntegrityError:`
abbrev pub on_integrity_error :
    {A : Type 0} → Action Session A → Action Session A → Action Session A
on_integrity_error body handler s =
    let (r, s') = body s in
    elim r [
      | ok a ↦ (ok a, s')
      | err e ↦ elim e [ integrity_error ↦ handler s' | other ↦ (err other, s') ]
    ]

-- Enrollments that other transactions commit between the lookup and the insertion.
pub arrive : List Enrollment → Session → Session
arrive others s = record s {
  tables = record s.tables { enrollments = s.tables.enrollments ++ others };
  committed = record s.committed { enrollments = s.committed.enrollments ++ others };
}

insert_enrollment : ℕ → ℕ → ℕ → ℕ → ℕ → ℕ → Action Session Enrollment
unfolding create refresh_enrollment_summary commit emit
insert_enrollment id student_id course_id now t1 t2 = do
  created ← create id student_id course_id now
  e ← refresh_enrollment_summary t1 t2 created
  commit
  emit (Event.enrollment_created e.id)
  pure e

abbrev or_reraise : Option Enrollment → Action Session Enrollment
or_reraise (some e) = pure e
or_reraise none = raise integrity_error

recover_enrollment : ℕ → ℕ → Action Session Enrollment
unfolding rollback get_by_student_and_course
recover_enrollment student_id course_id = do
  modify rollback
  t ← gets (λ s. s.tables)
  or_reraise (get_by_student_and_course student_id course_id t)

unfoldable pub enroll : ℕ → List Enrollment → ℕ → ℕ → ℕ → ℕ → ℕ → Action Session Enrollment
unfolding find_course get_by_student_and_course insert_enrollment recover_enrollment arrive
enroll id others now t1 t2 student_id course_id = do
  t ← gets (λ s. s.tables)
  course ← require (find_course course_id t) (not_found "Course not found")
  raise_if (not course.is_published) (forbidden "Cannot enroll in unpublished course")
  elim (get_by_student_and_course student_id course_id t) [
    | some existing ↦ pure existing
    | none ↦
        modify (arrive others)
        >> on_integrity_error (insert_enrollment id student_id course_id now t1 t2)
            (recover_enrollment student_id course_id)
  ]

upsert_lesson_progress :
    ℕ → ℕ → ℕ → Option LessonProgress → LessonProgress → Action Session LessonProgress
upsert_lesson_progress id enrollment_id lesson_id none p s = (
  ok p,
  record s { tables = record s.tables { lesson_progress = s.tables.lesson_progress ++ p ∷ [] } },
)
upsert_lesson_progress id enrollment_id lesson_id (some old) p s = (
  ok p,
  record s {
    tables = record s.tables { lesson_progress = put_progress p s.tables.lesson_progress };
  },
)

-- `if previous_status != "completed" and enrollment.status == "completed"`, then the two tasks.
announce : EnrollmentStatus → Enrollment → Action Session (Unit {0})
unfolding emit
announce previous e = do
  if not (has_completed previous) && has_completed e.status
      then emit (Event.enrollment_completed e.id)
      else pure tt
  emit (Event.recalculate_course_progress e.id)
  if has_completed e.status && is_none e.certificate_issued_at
      then emit (Event.generate_certificate e.id)
      else pure tt

-- The row written, the summary refreshed, all committed, and what follows announced.
unfoldable pub write_progress :
    ℕ
    → ℕ
    → ℕ
    → ℕ
    → ℕ
    → Enrollment
    → Option LessonProgress
    → LessonProgress
    → Action Session LessonProgress
unfolding upsert_lesson_progress refresh_enrollment_summary commit announce
write_progress id t1 t2 enrollment_id lesson_id e old row = do
  p ← upsert_lesson_progress id enrollment_id lesson_id old row
  e' ← refresh_enrollment_summary t1 t2 e
  commit
  announce e.status e'
  pure p

unfoldable pub update_lesson_progress :
    ℕ → ℕ → ℕ → ℕ → ℕ → ℕ → LessonProgressUpdate → User → Action Session LessonProgress
unfolding can_view_enrollment can_edit_lesson_progress get_by_id find_lesson get_lesson_progress
    write_progress
update_lesson_progress id now t1 t2 enrollment_id lesson_id payload user = do
  t ← gets (λ s. s.tables)
  e ← require (get_by_id enrollment_id t) (not_found "Enrollment not found")
  raise_if (not (can_view_enrollment e user t))
      (forbidden "Not authorized to access this enrollment")
  raise_if (not (can_edit_lesson_progress e user))
      (forbidden "Not authorized to update this enrollment progress")
  lesson ←
      require (find_lesson lesson_id t) (not_found "Lesson not found in this enrollment's course")
  raise_if (not (lesson.course_id == e.course_id))
      (not_found "Lesson not found in this enrollment's course")
  let old = get_lesson_progress enrollment_id lesson_id t
  row ← lift (updated_row id enrollment_id lesson_id old payload now)
  write_progress id t1 t2 enrollment_id lesson_id e old row

unfoldable pub mark_lesson_completed : ℕ → ℕ → ℕ → ℕ → ℕ → ℕ → User → Action Session LessonProgress
mark_lesson_completed id now t1 t2 enrollment_id lesson_id user =
    update_lesson_progress id now t1 t2 enrollment_id lesson_id
      (record {
        status = given (some ProgressStatus.completed);
        time_spent_seconds = unset;
        last_position_seconds = unset;
        completion_percentage = given (some (hundredths 10000));
        notes = unset;
      })
      user

pub get_enrollment : ℕ → User → Action Session Enrollment
unfolding get_by_id can_view_enrollment
get_enrollment enrollment_id user = do
  t ← gets (λ s. s.tables)
  e ← require (get_by_id enrollment_id t) (not_found "Enrollment not found")
  raise_if (not (can_view_enrollment e user t))
      (forbidden "Not authorized to access this enrollment")
  pure e

pub add_review : ℕ → ℕ → Text → User → Action Session Enrollment
unfolding get_enrollment update commit
add_review enrollment_id rating review user = do
  e ← get_enrollment enrollment_id user
  raise_if (not (has_role user Role.admin) && not (e.student_id == user.id))
      (forbidden "You can only review your own enrollments")
  raise_if (ltb e.progress_percentage 2000) (forbidden "Complete at least 20% before reviewing")
  e' ← update (record e { rating = some rating; review = some review })
  commit
  pure e'

pub course_stats : ℕ → User → Action Session (ℕ × ℕ × ℕ × ℕ)
unfolding find_course can_manage_course get_course_stats
course_stats course_id user = do
  t ← gets (λ s. s.tables)
  course ← require (find_course course_id t) (not_found "Course not found")
  raise_if (not (can_manage_course course user)) (forbidden "Not authorized to view course stats")
  pure (get_course_stats course_id t)

pub recalculate_enrollment_summary : ℕ → ℕ → ℕ → Bool → Action Session Bool
unfolding get_by_id refresh_enrollment_summary commit
recalculate_enrollment_summary t1 t2 enrollment_id do_commit = do
  t ← gets (λ s. s.tables)
  elim (get_by_id enrollment_id t) [
    | none ↦ pure false
    | some e ↦
        refresh_enrollment_summary t1 t2 e >> (if do_commit then commit else pure tt) >> pure true
  ]
