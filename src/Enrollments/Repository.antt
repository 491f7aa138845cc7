-- ===== src/Enrollments/Repository.antt =====
-- app/modules/enrollments/repository.py and the lesson and course lookups that the service makes.
use lms_backend.Base.{
  ℕ, ◌+◌, Bool, true, false, ◌&&◌, Option, none, some, List, [], ◌∷◌, ◌++◌, Action, ok, ◌>>=◌, ◌>>◌,
  gets, raise_if, modify, pure, integrity_error, ◌==◌, if◌then◌else◌, find, keep, any, length,
}
use lms_backend.Base.Rounding.{half_even}
use lms_backend.Db.{
  Course, Lesson, Enrollment, LessonProgress, ProgressStatus, EnrollmentStatus, Tables, Session,
}

abbrev pub is_completed : ProgressStatus → Bool
is_completed ProgressStatus.completed = true
is_completed _ = false

unfoldable pub find_course : ℕ → Tables → Option Course
find_course id t = find (λ c. c.id == id) t.courses

unfoldable pub find_lesson : ℕ → Tables → Option Lesson
find_lesson id t = find (λ l. l.id == id) t.lessons

-- `LessonRepository.count_by_course`
unfoldable pub count_by_course : ℕ → Tables → ℕ
count_by_course course_id t = length (keep (λ l. l.course_id == course_id) t.lessons)

-- `get_by_id` and `get_by_id_for_update`; the row lock is not modelled.
unfoldable pub get_by_id : ℕ → Tables → Option Enrollment
get_by_id id t = find (λ e. e.id == id) t.enrollments

unfoldable pub matches : ℕ → ℕ → Enrollment → Bool
matches student_id course_id e = (e.student_id == student_id) && (e.course_id == course_id)

-- `get_by_student_and_course` and its `for_update` variant.
unfoldable pub get_by_student_and_course : ℕ → ℕ → Tables → Option Enrollment
get_by_student_and_course student_id course_id t = find (matches student_id course_id) t.enrollments

-- The row that `create` adds, before any summary.
unfoldable pub new_enrollment : ℕ → ℕ → ℕ → ℕ → Enrollment
new_enrollment id student_id course_id now = record {
  id = id;
  student_id = student_id;
  course_id = course_id;
  enrolled_at = now;
  started_at = some now;
  completed_at = none;
  status = EnrollmentStatus.active;
  progress_percentage = 0;
  completed_lessons_count = 0;
  total_lessons_count = 0;
  total_time_spent_seconds = 0;
  last_accessed_at = none;
  certificate_issued_at = none;
  rating = none;
  review = none;
}

-- `create`: the flush meets the constraint `uq_enrollments_student_course`.
unfoldable pub create : ℕ → ℕ → ℕ → ℕ → Action Session Enrollment
unfolding new_enrollment
create id student_id course_id now = do
  t ← gets (λ s. s.tables)
  raise_if (any (matches student_id course_id) t.enrollments) integrity_error
  let row = new_enrollment id student_id course_id now
  modify (λ s. record s {
    tables = record s.tables { enrollments = s.tables.enrollments ++ row ∷ [] };
  })
  pure row

unfoldable pub put_row : Enrollment → List Enrollment → List Enrollment
put_row e [] = []
put_row e (r ∷ rows) = (if r.id == e.id then e else r) ∷ put_row e rows

-- `update`: the row takes the new fields.
unfoldable pub update : Enrollment → Action Session Enrollment
unfolding put_row
update e s =
    (ok e, record s { tables = record s.tables { enrollments = put_row e s.tables.enrollments } })

progress_matches : ℕ → ℕ → LessonProgress → Bool
progress_matches enrollment_id lesson_id p =
    (p.enrollment_id == enrollment_id) && (p.lesson_id == lesson_id)

-- `get_lesson_progress` and its `for_update` variant.
unfoldable pub get_lesson_progress : ℕ → ℕ → Tables → Option LessonProgress
unfolding progress_matches
get_lesson_progress enrollment_id lesson_id t =
    find (progress_matches enrollment_id lesson_id) t.lesson_progress

-- The row of an existing progress takes the new fields.
unfoldable pub put_progress : LessonProgress → List LessonProgress → List LessonProgress
put_progress p [] = []
put_progress p (r ∷ rows) = (if r.id == p.id then p else r) ∷ put_progress p rows

unfoldable pub completed_in : ℕ → LessonProgress → Bool
completed_in enrollment_id p = (p.enrollment_id == enrollment_id) && is_completed p.status

time_spent : ℕ → List LessonProgress → ℕ
time_spent enrollment_id [] = 0
time_spent enrollment_id (p ∷ rows) =
    (if p.enrollment_id == enrollment_id then p.time_spent_seconds else 0)
    + time_spent enrollment_id rows

-- `get_enrollment_progress_stats`: the completed lessons and the time spent.
unfoldable pub get_enrollment_progress_stats : ℕ → Tables → ℕ × ℕ
unfolding completed_in time_spent
get_enrollment_progress_stats enrollment_id t = (
  length (keep (completed_in enrollment_id) t.lesson_progress),
  time_spent enrollment_id t.lesson_progress,
)

has_status : ℕ → EnrollmentStatus → Enrollment → Bool
has_status course_id EnrollmentStatus.active e =
    (e.course_id == course_id) && elim e.status [ EnrollmentStatus.active ↦ true | _ ↦ false ]
has_status course_id EnrollmentStatus.completed e =
    (e.course_id == course_id) && elim e.status [ EnrollmentStatus.completed ↦ true | _ ↦ false ]
has_status course_id EnrollmentStatus.dropped e =
    (e.course_id == course_id) && elim e.status [ EnrollmentStatus.dropped ↦ true | _ ↦ false ]
has_status course_id EnrollmentStatus.expired e =
    (e.course_id == course_id) && elim e.status [ EnrollmentStatus.expired ↦ true | _ ↦ false ]

progress_sum : List Enrollment → ℕ
progress_sum [] = 0
progress_sum (e ∷ rows) = e.progress_percentage + progress_sum rows

-- `get_course_stats`: all, active and completed enrollments, and the average progress.
unfoldable pub get_course_stats : ℕ → Tables → ℕ × ℕ × ℕ × ℕ
unfolding has_status progress_sum half_even
get_course_stats course_id t =
    let rows = keep (λ e. e.course_id == course_id) t.enrollments in
    (
      length rows,
      length (keep (has_status course_id EnrollmentStatus.active) t.enrollments),
      length (keep (has_status course_id EnrollmentStatus.completed) t.enrollments),
      (if length rows == 0 then 0 else half_even (progress_sum rows) (length rows)),
    )
