-- ===== src/Enrollments/Summary/Lessons.antt =====
-- The completion of an enrollment against the set of lessons of its course.
use lms_backend.Base.{
  ℕ, ◌≡◌, ◌≤◌, ◌<◌, ◌↔◌, List, [], ◌∷◌, ok, arith, ◌==◌, if◌then◌else◌, length, keep,
}
use lms_backend.Base.Sets.{Distinct, Subset, length-Subset, length_le_iff_Subset}
use lms_backend.Db.{Lesson, LessonProgress, Enrollment, EnrollmentStatus, Tables, Session}
use lms_backend.Enrollments.Repository.{
  completed_in, count_by_course, get_enrollment_progress_stats, update,
}
use lms_backend.Enrollments.Summary.{summarize, refresh_enrollment_summary}
use lms_backend.Enrollments.Summary.Completion.{summarize_completed_iff, progress_percentage_le}

-- The lessons of a course.
abbrev pub lessons_of : ℕ → List Lesson → List ℕ
lessons_of course_id [] = []
lessons_of course_id (l ∷ rows) =
    let rest = lessons_of course_id rows in if l.course_id == course_id then l.id ∷ rest else rest

-- The lessons that an enrollment has completed.
unfoldable pub completed_lessons : ℕ → List LessonProgress → List ℕ
unfolding completed_in
completed_lessons enrollment_id [] = []
completed_lessons enrollment_id (p ∷ rows) =
    let rest = completed_lessons enrollment_id rows in
    if completed_in enrollment_id p then p.lesson_id ∷ rest else rest

-- What the constraints of the tables give: lessons have distinct identifiers, an enrollment has one
-- row for a lesson, and its rows are for lessons of its course.
pub record IsConsistent (e : Enrollment) (t : Tables) : Type 0 where
  pub lessons_distinct : Distinct (lessons_of e.course_id t.lessons)
  pub rows_distinct : Distinct (completed_lessons e.id t.lesson_progress)
  pub rows_within :
      Subset (completed_lessons e.id t.lesson_progress) (lessons_of e.course_id t.lessons)

length-lessons_of :
    (course_id : ℕ) (rows : List Lesson)
    → length (keep (λ (l : Lesson). l.course_id == course_id) rows)
      ≡ length (lessons_of course_id rows)
length-lessons_of course_id [] = omega arith
length-lessons_of course_id (l ∷ rows) = ground (arith, length-lessons_of course_id rows)

length-completed_lessons :
    (id : ℕ) (rows : List LessonProgress)
    → length (keep (completed_in id) rows) ≡ length (completed_lessons id rows)
unfolding completed_lessons
length-completed_lessons id [] = omega arith
length-completed_lessons id (p ∷ rows) = ground (arith, length-completed_lessons id rows)

module _ (now later : ℕ) (e : Enrollment) (s : Session) where
  abbrev lessons : List ℕ
  lessons = lessons_of e.course_id s.tables.lessons

  abbrev done : List ℕ
  done = completed_lessons e.id s.tables.lesson_progress

  refreshed :
      {e' : Enrollment}
      → (refresh_enrollment_summary now later e s).0 ≡ ok e'
      → e'
        ≡ summarize
            (length lessons)
            (length done)
            (get_enrollment_progress_stats e.id s.tables).1
            now
            later
            e
  unfolding refresh_enrollment_summary count_by_course get_enrollment_progress_stats update
  refreshed h = ground (
    arith,
    length-lessons_of e.course_id s.tables.lessons,
    length-completed_lessons e.id s.tables.lesson_progress,
  )

  percentage_le :
      (time : ℕ)
      → length done ≤ length lessons
      → (summarize (length lessons) (length done) time now later e).progress_percentage ≤ 10000
  unfolding summarize
  percentage_le time h = progress_percentage_le (length lessons) (length done) h

  -- If no lesson of the course is listed twice, and no lesson has two completed rows of the
  -- enrollment, all of which are for lessons of the course, then after a refresh the enrollment is
  -- completed exactly if its course has lessons and every one of them is completed, and its
  -- percentage is at most 100.
  pub refresh_completed_iff :
      {e' : Enrollment}
      → IsConsistent e s.tables
      → (refresh_enrollment_summary now later e s).0 ≡ ok e'
      → ((e'.status ≡ EnrollmentStatus.completed) ↔ ((0 < length lessons) × Subset lessons done))
        × (e'.progress_percentage ≤ 10000)
  refresh_completed_iff c h =
      let time = (get_enrollment_progress_stats e.id s.tables).1 in
      let complete = summarize_completed_iff (length lessons) (length done) time now later e in
      let covers =
        length_le_iff_Subset done lessons c.rows_distinct c.lessons_distinct c.rows_within in
      rw (refreshed h) (
        (
          (λ q. ((complete.0 q).0, covers.0 (complete.0 q).1)),
          (λ q. complete.1 (q.0, covers.1 q.1)),
        ),
        percentage_le time (length-Subset done lessons c.rows_distinct c.rows_within),
      )
