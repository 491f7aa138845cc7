-- ===== src/Enrollments/Summary.antt =====
-- `EnrollmentService._refresh_enrollment_summary` (app/modules/enrollments/service.py): the counts,
-- the percentage and the status of an enrollment, from the progress rows of its lessons.
pub mod Completion
pub mod Lessons
use lms_backend.Base.{
  ℕ, ◌*◌, Bool, true, false, ◌&&◌, Option, none, some, Action, ◌>>=◌, gets, ltb, leb, ◌==◌,
  if◌then◌else◌,
}
use lms_backend.Base.Rounding.{half_even}
use lms_backend.Db.{Enrollment, EnrollmentStatus, Session}
use lms_backend.Enrollments.Repository.{count_by_course, get_enrollment_progress_stats, update}
use lms_backend.Enrollments.Progress.{or_now}

abbrev pub has_completed : EnrollmentStatus → Bool
has_completed EnrollmentStatus.completed = true
has_completed _ = false

-- 100 * completed / total, to two places.
pub progress_percentage : ℕ → ℕ → ℕ
unfolding half_even
progress_percentage total completed = if total == 0 then 0 else half_even (completed * 10000) total

-- The row after the update; `now` and `later` are the two readings of the clock.
unfoldable pub summarize : ℕ → ℕ → ℕ → ℕ → ℕ → Enrollment → Enrollment
unfolding progress_percentage
summarize total completed time now later e =
    let all_done = ltb 0 total && leb total completed in
    record e {
      total_lessons_count = total;
      completed_lessons_count = completed;
      total_time_spent_seconds = time;
      progress_percentage = progress_percentage total completed;
      status =
          if all_done
          then EnrollmentStatus.completed
          else if has_completed e.status
          then EnrollmentStatus.active
          else e.status;
      completed_at =
          if all_done
          then or_now e.completed_at now
          else if has_completed e.status
          then none
          else e.completed_at;
      last_accessed_at = some later;
    }

unfoldable pub refresh_enrollment_summary : ℕ → ℕ → Enrollment → Action Session Enrollment
unfolding summarize count_by_course get_enrollment_progress_stats update
refresh_enrollment_summary now later e = do
  t ← gets (λ s. s.tables)
  let total = count_by_course e.course_id t
  let stats = get_enrollment_progress_stats e.id t
  update (summarize total stats.0 stats.1 now later e)
