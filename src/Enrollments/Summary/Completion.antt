-- ===== src/Enrollments/Summary/Completion.antt =====
-- When an enrollment counts as completed, and the range of its percentage.
use lms_backend.Base.{ℕ, ◌*◌, ◌≡◌, ◌≤◌, ◌<◌, ◌↔◌, arith, ◌==◌, inl, inr, Bool-cases}
use lms_backend.Base.Rounding.{half_even-le}
use lms_backend.Db.{Enrollment, EnrollmentStatus}
use lms_backend.Enrollments.Summary.{progress_percentage, summarize}

pub progress_percentage_le :
    (total completed : ℕ) → completed ≤ total → progress_percentage total completed ≤ 10000
unfolding progress_percentage
progress_percentage_le total completed h = elim (Bool-cases (total == 0)) [
  | inl e ↦ rw e (omega arith)
  | inr e ↦ rw e (half_even-le (completed * 10000) total 10000 (ground arith) (omega arith))
]

pub summarize_completed_iff :
    (total completed time now later : ℕ) (e : Enrollment)
    → ((summarize total completed time now later e).status ≡ EnrollmentStatus.completed)
      ↔ ((0 < total) × (total ≤ completed))
unfolding summarize
summarize_completed_iff total completed time now later e = ground arith
