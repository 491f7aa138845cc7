-- ===== src/Enrollments/Lists.antt =====
-- The lists of `EnrollmentService` and `EnrollmentRepository` (app/modules/enrollments), a page at a time, the
-- newest enrollment first.
use lms_backend.Base.{
  ℕ, not, List, [], ◌∷◌, not_found, forbidden, Action, ◌>>=◌, ◌>>◌, pure, gets, require, raise_if,
  ltb, ◌==◌, if◌then◌else◌, keep,
}
use lms_backend.Db.{User, Enrollment, Tables, Session}
use lms_backend.Enrollments.Repository.{find_course}
use lms_backend.Enrollments.Service.{can_manage_course}
use lms_backend.Utils.Pagination.{PageParams, Page, page_of}

place : Enrollment → List Enrollment → List Enrollment
place e [] = e ∷ []
place e (other ∷ rows) =
    let rest = place e rows in
    if ltb e.enrolled_at other.enrolled_at then other ∷ rest else e ∷ other ∷ rows

-- `ORDER BY enrolled_at DESC`; the order of enrollments of one time is not fixed by the query.
pub newest_first : List Enrollment → List Enrollment
unfolding place
newest_first [] = []
newest_first (e ∷ rows) = place e (newest_first rows)

-- `list_by_student`, with the number of all rows, put on a page.
pub list_by_student : ℕ → PageParams → Tables → Page Enrollment
unfolding newest_first page_of
list_by_student student_id params t =
    page_of (newest_first (keep (λ (e : Enrollment). e.student_id == student_id) t.enrollments))
      params

pub list_by_course : ℕ → PageParams → Tables → Page Enrollment
unfolding newest_first page_of
list_by_course course_id params t =
    page_of (newest_first (keep (λ (e : Enrollment). e.course_id == course_id) t.enrollments))
      params

pub list_my_enrollments : ℕ → PageParams → Action Session (Page Enrollment)
unfolding list_by_student
list_my_enrollments student_id params = do
  t ← gets (λ s. s.tables)
  pure (list_by_student student_id params t)

pub list_course_enrollments : ℕ → User → PageParams → Action Session (Page Enrollment)
unfolding list_by_course
list_course_enrollments course_id user params = do
  t ← gets (λ s. s.tables)
  course ← require (find_course course_id t) (not_found "Course not found")
  raise_if (not (can_manage_course course user))
      (forbidden "Not authorized to view course enrollments")
  pure (list_by_course course_id params t)
