-- ===== src/Assignments/Placed.antt =====
-- Every submission stands between an enrollment and an assignment of one course, whatever calls are made.
use lms_backend.Base.{
  ℕ, ◌≡◌, refl, ◌∙◌, Bool, true, ◌&&◌, not, some, List, [], ◌∷◌, arith, find_passes, any, ◌==◌,
  ==_iff, All, All-append,
}
use lms_backend.Db.{User, Enrollment, Tables}
use lms_backend.Assignments.Rows.{
  Assignment, Submission, AssignmentUpdate, SubmissionUpdate, SubmissionGradeRequest,
}
use lms_backend.Base.Changes.{
  any-append, any-find, any-update_by, any-keep, All-keep, All-imp, All-update_by,
}
use lms_backend.Assignments.Service.{updated_assignment, write_assignment, without_assignment}
use lms_backend.Assignments.Submissions.{
  own_enrollment, course_assignment, new_submission, write_submission, updated_submission,
  graded_submission, touch_enrollment,
}
use lms_backend.Assignments.Calls.{Request, serve}
use lms_backend.Assignments.Writes.{Write}
use lms_backend.Assignments.Performed.{perform-Write}

abbrev enrollment_in : ℕ → ℕ → Enrollment → Bool
enrollment_in id course_id e = (e.id == id) && (e.course_id == course_id)

abbrev assignment_in : ℕ → ℕ → Assignment → Bool
assignment_in id course_id a = (a.id == id) && (a.course_id == course_id)

-- The submission's enrollment and its assignment are there, and belong to one course.
abbrev pub IsPlaced : Tables → Submission → Type 0
IsPlaced t s =
    (c : ℕ) × (any (enrollment_in s.enrollment_id c) t.enrollments ≡ true)
    × (any (assignment_in s.assignment_id c) t.assignments ≡ true)

same_place :
    (now : ℕ) (u : AssignmentUpdate) (id c : ℕ) (a : Assignment)
    → assignment_in id c (updated_assignment now u a) ≡ assignment_in id c a
unfolding updated_assignment
same_place now u id c a = refl

updated-IsPlaced :
    (t : Tables) (now : ℕ) (u : SubmissionUpdate) (s : Submission)
    → IsPlaced t s
    → IsPlaced t (updated_submission now u s)
unfolding updated_submission
updated-IsPlaced t now u s h = h

graded-IsPlaced :
    (t : Tables) (now : ℕ) (p : SubmissionGradeRequest) (s : Submission)
    → IsPlaced t s
    → IsPlaced t (graded_submission now p s)
unfolding graded_submission
graded-IsPlaced t now p s h = h

Write-IsPlaced :
    {user : User} {t u : Tables}
    → Write user t u
    → All (IsPlaced t) t.submissions
    → All (IsPlaced u) u.submissions
unfolding write_assignment without_assignment write_submission touch_enrollment own_enrollment
    course_assignment new_submission
Write-IsPlaced (Write.kept t) h = h
Write-IsPlaced (Write.added t id now p) h =
    All-imp (IsPlaced t) _
      (λ s (c, e, a). (c, e, any-append (assignment_in s.assignment_id c) t.assignments _ a))
      t.submissions h
Write-IsPlaced (Write.changed t id now u b g own) h =
    All-imp (IsPlaced t) _
      (λ s (c, e, a). (
        c,
        e,
        any-update_by (λ (x : Assignment). x.id) id (updated_assignment now u)
              (assignment_in s.assignment_id c) (same_place now u s.assignment_id c) t.assignments
            ∙ a,
      ))
      t.submissions h
Write-IsPlaced (Write.removed t id b g own) h =
    All-imp (λ s. IsPlaced t s × (not (s.assignment_id == id) ≡ true)) _
      (λ s ((c, e, a), stays). (
        c,
        e,
        any-keep (assignment_in s.assignment_id c) (λ x. not (x.id == id))
            (λ x y.
              ground
                (arith, ==_iff x.id s.assignment_id, ==_iff x.id id, ==_iff s.assignment_id id))
            t.assignments a,
      ))
      _ (All-keep (IsPlaced t) (λ s. not (s.assignment_id == id)) t.submissions h)
Write-IsPlaced {user} (Write.submitted t id now p e a f g o) h =
    All-append (IsPlaced t) t.submissions h (
      e.course_id,
      any-find _ (enrollment_in p.enrollment_id e.course_id) t.enrollments f (
          ground (
            arith,
            find_passes (λ (x : Enrollment). (x.id == p.enrollment_id) && (x.student_id == user.id))
                t.enrollments f,
            ==_iff e.course_id e.course_id,
          )),
      any-find _ (assignment_in p.assignment_id e.course_id) t.assignments g
          (find_passes _ t.assignments g),
    )
Write-IsPlaced (Write.revised t id now u row g f) h =
    All-update_by (IsPlaced t) (λ (x : Submission). x.id) id (updated_submission now u)
      (updated-IsPlaced t now u) t.submissions h
Write-IsPlaced (Write.graded t id now p row g f) h =
    All-imp (IsPlaced t) _
      (λ s (c, e, a). (
        c,
        any-update_by (λ (x : Enrollment). x.id) row.enrollment_id
              (λ x. record x { last_accessed_at = some now }) (enrollment_in s.enrollment_id c)
              (λ x. refl) t.enrollments
            ∙ e,
        a,
      ))
      _
      (All-update_by (IsPlaced t) (λ (x : Submission). x.id) id (graded_submission now p)
        (graded-IsPlaced t now p) t.submissions h)

-- If every submission has its enrollment and its assignment, and both belong to one course, this holds after any
-- requests.
pub serve-IsPlaced :
    (requests : List Request) (t : Tables)
    → All (IsPlaced t) t.submissions
    → All (IsPlaced (serve requests t)) (serve requests t).submissions
unfolding serve
serve-IsPlaced [] t h = h
serve-IsPlaced (r ∷ requests) t h =
    serve-IsPlaced requests _ (Write-IsPlaced (perform-Write r.call r.user t r.commit_error) h)
