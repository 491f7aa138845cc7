-- ===== src/Assignments/Owners.antt =====
-- Who can change what: the calls of others leave an instructor's assignments, and what was submitted to them, as
-- they are.
use lms_backend.Base.{
  ℕ, ◌≡◌, ◌≢◌, refl, ◌∙◌, not, some, List, [], ◌∷◌, arith, inl, inr, find_passes, ◌==◌, ==_iff,
  Bool-cases, All,
}
use lms_backend.Db.{User, Tables}
use lms_backend.Assignments.Rows.{
  SubmissionUpdate, SubmissionGradeRequest, Assignment, AssignmentUpdate, Submission,
}
use lms_backend.Base.Changes.{find-append, find-keep, find-update_by}
use lms_backend.Assignments.Service.{
  get_assignment, updated_assignment, write_assignment, without_assignment,
}
use lms_backend.Assignments.Submissions.{
  get_submission, write_submission, updated_submission, graded_submission, touch_enrollment,
}
use lms_backend.Assignments.Routes.{teacher_of}
use lms_backend.Assignments.Calls.{Request, serve}
use lms_backend.Assignments.Writes.{Write}
use lms_backend.Assignments.Performed.{perform-Write}

same : (now : ℕ) (u : AssignmentUpdate) (x : Assignment) → (updated_assignment now u x).id ≡ x.id
unfolding updated_assignment
same now u x = refl

same_instructor :
    {i : ℕ} {a b : Assignment} (id : ℕ) (t : Tables)
    → get_assignment id t ≡ some a
    → get_assignment id t ≡ some b
    → b.instructor_id ≡ i
    → a.instructor_id ≡ i
same_instructor id t f g own = ground arith

module _ {user : User} (k : ℕ) {a : Assignment} (other : a.instructor_id ≢ user.id) where
  Write-get_assignment :
      {t u : Tables} → Write user t u → get_assignment k t ≡ some a → get_assignment k u ≡ some a
  unfolding get_assignment write_assignment without_assignment write_submission touch_enrollment
  Write-get_assignment (Write.kept t) f = f
  Write-get_assignment (Write.added t id now p) f =
      find-append (λ (x : Assignment). x.id == k) t.assignments _ f
  Write-get_assignment (Write.changed t id now u b g own) f =
      find-update_by (λ (x : Assignment). x.id) id k (updated_assignment now u) (same now u)
        (λ e. other (same_instructor id t (rw e at f) g own)) t.assignments
      ∙ f
  Write-get_assignment (Write.removed t id b g own) f =
      find-keep (λ (x : Assignment). x.id == k) (λ x. not (x.id == id)) t.assignments f
        (elim (Bool-cases (a.id == id)) [
          | inr n ↦ ground arith
          | inl e ↦
              let here : k ≡ id =
                ground (arith, find_passes (λ (x : Assignment). x.id == k) t.assignments f) in
              let at_id : get_assignment id t ≡ some a = rw here at f in
              absurd (other (same_instructor id t at_id g own))
        ])
  Write-get_assignment (Write.submitted t id now p e b g h o) f = f
  Write-get_assignment (Write.revised t id now u row g h) f = f
  Write-get_assignment (Write.graded t id now p row g h) f = f

same_row :
    (now : ℕ) (u : SubmissionUpdate) (x : Submission) → (updated_submission now u x).id ≡ x.id
unfolding updated_submission
same_row now u x = refl

same_graded :
    (now : ℕ) (p : SubmissionGradeRequest) (x : Submission) → (graded_submission now p x).id ≡ x.id
unfolding graded_submission
same_graded now p x = refl

-- A submission whose assignment the user teaches is none whose assignment another one teaches.
same_teacher :
    {i j : ℕ} {s r : Submission} (id : ℕ) (t : Tables)
    → get_submission id t ≡ some s
    → get_submission id t ≡ some r
    → teacher_of r t ≡ some j
    → teacher_of s t ≡ some i
    → i ≡ j
same_teacher {s = s} {r = r} id t f g h o =
    let same : s ≡ r = ground arith in let o' = rw same at o in ground arith

taught_by :
    {i : ℕ} {a : Assignment} (s : Submission) (id : ℕ) (t : Tables)
    → s.assignment_id ≡ id
    → get_assignment id t ≡ some a
    → teacher_of s t ≡ some i
    → i ≡ a.instructor_id
unfolding teacher_of
taught_by s id t e f o = let o' = rw e at o in ground arith

module _ {user : User} (k : ℕ) {s : Submission} {i : ℕ} (other : i ≢ user.id) where
  Write-get_submission :
      {t u : Tables}
      → Write user t u
      → get_submission k t ≡ some s
      → teacher_of s t ≡ some i
      → get_submission k u ≡ some s
  unfolding get_submission write_assignment without_assignment write_submission touch_enrollment
  Write-get_submission (Write.kept t) f o = f
  Write-get_submission (Write.added t id now p) f o = f
  Write-get_submission (Write.changed t id now u b g own) f o = f
  Write-get_submission (Write.removed t id b g own) f o =
      find-keep (λ (x : Submission). x.id == k) (λ x. not (x.assignment_id == id)) t.submissions f
        (elim (Bool-cases (s.assignment_id == id)) [
          | inr n ↦ ground arith
          | inl e ↦
              absurd
                (other (taught_by s id t (ground (arith, ==_iff s.assignment_id id)) g o ∙ own))
        ])
  Write-get_submission (Write.submitted t id now p e b g h w) f o =
      find-append (λ (x : Submission). x.id == k) t.submissions _ f
  Write-get_submission (Write.revised t id now u row g h) f o =
      find-update_by (λ (x : Submission). x.id) id k (updated_submission now u) (same_row now u)
        (λ e. other (same_teacher id t (rw e at f) g h o)) t.submissions
      ∙ f
  Write-get_submission (Write.graded t id now p row g h) f o =
      find-update_by (λ (x : Submission). x.id) id k (graded_submission now p) (same_graded now p)
        (λ e. other (same_teacher id t (rw e at f) g h o)) t.submissions
      ∙ f

-- None of the requests is of this user.
abbrev pub AreOthers : ℕ → List Request → Type 0
AreOthers i requests = All (λ (r : Request). i ≢ r.user.id) requests

teacher_is :
    {a : Assignment} (s : Submission) (k : ℕ) (t : Tables)
    → s.assignment_id ≡ k
    → get_assignment k t ≡ some a
    → teacher_of s t ≡ some a.instructor_id
unfolding teacher_of
teacher_is s k t e f = rw e (ground arith)

-- The calls of other users, in any order and whatever the database answers to their commits, leave an assignment
-- and a submission to it as they are.
pub serve-keeps :
    (requests : List Request) (t : Tables) (k j : ℕ) (a : Assignment) (s : Submission)
    → get_assignment k t ≡ some a
    → get_submission j t ≡ some s
    → s.assignment_id ≡ k
    → AreOthers a.instructor_id requests
    → (get_assignment k (serve requests t) ≡ some a)
      × (get_submission j (serve requests t) ≡ some s)
unfolding serve
serve-keeps [] t k j a s f g e others = (f, g)
serve-keeps (r ∷ requests) t k j a s f g e others =
    let write = perform-Write r.call r.user t r.commit_error in
    serve-keeps requests _ k j a s (Write-get_assignment k others.0 write f)
      (Write-get_submission j others.0 write g (teacher_is s k t e f)) e others.1
