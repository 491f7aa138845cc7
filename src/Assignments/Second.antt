-- ===== src/Assignments/Second.antt =====
-- What `POST /assignments/submit` replies to a second submission, and to one of an unknown status.
use lms_backend.Base.{
  ℕ, ◌≡◌, ◌⊎◌, Bool, true, false, none, some, List, [], ◌∷◌, ◌++◌, ◌∙◌, integrity_error, err,
  http_exception, arith, inl, inr, any, Bool-cases, ==_iff,
}
use lms_backend.Core.Permissions.{Role}
use lms_backend.Db.{User, Enrollment, Tables, rollback}
use lms_backend.Assignments.Rows.{Assignment, Submission, SubmissionCreate}
use lms_backend.Assignments.Commit.{
  commit_checked, meets_constraints, submission_allowed, same_key, unique_keys, all,
}
use lms_backend.Assignments.Service.{is_open}
use lms_backend.Assignments.Submissions.{
  own_enrollment, course_assignment, new_submission, add_submission, second_submission,
  commit_submission, create_submission,
}
use lms_backend.Assignments.Routes.{submit_assignment, submit_error}
use lms_backend.Assignments.Calls.{opened}

all-append :
    {A : Type 0} (p : A → Bool) (xs : List A) (x : A) → p x ≡ false → all p (xs ++ x ∷ []) ≡ false
all-append p [] x h = ground arith
all-append p (y ∷ xs) x h = ground (arith, all-append p xs x h)

any_last :
    {A : Type 0} (p : A → Bool) (xs : List A) (x : A) → p x ≡ true → any p (xs ++ x ∷ []) ≡ true
any_last p [] x h = ground arith
any_last p (y ∷ xs) x h = ground (arith, any_last p xs x h)

same_key_sym : (a b : Submission) → same_key a b ≡ same_key b a
unfolding same_key
same_key_sym a b = ground (
  arith,
  ==_iff a.enrollment_id b.enrollment_id,
  ==_iff b.enrollment_id a.enrollment_id,
  ==_iff a.assignment_id b.assignment_id,
  ==_iff b.assignment_id a.assignment_id,
)

unique_keys-append :
    (xs : List Submission) (x : Submission)
    → any (same_key x) xs ≡ true
    → unique_keys (xs ++ x ∷ []) ≡ false
unfolding unique_keys
unique_keys-append [] x h = cc
unique_keys-append (y ∷ xs) x h = elim (Bool-cases (same_key x y)) [
  | inl e ↦ ground (arith, any_last (same_key y) xs x (same_key_sym y x ∙ e))
  | inr e ↦ ground (arith, unique_keys-append xs x (ground arith))
]

-- What would break the constraints when a submission is added: its status, or an earlier one of the same key.
abbrev pub IsRefused : Submission → Tables → Type 0
IsRefused row t = (submission_allowed row ≡ false) ⊎ (any (same_key row) t.submissions ≡ true)

refused-meets_constraints :
    (row : Submission) (t : Tables)
    → IsRefused row t
    → meets_constraints (record t { submissions = t.submissions ++ row ∷ [] }) ≡ false
unfolding meets_constraints
refused-meets_constraints row t (inl h) =
    ground (arith, all-append submission_allowed t.submissions row h)
refused-meets_constraints row t (inr h) = ground (arith, unique_keys-append t.submissions row h)

refused-commit_submission :
    (row : Submission) (t : Tables)
    → IsRefused row t
    → commit_submission (add_submission row (opened t none))
      ≡ second_submission integrity_error (add_submission row (opened t none))
unfolding commit_submission commit_checked add_submission
refused-commit_submission row t h = ground (arith, refused-meets_constraints row t h)

-- A student's submission that would break the constraints, being a second one for the assignment or having an
-- unknown status, is answered with 400 and as a second one, and leaves the session and the database as they were.
pub refused_as_second :
    (id now : ℕ) (p : SubmissionCreate) (user : User) (t : Tables) {e : Enrollment} {a : Assignment}
    → user.role ≡ Role.student
    → own_enrollment p.enrollment_id user.id t ≡ some e
    → course_assignment p.assignment_id e.course_id t ≡ some a
    → is_open a ≡ true
    → IsRefused (new_submission id now p) t
    → submit_assignment id now p user (opened t none) ≡ (
      err (http_exception 400 "A submission already exists for this assignment and enrollment"),
      opened t none,
    )
unfolding submit_assignment create_submission second_submission add_submission rollback submit_error
refused_as_second id now p user t r f g o h =
    let refused = refused-commit_submission (new_submission id now p) t h in ground arith
