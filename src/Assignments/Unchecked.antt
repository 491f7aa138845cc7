-- ===== src/Assignments/Unchecked.antt =====
-- A grade that `PUT /assignments/submissions/{id}` stores, which passes no check.
use lms_backend.Base.{ℕ, ◌≡◌, refl, Bool, true, none, some, List, [], ◌∷◌, ok, arith, any}
use lms_backend.Base.Float.{Float}
use lms_backend.Base.Patch.{unset, given}
use lms_backend.Core.Permissions.{Role}
use lms_backend.Db.{User, Tables}
use lms_backend.Base.Changes.{update_by}
use lms_backend.Assignments.Rows.{Submission, SubmissionUpdate}
use lms_backend.Assignments.Commit.{
  commit_checked, meets_constraints, submission_allowed, same_key, unique_keys, all,
}
use lms_backend.Assignments.Submissions.{
  get_submission, write_submission, updated_submission, update_submission,
}
use lms_backend.Assignments.Routes.{teacher_of, put_submission}
use lms_backend.Assignments.Calls.{opened}
use lms_backend.Base.Changes.{any-update_by}

-- An update that gives a grade and a maximum.
abbrev pub only_grade : Float → Float → SubmissionUpdate
only_grade grade max_grade = record {
  grade = given (some grade);
  max_grade = given (some max_grade);
  feedback = unset;
  feedback_attachments = unset;
  status = unset;
  graded_at = unset;
  returned_at = unset;
}

all-update_by :
    {A : Type 0} (key : A → ℕ) (id : ℕ) (f : A → A) (p : A → Bool)
    → ((x : A) → p (f x) ≡ p x)
    → (xs : List A) → all p (update_by key id f xs) ≡ all p xs
all-update_by key id f p same [] = refl
all-update_by key id f p same (x ∷ xs) = ground (arith, all-update_by key id f p same xs, same x)

same_key-update :
    (now : ℕ) (u : SubmissionUpdate) (x y : Submission)
    → (same_key x (updated_submission now u y) ≡ same_key x y)
      × (same_key (updated_submission now u x) y ≡ same_key x y)
unfolding same_key updated_submission
same_key-update now u x y = (refl, refl)

any-pointwise :
    {A : Type 0} (p q : A → Bool) → ((x : A) → p x ≡ q x) → (xs : List A) → any p xs ≡ any q xs
any-pointwise p q same [] = refl
any-pointwise p q same (x ∷ xs) = ground (arith, any-pointwise p q same xs, same x)

unique_keys-update :
    (now id : ℕ) (u : SubmissionUpdate) (xs : List Submission)
    → unique_keys (update_by (λ x. x.id) id (updated_submission now u) xs) ≡ unique_keys xs
unfolding unique_keys
unique_keys-update now id u [] = refl
unique_keys-update now id u (x ∷ xs) =
    let later : any (same_key x) (update_by (λ y. y.id) id (updated_submission now u) xs)
        ≡ any (same_key x) xs =
      any-update_by (λ (y : Submission). y.id) id (updated_submission now u) (same_key x)
        (λ y. (same_key-update now u x y).0) xs in
    let head : any (same_key (updated_submission now u x))
          (update_by (λ y. y.id) id (updated_submission now u) xs)
        ≡ any (same_key x) (update_by (λ y. y.id) id (updated_submission now u) xs) =
      any-pointwise _ _ (λ y. (same_key-update now u x y).1) _ in
    ground (arith, later, head, unique_keys-update now id u xs)

same_status :
    (now : ℕ) (grade max_grade : Float) (x : Submission)
    → submission_allowed (updated_submission now (only_grade grade max_grade) x)
      ≡ submission_allowed x
unfolding submission_allowed updated_submission
same_status now grade max_grade x = refl

only_grade-meets_constraints :
    (now id : ℕ) (grade max_grade : Float) (t : Tables)
    → meets_constraints t ≡ true
    → meets_constraints
        (write_submission id (updated_submission now (only_grade grade max_grade)) t)
      ≡ true
unfolding meets_constraints write_submission
only_grade-meets_constraints now id grade max_grade t h =
    let f = updated_submission now (only_grade grade max_grade) in
    ground (
      arith,
      all-update_by (λ (x : Submission). x.id) id f submission_allowed
          (same_status now grade max_grade) t.submissions,
      unique_keys-update now id (only_grade grade max_grade) t.submissions,
    )

-- `PUT /assignments/submissions/{id}` with any grade and any maximum, even a grade above the maximum, is accepted
-- from the teacher of the assignment, and stored.
pub put_submission_unchecked :
    (id now : ℕ) (grade max_grade : Float) (user : User) (t : Tables) {old : Submission}
    → user.role ≡ Role.instructor
    → get_submission id t ≡ some old
    → teacher_of old t ≡ some user.id
    → meets_constraints t ≡ true
    → let (r, s) = put_submission id now (only_grade grade max_grade) user (opened t none) in
      (row : Submission) × (r ≡ ok row)
      × (row.grade ≡ some grade)
      × (row.max_grade ≡ some max_grade)
      × (s.committed ≡ write_submission id (updated_submission now (only_grade grade max_grade)) t)
unfolding put_submission update_submission updated_submission commit_checked
put_submission_unchecked id now grade max_grade user t {old} r f o m =
    let u = only_grade grade max_grade in
    let fine = only_grade-meets_constraints now id grade max_grade t m in
    (updated_submission now u old, ground (arith, fine), refl, refl, ground (arith, fine))
