-- ===== src/Assignments/Performed.antt =====
-- Each call commits nothing, or one write.
use lms_backend.Base.{
  ℕ, ◌≡◌, ◌⊎◌, refl, some, [], ◌∷◌, ◌++◌, Option, Error, ok, err, arith, inl, inr, Option-cases,
  Bool-cases, ◌==◌, ==_iff, String, http_exception, value_error, integrity_error, ◌&&◌,
}
use lms_backend.Core.Permissions.{Role, role_eq}
use lms_backend.Db.{User, Tables, Session, rollback}
use lms_backend.Enrollments.Repository.{find_course, get_by_id}
use lms_backend.Assignments.Rows.{
  Assignment, AssignmentCreate, AssignmentUpdate, SubmissionCreate, SubmissionUpdate,
  SubmissionGradeRequest,
}
use lms_backend.Assignments.Service.{
  get_assignment, is_open, new_assignment, create_assignment, updated_assignment, update_assignment,
  write_assignment, without_assignment, delete_assignment,
}
use lms_backend.Assignments.Submissions.{
  own_enrollment, course_assignment, new_submission, add_submission, second_submission,
  commit_submission, create_submission, get_submission, write_submission, updated_submission,
  update_submission, graded_submission, touch_enrollment, out_of_range, grade_submission,
}
use lms_backend.Assignments.Routes.{
  own_assignment, teacher_of, post_assignment, put_assignment, remove_assignment, submit_assignment,
  put_submission, grade_route,
}
use lms_backend.Assignments.Calls.{Call, opened, perform}
use lms_backend.Assignments.Writes.{Write, moved, commit_checked-cases}

post-Write :
    (id now : ℕ) (p : AssignmentCreate) (user : User) (t : Tables) (e : Option Error)
    → Write user t (post_assignment id now p user (opened t e)).1.committed
unfolding post_assignment create_assignment
post-Write id now p user t e =
    let w : Session = record (opened t e) {
      tables = record t { assignments = t.assignments ++ new_assignment id now p user.id ∷ [] };
    } in
    elim (Bool-cases (role_eq user.role Role.instructor)) [
      | inr n ↦ moved (ground arith) (Write.kept t)
      | inl r ↦ elim (Option-cases (find_course p.course_id t)) [
        | inl n ↦ moved (ground arith) (Write.kept t)
        | inr (c, f) ↦ elim (Bool-cases (c.instructor_id == user.id)) [
          | inr n ↦ moved (ground arith) (Write.kept t)
          | inl own ↦ elim (commit_checked-cases w) [
            | inr (x, q) ↦ moved (ground arith) (Write.kept t)
            | inl q ↦ moved (ground arith) (Write.added t id now p)
          ]
        ]
      ]
    ]

-- `own_assignment` refuses, or finds an assignment of the user.
own_assignment-cases :
    (id : ℕ) (detail : String) (user : User) (s : Session)
    → ((x : Error) × (own_assignment id detail user s ≡ (err x, s)))
      ⊎ ((a : Assignment) × (own_assignment id detail user s ≡ (ok a, s))
          × (get_assignment id s.tables ≡ some a)
          × (a.instructor_id ≡ user.id)
          × (user.role ≡ Role.instructor))
unfolding own_assignment
own_assignment-cases id detail user s = elim (Option-cases (get_assignment id s.tables)) [
  | inl n ↦ inl (http_exception 404 "Assignment not found", ground arith)
  | inr (a, f) ↦
      elim (Bool-cases (role_eq user.role Role.instructor && (a.instructor_id == user.id))) [
        | inr n ↦ inl (http_exception 403 detail, ground arith)
        | inl y ↦
            inr (a, ground arith, f, ground (arith, ==_iff a.instructor_id user.id), ground arith)
      ]
]

put-Write :
    (id now : ℕ) (u : AssignmentUpdate) (user : User) (t : Tables) (e : Option Error)
    → Write user t (put_assignment id now u user (opened t e)).1.committed
unfolding put_assignment update_assignment
put-Write id now u user t e =
    let w : Session = record (opened t e) {
      tables = write_assignment id (updated_assignment now u) t;
    } in
    elim (own_assignment-cases id "You don't have permission to update this assignment" user
      (opened t e)) [
        | inl (x, q) ↦ moved (ground arith) (Write.kept t)
        | inr (a, q, f, own, role) ↦ elim (commit_checked-cases w) [
          | inr (x, r) ↦ moved (ground arith) (Write.kept t)
          | inl r ↦ moved (ground arith) (Write.changed t id now u a f own)
        ]
      ]

remove-Write :
    (id : ℕ) (user : User) (t : Tables) (e : Option Error)
    → Write user t (remove_assignment id user (opened t e)).1.committed
unfolding remove_assignment delete_assignment
remove-Write id user t e =
    let w : Session = record (opened t e) { tables = without_assignment id t } in
    elim (own_assignment-cases id "You don't have permission to delete this assignment" user
      (opened t e)) [
        | inl (x, q) ↦ moved (ground arith) (Write.kept t)
        | inr (a, q, f, own, role) ↦ elim (commit_checked-cases w) [
          | inr (x, r) ↦ moved (ground arith) (Write.kept t)
          | inl r ↦ moved (ground arith) (Write.removed t id a f own)
        ]
      ]

second_submission-cases :
    (x : Error) (s : Session)
    → (y : Error) × (r : Session) × (second_submission x s ≡ (err y, r))
      × (r.committed ≡ s.committed)
unfolding second_submission rollback
second_submission-cases integrity_error s = (value_error _, rollback s, refl, refl)
second_submission-cases x s = (x, s, refl, refl)

-- The commit of `create_submission` keeps the session's writes, or raises and commits nothing.
commit_submission-cases :
    (s : Session)
    → (commit_submission s ≡ (ok tt, record s { committed = s.tables }))
      ⊎ ((x : Error) × (r : Session) × (commit_submission s ≡ (err x, r))
          × (r.committed ≡ s.committed))
unfolding commit_submission
commit_submission-cases s = elim (commit_checked-cases s) [
  | inl q ↦ inl (ground arith)
  | inr (x, q) ↦ let (y, r, h, c) = second_submission-cases x s in inr (y, r, ground arith, c)
]

create-Write :
    (id now : ℕ) (p : SubmissionCreate) (user : User) (t : Tables) (e : Option Error)
    → Write user t (create_submission id now p user.id (opened t e)).1.committed
unfolding create_submission add_submission
create-Write id now p user t e = elim (Option-cases (own_enrollment p.enrollment_id user.id t)) [
  | inl n ↦ moved (ground arith) (Write.kept t)
  | inr (en, f) ↦ elim (Option-cases (course_assignment p.assignment_id en.course_id t)) [
    | inl n ↦ moved (ground arith) (Write.kept t)
    | inr (a, g) ↦ elim (Bool-cases (is_open a)) [
      | inr n ↦ moved (ground arith) (Write.kept t)
      | inl o ↦
          elim (commit_submission-cases (add_submission (new_submission id now p) (opened t e))) [
            | inr (x, r, q, c) ↦ moved (ground arith) (Write.kept t)
            | inl q ↦ moved (ground arith) (Write.submitted t id now p en a f g o)
          ]
    ]
  ]
]

submit-Write :
    (id now : ℕ) (p : SubmissionCreate) (user : User) (t : Tables) (e : Option Error)
    → Write user t (submit_assignment id now p user (opened t e)).1.committed
unfolding submit_assignment
submit-Write id now p user t e = elim (Bool-cases (role_eq user.role Role.student)) [
  | inr n ↦ moved (ground arith) (Write.kept t)
  | inl r ↦ moved (ground arith) (create-Write id now p user t e)
]

revise-Write :
    (id now : ℕ) (u : SubmissionUpdate) (user : User) (t : Tables) (e : Option Error)
    → Write user t (put_submission id now u user (opened t e)).1.committed
unfolding put_submission update_submission
revise-Write id now u user t e =
    let w : Session = record (opened t e) {
      tables = write_submission id (updated_submission now u) t;
    } in
    elim (Option-cases (get_submission id t)) [
      | inl n ↦ moved (ground arith) (Write.kept t)
      | inr (row, f) ↦ elim (Bool-cases (role_eq user.role Role.instructor)) [
        | inr n ↦ moved (ground arith) (Write.kept t)
        | inl r ↦ elim (Option-cases (teacher_of row t)) [
          | inl n ↦ moved (ground arith) (Write.kept t)
          | inr (teacher, g) ↦ elim (Bool-cases (teacher == user.id)) [
            | inr n ↦ moved (ground arith) (Write.kept t)
            | inl own ↦ elim (commit_checked-cases w) [
              | inr (x, q) ↦ moved (ground arith) (Write.kept t)
              | inl q ↦
                  moved (ground arith)
                    (Write.revised t id now u row f (ground (arith, ==_iff teacher user.id)))
            ]
          ]
        ]
      ]
    ]

grading-Write :
    (id now : ℕ) (p : SubmissionGradeRequest) (user : User) (t : Tables) (e : Option Error)
    → Write user t (grade_submission id now p user.id (opened t e)).1.committed
unfolding grade_submission teacher_of
grading-Write id now p user t e = elim (Bool-cases (out_of_range p.grade p.max_grade)) [
  | inl n ↦ moved (ground arith) (Write.kept t)
  | inr range ↦ elim (Option-cases (get_submission id t)) [
    | inl n ↦ moved (ground arith) (Write.kept t)
    | inr (row, f) ↦ elim (Option-cases (get_assignment row.assignment_id t)) [
      | inl n ↦ moved (ground arith) (Write.kept t)
      | inr (a, g) ↦ elim (Bool-cases (a.instructor_id == user.id)) [
        | inr n ↦ moved (ground arith) (Write.kept t)
        | inl own ↦ elim (Option-cases (get_by_id row.enrollment_id t)) [
          | inl n ↦ moved (ground arith) (Write.kept t)
          | inr (en, h) ↦
              let w : Session = record (opened t e) {
                tables =
                    touch_enrollment now row.enrollment_id
                      (write_submission id (graded_submission now p) t);
              } in
              elim (commit_checked-cases w) [
                | inr (x, q) ↦ moved (ground arith) (Write.kept t)
                | inl q ↦
                    moved (ground arith) (
                      Write.graded t id now p row f
                        (ground (arith, ==_iff a.instructor_id user.id)))
              ]
        ]
      ]
    ]
  ]
]

grade-Write :
    (id now : ℕ) (p : SubmissionGradeRequest) (user : User) (t : Tables) (e : Option Error)
    → Write user t (grade_route id now p user (opened t e)).1.committed
unfolding grade_route
grade-Write id now p user t e = elim (Bool-cases (role_eq user.role Role.instructor)) [
  | inr n ↦ moved (ground arith) (Write.kept t)
  | inl r ↦ moved (ground arith) (grading-Write id now p user t e)
]

-- Every call commits nothing, or one write that its user may make.
pub perform-Write :
    (c : Call) (user : User) (t : Tables) (e : Option Error)
    → Write user t (perform c user (opened t e)).committed
unfolding perform
perform-Write (Call.post id now p) user t e = post-Write id now p user t e
perform-Write (Call.put id now u) user t e = put-Write id now u user t e
perform-Write (Call.remove id) user t e = remove-Write id user t e
perform-Write (Call.submit id now p) user t e = submit-Write id now p user t e
perform-Write (Call.revise id now u) user t e = revise-Write id now u user t e
perform-Write (Call.grade id now p) user t e = grade-Write id now p user t e
