-- ===== src/Quizzes/Attempts/Submit/Once.antt =====
-- An attempt can be submitted once: a submission that goes through finds it open and leaves it graded.
use lms_backend.Base.{
  ℕ, ◌≡◌, ◌≢◌, sym, ◌∙◌, refl, ap, true, false, Bool, none, some, List, [], ◌∷◌, ok, err, arith,
  ◌==◌, inl, inr, find, find_passes, Option-cases, Result-cases, forbidden, Result,
}
use lms_backend.Base.Dict.{Dict}
use lms_backend.Core.Permissions.{Role}
use lms_backend.Db.{
  User, Enrollment, LessonProgress, Quiz, QuizAttempt, AttemptStatus, Session, Tables,
}
use lms_backend.Enrollments.Service.{mark_lesson_completed}
use lms_backend.Enrollments.Service.Lessons.{attempts-update}
use lms_backend.Quizzes.Grading.{AnswerSubmission}
use lms_backend.Quizzes.Answers.{build_answer_map}
use lms_backend.Quizzes.Attempts.Repository.{get_attempt, put_attempt, find_quiz}
use lms_backend.Quizzes.Attempts.Start.{student_enrollment, is_time_limit_exceeded, expired}
use lms_backend.Quizzes.Attempts.Submit.{Moment, submit_attempt, reward, finish, graded, passed}
use lms_backend.Quizzes.Attempts.Submit.Graded.{IsGraded, graded-IsGraded}

find-put_attempt :
    (id : ℕ) (a b : QuizAttempt) (rows : List QuizAttempt)
    → find (λ (r : QuizAttempt). r.id == id) rows ≡ some a
    → b.id ≡ id
    → find (λ (r : QuizAttempt). r.id == id) (put_attempt b rows) ≡ some b
unfolding put_attempt
find-put_attempt id a b [] h e = cc
find-put_attempt id a b (r ∷ rows) h e = ground (arith, find-put_attempt id a b rows)

attempts-mark :
    (id now t1 t2 enrollment_id lesson_id : ℕ) (user : User) (s : Session) {p : LessonProgress}
    → (mark_lesson_completed id now t1 t2 enrollment_id lesson_id user s).0 ≡ ok p
    → (mark_lesson_completed id now t1 t2 enrollment_id lesson_id user s).1.tables.attempts
      ≡ s.tables.attempts
unfolding mark_lesson_completed
attempts-mark id now t1 t2 eid lid user s {p} h =
    attempts-update id now t1 t2 eid lid _ user s {p = p} h

reward-attempts :
    (m : Moment) (passed : Bool) (e : Enrollment) (quiz : Quiz) (user : User) (s : Session)
    → (reward m passed e quiz user s).0 ≡ ok tt
    → (reward m passed e quiz user s).1.tables.attempts ≡ s.tables.attempts
unfolding reward
reward-attempts m false e quiz user s h = refl
reward-attempts m true e quiz user s h = elim (Result-cases marked.0) [
  | inl (p, done) ↦ ground (
    arith,
    attempts-mark m.progress_id m.progress_now m.t1 m.t2 e.id quiz.lesson_id user s {p = p} done,
  )
  | inr (c, failed) ↦ absurd (ground arith)
]
  where
    marked : Result LessonProgress × Session
    marked = mark_lesson_completed m.progress_id m.progress_now m.t1 m.t2 e.id quiz.lesson_id user s

module _ (m : Moment) (a : QuizAttempt) (e : Enrollment) (quiz : Quiz)
    (answers : Dict ℕ AnswerSubmission) (user : User) (s : Session) where
  abbrev row : QuizAttempt
  row = graded a quiz answers m.now

  abbrev written : Session
  written = record s { tables = record s.tables { attempts = put_attempt row s.tables.attempts } }

  id-row : row.id ≡ a.id
  unfolding graded
  id-row = refl

  finish-stores :
      {b : QuizAttempt}
      → get_attempt a.id s.tables ≡ some a
      → (finish m a e quiz answers user s).0 ≡ ok b
      → (b ≡ row) × (get_attempt a.id (finish m a e quiz answers user s).1.tables ≡ some row)
  unfolding finish get_attempt
  finish-stores stored h = ground (
    arith,
    reward-attempts m (passed row) e quiz user written,
    find-put_attempt a.id a row s.tables.attempts stored id-row,
  )

get_attempt-id : (id : ℕ) (t : Tables) {a : QuizAttempt} → get_attempt id t ≡ some a → a.id ≡ id
unfolding get_attempt
get_attempt-id id t {a} h =
    let m = find_passes (λ (r : QuizAttempt). r.id == id) t.attempts {a = a} h in ground (arith, m)

-- The session at the last step of a submission.
abbrev at_finish : Quiz → ℕ → Session → Session
at_finish quiz student_id s = (student_enrollment quiz student_id s).1

submit-cases :
    (m : Moment) (quiz_id attempt_id : ℕ) (answers : List AnswerSubmission) (user : User)
    (s : Session) {row : QuizAttempt}
    → (submit_attempt m quiz_id attempt_id answers user s).0 ≡ ok row
    → (quiz : Quiz) × (find_quiz quiz_id s.tables ≡ some quiz)
      × ((a : QuizAttempt) × (get_attempt attempt_id s.tables ≡ some a)
          × (a.status ≡ AttemptStatus.in_progress)
          × (is_time_limit_exceeded a quiz m.now ≡ false)
          × ((e : Enrollment) × ((student_enrollment quiz user.id s).0 ≡ ok e)
              × (a.enrollment_id ≡ e.id)
              × (a.quiz_id ≡ quiz.id)
              × ((accepted : Dict ℕ AnswerSubmission) × (build_answer_map quiz.questions answers
                    ≡ ok accepted)
                  × (submit_attempt m quiz_id attempt_id answers user s
                      ≡ finish m a e quiz accepted user (at_finish quiz user.id s)))))
unfolding submit_attempt
submit-cases m quiz_id attempt_id answers user s h =
    elim (Option-cases (find_quiz quiz_id s.tables)) [
      | inl missing ↦ absurd (ground arith)
      | inr (quiz, found) ↦ elim (Result-cases (student_enrollment quiz user.id s).0) [
        | inr (c, refused) ↦ absurd (ground arith)
        | inl (e, enrolled) ↦ elim (Option-cases (get_attempt attempt_id s.tables)) [
          | inl none_such ↦ absurd (ground arith)
          | inr (a, stored) ↦ elim (Result-cases (build_answer_map quiz.questions answers)) [
            | inr (c, rejected) ↦ absurd (ground arith)
            | inl (accepted, built) ↦ (
              quiz,
              found,
              (
                a,
                stored,
                ground arith,
                ground arith,
                (e, enrolled, ground arith, ground arith, (accepted, built, ground arith)),
              ),
            )
          ]
        ]
      ]
    ]

student_enrollment-state :
    (quiz : Quiz) (student_id : ℕ) (s : Session) → (student_enrollment quiz student_id s).1 ≡ s
unfolding student_enrollment
student_enrollment-state quiz student_id s = ground arith

-- The submission was of an open attempt within its time, with answers that the quiz accepts; `row` is
-- the attempt graded from these answers, and the one that is stored afterwards.
abbrev pub IsSubmission :
    Moment → ℕ → ℕ → List AnswerSubmission → Session → QuizAttempt → Session → Type 0
IsSubmission m quiz_id attempt_id answers s row t =
    (quiz : Quiz) × (find_quiz quiz_id s.tables ≡ some quiz)
    × ((a : QuizAttempt) × (get_attempt attempt_id s.tables ≡ some a)
        × (a.status ≡ AttemptStatus.in_progress)
        × (is_time_limit_exceeded a quiz m.now ≡ false)
        × ((accepted : Dict ℕ AnswerSubmission) × (build_answer_map quiz.questions answers
              ≡ ok accepted)
            × (row ≡ graded a quiz accepted m.now)
            × IsGraded quiz row
            × (get_attempt attempt_id t.tables ≡ some row)))

-- A submission that goes through was of an open attempt within its time, with answers that the quiz
-- accepts; it returns the attempt graded from these answers, with a score of at most the points of the
-- quiz and a percentage of at most 100, passed exactly from the passing score on, and stores it.
pub submit_attempt_grades :
    (m : Moment) (quiz_id attempt_id : ℕ) (answers : List AnswerSubmission) (user : User)
    (s : Session) {row : QuizAttempt}
    → (submit_attempt m quiz_id attempt_id answers user s).0 ≡ ok row
    → IsSubmission m quiz_id attempt_id answers s row
        (submit_attempt m quiz_id attempt_id answers user s).1
submit_attempt_grades m quiz_id attempt_id answers user s {row = b} h =
    let (
      quiz,
      found,
      (a, stored, opened, in_time, (e, enrolled, own, same, (accepted, built, is_finish))),
    ) =
      submit-cases m quiz_id attempt_id answers user s h in
    let id = get_attempt-id attempt_id s.tables {a = a} stored in
    let before : get_attempt a.id (at_finish quiz user.id s).tables ≡ some a =
      rw (student_enrollment-state quiz user.id s, id) stored in
    let end =
      finish-stores m a e quiz accepted user (at_finish quiz user.id s) before
        (ap (λ (r : Result QuizAttempt × Session). r.0) (sym is_finish) ∙ h) in
    (
      quiz,
      found,
      (
        a,
        stored,
        opened,
        in_time,
        (
          accepted,
          built,
          end.0,
          rw end.0 (graded-IsGraded a quiz accepted m.now),
          rw is_finish (rw (← id) (end.1 ∙ ap some (sym end.0))),
        ),
      ),
    )

-- After a submission that went through, no submission of the same attempt goes through, whoever makes
-- it and with whatever answers.
pub submit_attempt_once :
    (m : Moment) (quiz_id attempt_id : ℕ) (answers : List AnswerSubmission) (user : User)
    (s : Session) (m' : Moment) (quiz_id' : ℕ) (answers' : List AnswerSubmission) (user' : User)
    {row row' : QuizAttempt}
    → (submit_attempt m quiz_id attempt_id answers user s).0 ≡ ok row
    → (submit_attempt m' quiz_id' attempt_id answers' user'
        (submit_attempt m quiz_id attempt_id answers user s).1).0
      ≢ ok row'
submit_attempt_once m quiz_id attempt_id answers user s m' quiz_id' answers' user' h h' =
    let (q, _, (_, _, _, _, (_, _, _, g, stored))) =
      submit_attempt_grades m quiz_id attempt_id answers user s h in
    let (_, _, (a', stored', opened', _, _)) =
      submit_attempt_grades m' quiz_id' attempt_id answers' user'
        (submit_attempt m quiz_id attempt_id answers user s).1 h' in
    ground (arith, g.closed, stored, stored', opened')

-- If a submission by the student of an open attempt, with answers that the quiz accepts, comes after
-- the time limit and the commit goes through, it is refused, and the stored attempt is then graded
-- with no points and not passed.
pub submit_attempt_late :
    (m : Moment) (quiz_id attempt_id : ℕ) (answers : List AnswerSubmission) (user : User)
    (s : Session) (quiz : Quiz) (a : QuizAttempt) (e : Enrollment)
    (accepted : Dict ℕ AnswerSubmission)
    → user.role ≡ Role.student
    → find_quiz quiz_id s.tables ≡ some quiz
    → (student_enrollment quiz user.id s).0 ≡ ok e
    → get_attempt attempt_id s.tables ≡ some a
    → a.enrollment_id ≡ e.id
    → a.quiz_id ≡ quiz.id
    → a.status ≡ AttemptStatus.in_progress
    → build_answer_map quiz.questions answers ≡ ok accepted
    → is_time_limit_exceeded a quiz m.now ≡ true
    → s.commit_error ≡ none
    → let (r, t) = submit_attempt m quiz_id attempt_id answers user s in
      (r ≡ err (forbidden "Time limit exceeded for this attempt"))
      × (get_attempt attempt_id t.tables ≡ some (expired a quiz m.now))
      × (t.committed ≡ t.tables)
unfolding submit_attempt get_attempt
submit_attempt_late m quiz_id attempt_id answers user s quiz a e accepted role found enrolled stored
      own same opened built late c =
    ground (
      arith,
      student_enrollment-state quiz user.id s,
      find-put_attempt attempt_id a (expired a quiz m.now) s.tables.attempts stored id-expired,
    )
  where
    id-expired : (expired a quiz m.now).id ≡ attempt_id
    id-expired = get_attempt-id attempt_id s.tables {a = a} stored
