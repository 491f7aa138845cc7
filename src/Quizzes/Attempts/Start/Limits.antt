-- ===== src/Quizzes/Attempts/Start/Limits.antt =====
-- Who may start an attempt, and how many.
use lms_backend.Base.{
  ℕ, suc, ◌≡◌, refl, ◌≤◌, ◌⊎◌, true, some, ok, err, Result, arith, inl, inr, Error, find_passes,
  ==_iff, Option-cases, Result-cases,
}
use lms_backend.Base.Lists.{find-Memᴰ}
use mathlib.Core.List.{Memᴰ}
use lms_backend.Core.Permissions.{Role}
use lms_backend.Db.{
  User, Enrollment, Lesson, EnrollmentStatus, Quiz, QuizAttempt, AttemptStatus, Tables, Session,
  commit_plain,
}
use lms_backend.Enrollments.Repository.{matches, find_lesson, get_by_student_and_course}
use lms_backend.Quizzes.Attempts.Repository.{find_quiz, in_progress_of, create}
use lms_backend.Quizzes.Attempts.Start.{
  Environment, start_attempt, rounds, round, or_retry, insert_attempt, student_enrollment,
  clear_way, Round, started, again,
}

-- An open attempt of this enrollment at this quiz, with a number within the limit of the quiz.
pub record IsAllowed (e : Enrollment) (quiz : Quiz) (a : QuizAttempt) : Type 0 where
  pub opened : a.status ≡ AttemptStatus.in_progress
  pub enrolled : a.enrollment_id ≡ e.id
  pub of_quiz : a.quiz_id ≡ quiz.id
  pub within : (m : ℕ) → quiz.max_attempts ≡ some (suc m) → a.attempt_number ≤ suc m

round-IsAllowed :
    (env : Environment) (n : ℕ) (e : Enrollment) (quiz : Quiz) (s : Session) {a : QuizAttempt}
    → (round env n e quiz s).0 ≡ ok (started a)
    → IsAllowed e quiz a
unfolding round insert_attempt create commit_plain
round-IsAllowed env n e quiz s {a} h = record {
  opened = ground arith;
  enrolled = ground arith;
  of_quiz = ground arith;
  within = λ m q. ground arith;
}

rounds-IsAllowed :
    (env : Environment) (e : Enrollment) (quiz : Quiz) (s : Session) {a : QuizAttempt}
    → (rounds env e quiz s).0 ≡ ok a
    → IsAllowed e quiz a
unfolding rounds or_retry
rounds-IsAllowed env e quiz s {a} h = elim (step-cases (round env 0 e quiz s)) [
  | inl first ↦ round-IsAllowed env 0 e quiz s (ground arith)
  | inr later ↦ round-IsAllowed env 1 e quiz (round env 0 e quiz s).1 (ground arith)
]
  where
    step-cases :
        (r : Result Round × Session)
        → ((b : QuizAttempt) × (r.0 ≡ ok (started b)))
          ⊎ ((r.0 ≡ ok again) ⊎ ((c : Error) × (r.0 ≡ err c)))
    step-cases (ok (started b), t) = inl (b, refl)
    step-cases (ok again, t) = inr (inl refl)
    step-cases (err c, t) = inr (inr (c, refl))

-- A stored enrollment of this student, active or completed, in the course of the lesson of the quiz.
abbrev pub IsEnrolled : Enrollment → Quiz → ℕ → Tables → Type 0
IsEnrolled e quiz student_id t =
    Memᴰ e t.enrollments
    × (e.student_id ≡ student_id)
    × ((lesson : Lesson) × (find_lesson quiz.lesson_id t ≡ some lesson)
        × (e.course_id ≡ lesson.course_id))
    × ((e.status ≡ EnrollmentStatus.active) ⊎ (e.status ≡ EnrollmentStatus.completed))

found_student :
    (student_id course_id : ℕ) (t : Tables) {e : Enrollment}
    → get_by_student_and_course student_id course_id t ≡ some e
    → Memᴰ e t.enrollments × (e.student_id ≡ student_id) × (e.course_id ≡ course_id)
unfolding get_by_student_and_course matches
found_student student_id course_id t {e} h =
    let m = find_passes (matches student_id course_id) t.enrollments {a = e} h in
    (
      find-Memᴰ (matches student_id course_id) t.enrollments h,
      ground (arith, m, ==_iff e.student_id student_id),
      ground (arith, m, ==_iff e.course_id course_id),
    )

student_enrollment-IsEnrolled :
    (quiz : Quiz) (student_id : ℕ) (s : Session) {e : Enrollment}
    → (student_enrollment quiz student_id s).0 ≡ ok e
    → IsEnrolled e quiz student_id s.tables
unfolding student_enrollment
student_enrollment-IsEnrolled quiz student_id s {e} h =
    let t = s.tables in
    elim (Option-cases (find_lesson quiz.lesson_id t)) [
      | inl n ↦ absurd (ground arith)
      | inr (l, found) ↦
          let stored : get_by_student_and_course student_id l.course_id t ≡ some e = ground arith in
          let (member, own, same) = found_student student_id l.course_id t stored in
          (member, own, (l, found, same), ground arith)
    ]

-- The session when the rounds begin.
abbrev at_rounds : Environment → Quiz → ℕ → Enrollment → Session → Session
at_rounds env quiz student_id e s =
    (clear_way (in_progress_of e.id quiz.id s.tables.attempts) quiz env.now
      (student_enrollment quiz student_id s).1).1

start-cases :
    (env : Environment) (quiz_id : ℕ) (user : User) (s : Session) {a : QuizAttempt}
    → (start_attempt env quiz_id user s).0 ≡ ok a
    → (user.role ≡ Role.student)
      × ((quiz : Quiz) × (find_quiz quiz_id s.tables ≡ some quiz)
          × (quiz.is_published ≡ true)
          × ((e : Enrollment) × ((student_enrollment quiz user.id s).0 ≡ ok e)
              × ((rounds env e quiz (at_rounds env quiz user.id e s)).0 ≡ ok a)))
unfolding start_attempt
start-cases env quiz_id user s h = elim (Option-cases (find_quiz quiz_id s.tables)) [
  | inl missing ↦ absurd (ground arith)
  | inr (quiz, found) ↦ elim (Result-cases (student_enrollment quiz user.id s).0) [
    | inr (c, refused) ↦ absurd (ground arith)
    | inl (e, enrolled) ↦ (ground arith, (quiz, found, ground arith, (e, enrolled, ground arith)))
  ]
]

-- A start that goes through is by a student, for a published quiz; among the stored enrollments is an active or
-- completed one of this student in the course of the quiz's lesson; and the start opens an attempt of this
-- enrollment whose number is within the limit of the quiz.
pub start_attempt-IsAllowed :
    (env : Environment) (quiz_id : ℕ) (user : User) (s : Session) {a : QuizAttempt}
    → (start_attempt env quiz_id user s).0 ≡ ok a
    → (user.role ≡ Role.student)
      × ((quiz : Quiz) × (find_quiz quiz_id s.tables ≡ some quiz)
          × (quiz.is_published ≡ true)
          × ((e : Enrollment) × IsEnrolled e quiz user.id s.tables × IsAllowed e quiz a))
unfolding start_attempt
start_attempt-IsAllowed env quiz_id user s h =
    let (student, (quiz, found, published, (e, enrolled, started_at))) =
      start-cases env quiz_id user s h in
    (
      student,
      (
        quiz,
        found,
        published,
        (
          e,
          student_enrollment-IsEnrolled quiz user.id s enrolled,
          rounds-IsAllowed env e quiz (at_rounds env quiz user.id e s) started_at,
        ),
      ),
    )
