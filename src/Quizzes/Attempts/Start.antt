-- ===== src/Quizzes/Attempts/Start.antt =====
-- `start_attempt` and the expiry of attempts.
pub mod Limits
use lms_backend.Base.{
  ℕ, zero, suc, ◌+◌, ◌-◌, ◌*◌, ◌/◌, Bool, true, false, ◌&&◌, not, Option, none, some, List, [], ◌∷◌,
  ◌++◌, ok, err, Error, not_found, forbidden, value_error, integrity_error, Action, ◌>>=◌, ◌>>◌,
  pure, raise, gets, modify, require, raise_if, ltb, leb, ◌==◌, if◌then◌else◌,
}
use lms_backend.Core.Permissions.{Role}
use lms_backend.Db.{
  User, Enrollment, EnrollmentStatus, Quiz, QuizAttempt, AttemptStatus, GradedAnswer, Tables,
  Session, rollback, commit_plain,
}
use lms_backend.Enrollments.Repository.{find_lesson, get_by_student_and_course}
use lms_backend.Enrollments.Service.{has_role}
use lms_backend.Quizzes.Grading.{calculate_total_points}
use lms_backend.Quizzes.Attempts.Repository.{
  find_quiz, latest_number, in_progress_of, create, update,
}

abbrev pub second : ℕ
second = 1000000

-- What a call meets and the program does not decide: the identifiers drawn, the attempts that other
-- transactions commit before an insertion, and the readings of the clock, by round.
pub record Environment : Type 0 where
  pub now : ℕ
  pub id : ℕ → ℕ
  pub others : ℕ → List QuizAttempt
  pub clock : ℕ → ℕ

abbrev allows_attempts : EnrollmentStatus → Bool
allows_attempts EnrollmentStatus.active = true
allows_attempts EnrollmentStatus.completed = true
allows_attempts _ = false

-- `_get_student_enrollment_for_quiz`
unfoldable pub student_enrollment : Quiz → ℕ → Action Session Enrollment
student_enrollment quiz student_id = do
  t ← gets (λ s. s.tables)
  lesson ← require (find_lesson quiz.lesson_id t) (not_found "Quiz lesson not found")
  e ←
      require (get_by_student_and_course student_id lesson.course_id t)
        (forbidden "You must enroll in course before attempting quiz")
  raise_if (not (allows_attempts e.status))
      (forbidden "Enrollment status does not allow quiz attempts")
  pure e

-- A limit of no minutes is no limit.
abbrev pub limit_of : Option ℕ → Option ℕ
limit_of none = none
limit_of (some zero) = none
limit_of (some (suc n)) = some (suc n)

-- `_is_time_limit_exceeded`
unfoldable pub is_time_limit_exceeded : QuizAttempt → Quiz → ℕ → Bool
is_time_limit_exceeded a quiz now = elim (limit_of quiz.time_limit_minutes) [
  | none ↦ false
  | some m ↦ ltb (a.started_at + m * 60 * second) now
]

abbrev or_value : {A : Type 0} → Option A → A → Option A
or_value none a = some a
or_value (some b) a = some b

-- The attempt with no points, as `_expire_attempt_due_to_time_limit` writes it.
unfoldable pub expired : QuizAttempt → Quiz → ℕ → QuizAttempt
unfolding calculate_total_points
expired a quiz now = record a {
  status = AttemptStatus.graded;
  submitted_at = some now;
  graded_at = some now;
  score = some 0;
  max_score = or_value a.max_score (calculate_total_points quiz.questions);
  percentage = some 0;
  is_passed = some false;
  time_taken_seconds = some ((now - a.started_at) / second);
  answers = or_value a.answers [];
}

unfoldable pub expire : QuizAttempt → Quiz → ℕ → Action Session (Unit {0})
unfolding expired update commit_plain
expire a quiz now = update (expired a quiz now) >> commit_plain

-- The open attempt is expired if it is too late for it, and is in the way if not.
clear_way : Option QuizAttempt → Quiz → ℕ → Action Session (Unit {0})
clear_way none quiz now = pure tt
clear_way (some a) quiz now =
    if is_time_limit_exceeded a quiz now
    then expire a quiz now
    else raise (forbidden "You already have an in-progress attempt")

abbrev pub attempts_used_up : Option ℕ → ℕ → Bool
attempts_used_up limit latest = elim (limit_of limit) [ none ↦ false | some m ↦ leb m latest ]

abbrev pub new_attempt : ℕ → ℕ → ℕ → ℕ → ℕ → ℕ → QuizAttempt
new_attempt id enrollment_id quiz_id number started_at max_score = record {
  id = id;
  enrollment_id = enrollment_id;
  quiz_id = quiz_id;
  attempt_number = number;
  status = AttemptStatus.in_progress;
  started_at = started_at;
  submitted_at = none;
  graded_at = none;
  score = none;
  max_score = some max_score;
  percentage = none;
  is_passed = none;
  time_taken_seconds = none;
  answers = none;
}

-- `create` and `commit`, which `try` encloses.
unfoldable pub insert_attempt : QuizAttempt → Action Session QuizAttempt
unfolding create commit_plain
insert_attempt a = do created ← create a; commit_plain; pure created

-- Attempts that other transactions commit before the insertion.
arrive : List QuizAttempt → Session → Session
arrive others s = record s {
  tables = record s.tables { attempts = s.tables.attempts ++ others };
  committed = record s.committed { attempts = s.committed.attempts ++ others };
}

-- What a round of the loop comes to: an attempt, or another round.
pub data Round : Type 0 where
  started : QuizAttempt → Round
  again : Round

abbrev caught : Action Session QuizAttempt → Action Session Round → Action Session Round
caught body handler s =
    let (r, s') = body s in
    elim r [
      | ok a ↦ (ok (started a), s')
      | err e ↦ elim e [ integrity_error ↦ handler s' | other ↦ (err other, s') ]
    ]

-- The handler of the `IntegrityError`.
after_clash : ℕ → ℕ → Quiz → ℕ → Action Session Round
unfolding rollback clear_way in_progress_of
after_clash enrollment_id quiz_id quiz now = do
  modify rollback
  t ← gets (λ s. s.tables)
  clear_way (in_progress_of enrollment_id quiz_id t.attempts) quiz now
  pure again

-- One pass through the body of the loop.
unfoldable pub round : Environment → ℕ → Enrollment → Quiz → Action Session Round
unfolding latest_number insert_attempt arrive after_clash calculate_total_points
round env n e quiz = do
  t ← gets (λ s. s.tables)
  let latest = latest_number e.id quiz.id t.attempts
  raise_if (attempts_used_up quiz.max_attempts latest) (forbidden "Maximum attempts reached")
  modify (arrive (env.others n))
  caught
      (insert_attempt (
        new_attempt (env.id n) e.id quiz.id (latest + 1) (env.clock n)
          (calculate_total_points quiz.questions)))
      (after_clash e.id quiz.id quiz (env.clock n))

or_retry : Round → Action Session QuizAttempt → Action Session QuizAttempt
or_retry (started a) next = pure a
or_retry again next = next

-- The two rounds of `for _ in range(2)`.
unfoldable pub rounds : Environment → Enrollment → Quiz → Action Session QuizAttempt
unfolding or_retry
rounds env e quiz = do
  first ← round env 0 e quiz
  or_retry first (do
    next ← round env 1 e quiz
    or_retry next (raise (value_error "Could not start quiz attempt, please retry")))

unfoldable pub start_attempt : Environment → ℕ → User → Action Session QuizAttempt
unfolding clear_way
start_attempt env quiz_id user = do
  raise_if (not (has_role user Role.student)) (forbidden "Only students can start quiz attempts")
  t ← gets (λ s. s.tables)
  quiz ← require (find_quiz quiz_id t) (not_found "Quiz not found")
  raise_if (not quiz.is_published) (forbidden "Quiz is not published")
  e ← student_enrollment quiz user.id
  clear_way (in_progress_of e.id quiz.id t.attempts) quiz env.now
  rounds env e quiz
