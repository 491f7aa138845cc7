-- ===== src/Quizzes/Attempts/Submit.antt =====
-- `submit_attempt`, `get_attempt` and `list_my_attempts`.
pub mod Graded
pub mod Once
use lms_backend.Base.{
  ℕ, ◌-◌, ◌/◌, Bool, true, false, ◌&&◌, not, Option, none, some, List, [], ◌∷◌, not_found,
  forbidden, Action, ◌>>=◌, ◌>>◌, pure, raise, lift, gets, require, raise_if, leb, ◌==◌,
  if◌then◌else◌,
}
use lms_backend.Base.Eq.{nat_eq}
use lms_backend.Base.Dict.{Dict, lookup}
use lms_backend.Core.Permissions.{Role}
use lms_backend.Db.{
  User, Enrollment, Quiz, QuizQuestion, QuizAttempt, AttemptStatus, GradedAnswer, LessonProgress,
  Tables, Session, Event, commit_plain, emit,
}
use lms_backend.Enrollments.Service.{has_role, mark_lesson_completed}
use lms_backend.Quizzes.Grading.{
  AnswerSubmission, grade_question, calculate_total_points, total_score, calculate_percentage,
}
use lms_backend.Quizzes.Answers.{build_answer_map}
use lms_backend.Quizzes.Attempts.Repository.{
  find_quiz, get_attempt, is_open, list_by_enrollment, update,
}
use lms_backend.Quizzes.Attempts.Start.{second, student_enrollment, is_time_limit_exceeded, expire}

-- The answers graded, one for each question of the quiz in its order.
unfoldable pub grade_all : List QuizQuestion → Dict ℕ AnswerSubmission → List GradedAnswer
unfolding lookup
grade_all [] answers = []
grade_all (q ∷ qs) answers = grade_question q (lookup q.id answers) ∷ grade_all qs answers

-- The row that a submission in time writes.
unfoldable pub graded : QuizAttempt → Quiz → Dict ℕ AnswerSubmission → ℕ → QuizAttempt
unfolding grade_all calculate_total_points total_score calculate_percentage
graded a quiz answers now =
    let results = grade_all quiz.questions answers in
    let score = total_score results in
    let max_score = calculate_total_points quiz.questions in
    let percentage = calculate_percentage score max_score in
    record a {
      status = AttemptStatus.graded;
      submitted_at = some now;
      graded_at = some now;
      score = some score;
      max_score = some max_score;
      percentage = some percentage;
      is_passed = some (leb quiz.passing_score percentage);
      time_taken_seconds = some ((now - a.started_at) / second);
      answers = some results;
    }

-- The attempt of this enrollment at this quiz, or none.
own_attempt : Option QuizAttempt → Enrollment → ℕ → Action Session QuizAttempt
own_attempt none e quiz_id = raise (not_found "Attempt not found")
own_attempt (some a) e quiz_id =
    if (a.enrollment_id == e.id) && (a.quiz_id == quiz_id)
    then pure a
    else raise (not_found "Attempt not found")

-- The arguments that `mark_lesson_completed` takes from outside the program.
pub record Moment : Type 0 where
  pub now : ℕ
  pub progress_id : ℕ
  pub progress_now : ℕ
  pub t1 : ℕ
  pub t2 : ℕ

-- A passed quiz completes its lesson.
unfoldable pub reward : Moment → Bool → Enrollment → Quiz → User → Action Session (Unit {0})
reward m false e quiz user = pure tt
reward m true e quiz user =
    mark_lesson_completed m.progress_id m.progress_now m.t1 m.t2 e.id quiz.lesson_id user >> pure tt

abbrev passed : QuizAttempt → Bool
passed a = elim a.is_passed [ none ↦ false | some b ↦ b ]

-- The rest of `submit_attempt`, once the answers were accepted.
finish :
    Moment
    → QuizAttempt
    → Enrollment
    → Quiz
    → Dict ℕ AnswerSubmission
    → User
    → Action Session QuizAttempt
unfolding update commit_plain emit
finish m a e quiz answers user = do
  let row = graded a quiz answers m.now
  update row
  reward m (passed row) e quiz user
  commit_plain
  emit (Event.quiz_submitted row.id)
  pure row

-- An attempt that is too late is expired, and the submission refused.
refuse_late : Bool → QuizAttempt → Quiz → ℕ → Action Session (Unit {0})
unfolding expire
refuse_late false a quiz now = pure tt
refuse_late true a quiz now =
    expire a quiz now >> raise (forbidden "Time limit exceeded for this attempt")

unfoldable pub submit_attempt :
    Moment → ℕ → ℕ → List AnswerSubmission → User → Action Session QuizAttempt
unfolding own_attempt refuse_late finish
submit_attempt m quiz_id attempt_id answers user = do
  raise_if (not (has_role user Role.student)) (forbidden "Only students can submit attempts")
  t ← gets (λ s. s.tables)
  quiz ← require (find_quiz quiz_id t) (not_found "Quiz not found")
  e ← student_enrollment quiz user.id
  a ← own_attempt (get_attempt attempt_id t) e quiz.id
  raise_if (not (is_open a.status)) (forbidden "Attempt is already submitted")
  accepted ← lift (build_answer_map quiz.questions answers)
  refuse_late (is_time_limit_exceeded a quiz m.now) a quiz m.now
  finish m a e quiz accepted user

-- `get_attempt`
pub view_attempt : ℕ → ℕ → User → Action Session QuizAttempt
unfolding own_attempt
view_attempt quiz_id attempt_id user = do
  raise_if (not (has_role user Role.student)) (forbidden "Only students can access own attempts")
  t ← gets (λ s. s.tables)
  quiz ← require (find_quiz quiz_id t) (not_found "Quiz not found")
  e ← student_enrollment quiz user.id
  own_attempt (get_attempt attempt_id t) e quiz_id

pub list_my_attempts : ℕ → User → Action Session (List QuizAttempt)
list_my_attempts quiz_id user = do
  raise_if (not (has_role user Role.student)) (forbidden "Only students can access own attempts")
  t ← gets (λ s. s.tables)
  quiz ← require (find_quiz quiz_id t) (not_found "Quiz not found")
  e ← student_enrollment quiz user.id
  pure (list_by_enrollment e.id quiz_id t)
