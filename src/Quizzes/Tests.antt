-- ===== src/Quizzes/Tests.antt =====
-- A quiz of two questions with an open attempt, and the theorems on quizzes at this data.
use lms_backend.Base.{
  ℕ, ◌≡◌, ◌≢◌, refl, true, false, codes, Text, Bool, ◌+◌, Option, none, some, List, [], ◌∷◌, ok,
  All,
}
use lms_backend.Base.Sets.{Distinct}
use lms_backend.Base.Eq.{nat_eq}
use lms_backend.Base.Dict.{Dict, lookup, insert}
use lms_backend.Core.Permissions.{Role}
use lms_backend.Db.{
  LessonType, User, Enrollment, EnrollmentStatus, ChoiceOption, QuestionType, QuizQuestion, Quiz,
  GradedAnswer, QuizAttempt, Tables, Session,
}
use lms_backend.Enrollments.Repository.{find_lesson, get_by_student_and_course, matches}
use lms_backend.Quizzes.Grading.{AnswerSubmission, grade_question}
use lms_backend.Quizzes.Answers.{build_answer_map, answer_error, question_of}
use lms_backend.Quizzes.Answers.Accepted.{IsAcceptedBy, answer_for, build_answer_map_accepts}
use lms_backend.Quizzes.Attempts.Repository.{find_quiz, get_attempt, latest_number, in_progress_of}
use lms_backend.Quizzes.Attempts.Start.{
  Environment, start_attempt, rounds, round, student_enrollment, is_time_limit_exceeded,
  new_attempt,
}
use lms_backend.Quizzes.Attempts.Start.Limits.{IsEnrolled, IsAllowed, start_attempt-IsAllowed}
use lms_backend.Quizzes.Attempts.Submit.{Moment, submit_attempt, reward, graded}
use lms_backend.Quizzes.Attempts.Submit.Once.{
  IsSubmission, submit_attempt_grades, submit_attempt_once,
}

abbrev student : User
student = record { id = 7; role = Role.student }

abbrev option : Text → Text → Option Bool → ChoiceOption
option key text right = record {
  option_id = some key;
  legacy_id = none;
  option_text = some text;
  legacy_text = none;
  is_correct = right;
}

abbrev choice_question : QuizQuestion
choice_question = record {
  id = 31;
  question_text = codes "2 + 2";
  question_type = QuestionType.multiple_choice;
  points = 300;
  options =
      some (option (codes "a") (codes "3") none ∷ option (codes "b") (codes "4") (some true) ∷ []);
  correct_answer = none;
}

abbrev text_question : QuizQuestion
text_question = record {
  id = 32;
  question_text = codes "the capital of France";
  question_type = QuestionType.short_answer;
  points = 100;
  options = none;
  correct_answer = some (codes "Paris");
}

abbrev quiz : Quiz
quiz = record {
  id = 30;
  lesson_id = 10;
  passing_score = 8000;
  time_limit_minutes = some 10;
  max_attempts = some 2;
  shuffle_questions = false;
  shuffle_options = false;
  show_correct_answers = false;
  is_published = true;
  questions = choice_question ∷ text_question ∷ [];
}

abbrev enrollment : Enrollment
enrollment = record {
  id = 5;
  student_id = 7;
  course_id = 1;
  enrolled_at = 100;
  started_at = some 100;
  completed_at = none;
  status = EnrollmentStatus.active;
  progress_percentage = 0;
  completed_lessons_count = 0;
  total_lessons_count = 1;
  total_time_spent_seconds = 0;
  last_accessed_at = none;
  certificate_issued_at = none;
  rating = none;
  review = none;
}

abbrev attempt : QuizAttempt
attempt = new_attempt 40 5 30 1 1000 400

abbrev session : List QuizAttempt → Session
session attempts =
    let t : Tables = record {
      courses = record { id = 1; instructor_id = 9; is_published = true } ∷ [];
      lessons =
          record {
            id = 10;
            course_id = 1;
            lesson_type = LessonType.text;
            order_index = 1;
            parent_lesson_id = none;
            video_url = none;
            is_preview = false;
          }
          ∷ [];
      enrollments = enrollment ∷ [];
      lesson_progress = [];
      quizzes = quiz ∷ [];
      attempts = attempts;
      assignments = [];
      submissions = [];
    } in
    record { tables = t; committed = t; commit_error = none; events = [] }

abbrev running : Session
running = session (attempt ∷ [])

-- The right option, and a text that is wrong: three points of four, which is below the passing score.
abbrev answers : List AnswerSubmission
answers =
    record { question_id = 31; selected_option_id = some (codes "b"); answer_text = none }
    ∷ record { question_id = 32; selected_option_id = none; answer_text = some (codes " Rome ") }
    ∷ []

abbrev moment : ℕ → Moment
moment now = record { now = now; progress_id = 50; progress_now = now; t1 = now; t2 = now }

abbrev environment : Environment
environment = record { now = 5; id = λ n. 40 + n; others = λ n. []; clock = λ n. 6 }

abbrev attempt_at_6 : QuizAttempt
attempt_at_6 = new_attempt 40 5 30 1 6 400

abbrev shown : GradedAnswer
shown = record {
  question_id = 31;
  selected_option_id = some (codes "b");
  answer_text = none;
  is_correct = some true;
  points_earned = some 300;
}

abbrev accepted : Dict ℕ AnswerSubmission
accepted =
    (31, record { question_id = 31; selected_option_id = some (codes "b"); answer_text = none })
    ∷ (
      32,
      record { question_id = 32; selected_option_id = none; answer_text = some (codes " Rome ") },
    )
    ∷ []

build_answer_map_accepts_example :
    Distinct (31 ∷ 32 ∷ [])
    × All (IsAcceptedBy quiz.questions) answers
    × ((id : ℕ) → lookup id accepted ≡ answer_for id answers)
unfolding build_answer_map answer_error question_of insert
build_answer_map_accepts_example =
    build_answer_map_accepts quiz.questions answers {m = accepted} refl

start_attempt-IsAllowed_example :
    (student.role ≡ Role.student)
    × ((q : Quiz) × (find_quiz 30 (session []).tables ≡ some q)
        × (q.is_published ≡ true)
        × ((e : Enrollment) × IsEnrolled e q 7 (session []).tables × IsAllowed e q attempt_at_6))
unfolding start_attempt rounds round student_enrollment find_quiz find_lesson
    get_by_student_and_course matches latest_number in_progress_of
start_attempt-IsAllowed_example =
    start_attempt-IsAllowed environment 30 student (session []) {a = attempt_at_6} refl

-- The attempt as the submission grades it.
abbrev row : QuizAttempt
row = graded attempt quiz accepted 2000

submitted : (submit_attempt (moment 2000) 30 40 answers student running).0 ≡ ok row
unfolding submit_attempt student_enrollment find_quiz find_lesson get_by_student_and_course matches
    get_attempt build_answer_map answer_error question_of insert is_time_limit_exceeded reward
    graded grade_question
submitted = refl

submit_attempt_grades_example :
    IsSubmission
      (moment 2000)
      30
      40
      answers
      running
      row
      (submit_attempt (moment 2000) 30 40 answers student running).1
submit_attempt_grades_example =
    submit_attempt_grades (moment 2000) 30 40 answers student running submitted

submit_attempt_once_example :
    (submit_attempt
      (moment 3000)
      30
      40
      []
      student
      (submit_attempt (moment 2000) 30 40 answers student running).1).0
    ≢ ok row
submit_attempt_once_example =
    submit_attempt_once (moment 2000) 30 40 answers student running (moment 3000) 30 [] student
      submitted

abbrev late : ℕ
late = 700000000
