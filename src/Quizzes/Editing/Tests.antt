-- ===== src/Quizzes/Editing/Tests.antt =====
-- A quiz that is not published yet, and the theorems on editing quizzes at this data.
use lms_backend.Base.{
  ◌≡◌, ◌↔◌, refl, true, false, codes, Text, Option, none, some, [], ◌∷◌, ok, All, Bool,
}
use lms_backend.Base.Patch.{unset, given}
use lms_backend.Core.Permissions.{Role}
use lms_backend.Db.{
  LessonType, User, ChoiceOption, QuestionType, QuizQuestion, Quiz, Tables, Session, commit_plain,
}
use lms_backend.Enrollments.Repository.{find_lesson, find_course}
use lms_backend.Quizzes.Attempts.Repository.{find_quiz}
use lms_backend.Quizzes.Editing.Checks.{validate_questions_for_publish}
use lms_backend.Quizzes.Editing.Checks.Agree.{IsAccepted, validate_questions_iff}
use lms_backend.Quizzes.Editing.Quizzes.{
  publish_quiz, get_quiz, get_own_quiz, can_manage_course, ensure_manage_course, has_questions,
  store_quiz,
}
use lms_backend.Quizzes.Editing.Questions.{QuestionUpdate}
use lms_backend.Quizzes.Editing.Effects.{IsSound, IsOwn}
use lms_backend.Quizzes.Editing.Published.{Edit, IsAnswerable, edit-IsSound, publish_quiz-All}

abbrev teacher : User
teacher = record { id = 9; role = Role.instructor }

abbrev option : Text → Text → Option Bool → ChoiceOption
option key text right = record {
  option_id = some key;
  legacy_id = none;
  option_text = some text;
  legacy_text = none;
  is_correct = right;
}

abbrev sum_question : QuizQuestion
sum_question = record {
  id = 31;
  question_text = codes "2 + 2";
  question_type = QuestionType.multiple_choice;
  points = 300;
  options =
      some (option (codes "a") (codes "3") none ∷ option (codes "b") (codes "4") (some true) ∷ []);
  correct_answer = none;
}

abbrev capital_question : QuizQuestion
capital_question = record {
  id = 32;
  question_text = codes "the capital of France";
  question_type = QuestionType.short_answer;
  points = 100;
  options = none;
  correct_answer = some (codes " Paris");
}

abbrev draft : Quiz
draft = record {
  id = 30;
  lesson_id = 10;
  passing_score = 8000;
  time_limit_minutes = none;
  max_attempts = none;
  shuffle_questions = false;
  shuffle_options = false;
  show_correct_answers = true;
  is_published = false;
  questions = sum_question ∷ capital_question ∷ [];
}

abbrev session : Session
session =
    let t : Tables = record {
      courses = record { id = 1; instructor_id = 9; is_published = true } ∷ [];
      lessons =
          record {
            id = 10;
            course_id = 1;
            lesson_type = LessonType.quiz;
            order_index = 1;
            parent_lesson_id = none;
            video_url = none;
            is_preview = false;
          }
          ∷ [];
      enrollments = [];
      lesson_progress = [];
      quizzes = draft ∷ [];
      attempts = [];
      assignments = [];
      submissions = [];
    } in
    record { tables = t; committed = t; commit_error = none; events = [] }

validate_questions_iff_example :
    (validate_questions_for_publish draft.questions ≡ ok tt) ↔ All IsAccepted draft.questions
validate_questions_iff_example = validate_questions_iff draft.questions

abbrev live : Quiz
live = record draft { is_published = true }

publish_quiz-All_example :
    (live.is_published ≡ true)
    × (has_questions live ≡ true)
    × All IsAnswerable live.questions
    × ((old : Quiz) × (live ≡ record old { is_published = true }) × IsOwn 1 30 teacher session old)
unfolding publish_quiz get_own_quiz get_quiz find_quiz find_lesson find_course can_manage_course
    ensure_manage_course validate_questions_for_publish store_quiz commit_plain
publish_quiz-All_example = publish_quiz-All 1 30 teacher session refl

edit-IsSound_example : All IsSound (publish_quiz 1 30 teacher session).1.tables.quizzes
edit-IsSound_example =
    edit-IsSound session (publish_quiz 1 30 teacher session).1 (Edit.published session 1 30 teacher)
      ((λ published. cc), tt)

abbrev no_type : QuestionUpdate
no_type = record {
  question_text = unset;
  question_type = given none;
  points = unset;
  options = given (some []);
  correct_answer = unset;
}
