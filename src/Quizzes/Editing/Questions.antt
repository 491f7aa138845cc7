-- ===== src/Quizzes/Editing/Questions.antt =====
-- `QuestionService` (app/modules/quizzes/services/question_service.py) and the `create` and `update` of its
-- repository. A question is kept in its quiz, in the order of `order_index`.
use lms_backend.Base.{
  ℕ, Text, Option, none, some, List, [], ◌∷◌, ◌++◌, not_found, Action, ◌>>=◌, ◌>>◌, pure, lift,
  require, ◌==◌, if◌then◌else◌, find,
}
use lms_backend.Base.Patch.{Update, get_or, set_to, keep_old}
use lms_backend.Db.{User, Quiz, QuizQuestion, QuestionType, ChoiceOption, Session, commit_plain}
use lms_backend.Quizzes.Editing.Checks.{validate_question_payload}
use lms_backend.Quizzes.Editing.Quizzes.{get_quiz, get_own_quiz, store_quiz}

pub record QuestionCreate : Type 0 where
  pub question_text : Text
  pub question_type : QuestionType
  pub points : ℕ
  pub options : Option (List ChoiceOption)
  pub correct_answer : Option Text

pub record QuestionUpdate : Type 0 where
  pub question_text : Update Text
  pub question_type : Update QuestionType
  pub points : Update ℕ
  pub options : Update (List ChoiceOption)
  pub correct_answer : Update Text

-- `[...] if payload.options else None`
abbrev pub or_no_options : Option (List ChoiceOption) → Option (List ChoiceOption)
or_no_options none = none
or_no_options (some []) = none
or_no_options (some (o ∷ os)) = some (o ∷ os)

unfoldable pub new_question : ℕ → QuestionCreate → QuizQuestion
new_question id p = record {
  id = id;
  question_text = p.question_text;
  question_type = p.question_type;
  points = p.points;
  options = or_no_options p.options;
  correct_answer = p.correct_answer;
}

-- `add_question`
unfoldable pub add_question : ℕ → ℕ → ℕ → QuestionCreate → User → Action Session QuizQuestion
add_question id course_id quiz_id payload user = do
  quiz ← get_own_quiz course_id quiz_id user
  lift (
      validate_question_payload (some payload.question_type) (or_no_options payload.options)
        payload.correct_answer)
  store_quiz (record quiz { questions = quiz.questions ++ new_question id payload ∷ [] })
  commit_plain
  pure (new_question id payload)

unfoldable pub put_question : QuizQuestion → List QuizQuestion → List QuizQuestion
put_question q [] = []
put_question q (other ∷ questions) =
    let rest = put_question q questions in if other.id == q.id then q ∷ rest else other ∷ rest

-- The loop of `QuestionRepository.update`.
unfoldable pub updated_question : QuestionUpdate → QuizQuestion → QuizQuestion
updated_question u q = record q {
  question_text = set_to u.question_text q.question_text;
  question_type = set_to u.question_type q.question_type;
  points = set_to u.points q.points;
  options = keep_old u.options q.options;
  correct_answer = keep_old u.correct_answer q.correct_answer;
}

abbrev pub question_of : ℕ → Quiz → Option QuizQuestion
question_of id quiz = find (λ q. q.id == id) quiz.questions

-- `update_question`
unfoldable pub update_question : ℕ → ℕ → ℕ → QuestionUpdate → User → Action Session QuizQuestion
update_question course_id quiz_id question_id u user = do
  quiz ← get_own_quiz course_id quiz_id user
  q ← require (question_of question_id quiz) (not_found "Question not found")
  lift (
      validate_question_payload (get_or u.question_type (some q.question_type))
        (get_or u.options q.options) (get_or u.correct_answer q.correct_answer))
  store_quiz (record quiz { questions = put_question (updated_question u q) quiz.questions })
  commit_plain
  pure (updated_question u q)

-- `list_quiz_questions`
pub list_quiz_questions : ℕ → ℕ → Option User → Action Session (List QuizQuestion)
list_quiz_questions course_id quiz_id user = do
  quiz ← get_quiz course_id quiz_id user
  pure quiz.questions

-- `list_quiz_questions_for_management`
pub list_quiz_questions_for_management : ℕ → ℕ → User → Action Session (List QuizQuestion)
list_quiz_questions_for_management course_id quiz_id user = do
  quiz ← get_own_quiz course_id quiz_id user
  pure quiz.questions
