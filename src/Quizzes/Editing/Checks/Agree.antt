-- ===== src/Quizzes/Editing/Checks/Agree.antt =====
-- The two checks accept the same questions, and accepted questions can be answered.
use lms_backend.Base.{◌≡◌, ◌↔◌, Text, Option, some, List, [], ◌∷◌, ok, arith, All}
use lms_backend.Base.Strip.{lower}
use lms_backend.Db.{ChoiceOption, QuizQuestion, QuestionType}
use lms_backend.Quizzes.Grading.{options_or_empty}
use lms_backend.Quizzes.Editing.Checks.{
  check_options, publish_options, option_id, option_text, validate_question_payload, publish_check,
  validate_questions_for_publish,
}

-- The question passes the check of payloads.
abbrev pub IsAccepted : QuizQuestion → Type 0
IsAccepted q = validate_question_payload (some q.question_type) q.options q.correct_answer ≡ ok tt

check_options_iff :
    (os : List ChoiceOption) (ids texts : List Text)
    → (check_options os ids texts ≡ ok tt) ↔ (publish_options os ids texts ≡ ok tt)
unfolding check_options publish_options
check_options_iff [] ids texts = ground arith
check_options_iff (o ∷ os) ids texts =
    ground (arith, check_options_iff os (option_id o ∷ ids) (lower (option_text o) ∷ texts))

pub publish_check_iff :
    (t : QuestionType) (options : Option (List ChoiceOption)) (answer : Option Text)
    → (publish_check t options answer ≡ ok tt)
      ↔ (validate_question_payload (some t) options answer ≡ ok tt)
unfolding publish_check validate_question_payload
publish_check_iff QuestionType.multiple_choice options answer =
    ground (arith, check_options_iff (options_or_empty options) [] [])
publish_check_iff QuestionType.true_false options answer = ground arith
publish_check_iff QuestionType.short_answer options answer = ground arith
publish_check_iff QuestionType.essay options answer = ground arith

-- The questions of a quiz pass the check before publication exactly if each would be accepted from an author.
pub validate_questions_iff :
    (qs : List QuizQuestion) → (validate_questions_for_publish qs ≡ ok tt) ↔ All IsAccepted qs
unfolding validate_questions_for_publish
validate_questions_iff [] = ground arith
validate_questions_iff (q ∷ qs) =
    ground (
      arith,
      validate_questions_iff qs,
      publish_check_iff q.question_type q.options q.correct_answer,
    )
