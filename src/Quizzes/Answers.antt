-- ===== src/Quizzes/Answers.antt =====
-- `AttemptService._validate_and_build_answer_map` (app/modules/quizzes/services/attempt_service.py).
pub mod Accepted
use lms_backend.Base.{
  ℕ, Text, codes, text_eq, Bool, true, false, ◌&&◌, ◌||◌, not, Option, none, some, List, [], ◌∷◌,
  ◌++◌, find, any, Result, Error, ok, err, value_error, ◌==◌, if◌then◌else◌,
}
use lms_backend.Base.Fallible.{◌>>=◌, ◌>>◌}
use lms_backend.Base.Sets.{mem}
use lms_backend.Base.Eq.{nat_eq}
use lms_backend.Base.Dict.{Dict, insert}
use lms_backend.Base.Strip.{is_empty, strip, lower}
use lms_backend.Db.{ChoiceOption, QuizQuestion, QuestionType}
use lms_backend.Quizzes.Grading.{AnswerSubmission, option_key, options_or_empty, text_or_empty}

-- `question_map.get(question_id)`
unfoldable pub question_of : List QuizQuestion → ℕ → Option QuizQuestion
question_of qs id = find (λ q. q.id == id) qs

abbrev is_some : Option Text → Bool
is_some none = false
is_some (some s) = true

-- `str(x)` of a text or of `None`.
abbrev shown : Option Text → Text
shown none = codes "None"
shown (some s) = s

-- The option has one of the two keys, and the identifier is it.
abbrev pub is_option : Text → ChoiceOption → Bool
is_option chosen o =
    (is_some o.option_id || is_some o.legacy_id) && text_eq (shown (option_key o)) chosen

choice_error : QuizQuestion → Option Text → Option Error
choice_error q none = some (value_error "Multiple choice answers require selected_option_id")
choice_error q (some []) = some (value_error "Multiple choice answers require selected_option_id")
choice_error q (some (c ∷ s)) =
    if any (is_option (c ∷ s)) (options_or_empty q.options)
    then none
    else some (value_error "Selected option does not belong to the question")

-- For the types other than multiple choice, all of which want a text.
text_error : QuestionType → AnswerSubmission → Option Error
unfolding strip lower
text_error type a =
    let text = strip (text_or_empty a.answer_text) in
    if is_some a.selected_option_id
    then some (value_error "selected_option_id is only valid for multiple choice questions")
    else if is_empty text
    then some (value_error "Answer text is required for this question type")
    else elim type [
      | QuestionType.true_false ↦
          if text_eq (lower text) (codes "true") || text_eq (lower text) (codes "false")
          then none
          else some (value_error "True/false answers must be either 'true' or 'false'")
      | _ ↦ none
    ]

unfoldable pub answer_error : QuestionType → QuizQuestion → AnswerSubmission → Option Error
unfolding choice_error text_error
answer_error QuestionType.multiple_choice q a = choice_error q a.selected_option_id
answer_error QuestionType.true_false q a = text_error QuestionType.true_false a
answer_error QuestionType.short_answer q a = text_error QuestionType.short_answer a
answer_error QuestionType.essay q a = text_error QuestionType.essay a

raise_error : Option Error → Result (Unit {0})
raise_error none = ok tt
raise_error (some e) = err e

find_question : Option QuizQuestion → Result QuizQuestion
find_question none =
    err (value_error "Answer contains a question that does not belong to this quiz")
find_question (some q) = ok q

no_duplicate : Bool → Result (Unit {0})
no_duplicate false = ok tt
no_duplicate true = err (value_error "Duplicate answer for the same question is not allowed")

-- The loop, over the identifiers seen and the map built so far.
build :
    List QuizQuestion
    → List ℕ
    → Dict ℕ AnswerSubmission
    → List AnswerSubmission
    → Result (Dict ℕ AnswerSubmission)
unfolding raise_error find_question no_duplicate
build qs seen built [] = ok built
build qs seen built (a ∷ rest) = do
  no_duplicate (mem a.question_id seen)
  q ← find_question (question_of qs a.question_id)
  raise_error (answer_error q.question_type q a)
  build qs (a.question_id ∷ seen) (insert a.question_id a built) rest

unfoldable pub build_answer_map :
    List QuizQuestion → List AnswerSubmission → Result (Dict ℕ AnswerSubmission)
unfolding build
build_answer_map qs answers = build qs [] [] answers
