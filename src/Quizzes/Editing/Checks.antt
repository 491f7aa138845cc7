-- ===== src/Quizzes/Editing/Checks.antt =====
-- The two checks of a question: `QuestionService._validate_question_payload` for what an author sends, and
-- `QuizService._validate_questions_for_publish` for what is stored. app/modules/quizzes/services.
pub mod Agree
pub mod Answerable
use lms_backend.Base.{
  ℕ, Text, codes, text_eq, Bool, true, false, ◌||◌, not, Option, none, some, List, [], ◌∷◌, Result,
  ok, err, value_error, ◌==◌, ltb, if◌then◌else◌, any, keep, length,
}
use lms_backend.Base.Fallible.{◌>>◌}
use lms_backend.Base.Strip.{is_empty, strip, lower}
use lms_backend.Db.{ChoiceOption, QuizQuestion, QuestionType}
use lms_backend.Quizzes.Grading.{
  or_text, text_or_empty, options_or_empty, marked_correct, option_key,
}

-- `str(option.get("option_id") or option.get("id") or "").strip()`
abbrev pub option_id : ChoiceOption → Text
option_id o = strip (text_or_empty (option_key o))

abbrev pub option_text : ChoiceOption → Text
option_text o = strip (text_or_empty (or_text o.option_text o.legacy_text))

-- `(correct_answer or "").strip()`
abbrev pub answer_of : Option Text → Text
answer_of answer = strip (text_or_empty answer)

abbrev pub holds : Text → List Text → Bool
holds s texts = any (text_eq s) texts

abbrev pub has_options : Option (List ChoiceOption) → Bool
has_options none = false
has_options (some []) = false
has_options (some (o ∷ os)) = true

-- `correct_count`
abbrev pub correct_count : List ChoiceOption → ℕ
correct_count options = length (keep marked_correct options)

abbrev pub is_true_or_false : Text → Bool
is_true_or_false s = text_eq s (codes "true") || text_eq s (codes "false")

-- The loop over the options, with the identifiers and the lowered texts seen before.
unfoldable pub check_options : List ChoiceOption → List Text → List Text → Result (Unit {0})
check_options [] ids texts = ok tt
check_options (o ∷ os) ids texts =
    let rest = check_options os (option_id o ∷ ids) (lower (option_text o) ∷ texts) in
    if is_empty (option_id o)
    then err (value_error "Each multiple choice option must include an option_id")
    else if is_empty (option_text o)
    then err (value_error "Each multiple choice option must include non-empty option_text")
    else if holds (option_id o) ids
    then err (value_error "Multiple choice options must have unique option_id values")
    else if holds (lower (option_text o)) texts
    then err (value_error "Multiple choice options must have unique option_text values")
    else rest

abbrev check_choice : List ChoiceOption → Option Text → Result (Unit {0})
check_choice options answer =
    if ltb (length options) 2
    then err (value_error "Multiple choice questions must have at least 2 options")
    else check_options options [] []
      >> (if correct_count options == 1
          then if is_empty (answer_of answer)
            then ok tt
            else err (value_error "Multiple choice questions must not set correct_answer directly")
          else err (value_error "Multiple choice questions must have exactly 1 correct option"))

abbrev check_true_false : Option (List ChoiceOption) → Option Text → Result (Unit {0})
check_true_false options answer =
    if has_options options
    then err (value_error "True/false questions must not include options")
    else if is_true_or_false (lower (answer_of answer))
    then ok tt
    else err (value_error "True/false questions require correct_answer to be 'true' or 'false'")

abbrev check_short_answer : Option (List ChoiceOption) → Option Text → Result (Unit {0})
check_short_answer options answer =
    if has_options options
    then err (value_error "Short answer questions must not include options")
    else if is_empty (answer_of answer)
    then err (value_error "Short answer questions require a non-empty correct_answer")
    else ok tt

abbrev check_essay : Option (List ChoiceOption) → Option Text → Result (Unit {0})
check_essay options answer =
    if has_options options
    then err (value_error "Essay questions must not include options")
    else if is_empty (answer_of answer)
    then ok tt
    else err (value_error "Essay questions must not include correct_answer")

-- `_validate_question_payload`; a type that is null is none of the four.
unfoldable pub validate_question_payload :
    Option QuestionType → Option (List ChoiceOption) → Option Text → Result (Unit {0})
unfolding check_options strip lower
validate_question_payload none options answer = ok tt
validate_question_payload (some QuestionType.multiple_choice) options answer =
    check_choice (options_or_empty options) answer
validate_question_payload (some QuestionType.true_false) options answer =
    check_true_false options answer
validate_question_payload (some QuestionType.short_answer) options answer =
    check_short_answer options answer
validate_question_payload (some QuestionType.essay) options answer = check_essay options answer

unfoldable pub publish_options : List ChoiceOption → List Text → List Text → Result (Unit {0})
publish_options [] ids texts = ok tt
publish_options (o ∷ os) ids texts =
    let rest = publish_options os (option_id o ∷ ids) (lower (option_text o) ∷ texts) in
    if is_empty (option_id o) || is_empty (option_text o)
    then err (value_error "Cannot publish quiz with malformed multiple choice options")
    else if holds (option_id o) ids || holds (lower (option_text o)) texts
    then err (value_error "Cannot publish quiz with duplicate multiple choice options")
    else rest

abbrev publish_choice : List ChoiceOption → Option Text → Result (Unit {0})
publish_choice options answer =
    if ltb (length options) 2
    then err (value_error "Cannot publish quiz with invalid multiple choice question options")
    else publish_options options [] []
      >> (if correct_count options == 1
          then if is_empty (answer_of answer)
            then ok tt
            else err
                (value_error "Cannot publish quiz with conflicting multiple choice correct_answer")
          else err (
              value_error
                "Cannot publish quiz with multiple choice questions missing a single correct option"))

abbrev publish_true_false : Option (List ChoiceOption) → Option Text → Result (Unit {0})
publish_true_false options answer =
    if has_options options
    then err (value_error "Cannot publish quiz with options on true/false questions")
    else if is_true_or_false (lower (answer_of answer))
    then ok tt
    else err (value_error "Cannot publish quiz with invalid true/false correct answer")

abbrev publish_short_answer : Option (List ChoiceOption) → Option Text → Result (Unit {0})
publish_short_answer options answer =
    if has_options options
    then err (value_error "Cannot publish quiz with options on short answer questions")
    else if is_empty (answer_of answer)
    then err (value_error "Cannot publish quiz with empty short answer correct answer")
    else ok tt

abbrev publish_essay : Option (List ChoiceOption) → Option Text → Result (Unit {0})
publish_essay options answer =
    if has_options options
    then err (value_error "Cannot publish quiz with options on essay questions")
    else if is_empty (answer_of answer)
    then ok tt
    else err (value_error "Cannot publish quiz with correct_answer on essay questions")

-- One round of `_validate_questions_for_publish`.
unfoldable pub publish_check :
    QuestionType → Option (List ChoiceOption) → Option Text → Result (Unit {0})
unfolding publish_options strip lower
publish_check QuestionType.multiple_choice options answer =
    publish_choice (options_or_empty options) answer
publish_check QuestionType.true_false options answer = publish_true_false options answer
publish_check QuestionType.short_answer options answer = publish_short_answer options answer
publish_check QuestionType.essay options answer = publish_essay options answer

-- `_validate_questions_for_publish`
unfoldable pub validate_questions_for_publish : List QuizQuestion → Result (Unit {0})
unfolding publish_check
validate_questions_for_publish [] = ok tt
validate_questions_for_publish (q ∷ qs) =
    let rest = validate_questions_for_publish qs in
    publish_check q.question_type q.options q.correct_answer >> rest
