-- ===== src/Quizzes/Grading.antt =====
-- Grading, from app/modules/quizzes/services/attempt_service.py: `_grade_question`,
-- `_calculate_total_points`, `_sanitize_question`, `_mask_attempt_answers`, and the percentage of
-- repositories/attempt_repository.py. Points are in hundredths.
pub mod Score
pub mod Secrecy
use lms_backend.Base.{
  ℕ, ◌+◌, ◌*◌, Text, codes, text_eq, Bool, true, false, ◌&&◌, not, Option, none, some, List, [],
  ◌∷◌, find, ◌==◌, leb, if◌then◌else◌, map,
}
use lms_backend.Base.Rounding.{half_even}
use lms_backend.Base.Strip.{is_empty, strip, lower}
use lms_backend.Db.{ChoiceOption, QuizQuestion, QuestionType, GradedAnswer}

-- schemas/attempt.py
pub record AnswerSubmission : Type 0 where
  pub question_id : ℕ
  pub selected_option_id : Option Text
  pub answer_text : Option Text

-- `a or b` on texts: the empty text counts as absent.
abbrev pub or_text : Option Text → Option Text → Option Text
or_text (some (c ∷ s)) other = some (c ∷ s)
or_text (some []) other = other
or_text none other = other

-- `text or ""`
abbrev pub text_or_empty : Option Text → Text
text_or_empty none = []
text_or_empty (some s) = s

abbrev pub option_eq : Option Text → Option Text → Bool
option_eq none none = true
option_eq none (some t) = false
option_eq (some s) none = false
option_eq (some s) (some t) = text_eq s t

abbrev pub options_or_empty : Option (List ChoiceOption) → List ChoiceOption
options_or_empty none = []
options_or_empty (some os) = os

abbrev pub marked_correct : ChoiceOption → Bool
marked_correct o = elim o.is_correct [ none ↦ false | some b ↦ b ]

abbrev pub option_key : ChoiceOption → Option Text
option_key o = or_text o.option_id o.legacy_id

abbrev selected : Option AnswerSubmission → Option Text
selected none = none
selected (some a) = a.selected_option_id

-- `submitted.answer_text.strip() if submitted and submitted.answer_text else None`
given_text : Option AnswerSubmission → Option Text
unfolding strip
given_text none = none
given_text (some a) = elim a.answer_text [
  | none ↦ none
  | some s ↦ if is_empty s then none else some (strip s)
]

-- A text answer is right if it is not empty and agrees with the correct answer but for case and
-- surrounding spaces.
text_correct : Option Text → Option Text → Bool
unfolding strip lower
text_correct none correct = false
text_correct (some s) correct =
    not (is_empty s) && text_eq (lower s) (lower (strip (text_or_empty correct)))

choice_correct : Option Text → Option ChoiceOption → Bool
choice_correct chosen none = false
choice_correct chosen (some o) = option_eq chosen (option_key o)

is_correct_answer : QuizQuestion → Option AnswerSubmission → QuestionType → Bool
unfolding given_text text_correct choice_correct
is_correct_answer q a QuestionType.multiple_choice =
    choice_correct (selected a) (find marked_correct (options_or_empty q.options))
is_correct_answer q a QuestionType.true_false = text_correct (given_text a) q.correct_answer
is_correct_answer q a QuestionType.short_answer = text_correct (given_text a) q.correct_answer
is_correct_answer q a QuestionType.essay = false

-- `_grade_question`
unfoldable pub grade_question : QuizQuestion → Option AnswerSubmission → GradedAnswer
unfolding is_correct_answer
grade_question q a =
    let right = is_correct_answer q a q.question_type in
    record {
      question_id = q.id;
      selected_option_id = selected a;
      answer_text = given_text a;
      is_correct = some right;
      points_earned = some (if right then q.points else 0);
    }

-- `_calculate_total_points`
unfoldable pub calculate_total_points : List QuizQuestion → ℕ
calculate_total_points [] = 0
calculate_total_points (q ∷ qs) = q.points + calculate_total_points qs

abbrev pub earned : GradedAnswer → ℕ
earned g = elim g.points_earned [ none ↦ 0 | some p ↦ p ]

-- `total_score += Decimal(str(result["points_earned"]))`
unfoldable pub total_score : List GradedAnswer → ℕ
total_score [] = 0
total_score (g ∷ gs) = earned g + total_score gs

unfoldable pub calculate_percentage : ℕ → ℕ → ℕ
unfolding half_even
calculate_percentage score max_score =
    if max_score == 0 then 0 else half_even (score * 10000) max_score

-- What `_sanitize_question` sends to the one who takes the quiz.
pub record PublicOption : Type 0 where
  pub option_id : Option Text
  pub option_text : Option Text

pub record PublicQuestion : Type 0 where
  pub id : ℕ
  pub question_text : Text
  pub question_type : QuestionType
  pub points : ℕ
  pub options : Option (List PublicOption)

pub public_option : ChoiceOption → PublicOption
public_option o = record {
  option_id = option_key o;
  option_text = or_text o.option_text o.legacy_text;
}

public_options : Option (List ChoiceOption) → Option (List PublicOption)
unfolding public_option
public_options none = none
public_options (some []) = none
public_options (some (o ∷ os)) = some (public_option o ∷ map public_option os)

-- `_sanitize_question(question, False)`
unfoldable pub sanitize_question : QuizQuestion → PublicQuestion
unfolding public_options
sanitize_question q = record {
  id = q.id;
  question_text = q.question_text;
  question_type = q.question_type;
  points = q.points;
  options = public_options q.options;
}

abbrev pub mask : GradedAnswer → GradedAnswer
mask g = record g { is_correct = none; points_earned = none }

-- `_mask_attempt_answers`
unfoldable pub mask_attempt_answers : Bool → Option (List GradedAnswer) → Option (List GradedAnswer)
mask_attempt_answers reveal none = none
mask_attempt_answers true (some answers) = some answers
mask_attempt_answers false (some answers) = some (map mask answers)
