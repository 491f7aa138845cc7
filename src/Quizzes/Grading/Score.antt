-- ===== src/Quizzes/Grading/Score.antt =====
-- The range of scores and percentages, and which answers earn points.
use lms_backend.Base.{
  ℕ, ◌*◌, ◌≡◌, ◌≢◌, ◌≤◌, ◌⊎◌, ◌↔◌, Text, true, false, Option, none, some, refl, Option-cases, arith,
  ◌==◌, find, inl, inr, Bool-cases, if◌then◌else◌, text_eq_iff,
}
use lms_backend.Base.Rounding.{half_even-le}
use lms_backend.Db.{ChoiceOption, QuizQuestion, QuestionType}
use lms_backend.Quizzes.Grading.{
  AnswerSubmission, grade_question, earned, calculate_percentage, option_eq, is_correct_answer,
  choice_correct, marked_correct, option_key, options_or_empty,
}

-- A question earns all its points or none, and all exactly if it is marked right.
pub earned-grade_question :
    (q : QuizQuestion) (a : Option AnswerSubmission)
    → let g = grade_question q a in
      (g.question_id ≡ q.id)
      × (((g.is_correct ≡ some true) × (earned g ≡ q.points))
          ⊎ ((g.is_correct ≡ some false) × (earned g ≡ 0)))
unfolding grade_question
earned-grade_question q a = ground arith

pub calculate_percentage-le :
    (score max_score : ℕ) → score ≤ max_score → calculate_percentage score max_score ≤ 10000
unfolding calculate_percentage
calculate_percentage-le score m h = elim (Bool-cases (m == 0)) [
  | inl e ↦ rw e (omega arith)
  | inr e ↦ rw e (half_even-le (score * 10000) m 10000 (ground arith) (omega arith))
]

option_eq_iff : (s t : Option Text) → (option_eq s t ≡ true) ↔ (s ≡ t)
option_eq_iff none none = ground arith
option_eq_iff none (some t) = ground arith
option_eq_iff (some s) none = ground arith
option_eq_iff (some s) (some t) = ground (arith, text_eq_iff s t)

-- A multiple choice answer is right exactly if it names the option that is marked correct, when that
-- option has an identifier.
pub choice-grade_question :
    (q : QuizQuestion) (a : AnswerSubmission) (o : ChoiceOption) (key : Text)
    → q.question_type ≡ QuestionType.multiple_choice
    → find marked_correct (options_or_empty q.options) ≡ some o
    → option_key o ≡ some key
    → ((grade_question q (some a)).is_correct ≡ some true) ↔ (a.selected_option_id ≡ some key)
unfolding grade_question
choice-grade_question q a o key t f k =
    ground (arith, option_eq_iff a.selected_option_id (some key))

-- A question that was not answered earns nothing, when its correct option has an identifier.
pub unanswered-grade_question :
    (q : QuizQuestion)
    → ((o : ChoiceOption)
        → find marked_correct (options_or_empty q.options) ≡ some o
        → option_key o ≢ none)
    → earned (grade_question q none) ≡ 0
unfolding grade_question
unanswered-grade_question q h = wrong q.question_type
  where
    choice :
        (m : Option ChoiceOption)
        → (m ≡ none) ⊎ ((o : ChoiceOption) × (m ≡ some o) × (option_key o ≢ none))
        → choice_correct none m ≡ false
    choice none c = refl
    choice (some o) c = ground (arith, option_eq_iff none (option_key o))

    wrong : (t : QuestionType) → (if is_correct_answer q none t then q.points else 0) ≡ 0
    wrong QuestionType.multiple_choice =
        elim (Option-cases (find marked_correct (options_or_empty q.options))) [
          | inl n ↦ rw n refl
          | inr (o, e) ↦
              rw (choice (find marked_correct (options_or_empty q.options)) (inr (o, e, h o e)))
                refl
        ]
    wrong QuestionType.true_false = refl
    wrong QuestionType.short_answer = refl
    wrong QuestionType.essay = refl
