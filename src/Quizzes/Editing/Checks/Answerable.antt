-- ===== src/Quizzes/Editing/Checks/Answerable.antt =====
-- A question that was accepted can be answered, and cannot be guessed by leaving it out.
use mathlib.Core.Path.{subst}
use lms_backend.Base.{
  Result-cases, ℕ, ◌≡◌, ◌≢◌, ◌⊎◌, refl, Text, true, false, Bool, Option, none, some, List, [], ◌∷◌,
  ok, arith, inl, inr, Option-cases, Bool-cases, find, keep, length, text_eq_iff,
}
use lms_backend.Base.Strip.{is_empty, strip, lower}
use lms_backend.Db.{ChoiceOption, QuizQuestion, QuestionType}
use lms_backend.Quizzes.Grading.{
  AnswerSubmission, grade_question, earned, options_or_empty, marked_correct, option_key,
}
use lms_backend.Quizzes.Grading.Score.{
  unanswered-grade_question, earned-grade_question, choice-grade_question,
}
use lms_backend.Quizzes.Editing.Checks.{
  check_options, option_id, option_text, validate_question_payload, answer_of,
}
use lms_backend.Quizzes.Editing.Checks.Agree.{IsAccepted}

find_of_count :
    (p : ChoiceOption → Bool) (os : List ChoiceOption)
    → length (keep p os) ≡ 1
    → (o : ChoiceOption) × (find p os ≡ some o)
find_of_count p [] h = absurd (ground arith)
find_of_count p (x ∷ os) h = elim (Bool-cases (p x)) [
  | inl e ↦ (x, ground arith)
  | inr e ↦ let (o, f) = find_of_count p os (ground arith) in (o, ground arith)
]

key_of_option :
    (os : List ChoiceOption) (ids texts : List Text) (o : ChoiceOption)
    → check_options os ids texts ≡ ok tt
    → find marked_correct os ≡ some o
    → option_key o ≢ none
unfolding check_options strip
key_of_option [] ids texts o h f = cc
key_of_option (x ∷ os) ids texts o h f = elim (Bool-cases (marked_correct x)) [
  | inl e ↦ ground arith
  | inr e ↦
      key_of_option os (option_id x ∷ ids) (lower (option_text x) ∷ texts) o (ground arith)
        (ground arith)
]

choice_checks :
    (options : Option (List ChoiceOption)) (answer : Option Text)
    → validate_question_payload (some QuestionType.multiple_choice) options answer ≡ ok tt
    → (check_options (options_or_empty options) [] [] ≡ ok tt)
      × (length (keep marked_correct (options_or_empty options)) ≡ 1)
unfolding validate_question_payload
choice_checks options answer h =
    elim (Result-cases (check_options (options_or_empty options) [] [])) [
      | inl (done, e) ↦ (e, ground arith)
      | inr (c, e) ↦ absurd (ground arith)
    ]

-- The option that an accepted multiple choice question marks, with its identifier.
accepted_choice :
    (q : QuizQuestion)
    → q.question_type ≡ QuestionType.multiple_choice
    → IsAccepted q
    → (o : ChoiceOption) × (key : Text) × (find marked_correct (options_or_empty q.options)
        ≡ some o)
      × (option_key o ≡ some key)
accepted_choice q t h =
    let (checked, one) =
      choice_checks q.options q.correct_answer
        (subst (λ x. validate_question_payload (some x) q.options q.correct_answer ≡ ok tt) t h) in
    let (o, f) = find_of_count marked_correct (options_or_empty q.options) one in
    elim (Option-cases (option_key o)) [
      | inl e ↦ absurd (key_of_option (options_or_empty q.options) [] [] o checked f e)
      | inr (key, e) ↦ (o, key, f, e)
    ]

abbrev chosen : ℕ → Text → AnswerSubmission
chosen id key = record { question_id = id; selected_option_id = some key; answer_text = none }

abbrev written : ℕ → Option Text → AnswerSubmission
written id answer = record { question_id = id; selected_option_id = none; answer_text = answer }

Text-cases : (s : Text) → (s ≡ []) ⊎ ((c : ℕ) × (rest : Text) × (s ≡ c ∷ rest))
Text-cases [] = inl refl
Text-cases (c ∷ s) = inr (c, s, refl)

type-cases :
    (t : QuestionType)
    → (t ≡ QuestionType.multiple_choice)
      ⊎ ((t ≡ QuestionType.true_false)
          ⊎ ((t ≡ QuestionType.short_answer) ⊎ (t ≡ QuestionType.essay)))
type-cases QuestionType.multiple_choice = inl refl
type-cases QuestionType.true_false = inr (inl refl)
type-cases QuestionType.short_answer = inr (inr (inl refl))
type-cases QuestionType.essay = inr (inr (inr refl))

-- The text that the question keeps as its correct answer is itself right, if it is not blank.
right_text :
    (q : QuizQuestion)
    → (q.question_type ≡ QuestionType.true_false) ⊎ (q.question_type ≡ QuestionType.short_answer)
    → is_empty (answer_of q.correct_answer) ≡ false
    → (grade_question q (some (written q.id q.correct_answer))).is_correct ≡ some true
unfolding grade_question strip
right_text q t n = elim (Option-cases q.correct_answer) [
  | inl e ↦ absurd (ground arith)
  | inr (s, e) ↦ elim t [
    | inl is_type ↦ ground (arith, text_eq_iff (lower (strip s)) (lower (strip s)))
    | inr is_type ↦ ground (arith, text_eq_iff (lower (strip s)) (lower (strip s)))
  ]
]

not_blank :
    (options : Option (List ChoiceOption)) (answer : Option Text)
    → (validate_question_payload (some QuestionType.true_false) options answer ≡ ok tt)
      ⊎ (validate_question_payload (some QuestionType.short_answer) options answer ≡ ok tt)
    → is_empty (answer_of answer) ≡ false
unfolding validate_question_payload lower
not_blank options answer (inl h) = elim (Text-cases (answer_of answer)) [
  | inl e ↦ absurd (ground arith)
  | inr (c, s, e) ↦ rw e refl
]
not_blank options answer (inr h) = ground arith

-- An accepted question that is no essay has an answer that is graded as right.
right_answer :
    (q : QuizQuestion)
    → q.question_type ≢ QuestionType.essay
    → IsAccepted q
    → (a : AnswerSubmission) × ((grade_question q (some a)).is_correct ≡ some true)
right_answer q n h = elim (type-cases q.question_type) [
  | inl t ↦
      let (o, key, f, k) = accepted_choice q t h in
      (chosen q.id key, (choice-grade_question q (chosen q.id key) o key t f k).1 refl)
  | inr (inl t) ↦ (
    written q.id q.correct_answer,
    right_text q (inl t) (not_blank q.options q.correct_answer (inl (at t))),
  )
  | inr (inr (inl t)) ↦ (
    written q.id q.correct_answer,
    right_text q (inr t) (not_blank q.options q.correct_answer (inr (at t))),
  )
  | inr (inr (inr t)) ↦ absurd (n t)
]
  where
    at :
        {t : QuestionType}
        → q.question_type ≡ t
        → validate_question_payload (some t) q.options q.correct_answer ≡ ok tt
    at e = subst (λ x. validate_question_payload (some x) q.options q.correct_answer ≡ ok tt) e h

unanswered_text :
    (q : QuizQuestion)
    → (q.question_type ≡ QuestionType.true_false)
      ⊎ ((q.question_type ≡ QuestionType.short_answer) ⊎ (q.question_type ≡ QuestionType.essay))
    → earned (grade_question q none) ≡ 0
unfolding grade_question
unanswered_text q t = elim t [
  | inl e ↦ ground arith
  | inr (inl e) ↦ ground arith
  | inr (inr e) ↦ ground arith
]

-- A question that an author may send has an answer that earns all its points, unless it is an essay, and earns
-- nothing when it is left out.
pub accepted-grade_question :
    (q : QuizQuestion)
    → IsAccepted q
    → (q.question_type ≢ QuestionType.essay
        → (a : AnswerSubmission) × (earned (grade_question q (some a)) ≡ q.points))
      × (earned (grade_question q none) ≡ 0)
accepted-grade_question q h = (
  λ n. let (a, r) = right_answer q n h in (a, ground (arith, earned-grade_question q (some a))),
  elim (type-cases q.question_type) [
    | inl t ↦
        let (o, key, f, k) = accepted_choice q t h in
        unanswered-grade_question q (λ m g. ground (arith, g, f, k))
    | inr t ↦ unanswered_text q t
  ],
)
