-- ===== src/Quizzes/Grading/Secrecy.antt =====
-- What the taker of a quiz can and cannot learn from the payloads.
use mathlib.Core.Path.{subst}
use lms_backend.Base.{◌≡◌, refl, ap, false, Option, none, some, List, [], ◌∷◌, map, All}
use lms_backend.Db.{ChoiceOption, QuizQuestion, GradedAnswer}
use lms_backend.Quizzes.Grading.{
  PublicOption, sanitize_question, public_option, public_options, mask, mask_attempt_answers,
}

abbrev pub conceal_option : ChoiceOption → ChoiceOption
conceal_option o = record o { is_correct = none }

abbrev conceal_options : Option (List ChoiceOption) → Option (List ChoiceOption)
conceal_options none = none
conceal_options (some os) = some (map conceal_option os)

-- The question without the marks of correct options and without the correct answer.
abbrev pub conceal : QuizQuestion → QuizQuestion
conceal q = record q { options = conceal_options q.options; correct_answer = none }

map-conceal :
    (os : List ChoiceOption) → map public_option (map conceal_option os) ≡ map public_option os
unfolding public_option
map-conceal [] = refl
map-conceal (o ∷ os) = ap (λ (r : List PublicOption). public_option o ∷ r) (map-conceal os)

public_options-conceal :
    (os : Option (List ChoiceOption)) → public_options (conceal_options os) ≡ public_options os
unfolding public_options
public_options-conceal none = refl
public_options-conceal (some []) = refl
public_options-conceal (some (o ∷ os)) =
    ap (λ (r : List PublicOption). some (public_option o ∷ r)) (map-conceal os)

-- The payload of a question is the same whatever its correct answer is: it is computed from the
-- question without its answers.
pub sanitize_question-conceal :
    (q : QuizQuestion) → sanitize_question (conceal q) ≡ sanitize_question q
unfolding sanitize_question
sanitize_question-conceal q = rw (public_options-conceal q.options)

-- A graded answer that shows neither whether it was right nor what it earned.
abbrev pub IsMasked : GradedAnswer → Type 0
IsMasked g = (g.is_correct ≡ none) × (g.points_earned ≡ none)

abbrev pub SameAnswer : List GradedAnswer → List GradedAnswer → Type 0
SameAnswer [] [] = Unit
SameAnswer [] (h ∷ hs) = ⊥
SameAnswer (g ∷ gs) [] = ⊥
SameAnswer (g ∷ gs) (h ∷ hs) =
    (g.question_id ≡ h.question_id)
    × (g.selected_option_id ≡ h.selected_option_id)
    × (g.answer_text ≡ h.answer_text)
    × SameAnswer gs hs

map-mask : (gs : List GradedAnswer) → All IsMasked (map mask gs) × SameAnswer (map mask gs) gs
map-mask [] = (tt, tt)
map-mask (g ∷ gs) = let (m, s) = map-mask gs in (((refl, refl), m), (refl, refl, refl, s))

-- Without permission to reveal, every answer of the result has lost its grade, and keeps the question,
-- the choice and the text, in the order of the attempt.
pub mask_attempt_answers_hides :
    (answers masked : List GradedAnswer)
    → mask_attempt_answers false (some answers) ≡ some masked
    → All IsMasked masked × SameAnswer masked answers
unfolding mask_attempt_answers
mask_attempt_answers_hides answers masked h =
    let same : map mask answers ≡ masked = cc in
    subst (λ gs. All IsMasked gs × SameAnswer gs answers) same (map-mask answers)
