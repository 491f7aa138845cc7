-- ===== src/Quizzes/Answers/Accepted.antt =====
-- Which submissions are accepted, and what the map then holds.
use lms_backend.Base.{
  ℕ, ◌≡◌, ◌≢◌, ◌⊎◌, refl, Text, codes, text_eq_iff, true, false, Option, none, some, List, [], ◌∷◌,
  ok, ◌==◌, find, any, All, arith,
}
use lms_backend.Base.Sets.{mem, Distinct}
use lms_backend.Base.Eq.{nat_eq}
use lms_backend.Base.Dict.{Dict, lookup, insert, lookup-insert}
use lms_backend.Base.Strip.{strip, lower}
use lms_backend.Db.{QuizQuestion, QuestionType}
use lms_backend.Quizzes.Grading.{AnswerSubmission, options_or_empty, text_or_empty}
use lms_backend.Quizzes.Answers.{
  question_of, is_option, answer_error, choice_error, build, build_answer_map,
}

-- The answer text without surrounding spaces.
abbrev pub trimmed : AnswerSubmission → Text
trimmed a = strip (text_or_empty a.answer_text)

-- What an answer must hold for its question: the identifier of an option, or a text and no option,
-- which for a true/false question is one of the two words.
abbrev pub Accepts : QuestionType → QuizQuestion → AnswerSubmission → Type 0
Accepts QuestionType.multiple_choice q a =
    (key : Text) × (a.selected_option_id ≡ some key)
    × (key ≢ [])
    × (any (is_option key) (options_or_empty q.options) ≡ true)
Accepts QuestionType.true_false q a =
    (a.selected_option_id ≡ none)
    × ((lower (trimmed a) ≡ codes "true") ⊎ (lower (trimmed a) ≡ codes "false"))
Accepts QuestionType.short_answer q a = (a.selected_option_id ≡ none) × (trimmed a ≢ [])
Accepts QuestionType.essay q a = (a.selected_option_id ≡ none) × (trimmed a ≢ [])

choice_error-none :
    (q : QuizQuestion) (chosen : Option Text)
    → choice_error q chosen ≡ none
    → (key : Text) × (chosen ≡ some key)
      × (key ≢ [])
      × (any (is_option key) (options_or_empty q.options) ≡ true)
unfolding choice_error
choice_error-none q none h = cc
choice_error-none q (some []) h = cc
choice_error-none q (some (c ∷ s)) h = (c ∷ s, refl, ground arith, ground arith)

answer_error-Accepts :
    (t : QuestionType) (q : QuizQuestion) (a : AnswerSubmission)
    → answer_error t q a ≡ none
    → Accepts t q a
unfolding answer_error
answer_error-Accepts QuestionType.multiple_choice q a h = choice_error-none q a.selected_option_id h
answer_error-Accepts QuestionType.true_false q a h = ground (
  arith,
  text_eq_iff (lower (trimmed a)) (codes "true"),
  text_eq_iff (lower (trimmed a)) (codes "false"),
)
answer_error-Accepts QuestionType.short_answer q a h = ground arith
answer_error-Accepts QuestionType.essay q a h = ground arith

-- The question is of the quiz, and accepts the answer.
abbrev pub IsAcceptedBy : List QuizQuestion → AnswerSubmission → Type 0
IsAcceptedBy qs a =
    (q : QuizQuestion) × (question_of qs a.question_id ≡ some q) × Accepts q.question_type q a

abbrev pub ids : List AnswerSubmission → List ℕ
ids [] = []
ids (a ∷ rest) = a.question_id ∷ ids rest

-- The answer to a question in the list.
abbrev pub answer_for : ℕ → List AnswerSubmission → Option AnswerSubmission
answer_for id answers = find (λ a. a.question_id == id) answers

abbrev or_else : Option AnswerSubmission → Option AnswerSubmission → Option AnswerSubmission
or_else (some a) other = some a
or_else none other = other

or_else-none :
    {o : Option AnswerSubmission} (p : Option AnswerSubmission) → o ≡ or_else p none → o ≡ p
or_else-none none h = h
or_else-none (some a) h = h

abbrev Unseen : List ℕ → List ℕ → Type 0
Unseen seen [] = Unit
Unseen seen (i ∷ is) = (mem i seen ≡ false) × Unseen seen is

answer_for-none :
    (id : ℕ) (answers : List AnswerSubmission)
    → mem id (ids answers) ≡ false
    → answer_for id answers ≡ none
answer_for-none id [] h = refl
answer_for-none id (a ∷ rest) h = ground (arith, answer_for-none id rest)

module _ (qs : List QuizQuestion) where
  first_step :
      (seen : List ℕ) (built : Dict ℕ AnswerSubmission) (a : AnswerSubmission)
      (rest : List AnswerSubmission) {m : Dict ℕ AnswerSubmission}
      → build qs seen built (a ∷ rest) ≡ ok m
      → (mem a.question_id seen ≡ false)
        × ((q : QuizQuestion) × (question_of qs a.question_id ≡ some q)
            × (answer_error q.question_type q a ≡ none))
        × (build qs (a.question_id ∷ seen) (insert a.question_id a built) rest ≡ ok m)
  unfolding build
  first_step seen built a rest h = ground arith

  Unseen-cons :
      (i : ℕ) (seen is : List ℕ) → Unseen (i ∷ seen) is → (mem i is ≡ false) × Unseen seen is
  Unseen-cons i seen [] u = (refl, tt)
  Unseen-cons i seen (j ∷ is) u =
      let rest = Unseen-cons i seen is u.1 in
      (ground (arith, u.0, rest.0), (ground (arith, u.0), rest.1))

  build-ok :
      (seen : List ℕ) (built : Dict ℕ AnswerSubmission) (answers : List AnswerSubmission)
      {m : Dict ℕ AnswerSubmission}
      → build qs seen built answers ≡ ok m
      → Distinct (ids answers)
        × Unseen seen (ids answers)
        × All (IsAcceptedBy qs) answers
        × ((id : ℕ) → lookup id m ≡ or_else (answer_for id answers) (lookup id built))
  build-ok seen built [] h = unfold build in (tt, tt, tt, λ id. ground arith)
  build-ok seen built (a ∷ rest) {m} h =
      let (new, (q, known, fits), more) = first_step seen built a rest h in
      let (distinct, unseen, accepted, found) =
        build-ok (a.question_id ∷ seen) (insert a.question_id a built) rest more in
      let apart = Unseen-cons a.question_id seen (ids rest) unseen in
      (
        (apart.0, distinct),
        (new, apart.1),
        ((q, known, answer_error-Accepts q.question_type q a fits), accepted),
        λ id. found_first id (found id) (apart.0),
      )
    where
      found_first :
          (id : ℕ)
          → lookup id m ≡ or_else (answer_for id rest) (lookup id (insert a.question_id a built))
          → mem a.question_id (ids rest) ≡ false
          → lookup id m ≡ or_else (answer_for id (a ∷ rest)) (lookup id built)
      found_first id e n = ground (
        arith,
        e,
        lookup-insert {V = AnswerSubmission} a.question_id id a built,
        answer_for-none id rest,
        n,
      )

  -- An accepted submission answers each question at most once, each with an answer that its question
  -- accepts, and the map holds for every question exactly the answer submitted for it.
  pub build_answer_map_accepts :
      (answers : List AnswerSubmission) {m : Dict ℕ AnswerSubmission}
      → build_answer_map qs answers ≡ ok m
      → Distinct (ids answers)
        × All (IsAcceptedBy qs) answers
        × ((id : ℕ) → lookup id m ≡ answer_for id answers)
  unfolding build_answer_map lookup
  build_answer_map_accepts answers h =
      let r = build-ok [] [] answers h in
      (r.0, r.2, λ id. or_else-none (answer_for id answers) (r.3 id))
