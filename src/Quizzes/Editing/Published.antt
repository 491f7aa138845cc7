-- ===== src/Quizzes/Editing/Published.antt =====
-- Published quizzes can be taken: what an author can do to them keeps their questions acceptable, and the two
-- updates that do not.
use lms_backend.Base.{
  ℕ, ◌≡◌, ◌≢◌, refl, true, none, some, List, [], ◌∷◌, ok, arith, inl, inr, All, Result-cases,
  Bool-cases,
}
use lms_backend.Base.Patch.{given}
use lms_backend.Db.{User, Quiz, QuizQuestion, QuestionType, Session, commit_plain}
use lms_backend.Quizzes.Editing.Checks.{validate_question_payload, validate_questions_for_publish}
use lms_backend.Quizzes.Editing.Checks.Agree.{IsAccepted, validate_questions_iff}
use lms_backend.Quizzes.Editing.Quizzes.{
  QuizCreate, QuizUpdate, get_own_quiz, create_quiz, update_quiz, publish_quiz, put_quiz,
  store_quiz, has_questions,
}
use lms_backend.Quizzes.Editing.Questions.{
  QuestionCreate, QuestionUpdate, add_question, update_question, put_question, updated_question,
  question_of,
}
use lms_backend.Quizzes.Grading.{AnswerSubmission, grade_question, earned}
use lms_backend.Quizzes.Editing.Checks.Answerable.{accepted-grade_question}
use lms_backend.Quizzes.Editing.Effects.{
  IsSound, IsPlain, IsOwn, get_own_quiz-IsOwn, written-IsSound, created-IsSound, publish-Writes,
  update-Writes, add-Writes, question-Writes,
}

-- The calls of the two services, but for the updates that publish a quiz or put null for a checked field.
pub data Edit : Session → Session → Type 0 where
  created :
      (s : Session) (id course_id : ℕ) (p : QuizCreate) (user : User)
      → Edit s (create_quiz id course_id p user s).1
  updated :
      (s : Session) (course_id quiz_id : ℕ) (u : QuizUpdate) (user : User)
      → u.is_published ≢ given (some true)
      → Edit s (update_quiz course_id quiz_id u user s).1
  published :
      (s : Session) (course_id quiz_id : ℕ) (user : User)
      → Edit s (publish_quiz course_id quiz_id user s).1
  added :
      (s : Session) (id course_id quiz_id : ℕ) (p : QuestionCreate) (user : User)
      → Edit s (add_question id course_id quiz_id p user s).1
  edited :
      (s : Session) (course_id quiz_id question_id : ℕ) (u : QuestionUpdate) (user : User)
      → IsPlain u
      → Edit s (update_question course_id quiz_id question_id u user s).1

-- Every published quiz has questions, all acceptable, after a call of the services that is no update with
-- `is_published` set to true or with null for the type, options or correct answer, if this held before.
pub edit-IsSound :
    (s t : Session) → Edit s t → All IsSound s.tables.quizzes → All IsSound t.tables.quizzes
edit-IsSound s t (Edit.created r id course_id p user) all =
    created-IsSound id course_id p user r all
edit-IsSound s t (Edit.updated r course_id quiz_id u user n) all =
    written-IsSound r.tables.quizzes _ all (update-Writes course_id quiz_id u user r n all)
edit-IsSound s t (Edit.published r course_id quiz_id user) all =
    written-IsSound r.tables.quizzes _ all (publish-Writes course_id quiz_id user r)
edit-IsSound s t (Edit.added r id course_id quiz_id p user) all =
    written-IsSound r.tables.quizzes _ all (add-Writes id course_id quiz_id p user r all)
edit-IsSound s t (Edit.edited r course_id quiz_id question_id u user plain) all =
    written-IsSound r.tables.quizzes _ all
      (question-Writes course_id quiz_id question_id u user r plain all)

-- The question can be answered: unless it is an essay, some answer earns its points; no answer earns nothing.
abbrev pub IsAnswerable : QuizQuestion → Type 0
IsAnswerable q =
    (q.question_type ≢ QuestionType.essay
      → (a : AnswerSubmission) × (earned (grade_question q (some a)) ≡ q.points))
    × (earned (grade_question q none) ≡ 0)

All-map : (qs : List QuizQuestion) → All IsAccepted qs → All IsAnswerable qs
All-map [] all = tt
All-map (q ∷ qs) all = (accepted-grade_question q all.0, All-map qs all.1)

-- When `publish_quiz` returns, the user manages the course that the call names, the quiz it returns is published
-- and is the stored one but for that, it has a question, every question that is no essay has an answer that earns
-- its points, and a question that is left out earns nothing.
pub publish_quiz-All :
    (course_id quiz_id : ℕ) (user : User) (s : Session) {q : Quiz}
    → (publish_quiz course_id quiz_id user s).0 ≡ ok q
    → (q.is_published ≡ true)
      × (has_questions q ≡ true)
      × All IsAnswerable q.questions
      × ((old : Quiz) × (q ≡ record old { is_published = true })
          × IsOwn course_id quiz_id user s old)
unfolding publish_quiz store_quiz commit_plain
publish_quiz-All course_id quiz_id user s {q} h =
    elim (get_own_quiz-IsOwn course_id quiz_id user s) [
      | inl (e, r) ↦ absurd (ground arith)
      | inr (old, r, own) ↦ elim (Bool-cases (has_questions old)) [
        | inr n ↦ absurd (ground arith)
        | inl n ↦ elim (Result-cases (validate_questions_for_publish old.questions)) [
          | inr (e, v) ↦ absurd (ground arith)
          | inl (done, v) ↦
              let same : q ≡ record old { is_published = true } = ground arith in
              rw same (
                refl,
                n,
                All-map old.questions ((validate_questions_iff old.questions).0 v),
                (old, refl, own),
              )
        ]
      ]
    ]

-- An update whose question type is null and whose options are empty is accepted for a multiple choice question,
-- if nothing else fails, and the question that is stored then does not pass the check.
pub null_type_unchecked :
    (course_id quiz_id question_id : ℕ) (u : QuestionUpdate) (user : User) (s : Session)
    (quiz : Quiz) (q : QuizQuestion)
    → get_own_quiz course_id quiz_id user s ≡ (ok quiz, s)
    → question_of question_id quiz ≡ some q
    → q.question_type ≡ QuestionType.multiple_choice
    → u.question_type ≡ given none
    → u.options ≡ given (some [])
    → s.commit_error ≡ none
    → let (r, t) = update_question course_id quiz_id question_id u user s in
      (row : QuizQuestion) × (r ≡ ok row)
      × ¬ IsAccepted row
      × (t.tables.quizzes
          ≡ put_quiz (record quiz { questions = put_question row quiz.questions }) s.tables.quizzes)
unfolding update_question store_quiz commit_plain updated_question validate_question_payload
null_type_unchecked course_id quiz_id question_id u user s quiz q own f t n o c =
    (updated_question u q, ground arith, λ accepted. ground arith, ground arith)
