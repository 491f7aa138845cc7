-- ===== src/Quizzes/Editing/Effects.antt =====
-- What each call of the two services does to the quizzes: it writes sound ones, if all were sound.
use lms_backend.Base.{
  ℕ, ◌≡◌, ◌≢◌, ◌⊎◌, refl, true, none, some, List, [], ◌∷◌, ◌++◌, Error, ok, err, not_found,
  forbidden, arith, inl, inr, All, All-find, All-append, Option-cases, Result-cases, Bool-cases,
  ◌==◌,
}
use lms_backend.Base.Patch.{given, get_or}
use lms_backend.Db.{User, Course, Quiz, QuizQuestion, Session, commit_plain}
use lms_backend.Enrollments.Repository.{find_course, find_lesson}
use lms_backend.Quizzes.Attempts.Repository.{find_quiz}
use lms_backend.Quizzes.Editing.Checks.{validate_question_payload, validate_questions_for_publish}
use lms_backend.Quizzes.Editing.Checks.Agree.{IsAccepted, validate_questions_iff}
use lms_backend.Quizzes.Editing.Quizzes.{
  QuizCreate, QuizUpdate, can_manage_course, ensure_manage_course, get_quiz, get_own_quiz,
  create_quiz, update_quiz, publish_quiz, put_quiz, store_quiz, insert_quiz, new_quiz, updated_quiz,
  has_questions,
}
use lms_backend.Quizzes.Editing.Questions.{
  QuestionCreate, QuestionUpdate, add_question, update_question, new_question, put_question,
  updated_question, question_of, or_no_options,
}

-- A quiz that is published has questions, and each was acceptable as a payload.
abbrev pub IsSound : Quiz → Type 0
IsSound q = q.is_published ≡ true → (has_questions q ≡ true) × All IsAccepted q.questions

All-put_quiz :
    (q : Quiz) (quizzes : List Quiz)
    → All IsSound quizzes
    → IsSound q
    → All IsSound (put_quiz q quizzes)
unfolding put_quiz
All-put_quiz q [] all p = tt
All-put_quiz q (x ∷ xs) all p = elim (Bool-cases (x.id == q.id)) [
  | inl e ↦ rw e (p, All-put_quiz q xs all.1 p)
  | inr e ↦ rw e (all.0, All-put_quiz q xs all.1 p)
]

All-put_question :
    (q : QuizQuestion) (questions : List QuizQuestion)
    → All IsAccepted questions
    → IsAccepted q
    → All IsAccepted (put_question q questions)
unfolding put_question
All-put_question q [] all p = tt
All-put_question q (x ∷ xs) all p = elim (Bool-cases (x.id == q.id)) [
  | inl e ↦ rw e (p, All-put_question q xs all.1 p)
  | inr e ↦ rw e (all.0, All-put_question q xs all.1 p)
]

some-put_question :
    (q : QuizQuestion) (quiz : Quiz)
    → has_questions quiz ≡ true
    → has_questions (record quiz { questions = put_question q quiz.questions }) ≡ true
unfolding put_question
some-put_question q quiz h = nonempty quiz.questions h
  where
    nonempty :
        (qs : List QuizQuestion)
        → has_questions (record quiz { questions = qs }) ≡ true
        → has_questions (record quiz { questions = put_question q qs }) ≡ true
    nonempty [] h = h
    nonempty (x ∷ qs) h = ground arith

some-append :
    (quiz : Quiz) (q : QuizQuestion)
    → has_questions quiz ≡ true
    → has_questions (record quiz { questions = quiz.questions ++ q ∷ [] }) ≡ true
some-append quiz q h = nonempty quiz.questions h
  where
    nonempty :
        (qs : List QuizQuestion)
        → has_questions (record quiz { questions = qs }) ≡ true
        → has_questions (record quiz { questions = qs ++ q ∷ [] }) ≡ true
    nonempty [] h = refl
    nonempty (x ∷ qs) h = refl

-- What `get_own_quiz` returns is the stored quiz, and the user manages its course.
abbrev pub IsOwn : ℕ → ℕ → User → Session → Quiz → Type 0
IsOwn course_id quiz_id user s q =
    (find_quiz quiz_id s.tables ≡ some q)
    × ((course : Course) × (find_course course_id s.tables ≡ some course)
        × (can_manage_course course (some user) ≡ true))

pub get_own_quiz-IsOwn :
    (course_id quiz_id : ℕ) (user : User) (s : Session)
    → ((e : Error) × (get_own_quiz course_id quiz_id user s ≡ (err e, s)))
      ⊎ ((q : Quiz) × (get_own_quiz course_id quiz_id user s ≡ (ok q, s))
          × IsOwn course_id quiz_id user s q)
unfolding get_own_quiz get_quiz ensure_manage_course
get_own_quiz-IsOwn course_id quiz_id user s = elim (Option-cases (find_quiz quiz_id s.tables)) [
  | inl n ↦ inl (not_found "Quiz not found", ground arith)
  | inr (quiz, f) ↦ elim (Option-cases (find_lesson quiz.lesson_id s.tables)) [
    | inl n ↦ inl (not_found "Quiz not found in this course", ground arith)
    | inr (lesson, l) ↦ elim (Option-cases (find_course course_id s.tables)) [
      | inl n ↦ elim (Bool-cases (lesson.course_id == course_id)) [
        | inl e ↦ inl (not_found "Course not found", ground arith)
        | inr e ↦ inl (not_found "Quiz not found in this course", ground arith)
      ]
      | inr (course, g) ↦ elim (Bool-cases (lesson.course_id == course_id)) [
        | inr e ↦ inl (not_found "Quiz not found in this course", ground arith)
        | inl e ↦ elim (Bool-cases (can_manage_course course (some user))) [
          | inl m ↦ inr (quiz, ground arith, (f, (course, g, m)))
          | inr m ↦ elim (Bool-cases quiz.is_published) [
            | inl p ↦
                inl (forbidden "Not authorized to manage quizzes for this course", ground arith)
            | inr p ↦ inl (forbidden "Not authorized to access this quiz", ground arith)
          ]
        ]
      ]
    ]
  ]
]

-- What happens to the quizzes: nothing, or one of them is written, and is sound if all were before.
abbrev pub Writes : List Quiz → List Quiz → Type 0
Writes old new = (new ≡ old) ⊎ ((q : Quiz) × (new ≡ put_quiz q old) × IsSound q)

stored-IsSound :
    (quiz_id : ℕ) (s : Session) {q : Quiz}
    → All IsSound s.tables.quizzes
    → find_quiz quiz_id s.tables ≡ some q
    → IsSound q
unfolding find_quiz
stored-IsSound quiz_id s all f = All-find IsSound (λ q. q.id == quiz_id) s.tables.quizzes all f

pub publish-Writes :
    (course_id quiz_id : ℕ) (user : User) (s : Session)
    → Writes s.tables.quizzes (publish_quiz course_id quiz_id user s).1.tables.quizzes
unfolding publish_quiz store_quiz commit_plain
publish-Writes course_id quiz_id user s = elim (get_own_quiz-IsOwn course_id quiz_id user s) [
  | inl (e, r) ↦ inl (ground arith)
  | inr (q, r, own) ↦ elim (Bool-cases (has_questions q)) [
    | inr h ↦ inl (ground arith)
    | inl h ↦ elim (Result-cases (validate_questions_for_publish q.questions)) [
      | inr (e, v) ↦ inl (ground arith)
      | inl (done, v) ↦ inr (
        record q { is_published = true },
        ground arith,
        λ p. (h, (validate_questions_iff q.questions).0 v),
      )
    ]
  ]
]

pub update-Writes :
    (course_id quiz_id : ℕ) (u : QuizUpdate) (user : User) (s : Session)
    → u.is_published ≢ given (some true)
    → All IsSound s.tables.quizzes
    → Writes s.tables.quizzes (update_quiz course_id quiz_id u user s).1.tables.quizzes
unfolding update_quiz store_quiz commit_plain updated_quiz
update-Writes course_id quiz_id u user s n all =
    elim (get_own_quiz-IsOwn course_id quiz_id user s) [
      | inl (e, r) ↦ inl (ground arith)
      | inr (q, r, own) ↦
          inr (updated_quiz u q, ground arith, kept q (stored-IsSound quiz_id s all own.0))
    ]
  where
    kept : (q : Quiz) → IsSound q → IsSound (updated_quiz u q)
    kept q sound = λ published. sound (ground arith)

pub add-Writes :
    (id course_id quiz_id : ℕ) (p : QuestionCreate) (user : User) (s : Session)
    → All IsSound s.tables.quizzes
    → Writes s.tables.quizzes (add_question id course_id quiz_id p user s).1.tables.quizzes
unfolding add_question store_quiz commit_plain new_question
add-Writes id course_id quiz_id p user s all = elim (get_own_quiz-IsOwn course_id quiz_id user s) [
  | inl (e, r) ↦ inl (ground arith)
  | inr (q, r, own) ↦
      elim (Result-cases (
        validate_question_payload (some p.question_type) (or_no_options p.options)
          p.correct_answer)) [
            | inr (e, v) ↦ inl (ground arith)
            | inl (done, v) ↦ inr (
              record q { questions = q.questions ++ new_question id p ∷ [] },
              ground arith,
              kept q v (stored-IsSound quiz_id s all own.0),
            )
          ]
]
  where
    kept :
        (q : Quiz)
        → validate_question_payload
            (some p.question_type)
            (or_no_options p.options)
            p.correct_answer
          ≡ ok tt
        → IsSound q
        → IsSound (record q { questions = q.questions ++ new_question id p ∷ [] })
    kept q v sound published =
        let (some_there, accepted) = sound published in
        (some-append q (new_question id p) some_there, All-append IsAccepted q.questions accepted v)

-- The update has no null in the fields that the check looks at.
abbrev pub IsPlain : QuestionUpdate → Type 0
IsPlain u =
    (u.question_type ≢ given none) × (u.options ≢ given none) × (u.correct_answer ≢ given none)

-- Without such nulls, what was checked is what is stored.
stored_as_checked :
    (u : QuestionUpdate) (q : QuizQuestion)
    → IsPlain u
    → let row = updated_question u q in
      (get_or u.question_type (some q.question_type) ≡ some row.question_type)
      × (get_or u.options q.options ≡ row.options)
      × (get_or u.correct_answer q.correct_answer ≡ row.correct_answer)
unfolding updated_question
stored_as_checked u q plain = ground arith

checked_row :
    (u : QuestionUpdate) (q : QuizQuestion)
    → IsPlain u
    → validate_question_payload
        (get_or u.question_type (some q.question_type))
        (get_or u.options q.options)
        (get_or u.correct_answer q.correct_answer)
      ≡ ok tt
    → IsAccepted (updated_question u q)
checked_row u q plain h = let (a, b, c) = stored_as_checked u q plain in rw (a, b, c) at h

pub question-Writes :
    (course_id quiz_id question_id : ℕ) (u : QuestionUpdate) (user : User) (s : Session)
    → IsPlain u
    → All IsSound s.tables.quizzes
    → Writes s.tables.quizzes
        (update_question course_id quiz_id question_id u user s).1.tables.quizzes
unfolding update_question store_quiz commit_plain
question-Writes course_id quiz_id question_id u user s plain all =
    elim (get_own_quiz-IsOwn course_id quiz_id user s) [
      | inl (e, r) ↦ inl (ground arith)
      | inr (quiz, r, own) ↦ elim (Option-cases (question_of question_id quiz)) [
        | inl n ↦ inl (ground arith)
        | inr (q, f) ↦
            elim (Result-cases (
              validate_question_payload (get_or u.question_type (some q.question_type))
                (get_or u.options q.options) (get_or u.correct_answer q.correct_answer))) [
                  | inr (e, v) ↦ inl (ground arith)
                  | inl (done, v) ↦ inr (
                    record quiz { questions = put_question (updated_question u q) quiz.questions },
                    ground arith,
                    kept quiz q (checked_row u q plain v) (stored-IsSound quiz_id s all own.0),
                  )
                ]
      ]
    ]
  where
    kept :
        (quiz : Quiz) (q : QuizQuestion)
        → IsAccepted (updated_question u q)
        → IsSound quiz
        → IsSound (record quiz { questions = put_question (updated_question u q) quiz.questions })
    kept quiz q v sound published =
        let (some_there, accepted) = sound published in
        (
          some-put_question (updated_question u q) quiz some_there,
          All-put_question (updated_question u q) quiz.questions accepted v,
        )

pub written-IsSound : (old new : List Quiz) → All IsSound old → Writes old new → All IsSound new
written-IsSound old new all w = elim w [
  | inl same ↦ rw same all
  | inr (q, stored, sound) ↦ rw stored (All-put_quiz q old all sound)
]

created-effect :
    (id course_id : ℕ) (p : QuizCreate) (user : User) (s : Session)
    → let t = (create_quiz id course_id p user s).1 in
      (t.tables.quizzes ≡ s.tables.quizzes)
      ⊎ (t.tables.quizzes ≡ s.tables.quizzes ++ new_quiz id p ∷ [])
unfolding create_quiz insert_quiz commit_plain ensure_manage_course
created-effect id course_id p user s = ground arith

pub created-IsSound :
    (id course_id : ℕ) (p : QuizCreate) (user : User) (s : Session)
    → All IsSound s.tables.quizzes
    → All IsSound (create_quiz id course_id p user s).1.tables.quizzes
unfolding new_quiz
created-IsSound id course_id p user s all = elim (created-effect id course_id p user s) [
  | inl same ↦ rw same all
  | inr more ↦ rw more (All-append IsSound s.tables.quizzes all (λ published. cc))
]
