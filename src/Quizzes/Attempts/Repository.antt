-- ===== src/Quizzes/Attempts/Repository.antt =====
-- app/modules/quizzes/repositories/attempt_repository.py, and the lookups of quizzes. The constraint
-- `uq_quiz_attempt_number` is that of models/attempt.py; row locks are not modelled.
use lms_backend.Base.{
  ℕ, leb, max, Bool, true, false, ◌&&◌, Option, none, some, List, [], ◌∷◌, ◌++◌, integrity_error,
  Action, ◌>>=◌, ◌>>◌, pure, gets, modify, raise_if, ltb, ◌==◌, if◌then◌else◌, find, keep, any,
}
use lms_backend.Db.{Quiz, QuizAttempt, AttemptStatus, Tables, Session}

unfoldable pub find_quiz : ℕ → Tables → Option Quiz
find_quiz id t = find (λ q. q.id == id) t.quizzes

-- `get_by_id` and `get_by_id_for_update`
unfoldable pub get_attempt : ℕ → Tables → Option QuizAttempt
get_attempt id t = find (λ a. a.id == id) t.attempts

unfoldable pub of_pair : ℕ → ℕ → QuizAttempt → Bool
of_pair enrollment_id quiz_id a = (a.enrollment_id == enrollment_id) && (a.quiz_id == quiz_id)

abbrev pub is_open : AttemptStatus → Bool
is_open AttemptStatus.in_progress = true
is_open _ = false

-- `get_latest_attempt_number` and its `for_update` variant.
unfoldable pub latest_number : ℕ → ℕ → List QuizAttempt → ℕ
unfolding of_pair
latest_number enrollment_id quiz_id [] = 0
latest_number enrollment_id quiz_id (a ∷ rows) =
    let rest = latest_number enrollment_id quiz_id rows in
    if of_pair enrollment_id quiz_id a then max a.attempt_number rest else rest

abbrev later : QuizAttempt → Option QuizAttempt → Option QuizAttempt
later a none = some a
later a (some b) = if ltb a.started_at b.started_at then some b else some a

-- `get_in_progress` and its `for_update` variant: the open attempt that was started last.
unfoldable pub in_progress_of : ℕ → ℕ → List QuizAttempt → Option QuizAttempt
unfolding of_pair
in_progress_of enrollment_id quiz_id [] = none
in_progress_of enrollment_id quiz_id (a ∷ rows) =
    let rest = in_progress_of enrollment_id quiz_id rows in
    if of_pair enrollment_id quiz_id a && is_open a.status then later a rest else rest

-- `ORDER BY attempt_number ASC`, which keeps the order of rows with one number.
place : QuizAttempt → List QuizAttempt → List QuizAttempt
place a [] = a ∷ []
place a (b ∷ rows) =
    if leb a.attempt_number b.attempt_number then a ∷ b ∷ rows else b ∷ place a rows

in_order : List QuizAttempt → List QuizAttempt
unfolding place
in_order [] = []
in_order (a ∷ rows) = place a (in_order rows)

pub list_by_enrollment : ℕ → ℕ → Tables → List QuizAttempt
unfolding of_pair in_order
list_by_enrollment enrollment_id quiz_id t =
    in_order (keep (of_pair enrollment_id quiz_id) t.attempts)

unfoldable pub has_number : QuizAttempt → QuizAttempt → Bool
unfolding of_pair
has_number a b = of_pair a.enrollment_id a.quiz_id b && (b.attempt_number == a.attempt_number)

-- `create`: the flush meets the constraint.
unfoldable pub create : QuizAttempt → Action Session QuizAttempt
create a = do
  t ← gets (λ s. s.tables)
  raise_if (any (has_number a) t.attempts) integrity_error
  modify (λ s. record s { tables = record s.tables { attempts = s.tables.attempts ++ a ∷ [] } })
  pure a

unfoldable pub put_attempt : QuizAttempt → List QuizAttempt → List QuizAttempt
put_attempt a [] = []
put_attempt a (r ∷ rows) = (if r.id == a.id then a else r) ∷ put_attempt a rows

-- `update`: the row takes the new fields.
unfoldable pub update : QuizAttempt → Action Session QuizAttempt
unfolding put_attempt
update a = do
  modify (λ s. record s { tables = record s.tables { attempts = put_attempt a s.tables.attempts } })
  pure a
