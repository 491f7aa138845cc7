-- ===== src/Quizzes/Editing/Quizzes.antt =====
-- `QuizService` (app/modules/quizzes/services/quiz_service.py) and the `create` and `update` of its
-- repository: quizzes are created, changed, looked up and published.
use lms_backend.Base.{
  ℕ, Bool, true, false, ◌&&◌, not, Option, none, some, List, [], ◌∷◌, ◌++◌, value_error, forbidden,
  not_found, Action, ◌>>=◌, ◌>>◌, pure, lift, gets, modify, require, raise_if, ◌==◌, if◌then◌else◌,
  any,
}
use lms_backend.Base.Patch.{Update, set_to, keep_old}
use lms_backend.Core.Permissions.{Role, role_eq}
use lms_backend.Db.{User, Course, Quiz, Session, commit_plain}
use lms_backend.Enrollments.Repository.{find_course, find_lesson}
use lms_backend.Quizzes.Attempts.Repository.{find_quiz}
use lms_backend.Quizzes.Editing.Checks.{validate_questions_for_publish}

-- `_can_manage_course`, for a user who may be missing.
unfoldable pub can_manage_course : Course → Option User → Bool
can_manage_course course none = false
can_manage_course course (some user) =
    if role_eq user.role Role.admin
    then true
    else role_eq user.role Role.instructor && (course.instructor_id == user.id)

-- `_ensure_manage_course`
unfoldable pub ensure_manage_course : Course → User → Action Session (Unit {0})
ensure_manage_course course user =
    raise_if (not (can_manage_course course (some user)))
      (forbidden "Not authorized to manage quizzes for this course")

-- `get_quiz`
unfoldable pub get_quiz : ℕ → ℕ → Option User → Action Session Quiz
get_quiz course_id quiz_id user = do
  t ← gets (λ s. s.tables)
  quiz ← require (find_quiz quiz_id t) (not_found "Quiz not found")
  lesson ← require (find_lesson quiz.lesson_id t) (not_found "Quiz not found in this course")
  raise_if (not (lesson.course_id == course_id)) (not_found "Quiz not found in this course")
  course ← require (find_course course_id t) (not_found "Course not found")
  raise_if (not quiz.is_published && not (can_manage_course course user))
      (forbidden "Not authorized to access this quiz")
  pure quiz

-- `get_quiz`, and then `_ensure_manage_course` on the course, which `get_quiz` has found.
unfoldable pub get_own_quiz : ℕ → ℕ → User → Action Session Quiz
get_own_quiz course_id quiz_id user = do
  quiz ← get_quiz course_id quiz_id (some user)
  t ← gets (λ s. s.tables)
  course ← require (find_course course_id t) (not_found "Course not found")
  ensure_manage_course course user
  pure quiz

pub record QuizCreate : Type 0 where
  pub lesson_id : ℕ
  pub time_limit_minutes : Option ℕ
  pub passing_score : ℕ
  pub max_attempts : Option ℕ
  pub shuffle_questions : Bool
  pub shuffle_options : Bool
  pub show_correct_answers : Bool

pub record QuizUpdate : Type 0 where
  pub time_limit_minutes : Update ℕ
  pub passing_score : Update ℕ
  pub max_attempts : Update ℕ
  pub shuffle_questions : Update Bool
  pub shuffle_options : Update Bool
  pub show_correct_answers : Update Bool
  pub is_published : Update Bool

unfoldable pub new_quiz : ℕ → QuizCreate → Quiz
new_quiz id p = record {
  id = id;
  lesson_id = p.lesson_id;
  passing_score = p.passing_score;
  time_limit_minutes = p.time_limit_minutes;
  max_attempts = p.max_attempts;
  shuffle_questions = p.shuffle_questions;
  shuffle_options = p.shuffle_options;
  show_correct_answers = p.show_correct_answers;
  is_published = false;
  questions = [];
}

-- `QuizRepository.create`
unfoldable pub insert_quiz : Quiz → Action Session Quiz
insert_quiz quiz = do
  modify (λ s. record s { tables = record s.tables { quizzes = s.tables.quizzes ++ quiz ∷ [] } })
  pure quiz

-- `create_quiz`; the lesson of a quiz is unique.
unfoldable pub create_quiz : ℕ → ℕ → QuizCreate → User → Action Session Quiz
create_quiz id course_id payload user = do
  t ← gets (λ s. s.tables)
  course ← require (find_course course_id t) (not_found "Course not found")
  ensure_manage_course course user
  lesson ← require (find_lesson payload.lesson_id t) (not_found "Lesson not found in this course")
  raise_if (not (lesson.course_id == course_id)) (not_found "Lesson not found in this course")
  raise_if (any (λ (q : Quiz). q.lesson_id == payload.lesson_id) t.quizzes)
      (value_error "Lesson already has a quiz")
  quiz ← insert_quiz (new_quiz id payload)
  commit_plain
  pure quiz

unfoldable pub put_quiz : Quiz → List Quiz → List Quiz
put_quiz quiz [] = []
put_quiz quiz (other ∷ quizzes) =
    let rest = put_quiz quiz quizzes in if other.id == quiz.id then quiz ∷ rest else other ∷ rest

-- `self.db.add(quiz)`, `self.db.flush()`
unfoldable pub store_quiz : Quiz → Action Session Quiz
store_quiz quiz = do
  modify (λ s. record s { tables = record s.tables { quizzes = put_quiz quiz s.tables.quizzes } })
  pure quiz

-- The loop of `QuizRepository.update`.
unfoldable pub updated_quiz : QuizUpdate → Quiz → Quiz
updated_quiz u q = record q {
  passing_score = set_to u.passing_score q.passing_score;
  time_limit_minutes = keep_old u.time_limit_minutes q.time_limit_minutes;
  max_attempts = keep_old u.max_attempts q.max_attempts;
  shuffle_questions = set_to u.shuffle_questions q.shuffle_questions;
  shuffle_options = set_to u.shuffle_options q.shuffle_options;
  show_correct_answers = set_to u.show_correct_answers q.show_correct_answers;
  is_published = set_to u.is_published q.is_published;
}

-- `update_quiz`
unfoldable pub update_quiz : ℕ → ℕ → QuizUpdate → User → Action Session Quiz
update_quiz course_id quiz_id u user = do
  quiz ← get_own_quiz course_id quiz_id user
  row ← store_quiz (updated_quiz u quiz)
  commit_plain
  pure row

abbrev pub has_questions : Quiz → Bool
has_questions quiz = elim quiz.questions [ [] ↦ false | q ∷ qs ↦ true ]

-- `publish_quiz`
unfoldable pub publish_quiz : ℕ → ℕ → User → Action Session Quiz
publish_quiz course_id quiz_id user = do
  quiz ← get_own_quiz course_id quiz_id user
  raise_if (not (has_questions quiz)) (value_error "Cannot publish quiz without questions")
  lift (validate_questions_for_publish quiz.questions)
  row ← store_quiz (record quiz { is_published = true })
  commit_plain
  pure row
