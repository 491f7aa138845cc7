-- ===== src/Db.antt =====
-- The rows of the tables that the learning services share, and the database session.
-- app/modules/{courses,enrollments,quizzes,assignments}/models; SQLAlchemy's commit and rollback.
use lms_backend.Base.{
  ℕ, Text, Bool, Option, none, some, List, ok, err, Error, Action, ◌++◌, [], ◌∷◌,
}
use lms_backend.Base.Dict.{Dict}
use lms_backend.Core.Permissions.{Role}
use lms_backend.Assignments.Rows.{Assignment, Submission}

-- The columns of `users` that authorisation reads.
pub record User : Type 0 where
  pub id : ℕ
  pub role : Role

pub record Course : Type 0 where
  pub id : ℕ
  pub instructor_id : ℕ
  pub is_published : Bool

pub data LessonType : Type 0 where
  video text quiz assignment : LessonType

pub record Lesson : Type 0 where
  pub id : ℕ
  pub course_id : ℕ
  pub lesson_type : LessonType
  pub order_index : ℕ
  pub parent_lesson_id : Option ℕ
  pub video_url : Option Text
  pub is_preview : Bool

pub data EnrollmentStatus : Type 0 where
  active completed dropped expired : EnrollmentStatus

-- Times are seconds; `progress_percentage` is in hundredths.
pub record Enrollment : Type 0 where
  pub id : ℕ
  pub student_id : ℕ
  pub course_id : ℕ
  pub enrolled_at : ℕ
  pub started_at : Option ℕ
  pub completed_at : Option ℕ
  pub status : EnrollmentStatus
  pub progress_percentage : ℕ
  pub completed_lessons_count : ℕ
  pub total_lessons_count : ℕ
  pub total_time_spent_seconds : ℕ
  pub last_accessed_at : Option ℕ
  pub certificate_issued_at : Option ℕ
  pub rating : Option ℕ
  pub review : Option Text

pub data ProgressStatus : Type 0 where
  not_started in_progress completed : ProgressStatus

pub record LessonProgress : Type 0 where
  pub id : ℕ
  pub enrollment_id : ℕ
  pub lesson_id : ℕ
  pub status : ProgressStatus
  pub started_at : Option ℕ
  pub completed_at : Option ℕ
  pub time_spent_seconds : ℕ
  pub last_position_seconds : ℕ
  pub completion_percentage : ℕ
  pub attempts_count : ℕ
  pub progress_metadata : Option (Dict Text Text)

pub data QuestionType : Type 0 where
  multiple_choice true_false short_answer essay : QuestionType

-- An entry of `options`; a key that the dict lacks is `none`.
pub record ChoiceOption : Type 0 where
  pub option_id : Option Text
  pub legacy_id : Option Text
  pub option_text : Option Text
  pub legacy_text : Option Text
  pub is_correct : Option Bool

pub record QuizQuestion : Type 0 where
  pub id : ℕ
  pub question_text : Text
  pub question_type : QuestionType
  pub points : ℕ
  pub options : Option (List ChoiceOption)
  pub correct_answer : Option Text

pub record Quiz : Type 0 where
  pub id : ℕ
  pub lesson_id : ℕ
  pub passing_score : ℕ
  pub time_limit_minutes : Option ℕ
  pub max_attempts : Option ℕ
  pub shuffle_questions : Bool
  pub shuffle_options : Bool
  pub show_correct_answers : Bool
  pub is_published : Bool
  pub questions : List QuizQuestion

pub data AttemptStatus : Type 0 where
  in_progress submitted graded : AttemptStatus

-- A graded answer; `masked` answers have lost the two keys that reveal the grade.
pub record GradedAnswer : Type 0 where
  pub question_id : ℕ
  pub selected_option_id : Option Text
  pub answer_text : Option Text
  pub is_correct : Option Bool
  pub points_earned : Option ℕ

pub record QuizAttempt : Type 0 where
  pub id : ℕ
  pub enrollment_id : ℕ
  pub quiz_id : ℕ
  pub attempt_number : ℕ
  pub status : AttemptStatus
  pub started_at : ℕ
  pub submitted_at : Option ℕ
  pub graded_at : Option ℕ
  pub score : Option ℕ
  pub max_score : Option ℕ
  pub percentage : Option ℕ
  pub is_passed : Option Bool
  pub time_taken_seconds : Option ℕ
  pub answers : Option (List GradedAnswer)

pub record Tables : Type 0 where
  pub courses : List Course
  pub lessons : List Lesson
  pub enrollments : List Enrollment
  pub lesson_progress : List LessonProgress
  pub quizzes : List Quiz
  pub attempts : List QuizAttempt
  pub assignments : List Assignment
  pub submissions : List Submission

-- What the services hand to the task dispatcher and to the webhooks.
pub data Event : Type 0 where
  enrollment_created enrollment_completed : ℕ → Event
  recalculate_course_progress generate_certificate : ℕ → Event
  quiz_submitted : ℕ → Event

-- `tables` is what the session sees, `committed` what the database keeps. `commit_error` is what
-- the database answers to the next commit; the program does not decide it.
pub record Session : Type 0 where
  pub tables : Tables
  pub committed : Tables
  pub commit_error : Option Error
  pub events : List Event

-- `db.rollback()`
unfoldable pub rollback : Session → Session
rollback s = record s { tables = s.committed }

-- `db.commit()` with no handler: the session keeps its unfinished writes after a failure.
unfoldable pub commit_plain : Action Session (Unit {0})
commit_plain s = elim s.commit_error [
  | none ↦ (ok tt, record s { committed = s.tables })
  | some e ↦ (err e, s)
]

-- `_commit`: a commit that fails is rolled back, and its exception goes on.
unfoldable pub commit : Action Session (Unit {0})
unfolding rollback
commit s = elim s.commit_error [
  | none ↦ (ok tt, record s { committed = s.tables })
  | some e ↦ (err e, rollback s)
]

unfoldable pub emit : Event → Action Session (Unit {0})
emit e s = (ok tt, record s { events = s.events ++ e ∷ [] })
