-- ===== src/Assignments/Rows.antt =====
-- app/modules/assignments/models/models.py and schemas/schemas.py. A column that must not be null is optional
-- here too, since the session can hold a null that only the commit refuses.
use lms_backend.Base.{ℕ, Text, Bool, Option, List}
use lms_backend.Base.Dict.{Dict}
use lms_backend.Base.Float.{Float}
use lms_backend.Base.Patch.{Update}
use mathlib.Core.Int.{ℤ}

pub record Assignment : Type 0 where
  pub id : ℕ
  pub title : Option Text
  pub description : Option Text
  pub instructions : Option Text
  pub course_id : ℕ
  pub instructor_id : ℕ
  pub status : Option Text
  pub is_published : Option Bool
  pub due_date : Option ℕ
  pub max_points : Option ℤ
  pub grading_type : Option Text
  pub assignment_metadata : Option (Dict Text Text)
  pub created_at : ℕ
  pub updated_at : ℕ

pub record Submission : Type 0 where
  pub id : ℕ
  pub enrollment_id : ℕ
  pub assignment_id : ℕ
  pub submitted_at : ℕ
  pub graded_at : Option ℕ
  pub returned_at : Option ℕ
  pub status : Option Text
  pub grade : Option Float
  pub max_grade : Option Float
  pub feedback : Option Text
  pub feedback_attachments : Option (List Text)
  pub submission_metadata : Option (Dict Text Text)
  pub content : Option Text
  pub file_urls : Option (List Text)
  pub submission_type : Option Text
  pub updated_at : ℕ

pub record AssignmentCreate : Type 0 where
  pub title : Text
  pub description : Option Text
  pub instructions : Option Text
  pub due_date : Option ℕ
  pub max_points : Option ℤ
  pub grading_type : Option Text
  pub assignment_metadata : Option (Dict Text Text)
  pub course_id : ℕ
  pub status : Text
  pub is_published : Bool

pub record AssignmentUpdate : Type 0 where
  pub title : Update Text
  pub description : Update Text
  pub instructions : Update Text
  pub due_date : Update ℕ
  pub max_points : Update ℤ
  pub grading_type : Update Text
  pub status : Update Text
  pub is_published : Update Bool
  pub assignment_metadata : Update (Dict Text Text)

pub record SubmissionCreate : Type 0 where
  pub content : Option Text
  pub file_urls : Option (List Text)
  pub submission_type : Option Text
  pub submission_metadata : Option (Dict Text Text)
  pub assignment_id : ℕ
  pub enrollment_id : ℕ
  pub submitted_at : Option ℕ
  pub status : Text

pub record SubmissionUpdate : Type 0 where
  pub grade : Update Float
  pub max_grade : Update Float
  pub feedback : Update Text
  pub feedback_attachments : Update (List Text)
  pub status : Update Text
  pub graded_at : Update ℕ
  pub returned_at : Update ℕ

pub record SubmissionGradeRequest : Type 0 where
  pub grade : Float
  pub max_grade : Float
  pub feedback : Text
  pub feedback_attachments : List Text
