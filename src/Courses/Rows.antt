-- ===== src/Courses/Rows.antt =====
-- Courses with all their columns (app/modules/courses/models/course.py), the payloads of their service
-- (app/modules/courses/schemas/course.py), and the session it works in.
use lms_backend.Base.{ℕ, Text, Bool, Option, List, Error}
use lms_backend.Base.Dict.{Dict}
use lms_backend.Base.Float.{Float}
use lms_backend.Base.Patch.{Update}

-- The columns that may be null; prices are in hundredths.
pub record Details : Type 0 where
  pub description : Option Text
  pub category : Option Text
  pub difficulty_level : Option Text
  pub thumbnail_url : Option Text
  pub estimated_duration_minutes : Option ℕ
  pub course_metadata : Option (Dict Text Text)
  pub price : Option ℕ
  pub currency : Option Text
  pub is_free : Option Bool
  pub long_description : Option Text
  pub preview_video_url : Option Text
  pub requirements : Option (List Text)
  pub learning_objectives : Option (List Text)
  pub total_reviews : Option ℕ
  pub total_quizzes : Option ℕ
  pub enrollment_count : Option ℕ
  pub average_rating : Option Float
  pub status : Option Text

pub record CatalogCourse : Type 0 where
  pub id : ℕ
  pub title : Text
  pub slug : Text
  pub instructor_id : ℕ
  pub is_published : Bool
  pub details : Details

-- `instructors`: what publication reads of it.
pub record Instructor : Type 0 where
  pub user_id : ℕ
  pub is_verified : Bool

pub record CourseCreate : Type 0 where
  pub title : Text
  pub slug : Option Text
  pub details : Details

pub record CourseUpdate : Type 0 where
  pub title : Update Text
  pub description : Update Text
  pub category : Update Text
  pub difficulty_level : Update Text
  pub thumbnail_url : Update Text
  pub estimated_duration_minutes : Update ℕ
  pub is_published : Update Bool
  pub metadata : Update (Dict Text Text)
  pub price : Update ℕ
  pub currency : Update Text
  pub is_free : Update Bool
  pub long_description : Update Text
  pub preview_video_url : Update Text
  pub requirements : Update (List Text)
  pub learning_objectives : Update (List Text)
  pub total_reviews : Update ℕ
  pub total_quizzes : Update ℕ
  pub enrollment_count : Update ℕ
  pub average_rating : Update Float
  pub status : Update Text

-- What the session sees, what is committed, the answer to the next commit, and the courses whose publication the
-- webhooks have been told.
pub record Catalog : Type 0 where
  pub courses : List CatalogCourse
  pub committed : List CatalogCourse
  pub instructors : List Instructor
  pub commit_error : Option Error
  pub announced : List ℕ
