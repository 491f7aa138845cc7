-- ===== src/Courses/Tests.antt =====
-- A course with a chapter and two lessons below it, and the theorems on lessons at this data.
use lms_backend.Base.{
  ℕ, ◌≡◌, ◌≤◌, refl, true, false, Option, none, some, [], ◌∷◌, List, Result, err, value_error,
  arith,
}
use lms_backend.Base.Patch.{unset, given}
use lms_backend.Core.Permissions.{Role}
use lms_backend.Db.{LessonType, User, Lesson, Tables, Session, commit}
use lms_backend.Enrollments.Repository.{find_course, find_lesson}
use lms_backend.Courses.Hierarchy.{climb, enough, round, validate_parent_lesson}
use lms_backend.Courses.Hierarchy.Ends.{climb_ends}
use lms_backend.Courses.Hierarchy.Forest.{Rooted}
use lms_backend.Courses.Lessons.{
  LessonCreate, LessonUpdate, create_lesson, update_lesson, delete_lesson, can_manage,
  validate_video_url_usage, normalize_video_url, insert_lesson, last_order_index,
  validate_nullable_updates,
}
use lms_backend.Courses.Lessons.History.{Edit, History, IsGood, history-IsGood}

abbrev teacher : User
teacher = record { id = 9; role = Role.instructor }

abbrev lesson : ℕ → ℕ → Option ℕ → Lesson
lesson id order parent = record {
  id = id;
  course_id = 1;
  lesson_type = LessonType.text;
  order_index = order;
  parent_lesson_id = parent;
  video_url = none;
  is_preview = false;
}

abbrev two_lessons : List Lesson
two_lessons = lesson 10 1 none ∷ lesson 11 2 (some 10) ∷ []

climb_ends_example :
    (r : Result (Unit {0})) × ((fuel : ℕ)
      → enough two_lessons ≤ fuel
      → climb two_lessons (some 12) fuel (11 ∷ []) (lesson 11 2 (some 10)) ≡ some r)
climb_ends_example = climb_ends two_lessons (some 12) 11 (lesson 11 2 (some 10)) refl

-- A session with no lessons: a chapter is created, a lesson below it, and the chapter cannot go below it.
abbrev tables : Tables
tables = record {
  courses = record { id = 1; instructor_id = 9; is_published = true } ∷ [];
  lessons = [];
  enrollments = [];
  lesson_progress = [];
  quizzes = [];
  attempts = [];
  assignments = [];
  submissions = [];
}

abbrev empty : Session
empty = record { tables = tables; committed = tables; commit_error = none; events = [] }

abbrev new_lesson : Option ℕ → LessonCreate
new_lesson parent = record {
  lesson_type = LessonType.text;
  order_index = none;
  parent_lesson_id = parent;
  video_url = none;
  is_preview = false;
}

abbrev below : ℕ → LessonUpdate
below parent = record {
  title = unset;
  lesson_type = unset;
  order_index = unset;
  parent_lesson_id = given (some parent);
  video_url = unset;
  is_preview = unset;
}

abbrev with_chapter : Session
with_chapter = (create_lesson 10 1 (new_lesson none) teacher empty).1

abbrev with_both : Session
with_both = (create_lesson 11 1 (new_lesson (some 10)) teacher with_chapter).1

abbrev after_update : Session
after_update = (update_lesson 10 (below 11) teacher with_both).1

abbrev after_delete : Session
after_delete = (delete_lesson 10 teacher after_update).1

history : History empty after_delete
unfolding create_lesson update_lesson find_course can_manage validate_parent_lesson
    validate_video_url_usage normalize_video_url insert_lesson commit round last_order_index
    find_lesson validate_nullable_updates
history =
    History.next
      (History.next
        (History.next
          (History.next (History.done empty) none
            (Edit.created empty 10 1 (new_lesson none) teacher refl))
          none (Edit.created with_chapter 11 1 (new_lesson (some 10)) teacher refl))
        none (Edit.updated with_both 10 (below 11) teacher))
      none (Edit.deleted after_update 10 teacher)

empty-IsGood : IsGood empty
empty-IsGood = record {
  saved = refl;
  forest = record { rooted = λ a. (0, Rooted.root refl); known = λ a p e. ground arith };
  shown = tt;
}

history-IsGood_example : IsGood after_delete
history-IsGood_example = history-IsGood empty after_delete history empty-IsGood

rejected :
    (update_lesson 10 (below 11) teacher with_both).0
    ≡ err (value_error "Parent lesson creates a cycle")
unfolding create_lesson update_lesson find_course can_manage validate_parent_lesson
    validate_video_url_usage normalize_video_url insert_lesson commit round last_order_index
    find_lesson validate_nullable_updates climb
rejected = refl
