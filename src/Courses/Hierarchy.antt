-- ===== src/Courses/Hierarchy.antt =====
-- `LessonService._validate_parent_lesson` (app/modules/courses/services/lesson_service.py): the walk from a
-- lesson up its parents, on fuel.
pub mod Ends
pub mod Forest
use lms_backend.Base.{
  ℕ, zero, suc, Bool, true, false, ◌&&◌, Option, none, some, List, [], ◌∷◌, Result, Error, ok, err,
  value_error, not_found, app_error, ◌==◌, if◌then◌else◌, find, length,
}
use lms_backend.Base.Sets.{mem}
use lms_backend.Db.{Lesson}

abbrev pub with_id : ℕ → List Lesson → Option Lesson
with_id id lessons = find (λ l. l.id == id) lessons

-- `current_lesson_id and id == current_lesson_id`
abbrev pub is_current : Option ℕ → ℕ → Bool
is_current none id = false
is_current (some current) id = id == current

-- What one round of the loop does: it ends, or goes on at the next ancestor.
pub data Round : Type 0 where
  ended : Result (Unit {0}) → Round
  climbed : ℕ → Lesson → Round

-- The next ancestor, if the row is there.
abbrev reached : ℕ → Option Lesson → Round
reached parent none = ended (ok tt)
reached parent (some next) = climbed parent next

abbrev above : List Lesson → Option ℕ → List ℕ → Option ℕ → Round
above lessons current visited none = ended (ok tt)
above lessons current visited (some parent) =
    if is_current current parent
    then ended (err (value_error "Parent lesson creates a cycle"))
    else if mem parent visited
    then ended (ok tt)
    else reached parent (with_id parent lessons)

-- The test of the loop and its body.
unfoldable pub round : List Lesson → Option ℕ → List ℕ → Lesson → Round
round lessons current visited ancestor = above lessons current visited ancestor.parent_lesson_id

-- The loop; `none` when the fuel runs out.
unfoldable pub climb : List Lesson → Option ℕ → ℕ → List ℕ → Lesson → Option (Result (Unit {0}))
climb lessons current zero visited ancestor = none
climb lessons current (suc fuel) visited ancestor = elim (round lessons current visited ancestor) [
  | ended r ↦ some r
  | climbed id next ↦ climb lessons current fuel (id ∷ visited) next
]

-- One round for each lesson, and one for the end.
abbrev pub enough : List Lesson → ℕ
enough lessons = suc (length lessons)

-- The end of the walk. Without fuel there would be none, which is `app_error 500` here.
abbrev pub finished : Option (Result (Unit {0})) → Result (Unit {0})
finished none = err (app_error 500 "out of fuel")
finished (some r) = r

abbrev walk_from : List Lesson → ℕ → Option ℕ → Option Lesson → Result (Unit {0})
walk_from lessons course_id current none = err (not_found "Parent lesson not found")
walk_from lessons course_id current (some parent) =
    if parent.course_id == course_id
    then if is_current current parent.id
      then err (value_error "Lesson cannot be its own parent")
      else finished (climb lessons current (enough lessons) (parent.id ∷ []) parent)
    else err (value_error "Parent lesson must belong to the same course")

-- `_validate_parent_lesson`
unfoldable pub validate_parent_lesson : List Lesson → ℕ → Option ℕ → Option ℕ → Result (Unit {0})
unfolding climb
validate_parent_lesson lessons course_id none current = ok tt
validate_parent_lesson lessons course_id (some parent_id) current =
    walk_from lessons course_id current (with_id parent_id lessons)
