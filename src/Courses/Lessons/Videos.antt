-- ===== src/Courses/Lessons/Videos.antt =====
-- Only video lessons have a video, after every write to the table of lessons.
use lms_backend.Base.{ℕ, Text, ◌≡◌, Bool-cases, some, true, List, [], ◌∷◌, ok, inl, inr, All, ◌==◌}
use lms_backend.Base.Patch.{Update, unset, given, set_to, get_or}
use lms_backend.Db.{Lesson, LessonType}
use lms_backend.Courses.Lessons.{
  LessonUpdate, put_lesson, without_lesson, updated_lesson, checked_video, resolved_video,
  is_http_url,
}
use lms_backend.Courses.Lessons.Tree.{IsShown, video-cases}

-- An update that was checked leaves a lesson whose video may be shown, if it was so before.
pub update-IsShown :
    (u : LessonUpdate) (l : Lesson)
    → checked_video u.lesson_type (resolved_video u.lesson_type u.video_url) l ≡ ok tt
    → IsShown l
    → IsShown (updated_lesson u l)
unfolding updated_lesson resolved_video
update-IsShown u l h shown = by (u.lesson_type) (u.video_url) h
  where
    by :
        (type : Update LessonType) (url : Update Text)
        → checked_video type (resolved_video type url) l ≡ ok tt
        → (web : Text) → get_or (resolved_video type url) l.video_url ≡ some web
        → (set_to type l.lesson_type ≡ LessonType.video) × (is_http_url web ≡ true)
    by unset unset h = shown
    by unset (given url) h = video-cases _ _ h
    by (given type) url h = video-cases _ _ h

pub put-All :
    (l : Lesson) (lessons : List Lesson)
    → All IsShown lessons
    → IsShown l
    → All IsShown (put_lesson l lessons)
unfolding put_lesson
put-All l [] all p = tt
put-All l (m ∷ lessons) all p = elim (Bool-cases (m.id == l.id)) [
  | inl e ↦ rw e (p, put-All l lessons all.1 p)
  | inr e ↦ rw e (all.0, put-All l lessons all.1 p)
]

pub without-All :
    (id : ℕ) (lessons : List Lesson) → All IsShown lessons → All IsShown (without_lesson id lessons)
unfolding without_lesson
without-All id [] all = tt
without-All id (m ∷ lessons) all = elim (Bool-cases (m.id == id)) [
  | inl e ↦ rw e (without-All id lessons all.1)
  | inr e ↦ rw e (all.0, without-All id lessons all.1)
]
