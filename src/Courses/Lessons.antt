-- ===== src/Courses/Lessons.antt =====
-- app/modules/courses/services/lesson_service.py and the repository below it. Of a lesson, the columns that
-- the service looks at are kept; the texts that it only carries are not.
pub mod Tree
pub mod Rows
pub mod Videos
pub mod History
use lms_backend.Base.{
  ℕ, zero, suc, ◌+◌, max, Text, codes, text_eq, starts_with, Bool, true, false, ◌&&◌, ◌||◌, not,
  Option, none, some, List, [], ◌∷◌, ◌++◌, Result, ok, err, value_error, forbidden, not_found,
  integrity_error, Action, ◌>>=◌, ◌>>◌, pure, raise, lift, gets, modify, require, raise_if, leb,
  ◌==◌, if◌then◌else◌, any, keep, drop, map,
}
use lms_backend.Base.Strip.{is_empty, strip, lower}
use lms_backend.Base.Patch.{Update, unset, given, get_or, set_to}
use lms_backend.Core.Permissions.{Role, role_eq}
use lms_backend.Db.{
  User, Course, Lesson, LessonType, LessonProgress, Quiz, QuizAttempt, Tables, Session, commit,
}
use lms_backend.Enrollments.Repository.{find_course, find_lesson}
use lms_backend.Courses.Hierarchy.{validate_parent_lesson}

-- `_can_manage`, for a user who may be missing.
unfoldable pub can_manage : Course → Option User → Bool
can_manage course none = false
can_manage course (some user) =
    if role_eq user.role Role.admin
    then true
    else role_eq user.role Role.instructor && (course.instructor_id == user.id)

pub record LessonCreate : Type 0 where
  pub lesson_type : LessonType
  pub order_index : Option ℕ
  pub parent_lesson_id : Option ℕ
  pub video_url : Option Text
  pub is_preview : Bool

pub record LessonUpdate : Type 0 where
  pub title : Update Text
  pub lesson_type : Update LessonType
  pub order_index : Update ℕ
  pub parent_lesson_id : Update ℕ
  pub video_url : Update Text
  pub is_preview : Update Bool

abbrev is_alpha : ℕ → Bool
is_alpha c = (leb 65 c && leb c 90) || (leb 97 c && leb c 122)

abbrev is_scheme_code : ℕ → Bool
is_scheme_code c = is_alpha c || ((leb 48 c && leb c 57) || ((c == 43) || ((c == 45) || (c == 46))))

abbrev all_codes : (ℕ → Bool) → Text → Bool
all_codes p [] = true
all_codes p (c ∷ s) = p c && all_codes p s

-- What stands before the first of these characters, and the text from it on.
abbrev until_any : (ℕ → Bool) → Text → Text × Text
until_any stops [] = ([], [])
until_any stops (c ∷ s) =
    let (before, rest) = until_any stops s in if stops c then ([], c ∷ s) else (c ∷ before, rest)

-- The characters up to the space, of which `urlparse` drops those in front.
abbrev drop_controls : Text → Text
drop_controls [] = []
drop_controls (c ∷ s) = let rest = drop_controls s in if leb c 32 then rest else c ∷ s

-- Tabs and line ends, which `urlparse` drops everywhere.
abbrev is_dropped : ℕ → Bool
is_dropped c = (c == 9) || ((c == 10) || (c == 13))

abbrev is_scheme : Text → Bool
is_scheme [] = false
is_scheme (c ∷ s) = is_alpha c && all_codes is_scheme_code s

-- The scheme, in lower letters, and the rest behind its colon, if there is one.
abbrev split_scheme : Text → Text × Text
unfolding lower
split_scheme url =
    let (before, rest) = until_any (λ c. c == 58) url in
    if not (is_empty rest) && is_scheme before then (lower before, drop 1 rest) else ([], url)

abbrev netloc_of : Text → Text
netloc_of rest =
    if starts_with (codes "//") rest
    then (until_any (λ c. (c == 47) || ((c == 63) || (c == 35))) (drop 2 rest)).0
    else []

-- `urlparse`: the scheme and the `netloc`.
unfoldable pub urlparse : Text → Text × Text
unfolding split_scheme
urlparse url =
    let (scheme, rest) = split_scheme (keep (λ c. not (is_dropped c)) (drop_controls url)) in
    (scheme, netloc_of rest)

-- One of the two brackets without the other, for which `urlparse` raises. What stands between two brackets, and
-- characters beyond ASCII, it checks too; they are taken for good here.
unfoldable pub has_odd_brackets : Text → Bool
has_odd_brackets netloc =
    let opens = any (λ c. c == 91) netloc in
    let closes = any (λ c. c == 93) netloc in if opens then not closes else closes

-- `parsed.scheme in {"http", "https"} and parsed.netloc`
unfoldable pub is_http_url : Text → Bool
unfolding urlparse
is_http_url url =
    let (scheme, netloc) = urlparse url in
    (text_eq scheme (codes "http") || text_eq scheme (codes "https")) && not (is_empty netloc)

abbrev is_video : LessonType → Bool
is_video LessonType.video = true
is_video _ = false

-- `_validate_video_url_usage`
unfoldable pub validate_video_url_usage : LessonType → Option Text → Result (Unit {0})
unfolding is_http_url
validate_video_url_usage type none = ok tt
validate_video_url_usage type (some url) =
    if has_odd_brackets (urlparse url).1
    then err (value_error "Invalid IPv6 URL")
    else if is_http_url url
    then if is_video type
      then ok tt
      else err (value_error "video_url is only allowed for video lessons")
    else err (value_error "video_url must be a valid http/https URL")

abbrev or_null : Text → Option Text
or_null [] = none
or_null (c ∷ s) = some (c ∷ s)

-- `_normalize_video_url`
unfoldable pub normalize_video_url : Option Text → Option Text
unfolding strip
normalize_video_url none = none
normalize_video_url (some url) = or_null (strip url)

-- `get_next_order_index`
unfoldable pub last_order_index : ℕ → List Lesson → ℕ
last_order_index course_id [] = 0
last_order_index course_id (l ∷ lessons) =
    let rest = last_order_index course_id lessons in
    if l.course_id == course_id then max l.order_index rest else rest

abbrev or_next : Option ℕ → ℕ → ℕ
or_next none next = next
or_next (some zero) next = next
or_next (some (suc n)) next = suc n

-- Another row has the place, by the constraint `uq_lessons_course_order`.
unfoldable pub takes_place : Lesson → Lesson → Bool
takes_place l other =
    not (other.id == l.id)
    && ((other.course_id == l.course_id) && (other.order_index == l.order_index))

unfoldable pub insert_lesson : Lesson → Action Session Lesson
unfolding takes_place
insert_lesson l = do
  t ← gets (λ s. s.tables)
  raise_if (any (takes_place l) t.lessons) integrity_error
  modify (λ s. record s { tables = record s.tables { lessons = s.tables.lessons ++ l ∷ [] } })
  pure l

unfoldable pub put_lesson : Lesson → List Lesson → List Lesson
put_lesson l [] = []
put_lesson l (other ∷ lessons) =
    let rest = put_lesson l lessons in if other.id == l.id then l ∷ rest else other ∷ rest

unfoldable pub store_lesson : Lesson → Action Session Lesson
unfolding takes_place put_lesson
store_lesson l = do
  t ← gets (λ s. s.tables)
  raise_if (any (takes_place l) t.lessons) integrity_error
  modify (λ s. record s { tables = record s.tables { lessons = put_lesson l s.tables.lessons } })
  pure l

-- `create_lesson`
unfoldable pub create_lesson : ℕ → ℕ → LessonCreate → User → Action Session Lesson
create_lesson id course_id payload user = do
  t ← gets (λ s. s.tables)
  course ← require (find_course course_id t) (not_found "Course not found")
  raise_if (not (can_manage course (some user)))
      (forbidden "Not authorized to manage lessons for this course")
  lift (validate_parent_lesson t.lessons course.id payload.parent_lesson_id none)
  let video_url = normalize_video_url payload.video_url
  lift (validate_video_url_usage payload.lesson_type video_url)
  l ← insert_lesson (record {
    id = id;
    course_id = course_id;
    lesson_type = payload.lesson_type;
    order_index = or_next payload.order_index (last_order_index course_id t.lessons + 1);
    parent_lesson_id = payload.parent_lesson_id;
    video_url = video_url;
    is_preview = payload.is_preview;
  })
  commit
  pure l

abbrev is_null : {A : Type 0} → Update A → Bool
is_null unset = false
is_null (given none) = true
is_null (given (some a)) = false

-- `_validate_nullable_updates`. The source looks at the fields in no fixed order, and the message names the
-- first that is null, which this one does not.
unfoldable pub validate_nullable_updates : LessonUpdate → Result (Unit {0})
validate_nullable_updates u =
    if is_null u.title || (is_null u.lesson_type || (is_null u.order_index || is_null u.is_preview))
    then err (value_error "field cannot be null")
    else ok tt

-- The video of the update: normalized, or cleared where the lesson stops being a video.
unfoldable pub resolved_video : Update LessonType → Update Text → Update Text
resolved_video type (given url) = given (normalize_video_url url)
resolved_video (given (some type)) unset = if is_video type then unset else given none
resolved_video (given none) unset = given none
resolved_video unset unset = unset

abbrev checked_parent : List Lesson → Lesson → ℕ → Update ℕ → Result (Unit {0})
checked_parent lessons l course_id unset = ok tt
checked_parent lessons l course_id (given parent) =
    validate_parent_lesson lessons course_id parent (some l.id)

abbrev touches_video : Update LessonType → Update Text → Bool
touches_video unset unset = false
touches_video (given t) url = true
touches_video unset (given url) = true

abbrev pub checked_video : Update LessonType → Update Text → Lesson → Result (Unit {0})
checked_video type url l =
    if touches_video type url
    then validate_video_url_usage (set_to type l.lesson_type) (get_or url l.video_url)
    else ok tt

-- The row that the update writes.
unfoldable pub updated_lesson : LessonUpdate → Lesson → Lesson
updated_lesson u l = record l {
  lesson_type = set_to u.lesson_type l.lesson_type;
  order_index = set_to u.order_index l.order_index;
  parent_lesson_id = get_or u.parent_lesson_id l.parent_lesson_id;
  video_url = get_or (resolved_video u.lesson_type u.video_url) l.video_url;
  is_preview = set_to u.is_preview l.is_preview;
}

-- `update_lesson`
unfoldable pub update_lesson : ℕ → LessonUpdate → User → Action Session Lesson
update_lesson lesson_id u user = do
  t ← gets (λ s. s.tables)
  l ← require (find_lesson lesson_id t) (not_found "Lesson not found")
  course ← require (find_course l.course_id t) (not_found "Course not found")
  raise_if (not (can_manage course (some user)))
      (forbidden "Not authorized to manage lessons for this course")
  lift (validate_nullable_updates u)
  lift (checked_parent t.lessons l course.id u.parent_lesson_id)
  lift (checked_video u.lesson_type (resolved_video u.lesson_type u.video_url) l)
  row ← store_lesson (updated_lesson u l)
  commit
  pure row

-- `children` of a deleted lesson lose their parent.
unfoldable pub without_lesson : ℕ → List Lesson → List Lesson
without_lesson id [] = []
without_lesson id (l ∷ lessons) =
    let rest = without_lesson id lessons in
    if l.id == id
    then rest
    else record l {
      parent_lesson_id = elim l.parent_lesson_id [
        | none ↦ none
        | some p ↦ if p == id then none else some p
      ];
    }
      ∷ rest

abbrev of_lesson : ℕ → Quiz → Bool
of_lesson id q = q.lesson_id == id

-- With the lesson go its progress rows, its quiz and the attempts at it.
unfoldable pub delete_rows : ℕ → Tables → Tables
unfolding without_lesson
delete_rows id t =
    let gone = keep (of_lesson id) t.quizzes in
    record t {
      lessons = without_lesson id t.lessons;
      lesson_progress = keep (λ (p : LessonProgress). not (p.lesson_id == id)) t.lesson_progress;
      quizzes = keep (λ q. not (of_lesson id q)) t.quizzes;
      attempts = keep (λ (a : QuizAttempt). not (any (λ q. q.id == a.quiz_id) gone)) t.attempts;
    }

-- `delete_lesson`
unfoldable pub delete_lesson : ℕ → User → Action Session (Unit {0})
unfolding delete_rows
delete_lesson lesson_id user = do
  t ← gets (λ s. s.tables)
  l ← require (find_lesson lesson_id t) (not_found "Lesson not found")
  course ← require (find_course l.course_id t) (not_found "Course not found")
  raise_if (not (can_manage course (some user)))
      (forbidden "Not authorized to manage lessons for this course")
  modify (λ s. record s { tables = delete_rows lesson_id s.tables })
  commit

-- `get_lesson`
pub get_lesson : ℕ → Option User → Action Session Lesson
get_lesson lesson_id user = do
  t ← gets (λ s. s.tables)
  l ← require (find_lesson lesson_id t) (not_found "Lesson not found")
  course ← require (find_course l.course_id t) (not_found "Course not found")
  raise_if (not (can_manage course user) && not course.is_published)
      (forbidden "Not authorized to view this lesson")
  pure l

place : Lesson → List Lesson → List Lesson
place l [] = l ∷ []
place l (m ∷ rows) = if leb l.order_index m.order_index then l ∷ m ∷ rows else m ∷ place l rows

-- `list_by_course`, `ORDER BY order_index ASC`.
pub list_by_course : ℕ → List Lesson → List Lesson
unfolding place
list_by_course course_id [] = []
list_by_course course_id (l ∷ lessons) =
    let rest = list_by_course course_id lessons in
    if l.course_id == course_id then place l rest else rest

-- `list_lessons`
pub list_lessons : ℕ → Option User → Action Session (List Lesson)
list_lessons course_id user = do
  t ← gets (λ s. s.tables)
  course ← require (find_course course_id t) (not_found "Course not found")
  raise_if (not course.is_published && not (can_manage course user))
      (forbidden "Not authorized to view lessons for this course")
  let lessons = list_by_course course_id t.lessons
  if can_manage course user
      then pure lessons
      else pure (keep (λ l. l.is_preview || course.is_published) lessons)
