-- ===== src/Courses/Catalog.antt =====
-- `CourseService` of app/modules/courses/services/course_service.py and its repository, but for the list of
-- courses. Courses are kept here with all their columns.
pub mod Slugs
pub mod Published
mod Tests
use lms_backend.Base.{
  ℕ, Text, codes, text_eq, Bool, true, false, ◌&&◌, not, Option, none, some, List, [], ◌∷◌, ◌++◌,
  ok, err, Error, value_error, forbidden, not_found, integrity_error, Action, ◌>>=◌, ◌>>◌, pure,
  gets, modify, require, raise_if, ◌==◌, find, any, keep, if◌then◌else◌,
}
use lms_backend.Base.Patch.{Update, unset, given, get_or, set_to}
use lms_backend.Core.Permissions.{Role, role_eq}
use lms_backend.Db.{User}
use lms_backend.Utils.Slugs.{slugify}
use lms_backend.Courses.Rows.{
  Details, CatalogCourse, Instructor, CourseCreate, CourseUpdate, Catalog,
}

-- `_commit`
unfoldable pub commit : Action Catalog (Unit {0})
commit s = elim s.commit_error [
  | none ↦ (ok tt, record s { committed = s.courses })
  | some e ↦ (err e, record s { courses = s.committed })
]

-- `get_by_id`, `get_by_slug`
unfoldable pub get_by_id : ℕ → Catalog → Option CatalogCourse
get_by_id id s = find (λ c. c.id == id) s.courses

unfoldable pub get_by_slug : Text → Catalog → Option CatalogCourse
get_by_slug slug s = find (λ c. text_eq c.slug slug) s.courses

-- `_can_manage_course`, for a user who may be missing.
unfoldable pub can_manage_course : CatalogCourse → Option User → Bool
can_manage_course course none = false
can_manage_course course (some user) =
    if role_eq user.role Role.admin
    then true
    else role_eq user.role Role.instructor && (course.instructor_id == user.id)

-- `_ensure_manage_access`
unfoldable pub ensure_manage_access : CatalogCourse → User → Action Catalog (Unit {0})
ensure_manage_access course user =
    raise_if (not (can_manage_course course (some user)))
      (forbidden "Not authorized to manage this course")

unfoldable pub readable : CatalogCourse → Option User → Action Catalog CatalogCourse
readable course user = do
  raise_if (not course.is_published && not (can_manage_course course user))
      (forbidden "Not authorized to access this course")
  pure course

-- `get_course`
unfoldable pub get_course : ℕ → Option User → Action Catalog CatalogCourse
get_course course_id user = do
  s ← gets (λ s. s)
  course ← require (get_by_id course_id s) (not_found "Course not found")
  readable course user

-- `get_course_by_slug`, which loads the course again when its lessons are asked for.
unfoldable pub get_course_by_slug : Text → Option User → Bool → Action Catalog CatalogCourse
get_course_by_slug slug user with_lessons = do
  s ← gets (λ s. s)
  course ← require (get_by_slug slug s) (not_found "Course not found")
  loaded ←
      require (if with_lessons then get_by_id course.id s else some course)
        (not_found "Course not found")
  readable loaded user

-- `payload.slug or slugify(payload.title)`
unfoldable pub chosen_slug : Option Text → Text → Text
chosen_slug none title = slugify title
chosen_slug (some []) title = slugify title
chosen_slug (some (c ∷ slug)) title = c ∷ slug

unfoldable pub has_slug : Text → CatalogCourse → Bool
has_slug slug c = text_eq c.slug slug

-- `create` of the repository: the flush meets the unique constraint on `slug`.
unfoldable pub insert_course : CatalogCourse → Action Catalog CatalogCourse
insert_course row = do
  courses ← gets (λ s. s.courses)
  raise_if (any (has_slug row.slug) courses) integrity_error
  modify (λ s. record s { courses = s.courses ++ row ∷ [] })
  pure row

unfoldable pub new_course : ℕ → CourseCreate → ℕ → CatalogCourse
new_course id payload instructor_id = record {
  id = id;
  title = payload.title;
  slug = chosen_slug payload.slug payload.title;
  instructor_id = instructor_id;
  is_published = false;
  details = payload.details;
}

-- `create_course`
unfoldable pub create_course : ℕ → CourseCreate → User → Action Catalog CatalogCourse
create_course id payload user = do
  raise_if (role_eq user.role Role.student)
      (forbidden "Only instructors or admins can create courses")
  s ← gets (λ s. s)
  elim (get_by_slug (chosen_slug payload.slug payload.title) s) [
    | some other ↦ λ s. (err (value_error "Course slug already exists"), s)
    | none ↦ do row ← insert_course (new_course id payload user.id); commit; pure row
  ]

abbrev pub is_null : {A : Type 0} → Update A → Bool
is_null unset = false
is_null (given none) = true
is_null (given (some v)) = false

-- `_validate_nullable_updates`, which may come to either field first.
unfoldable pub validate_nullable_updates : CourseUpdate → Action Catalog (Unit {0})
validate_nullable_updates u = do
  raise_if (is_null u.title) (value_error "'title' cannot be null")
  raise_if (is_null u.is_published) (value_error "'is_published' cannot be null")

unfoldable pub updated_details : CourseUpdate → Details → Details
updated_details u d = record {
  description = get_or u.description d.description;
  category = get_or u.category d.category;
  difficulty_level = get_or u.difficulty_level d.difficulty_level;
  thumbnail_url = get_or u.thumbnail_url d.thumbnail_url;
  estimated_duration_minutes = get_or u.estimated_duration_minutes d.estimated_duration_minutes;
  course_metadata = get_or u.metadata d.course_metadata;
  price = get_or u.price d.price;
  currency = get_or u.currency d.currency;
  is_free = get_or u.is_free d.is_free;
  long_description = get_or u.long_description d.long_description;
  preview_video_url = get_or u.preview_video_url d.preview_video_url;
  requirements = get_or u.requirements d.requirements;
  learning_objectives = get_or u.learning_objectives d.learning_objectives;
  total_reviews = get_or u.total_reviews d.total_reviews;
  total_quizzes = get_or u.total_quizzes d.total_quizzes;
  enrollment_count = get_or u.enrollment_count d.enrollment_count;
  average_rating = get_or u.average_rating d.average_rating;
  status = get_or u.status d.status;
}

unfoldable pub updated_course : CourseUpdate → CatalogCourse → CatalogCourse
updated_course u c = record c {
  title = set_to u.title c.title;
  is_published = set_to u.is_published c.is_published;
  details = updated_details u c.details;
}

abbrev pub put_course : CatalogCourse → List CatalogCourse → List CatalogCourse
put_course row [] = []
put_course row (c ∷ courses) =
    let rest = put_course row courses in if c.id == row.id then row ∷ courses else c ∷ rest

-- `update` of the repository, for the loaded course.
unfoldable pub store_course : CatalogCourse → Action Catalog CatalogCourse
store_course row = do modify (λ s. record s { courses = put_course row s.courses }); pure row

-- A course that the user manages.
unfoldable pub managed_course : ℕ → User → Action Catalog CatalogCourse
managed_course course_id user = do
  s ← gets (λ s. s)
  course ← require (get_by_id course_id s) (not_found "Course not found")
  ensure_manage_access course user
  pure course

-- `update_course`
unfoldable pub update_course : ℕ → CourseUpdate → User → Action Catalog CatalogCourse
update_course course_id u user = do
  course ← managed_course course_id user
  validate_nullable_updates u
  row ← store_course (updated_course u course)
  commit
  pure row

-- `_ensure_instructor_can_publish`
unfoldable pub is_verified : ℕ → List Instructor → Bool
is_verified user_id instructors = elim (find (λ i. i.user_id == user_id) instructors) [
  | none ↦ false
  | some i ↦ i.is_verified
]

unfoldable pub ensure_instructor_can_publish : User → Action Catalog (Unit {0})
ensure_instructor_can_publish user = do
  instructors ← gets (λ s. s.instructors)
  raise_if (role_eq user.role Role.instructor && not (is_verified user.id instructors))
      (forbidden "Instructor verification is required before publishing courses")

-- `publish_course`
unfoldable pub publish_course : ℕ → User → Action Catalog CatalogCourse
publish_course course_id user = do
  course ← managed_course course_id user
  ensure_instructor_can_publish user
  row ← store_course (record course { is_published = true })
  commit
  modify (λ s. record s { announced = s.announced ++ row.id ∷ [] })
  pure row

-- `delete_course`
unfoldable pub delete_course : ℕ → User → Action Catalog (Unit {0})
delete_course course_id user = do
  course ← managed_course course_id user
  modify
      (λ s. record s { courses = keep (λ (c : CatalogCourse). not (c.id == course.id)) s.courses })
  commit
