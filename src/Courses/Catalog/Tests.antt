-- ===== src/Courses/Catalog/Tests.antt =====
-- A course of an instructor who is not verified, and the theorems on courses at this data.
use lms_backend.Base.{
  ◌≡◌, refl, codes, true, false, Option, none, some, List, [], ◌∷◌, ◌++◌, ok, err, forbidden, Error,
}
use lms_backend.Base.Patch.{unset, given}
use lms_backend.Core.Permissions.{Role}
use lms_backend.Db.{User}
use lms_backend.Courses.Rows.{Details, CatalogCourse, CourseCreate, CourseUpdate, Catalog}
use lms_backend.Courses.Catalog.{
  commit, get_by_id, can_manage_course, ensure_manage_access, managed_course, store_course,
  is_verified, ensure_instructor_can_publish, publish_course, update_course, put_course,
}
use lms_backend.Courses.Catalog.Slugs.{Call, perform_all, HasSlugs, perform_all-HasSlugs}
use lms_backend.Courses.Catalog.Published.{
  MayPublish, publish_course-MayPublish, update_course_publishes,
}

abbrev bare : Details
bare = record {
  description = none;
  category = none;
  difficulty_level = none;
  thumbnail_url = none;
  estimated_duration_minutes = none;
  course_metadata = none;
  price = none;
  currency = none;
  is_free = none;
  long_description = none;
  preview_video_url = none;
  requirements = none;
  learning_objectives = none;
  total_reviews = none;
  total_quizzes = none;
  enrollment_count = none;
  average_rating = none;
  status = none;
}

abbrev algebra : CatalogCourse
algebra = record {
  id = 1;
  title = codes "Algebra";
  slug = codes "algebra";
  instructor_id = 9;
  is_published = false;
  details = bare;
}

abbrev teacher : User
teacher = record { id = 9; role = Role.instructor }

abbrev admin_user : User
admin_user = record { id = 3; role = Role.admin }

abbrev catalog : Catalog
catalog = record {
  courses = algebra ∷ [];
  committed = algebra ∷ [];
  instructors = record { user_id = 9; is_verified = false } ∷ [];
  commit_error = none;
  announced = [];
}

abbrev publish_it : CourseUpdate
publish_it = record {
  title = unset;
  description = unset;
  category = unset;
  difficulty_level = unset;
  thumbnail_url = unset;
  estimated_duration_minutes = unset;
  is_published = given (some true);
  metadata = unset;
  price = unset;
  currency = unset;
  is_free = unset;
  long_description = unset;
  preview_video_url = unset;
  requirements = unset;
  learning_objectives = unset;
  total_reviews = unset;
  total_quizzes = unset;
  enrollment_count = unset;
  average_rating = unset;
  status = unset;
}

abbrev second_algebra : CourseCreate
second_algebra = record { title = codes "Algebra"; slug = none; details = bare }

-- A second course of that title, the publication, and the removal.
abbrev calls : List (Call × User × Option Error)
calls =
    (Call.create 2 second_algebra, teacher, none)
    ∷ (Call.update 1 publish_it, teacher, none)
    ∷ (Call.delete 1, teacher, none)
    ∷ []

perform_all-HasSlugs_example : HasSlugs (perform_all calls catalog)
perform_all-HasSlugs_example = perform_all-HasSlugs calls catalog ((refl, tt), (refl, tt))

publish_course-MayPublish_example :
    let t = (publish_course 1 admin_user catalog).1 in
    (c : CatalogCourse) × (get_by_id 1 catalog ≡ some c)
    × MayPublish admin_user catalog c
    × (record algebra { is_published = true } ≡ record c { is_published = true })
    × (t.committed ≡ put_course (record algebra { is_published = true }) catalog.courses)
    × (t.announced ≡ catalog.announced ++ c.id ∷ [])
unfolding publish_course managed_course ensure_manage_access can_manage_course get_by_id
    ensure_instructor_can_publish store_course commit
publish_course-MayPublish_example = publish_course-MayPublish 1 admin_user catalog refl

update_course_publishes_example :
    ((publish_course 1 teacher catalog).0
      ≡ err (forbidden "Instructor verification is required before publishing courses"))
    × ((row : CatalogCourse) × ((update_course 1 publish_it teacher catalog).0 ≡ ok row)
        × (row.is_published ≡ true)
        × ((update_course 1 publish_it teacher catalog).1.committed
            ≡ put_course row catalog.courses))
unfolding get_by_id is_verified
update_course_publishes_example =
    update_course_publishes 1 publish_it teacher catalog algebra refl refl refl refl refl refl refl
