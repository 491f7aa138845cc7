-- ===== src/Courses/Catalog/Published.antt =====
-- Who can publish a course, and the way around the check.
use lms_backend.Base.{
  ℕ, ◌≡◌, ◌⊎◌, true, false, ◌&&◌, not, none, some, [], ◌∷◌, ◌++◌, ok, err, forbidden, arith, inl,
  inr, ==_iff, Bool-cases, Option-cases,
}
use lms_backend.Base.Patch.{unset, given}
use lms_backend.Core.Permissions.{Role, role_eq}
use lms_backend.Db.{User}
use lms_backend.Courses.Rows.{CatalogCourse, CourseUpdate, Catalog}
use lms_backend.Courses.Catalog.{
  commit, managed_course, ensure_manage_access, get_by_id, store_course, can_manage_course,
  is_verified, ensure_instructor_can_publish, publish_course, validate_nullable_updates,
  updated_course, update_course, put_course,
}
use lms_backend.Courses.Catalog.Slugs.{managed_course-cases}

-- An administrator, or the instructor of the course, who is verified.
abbrev pub MayPublish : User → Catalog → CatalogCourse → Type 0
MayPublish user s c =
    (user.role ≡ Role.admin)
    ⊎ ((user.role ≡ Role.instructor)
        × (c.instructor_id ≡ user.id)
        × (is_verified user.id s.instructors ≡ true))

may_publish :
    (user : User) (s : Catalog) (c : CatalogCourse)
    → can_manage_course c (some user) ≡ true
    → (role_eq user.role Role.instructor && not (is_verified user.id s.instructors)) ≡ false
    → MayPublish user s c
unfolding can_manage_course
may_publish user s c m v = ground (arith, ==_iff c.instructor_id user.id)

-- When `publish_course` returns, the user is an administrator or the verified instructor of the course, the course
-- is committed as published with its other columns as they were, and the webhooks are told.
pub publish_course-MayPublish :
    (id : ℕ) (user : User) (s : Catalog) {row : CatalogCourse}
    → (publish_course id user s).0 ≡ ok row
    → let t = (publish_course id user s).1 in
      (c : CatalogCourse) × (get_by_id id s ≡ some c)
      × MayPublish user s c
      × (row ≡ record c { is_published = true })
      × (t.committed ≡ put_course row s.courses)
      × (t.announced ≡ s.announced ++ c.id ∷ [])
unfolding publish_course store_course ensure_instructor_can_publish commit
publish_course-MayPublish id user s {row} h = elim (managed_course-cases id user s) [
  | inl (e, q) ↦ absurd (ground arith)
  | inr (c, q, f, m) ↦
      elim (Bool-cases
        (role_eq user.role Role.instructor && not (is_verified user.id s.instructors))) [
          | inl v ↦ absurd (ground arith)
          | inr v ↦ elim (Option-cases s.commit_error) [
            | inr (e, k) ↦ absurd (ground arith)
            | inl k ↦
                let same : record c { is_published = true } ≡ row = ground arith in
                (c, f, may_publish user s c m v, ground arith, ground arith, ground arith)
          ]
        ]
]

owned :
    (id : ℕ) (user : User) (s : Catalog) (c : CatalogCourse)
    → user.role ≡ Role.instructor
    → get_by_id id s ≡ some c
    → c.instructor_id ≡ user.id
    → managed_course id user s ≡ (ok c, s)
unfolding managed_course ensure_manage_access can_manage_course
owned id user s c r f o = ground (arith, ==_iff c.instructor_id user.id)

-- An instructor who is not verified cannot publish a course by `publish_course`, but can by `update_course`.
pub update_course_publishes :
    (id : ℕ) (u : CourseUpdate) (user : User) (s : Catalog) (c : CatalogCourse)
    → user.role ≡ Role.instructor
    → is_verified user.id s.instructors ≡ false
    → get_by_id id s ≡ some c
    → c.instructor_id ≡ user.id
    → u.title ≡ unset
    → u.is_published ≡ given (some true)
    → s.commit_error ≡ none
    → ((publish_course id user s).0
        ≡ err (forbidden "Instructor verification is required before publishing courses"))
      × ((row : CatalogCourse) × ((update_course id u user s).0 ≡ ok row)
          × (row.is_published ≡ true)
          × ((update_course id u user s).1.committed ≡ put_course row s.courses))
unfolding publish_course ensure_instructor_can_publish update_course validate_nullable_updates
    updated_course store_course commit
update_course_publishes id u user s c r v f o t p k =
    let q = owned id user s c r f o in
    (ground arith, (updated_course u c, ground arith, ground arith, ground arith))
