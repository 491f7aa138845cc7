-- ===== src/Courses/Lessons/Tree.antt =====
-- What each operation does to the table of lessons.
use lms_backend.Base.{
  ℕ, Text, Option, true, ◌≡◌, ◌⊎◌, none, some, ◌∷◌, [], ◌++◌, ok, arith, inl, inr, Option-cases,
  Result-cases,
}
use lms_backend.Db.{User, Lesson, LessonType, Session, commit}
use lms_backend.Enrollments.Repository.{find_course, find_lesson}
use lms_backend.Courses.Hierarchy.{validate_parent_lesson}
use lms_backend.Courses.Lessons.{
  LessonCreate, LessonUpdate, create_lesson, update_lesson, delete_lesson, insert_lesson,
  store_lesson, delete_rows, put_lesson, without_lesson, updated_lesson, checked_parent,
  checked_video, resolved_video, validate_video_url_usage, is_http_url, normalize_video_url,
}

-- The lesson has no video, or is a video lesson and has a web address as its video.
abbrev pub IsShown : Lesson → Type 0
IsShown l =
    (url : Text)
    → l.video_url ≡ some url
    → (l.lesson_type ≡ LessonType.video) × (is_http_url url ≡ true)

pub video-cases :
    (type : LessonType) (video : Option Text)
    → validate_video_url_usage type video ≡ ok tt
    → (url : Text) → video ≡ some url
    → (type ≡ LessonType.video) × (is_http_url url ≡ true)
unfolding validate_video_url_usage
video-cases type none h url e = cc
video-cases type (some u) h url e = ground arith

-- Nothing is left to commit.
abbrev pub IsSaved : Session → Type 0
IsSaved s = s.committed ≡ s.tables

abbrev pub IsStored : ℕ → LessonUpdate → Session → Session → Type 0
IsStored id u s t =
    (l : Lesson) × (course_id : ℕ) × (find_lesson id s.tables ≡ some l)
    × (checked_parent s.tables.lessons l course_id u.parent_lesson_id ≡ ok tt)
    × (checked_video u.lesson_type (resolved_video u.lesson_type u.video_url) l ≡ ok tt)
    × (t.tables.lessons ≡ put_lesson (updated_lesson u l) s.tables.lessons)

pub update_lesson-IsStored :
    (id : ℕ) (u : LessonUpdate) (user : User) (s : Session)
    → IsSaved s
    → let t = (update_lesson id u user s).1 in
      IsSaved t × ((t.tables.lessons ≡ s.tables.lessons) ⊎ IsStored id u s t)
unfolding update_lesson store_lesson commit
update_lesson-IsStored id u user s saved = elim (Option-cases (find_lesson id s.tables)) [
  | inl n ↦ ground arith
  | inr (l, f) ↦ elim (Option-cases (find_course l.course_id s.tables)) [
    | inl n ↦ ground arith
    | inr (course, g) ↦
        elim (Result-cases (checked_parent s.tables.lessons l course.id u.parent_lesson_id)) [
          | inr (c, e) ↦ ground arith
          | inl (done, e) ↦
              elim (Result-cases
                (checked_video u.lesson_type (resolved_video u.lesson_type u.video_url) l)) [
                  | inr (c, v) ↦ ground arith
                  | inl (shown, v) ↦ elim (Result-cases (update_lesson id u user s).0) [
                    | inl (row, h) ↦ (ground arith, inr (l, course.id, f, e, v, ground arith))
                    | inr (c, h) ↦ (ground arith, inl (ground arith))
                  ]
                ]
        ]
  ]
]

abbrev pub IsAdded : ℕ → Session → Session → Type 0
IsAdded id s t =
    (l : Lesson) × (course_id : ℕ) × (l.id ≡ id)
    × (validate_parent_lesson s.tables.lessons course_id l.parent_lesson_id none ≡ ok tt)
    × IsShown l
    × (t.tables.lessons ≡ s.tables.lessons ++ l ∷ [])

pub create_lesson-IsAdded :
    (id course_id : ℕ) (p : LessonCreate) (user : User) (s : Session)
    → IsSaved s
    → let t = (create_lesson id course_id p user s).1 in
      IsSaved t × ((t.tables.lessons ≡ s.tables.lessons) ⊎ IsAdded id s t)
unfolding create_lesson insert_lesson commit
create_lesson-IsAdded id course_id p user s saved =
    elim (Option-cases (find_course course_id s.tables)) [
      | inl n ↦ ground arith
      | inr (course, g) ↦
          elim (Result-cases
            (validate_parent_lesson s.tables.lessons course.id p.parent_lesson_id none)) [
              | inr (c, e) ↦ ground arith
              | inl (done, e) ↦
                  elim (Result-cases
                    (validate_video_url_usage p.lesson_type (normalize_video_url p.video_url))) [
                      | inr (c, v) ↦ ground arith
                      | inl (shown, v) ↦
                          elim (Result-cases (create_lesson id course_id p user s).0) [
                            | inr (c, h) ↦ (ground arith, inl (ground arith))
                            | inl (row, h) ↦ (
                              ground arith,
                              inr (
                                row,
                                course.id,
                                ground arith,
                                ground arith,
                                video-cases row.lesson_type row.video_url (ground arith),
                                ground arith,
                              ),
                            )
                          ]
                    ]
            ]
    ]

pub delete_lesson-effect :
    (id : ℕ) (user : User) (s : Session)
    → IsSaved s
    → let t = (delete_lesson id user s).1 in
      IsSaved t
      × ((t.tables.lessons ≡ s.tables.lessons)
          ⊎ (t.tables.lessons ≡ without_lesson id s.tables.lessons))
unfolding delete_lesson delete_rows commit
delete_lesson-effect id user s saved = ground arith
