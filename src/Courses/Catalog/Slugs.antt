-- ===== src/Courses/Catalog/Slugs.antt =====
-- Slugs of courses stay distinct, whatever calls are made.
use lms_backend.Base.{
  ℕ, ◌≡◌, refl, sym, Text, text_eq, text_eq_iff, Bool, true, false, ◌&&◌, not, Option, none, some,
  List, [], ◌∷◌, ◌++◌, map, ok, err, Error, ◌⊎◌, value_error, not_found, forbidden, arith, inl, inr,
  find, find_passes, any, keep, ◌==◌, ==_iff, Option-cases, Result-cases, Bool-cases,
}
use mathlib.Core.Path.{subst}
use lms_backend.Base.Changes.{IsDistinct, append-IsDistinct, map-last}
use lms_backend.Core.Permissions.{Role, role_eq}
use lms_backend.Db.{User}
use lms_backend.Courses.Rows.{CatalogCourse, CourseCreate, CourseUpdate, Catalog}
use lms_backend.Courses.Catalog.{
  commit, get_by_id, get_by_slug, has_slug, chosen_slug, new_course, insert_course, create_course,
  updated_course, put_course, store_course, managed_course, ensure_manage_access, is_null,
  is_verified, can_manage_course, validate_nullable_updates, update_course,
  ensure_instructor_can_publish, publish_course, delete_course,
}

pub data Call : Type 0 where
  create : ℕ → CourseCreate → Call
  update : ℕ → CourseUpdate → Call
  publish delete : ℕ → Call

unfoldable pub perform : Call → User → Catalog → Catalog
perform (create id payload) user s = (create_course id payload user s).1
perform (update id u) user s = (update_course id u user s).1
perform (publish id) user s = (publish_course id user s).1
perform (delete id) user s = (delete_course id user s).1

-- Calls one after another, each by a user and with what the database answers to its commit.
unfoldable pub perform_all : List (Call × User × Option Error) → Catalog → Catalog
perform_all [] s = s
perform_all ((call, user, answer) ∷ calls) s =
    perform_all calls (perform call user (record s { commit_error = answer }))

abbrev pub slugs : List CatalogCourse → List Text
slugs courses = map (λ (c : CatalogCourse). c.slug) courses

-- No two courses have one slug, as the session sees them and as they are committed.
abbrev pub HasSlugs : Catalog → Type 0
HasSlugs s = IsDistinct (slugs s.courses) × IsDistinct (slugs s.committed)

commit-HasSlugs : (s : Catalog) → HasSlugs s → HasSlugs (commit s).1
unfolding commit
commit-HasSlugs s h = elim (Option-cases s.commit_error) [
  | inl n ↦ rw n (h.0, h.0)
  | inr (e, c) ↦ rw c (h.1, h.1)
]

any-absent :
    (slug : Text) (courses : List CatalogCourse)
    → find (λ c. text_eq c.slug slug) courses ≡ none
    → (any (has_slug slug) courses ≡ false) × (any (text_eq slug) (slugs courses) ≡ false)
unfolding has_slug
any-absent slug [] h = (refl, refl)
any-absent slug (c ∷ courses) h =
    ground (arith, any-absent slug courses, text_eq_iff c.slug slug, text_eq_iff slug c.slug)

-- A course that is changed keeps its slug.
slugs-put_course :
    (row : CatalogCourse) (courses : List CatalogCourse) {old : CatalogCourse}
    → find (λ c. c.id == row.id) courses ≡ some old
    → row.slug ≡ old.slug
    → slugs (put_course row courses) ≡ slugs courses
slugs-put_course row [] f e = refl
slugs-put_course row (c ∷ courses) {old} f e = elim (Bool-cases (c.id == row.id)) [
  | inl y ↦ ground arith
  | inr n ↦ ground (arith, slugs-put_course row courses {old = old} (ground arith) e)
]

any-keep_slug :
    (t : Text) (p : CatalogCourse → Bool) (courses : List CatalogCourse)
    → any (text_eq t) (slugs courses) ≡ false
    → any (text_eq t) (slugs (keep p courses)) ≡ false
any-keep_slug t p [] h = refl
any-keep_slug t p (c ∷ courses) h = ground (arith, any-keep_slug t p courses)

keep-IsDistinct :
    (p : CatalogCourse → Bool) (courses : List CatalogCourse)
    → IsDistinct (slugs courses)
    → IsDistinct (slugs (keep p courses))
keep-IsDistinct p [] h = tt
keep-IsDistinct p (c ∷ courses) h = elim (Bool-cases (p c)) [
  | inl y ↦ rw y (any-keep_slug c.slug p courses h.0, keep-IsDistinct p courses h.1)
  | inr n ↦ rw n (keep-IsDistinct p courses h.1)
]

moved : (t s : Catalog) → t ≡ s → HasSlugs s → HasSlugs t
moved t s e h = subst HasSlugs (sym e) h

create-HasSlugs :
    (id : ℕ) (p : CourseCreate) (user : User) (s : Catalog)
    → HasSlugs s
    → HasSlugs (create_course id p user s).1
unfolding create_course insert_course get_by_slug new_course
create-HasSlugs id p user s h =
    let t = (create_course id p user s).1 in
    let row = new_course id p user.id in
    let slug = chosen_slug p.slug p.title in
    let w : Catalog = record s { courses = s.courses ++ row ∷ [] } in
    elim (Bool-cases (role_eq user.role Role.student)) [
      | inl y ↦ moved t s (ground arith) h
      | inr n ↦ elim (Option-cases (find (λ c. text_eq c.slug slug) s.courses)) [
        | inr (c, f) ↦ moved t s (ground arith) h
        | inl f ↦
            let (free, apart) = any-absent slug s.courses f in
            let next = commit-HasSlugs w (
              subst IsDistinct (sym (map-last (λ (c : CatalogCourse). c.slug) s.courses row))
                  (append-IsDistinct (slugs s.courses) slug h.0 apart),
              h.1,
            ) in
            elim (Result-cases (commit w).0) [
              | inl (done, q) ↦ moved t (commit w).1 (ground arith) next
              | inr (e, q) ↦ moved t (commit w).1 (ground arith) next
            ]
      ]
    ]

pub managed_course-cases :
    (id : ℕ) (user : User) (s : Catalog)
    → ((e : Error) × (managed_course id user s ≡ (err e, s)))
      ⊎ ((c : CatalogCourse) × (managed_course id user s ≡ (ok c, s))
          × (get_by_id id s ≡ some c)
          × (can_manage_course c (some user) ≡ true))
unfolding managed_course ensure_manage_access
managed_course-cases id user s = elim (Option-cases (get_by_id id s)) [
  | inl n ↦ inl (not_found "Course not found", ground arith)
  | inr (c, f) ↦ elim (Bool-cases (can_manage_course c (some user))) [
    | inl m ↦ inr (c, ground arith, f, m)
    | inr m ↦ inl (forbidden "Not authorized to manage this course", ground arith)
  ]
]

-- The end of a call that writes one course of those there are.
put_commit-HasSlugs :
    (id : ℕ) (row old : CatalogCourse) (s : Catalog)
    → HasSlugs s
    → get_by_id id s ≡ some old
    → row.id ≡ old.id
    → row.slug ≡ old.slug
    → HasSlugs (commit (record s { courses = put_course row s.courses })).1
unfolding get_by_id
put_commit-HasSlugs id row old s h f i e =
    let at_id : id ≡ row.id =
      ground
        (arith, find_passes (λ (c : CatalogCourse). c.id == id) s.courses f, ==_iff old.id id) in
    commit-HasSlugs (record s { courses = put_course row s.courses })
      (subst IsDistinct (sym (slugs-put_course row s.courses (rw at_id at f) e)) h.0, h.1)

pub nullable-cases :
    (u : CourseUpdate) (s : Catalog)
    → ((e : Error) × (validate_nullable_updates u s ≡ (err e, s)))
      ⊎ (validate_nullable_updates u s ≡ (ok tt, s))
unfolding validate_nullable_updates
nullable-cases u s = elim (Bool-cases (is_null u.title)) [
  | inl n ↦ inl (value_error "'title' cannot be null", ground arith)
  | inr n ↦ elim (Bool-cases (is_null u.is_published)) [
    | inl m ↦ inl (value_error "'is_published' cannot be null", ground arith)
    | inr m ↦ inr (ground arith)
  ]
]

update-HasSlugs :
    (id : ℕ) (u : CourseUpdate) (user : User) (s : Catalog)
    → HasSlugs s
    → HasSlugs (update_course id u user s).1
unfolding update_course store_course updated_course
update-HasSlugs id u user s h =
    let t = (update_course id u user s).1 in
    elim (managed_course-cases id user s) [
      | inl (e, q) ↦ moved t s (ground arith) h
      | inr (c, q, f, m) ↦
          let w : Catalog = record s { courses = put_course (updated_course u c) s.courses } in
          let next = put_commit-HasSlugs id (updated_course u c) c s h f refl refl in
          elim (nullable-cases u s) [
            | inl (e, v) ↦ moved t s (ground arith) h
            | inr v ↦ elim (Result-cases (commit w).0) [
              | inl (done, r) ↦ moved t (commit w).1 (ground arith) next
              | inr (e, r) ↦ moved t (commit w).1 (ground arith) next
            ]
          ]
    ]

publish-HasSlugs :
    (id : ℕ) (user : User) (s : Catalog) → HasSlugs s → HasSlugs (publish_course id user s).1
unfolding publish_course store_course ensure_instructor_can_publish
publish-HasSlugs id user s h =
    let t = (publish_course id user s).1 in
    elim (managed_course-cases id user s) [
      | inl (e, q) ↦ moved t s (ground arith) h
      | inr (c, q, f, m) ↦
          let row : CatalogCourse = record c { is_published = true } in
          let w : Catalog = record s { courses = put_course row s.courses } in
          let next = put_commit-HasSlugs id row c s h f refl refl in
          elim (Bool-cases
            (role_eq user.role Role.instructor && not (is_verified user.id s.instructors))) [
              | inl v ↦ moved t s (ground arith) h
              | inr v ↦ elim (Result-cases (commit w).0) [
                | inl (done, r) ↦
                    moved t
                      (record (commit w).1 { announced = (commit w).1.announced ++ c.id ∷ [] })
                      (ground arith) next
                | inr (e, r) ↦ moved t (commit w).1 (ground arith) next
              ]
            ]
    ]

delete-HasSlugs :
    (id : ℕ) (user : User) (s : Catalog) → HasSlugs s → HasSlugs (delete_course id user s).1
unfolding delete_course
delete-HasSlugs id user s h =
    let t = (delete_course id user s).1 in
    elim (managed_course-cases id user s) [
      | inl (e, q) ↦ moved t s (ground arith) h
      | inr (c, q, f, m) ↦
          let gone = keep (λ (x : CatalogCourse). not (x.id == c.id)) s.courses in
          let w : Catalog = record s { courses = gone } in
          let next =
            commit-HasSlugs w (keep-IsDistinct (λ x. not (x.id == c.id)) s.courses h.0, h.1) in
          moved t (commit w).1 (ground arith) next
    ]

perform-HasSlugs :
    (call : Call) (user : User) (s : Catalog) → HasSlugs s → HasSlugs (perform call user s)
unfolding perform
perform-HasSlugs (Call.create id p) user s h = create-HasSlugs id p user s h
perform-HasSlugs (Call.update id u) user s h = update-HasSlugs id u user s h
perform-HasSlugs (Call.publish id) user s h = publish-HasSlugs id user s h
perform-HasSlugs (Call.delete id) user s h = delete-HasSlugs id user s h

-- If no two courses have one slug, this holds after any calls, by whomever and whatever the database answers.
pub perform_all-HasSlugs :
    (calls : List (Call × User × Option Error)) (s : Catalog)
    → HasSlugs s
    → HasSlugs (perform_all calls s)
unfolding perform_all
perform_all-HasSlugs [] s h = h
perform_all-HasSlugs ((call, user, answer) ∷ calls) s h =
    perform_all-HasSlugs calls _ (perform-HasSlugs call user (record s { commit_error = answer }) h)
