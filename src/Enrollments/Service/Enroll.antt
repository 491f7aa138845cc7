-- ===== src/Enrollments/Service/Enroll.antt =====
-- What `enroll` promises: one enrollment for a student and a course, whatever other transactions do
-- between its lookup and its insertion.
pub mod Promises
use lms_backend.Base.{
  ℕ, ◌≡◌, refl, Bool, true, false, ◌&&◌, Option, none, some, List, [], ◌∷◌, ◌++◌, ok, err, Error,
  Result, arith, ◌==◌, ==_iff, if◌then◌else◌, any, find, inl, inr, Bool-cases, Option-cases,
}
use lms_backend.Db.{Course, Enrollment, Tables, Session, commit, rollback, emit, Event}
use lms_backend.Enrollments.Repository.{
  matches, new_enrollment, put_row, find_course, get_by_student_and_course, create, update,
  count_by_course, get_enrollment_progress_stats,
}
use lms_backend.Enrollments.Summary.{summarize, refresh_enrollment_summary}
use lms_backend.Enrollments.Service.{enroll, arrive, insert_enrollment, recover_enrollment}

-- No two rows are for the same student and course.
abbrev pub Unique : List Enrollment → Type 0
Unique [] = Unit
Unique (e ∷ rows) = (any (matches e.student_id e.course_id) rows ≡ false) × Unique rows

abbrev pub is_fresh : ℕ → List Enrollment → Bool
is_fresh id [] = true
is_fresh id (e ∷ rows) = if e.id == id then false else is_fresh id rows

put_row-append :
    (e created : Enrollment) (rows : List Enrollment)
    → created.id ≡ e.id
    → is_fresh e.id rows ≡ true
    → put_row e (rows ++ created ∷ []) ≡ rows ++ e ∷ []
unfolding put_row
put_row-append e created [] h f = ground arith
put_row-append e created (r ∷ rows) h f = ground (arith, put_row-append e created rows h)

find-append :
    (student_id course_id : ℕ) (e : Enrollment) (rows : List Enrollment)
    → any (matches student_id course_id) rows ≡ false
    → matches student_id course_id e ≡ true
    → find (matches student_id course_id) (rows ++ e ∷ []) ≡ some e
find-append sid cid e [] n h = ground arith
find-append sid cid e (r ∷ rows) n h = ground (arith, find-append sid cid e rows)

any-append :
    (student_id course_id : ℕ) (e : Enrollment) (rows : List Enrollment)
    → any (matches student_id course_id) (rows ++ e ∷ [])
      ≡ (if any (matches student_id course_id) rows then true else matches student_id course_id e)
any-append sid cid e [] = ground arith
any-append sid cid e (r ∷ rows) = ground (arith, any-append sid cid e rows)

Unique-append :
    (e : Enrollment) (rows : List Enrollment)
    → any (matches e.student_id e.course_id) rows ≡ false
    → Unique rows
    → Unique (rows ++ e ∷ [])
unfolding matches
Unique-append e [] n u = ground arith
Unique-append e (r ∷ rows) n u =
    ground (arith, Unique-append e rows, any-append r.student_id r.course_id e rows)

-- The state after a new row `e` was committed.
abbrev added : Enrollment → Session → Session
added e s =
    let t = record s.tables { enrollments = s.tables.enrollments ++ e ∷ [] } in
    record s { tables = t; committed = t; events = s.events ++ Event.enrollment_created e.id ∷ [] }

module _ (id student_id course_id now t1 t2 : ℕ) (s : Session) where
  insert_clash :
      any (matches student_id course_id) s.tables.enrollments ≡ true
      → insert_enrollment id student_id course_id now t1 t2 s ≡ (err Error.integrity_error, s)
  unfolding insert_enrollment create
  insert_clash h = ground arith

  abbrev created : Enrollment
  created = new_enrollment id student_id course_id now

  -- The row with its summary, as the database then holds it.
  abbrev row : Enrollment
  row =
      let t = record s.tables { enrollments = s.tables.enrollments ++ created ∷ [] } in
      let stats = get_enrollment_progress_stats id t in
      summarize (count_by_course course_id t) stats.0 stats.1 t1 t2 created

  row-matches : matches student_id course_id row ≡ true
  unfolding matches summarize new_enrollment
  row-matches = ground arith

  insert_new :
      any (matches student_id course_id) s.tables.enrollments ≡ false
      → is_fresh id s.tables.enrollments ≡ true
      → insert_enrollment id student_id course_id now t1 t2 s ≡ elim s.commit_error [
        | none ↦ (ok row, added row s)
        | some c ↦ (err c, record s { tables = s.committed })
      ]
  unfolding insert_enrollment create refresh_enrollment_summary update commit rollback emit
      summarize new_enrollment
  insert_new n f = ground (arith, put_row-append row created s.tables.enrollments)
