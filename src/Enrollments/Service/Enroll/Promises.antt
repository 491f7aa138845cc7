-- ===== src/Enrollments/Service/Enroll/Promises.antt =====
-- `enroll` as its callers see it: the row that it returns is the one row of the student and course,
-- and calling it again changes nothing.
use lms_backend.Base.{
  ℕ, ◌≡◌, refl, ap, sym, ◌∙◌, true, false, none, some, List, [], ◌∷◌, ◌++◌, ok, Result, arith, any,
  find, inl, inr, Bool-cases, Option-cases,
}
use lms_backend.Db.{Course, Enrollment, Session, Tables, rollback}
use lms_backend.Enrollments.Repository.{matches, find_course, get_by_student_and_course}
use lms_backend.Enrollments.Service.{enroll, arrive}
use lms_backend.Enrollments.Service.Enroll.{
  Unique, is_fresh, find-append, Unique-append, added, insert_clash, insert_new, row, row-matches,
}

find-any :
    (student_id course_id : ℕ) (rows : List Enrollment)
    → any (matches student_id course_id) rows ≡ true
    → (e : Enrollment) × (find (matches student_id course_id) rows ≡ some e)
find-any sid cid [] h = cc
find-any sid cid (r ∷ rows) h = elim (Bool-cases (matches sid cid r)) [
  | inl e ↦ (r, ground arith)
  | inr e ↦ let found = find-any sid cid rows (ground arith) in (found.0, ground arith)
]

matches_iff :
    (student_id course_id : ℕ) (e : Enrollment)
    → matches student_id course_id e ≡ true
    → (e.student_id ≡ student_id) × (e.course_id ≡ course_id)
unfolding matches
matches_iff sid cid e h = ground arith

any-prefix :
    (student_id course_id : ℕ) (rows others : List Enrollment)
    → any (matches student_id course_id) (rows ++ others) ≡ false
    → any (matches student_id course_id) rows ≡ false
any-prefix sid cid [] others h = refl
any-prefix sid cid (r ∷ rows) others h = ground (arith, any-prefix sid cid rows others)

Unique-prefix : (rows others : List Enrollment) → Unique (rows ++ others) → Unique rows
Unique-prefix [] others u = tt
Unique-prefix (r ∷ rows) others u =
    (any-prefix r.student_id r.course_id rows others u.0, Unique-prefix rows others u.1)

-- The session has no writes that are not committed.
abbrev pub IsClean : Session → Type 0
IsClean s = s.committed ≡ s.tables

-- A call that began at `s` returned the row `e` and left `t`: `e` is the row of the student and course
-- in `t`, no other row is for the two, nothing is left to commit, and the courses are as they were.
abbrev pub Returns : ℕ → ℕ → Session → Enrollment → Result Enrollment × Session → Type 0
Returns student_id course_id s e (r, t) =
    (r ≡ ok e)
    × (get_by_student_and_course student_id course_id t.tables ≡ some e)
    × IsClean t
    × Unique t.tables.enrollments
    × (t.tables.courses ≡ s.tables.courses)

module _ (id : ℕ) (others : List Enrollment) (now t1 t2 student_id course_id : ℕ) (s : Session)
    (course : Course) (found : find_course course_id s.tables ≡ some course)
    (published : course.is_published ≡ true) (clean : IsClean s) where
  abbrev rows : List Enrollment
  rows = s.tables.enrollments ++ others

  abbrev call : Result Enrollment × Session
  call = enroll id others now t1 t2 student_id course_id s

  enroll_existing :
      {e : Enrollment}
      → get_by_student_and_course student_id course_id s.tables ≡ some e
      → call ≡ (ok e, s)
  unfolding enroll
  enroll_existing h = ground arith

  enroll_clash :
      {e : Enrollment}
      → get_by_student_and_course student_id course_id s.tables ≡ none
      → find (matches student_id course_id) rows ≡ some e
      → any (matches student_id course_id) rows ≡ true
      → call ≡ (ok e, arrive others s)
  unfolding enroll get_by_student_and_course rollback
  enroll_clash n h a =
      ground (arith, insert_clash id student_id course_id now t1 t2 (arrive others s))

  enroll_new :
      get_by_student_and_course student_id course_id s.tables ≡ none
      → is_fresh id rows ≡ true
      → any (matches student_id course_id) rows ≡ false
      → s.commit_error ≡ none
      → let a = arrive others s in
        let e = row id student_id course_id now t1 t2 a in call ≡ (ok e, added e a)
  unfolding enroll
  enroll_new n f a c =
      ground (arith, insert_new id student_id course_id now t1 t2 (arrive others s))

  no_other :
      (e : Enrollment) (rows : List Enrollment)
      → matches student_id course_id e ≡ true
      → any (matches student_id course_id) rows ≡ false
      → any (matches e.student_id e.course_id) rows ≡ false
  no_other e rows m n = let same = matches_iff student_id course_id e m in rw (same.0, same.1) n

  arrive-Returns :
      {e : Enrollment}
      → find (matches student_id course_id) rows ≡ some e
      → Unique rows
      → Returns student_id course_id s e (ok e, arrive others s)
  unfolding get_by_student_and_course arrive
  arrive-Returns h u = (
    refl,
    h,
    ap (λ (t : Tables). record t { enrollments = t.enrollments ++ others }) clean,
    u,
    refl,
  )

  added-Returns :
      (e : Enrollment)
      → matches student_id course_id e ≡ true
      → any (matches student_id course_id) rows ≡ false
      → Unique rows
      → Returns student_id course_id s e (ok e, added e (arrive others s))
  unfolding get_by_student_and_course arrive
  added-Returns e m n u = (
    refl,
    find-append student_id course_id e rows n m,
    refl,
    Unique-append e rows (no_other e rows m n) u,
    refl,
  )

  -- If the course is published, the session has no unfinished writes, the commit goes through, the
  -- identifier is fresh and the constraint holds of the rows with those that arrive, then the call
  -- returns the one row of the student and course, with the constraint kept and nothing left to
  -- commit.
  pub enroll-Returns :
      is_fresh id rows ≡ true
      → s.commit_error ≡ none
      → Unique rows
      → (e : Enrollment) × Returns student_id course_id s e call
  enroll-Returns f c u =
      elim (Option-cases (get_by_student_and_course student_id course_id s.tables)) [
        | inr (e, h) ↦ (
          e,
          rw (enroll_existing h)
              (refl, h, clean, Unique-prefix s.tables.enrollments others u, refl),
        )
        | inl n ↦ elim (Bool-cases (any (matches student_id course_id) rows)) [
          | inl a ↦
              let (e, h) = find-any student_id course_id rows a in
              (e, rw (enroll_clash n h a) (arrive-Returns h u))
          | inr a ↦
              let e = row id student_id course_id now t1 t2 (arrive others s) in
              (
                e,
                rw (enroll_new n f a c) (
                    added-Returns e
                      (row-matches id student_id course_id now t1 t2 (arrive others s)) a u),
              )
        ]
      ]

-- Under the conditions of a first call that returns (a published course, no unfinished writes, a
-- fresh identifier, a commit that goes through, and the constraint on the rows with those that
-- arrive), enrolling again, at any later time and whatever arrives meanwhile, returns the row of the
-- first call and leaves the session as it was.
pub enroll_twice :
    (id : ℕ) (others : List Enrollment) (now t1 t2 student_id course_id : ℕ) (s : Session)
    (course : Course) (id' : ℕ) (others' : List Enrollment) (now' t1' t2' : ℕ)
    → find_course course_id s.tables ≡ some course
    → course.is_published ≡ true
    → IsClean s
    → is_fresh id (s.tables.enrollments ++ others) ≡ true
    → s.commit_error ≡ none
    → Unique (s.tables.enrollments ++ others)
    → let first = enroll id others now t1 t2 student_id course_id s in
      enroll id' others' now' t1' t2' student_id course_id first.1 ≡ first
unfolding find_course
enroll_twice id others now t1 t2 sid cid s course id' others' now' t1' t2' found pub' clean f c u =
    let (e, r) = enroll-Returns id others now t1 t2 sid cid s course found pub' clean f c u in
    let first = enroll id others now t1 t2 sid cid s in
    enroll_existing id' others' now' t1' t2' sid cid first.1 course (rw (r.4) found) pub' r.2 r.1
    ∙ ap (λ (o : Result Enrollment). (o, first.1)) (sym r.0)
