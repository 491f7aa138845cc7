-- ===== src/Courses/Lessons/History.antt =====
-- The lessons form a forest after every history of calls.
use lms_backend.Base.{
  ℕ, ◌≡◌, sym, false, Option, some, Error, inl, inr, ◌==◌, ==_iff, find_passes, All, All-append,
  All-find,
}
use mathlib.Core.Path.{subst}
use lms_backend.Base.Sets.{mem}
use lms_backend.Db.{User, Session}
use lms_backend.Enrollments.Repository.{find_lesson}
use lms_backend.Courses.Hierarchy.{with_id}
use lms_backend.Courses.Hierarchy.Ends.{ids}
use lms_backend.Courses.Hierarchy.Forest.{IsForest}
use lms_backend.Courses.Lessons.{
  LessonCreate, LessonUpdate, create_lesson, update_lesson, delete_lesson, updated_lesson,
}
use lms_backend.Courses.Lessons.Tree.{
  IsSaved, IsShown, create_lesson-IsAdded, update_lesson-IsStored, delete_lesson-effect,
}
use lms_backend.Courses.Lessons.Videos.{update-IsShown, put-All, without-All}
use lms_backend.Courses.Lessons.Rows.{
  append-IsForest, put-IsForest, without-IsForest, IsChecked-update,
}

-- One call, which may fail: a new lesson has an identifier that is not in the table.
pub data Edit : Session → Session → Type 0 where
  created :
      (s : Session) (id course_id : ℕ) (p : LessonCreate) (user : User)
      → mem id (ids s.tables.lessons) ≡ false
      → Edit s (create_lesson id course_id p user s).1
  updated :
      (s : Session) (id : ℕ) (u : LessonUpdate) (user : User) → Edit s (update_lesson id u user s).1
  deleted : (s : Session) (id : ℕ) (user : User) → Edit s (delete_lesson id user s).1

-- Calls one after another, with whatever the database answers to each commit.
pub data History : Session → Session → Type 0 where
  done : (s : Session) → History s s
  next :
      {s t u : Session}
      → History s t
      → (answer : Option Error) → Edit (record t { commit_error = answer }) u
      → History s u

-- Nothing is left to commit, the lessons form a forest, and only video lessons have videos.
pub record IsGood (s : Session) : Type 0 where
  pub saved : IsSaved s
  pub forest : IsForest s.tables.lessons
  pub shown : All IsShown s.tables.lessons

edit-IsGood : {s t : Session} → Edit s t → IsGood s → IsGood t
unfolding find_lesson updated_lesson
edit-IsGood (Edit.created s id course_id p user fresh) g =
    let (saved, effect) = create_lesson-IsAdded id course_id p user s g.saved in
    record {
      saved = saved;
      forest = elim effect [
        | inl same ↦ rw same g.forest
        | inr (l, c, is_id, h, v, added) ↦ rw added (
            append-IsForest l c s.tables.lessons g.forest
              (subst (λ x. mem x (ids s.tables.lessons) ≡ false) (sym is_id) fresh) h)
      ];
      shown = elim effect [
        | inl same ↦ rw same g.shown
        | inr (l, c, is_id, h, v, added) ↦ rw added (All-append IsShown s.tables.lessons g.shown v)
      ];
    }
edit-IsGood (Edit.updated s id u user) g =
    let (saved, effect) = update_lesson-IsStored id u user s g.saved in
    record {
      saved = saved;
      forest = elim effect [
        | inl same ↦ rw same g.forest
        | inr (l, c, found, h, v, stored) ↦
            let own : l.id ≡ id =
              (==_iff l.id id).0 (find_passes (λ m. m.id == id) s.tables.lessons found) in
            rw stored (
              put-IsForest (updated_lesson u l) l c s.tables.lessons g.forest
                (subst (λ x. with_id x s.tables.lessons ≡ some l) (sym own) found)
                (IsChecked-update u l c s.tables.lessons h))
      ];
      shown = elim effect [
        | inl same ↦ rw same g.shown
        | inr (l, c, found, h, v, stored) ↦ rw stored (
            put-All (updated_lesson u l) s.tables.lessons g.shown (
              update-IsShown u l v
                (All-find IsShown (λ m. m.id == id) s.tables.lessons g.shown found)))
      ];
    }
edit-IsGood (Edit.deleted s id user) g =
    let (saved, effect) = delete_lesson-effect id user s g.saved in
    record {
      saved = saved;
      forest = elim effect [
        | inl same ↦ rw same g.forest
        | inr removed ↦ rw removed (without-IsForest id s.tables.lessons g.forest)
      ];
      shown = elim effect [
        | inl same ↦ rw same g.shown
        | inr removed ↦ rw removed (without-All id s.tables.lessons g.shown)
      ];
    }

-- After every history of lessons created, updated and deleted, calls that fail included, no lesson is its
-- own ancestor, every parent is in the table, a lesson with a video is a video lesson whose video is a web
-- address, and nothing is left to commit, if all this held before and new lessons have new identifiers.
pub history-IsGood : (s t : Session) → History s t → IsGood s → IsGood t
history-IsGood s t (History.done r) g = g
history-IsGood s t (History.next h answer e) g =
    let before = history-IsGood _ _ h g in
    edit-IsGood e (record { saved = before.saved; forest = before.forest; shown = before.shown })
