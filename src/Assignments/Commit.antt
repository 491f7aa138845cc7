-- ===== src/Assignments/Commit.antt =====
-- The constraints that app/modules/assignments/models/models.py declares, which the database checks when the
-- session commits, and the changes of rows that the two services make.
use lms_backend.Base.{
  Text, codes, text_eq, Bool, true, false, ◌&&◌, not, Option, none, some, List, [], ◌∷◌, ok, err,
  integrity_error, Action, ◌==◌, if◌then◌else◌, any,
}
use lms_backend.Db.{Tables, Session}
use lms_backend.Assignments.Rows.{Assignment, Submission}

abbrev pub all : {A : Type 0} → (A → Bool) → List A → Bool
all p [] = true
all p (x ∷ xs) = p x && all p xs

abbrev pub is_set : {A : Type 0} → Option A → Bool
is_set none = false
is_set (some v) = true

abbrev pub one_of : List Text → Option Text → Bool
one_of names none = false
one_of names (some v) = any (text_eq v) names

-- `ck_assignments_status` and the columns that must not be null.
unfoldable pub assignment_allowed : Assignment → Bool
assignment_allowed a =
    is_set a.title
    && is_set a.is_published
    && one_of (codes "draft" ∷ codes "published" ∷ codes "archived" ∷ []) a.status

-- `ck_submissions_status`
unfoldable pub submission_allowed : Submission → Bool
submission_allowed s =
    one_of (codes "submitted" ∷ codes "graded" ∷ codes "returned" ∷ codes "revised" ∷ []) s.status

unfoldable pub same_key : Submission → Submission → Bool
same_key a b = (a.enrollment_id == b.enrollment_id) && (a.assignment_id == b.assignment_id)

-- `uq_submissions_enrollment_assignment`
unfoldable pub unique_keys : List Submission → Bool
unique_keys [] = true
unique_keys (s ∷ rest) = not (any (same_key s) rest) && unique_keys rest

unfoldable pub meets_constraints : Tables → Bool
meets_constraints t =
    all assignment_allowed t.assignments
    && all submission_allowed t.submissions
    && unique_keys t.submissions

-- `db.commit()`; the session keeps its unfinished writes after a failure.
unfoldable pub commit_checked : Action Session (Unit {0})
commit_checked s = elim s.commit_error [
  | some e ↦ (err e, s)
  | none ↦
      if meets_constraints s.tables
      then (ok tt, record s { committed = s.tables })
      else (err integrity_error, s)
]
