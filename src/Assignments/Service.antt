-- ===== src/Assignments/Service.antt =====
-- `AssignmentService` of app/modules/assignments/services/services.py, without the cache of its lists.
use lms_backend.Base.{
  ℕ, codes, text_eq, Bool, true, false, ◌&&◌, not, Option, none, some, List, [], ◌∷◌, ◌++◌, Action,
  ◌>>=◌, ◌>>◌, pure, gets, modify, ◌==◌, if◌then◌else◌, find, keep, length, drop,
}
use lms_backend.Base.Patch.{get_or}
use lms_backend.Utils.Pagination.{take}
use lms_backend.Db.{Tables, Session}
use lms_backend.Base.Changes.{update_by}
use lms_backend.Assignments.Rows.{Assignment, Submission, AssignmentCreate, AssignmentUpdate}
use lms_backend.Assignments.Commit.{commit_checked}

-- `get_assignment`
unfoldable pub get_assignment : ℕ → Tables → Option Assignment
get_assignment id t = find (λ a. a.id == id) t.assignments

unfoldable pub new_assignment : ℕ → ℕ → AssignmentCreate → ℕ → Assignment
new_assignment id now payload instructor_id = record {
  id = id;
  title = some payload.title;
  description = payload.description;
  instructions = payload.instructions;
  course_id = payload.course_id;
  instructor_id = instructor_id;
  status = some payload.status;
  is_published = some payload.is_published;
  due_date = payload.due_date;
  max_points = payload.max_points;
  grading_type = payload.grading_type;
  assignment_metadata = payload.assignment_metadata;
  created_at = now;
  updated_at = now;
}

-- `create_assignment`
unfoldable pub create_assignment : ℕ → ℕ → AssignmentCreate → ℕ → Action Session Assignment
create_assignment id now payload instructor_id = do
  let row = new_assignment id now payload instructor_id
  modify (λ s. record s {
    tables = record s.tables { assignments = s.tables.assignments ++ row ∷ [] };
  })
  commit_checked
  pure row

-- Both flags say so.
unfoldable pub is_open : Assignment → Bool
is_open a = elim a.is_published [
  | some true ↦ elim a.status [ some v ↦ text_eq v (codes "published") | none ↦ false ]
  | _ ↦ false
]

-- `get_assignments_by_course`, read from the tables.
unfoldable pub get_assignments_by_course : ℕ → ℕ → ℕ → Bool → Tables → List Assignment × ℕ
get_assignments_by_course course_id skip limit published_only t =
    let rows =
      keep (λ a. (a.course_id == course_id) && (if published_only then is_open a else true))
        t.assignments in
    (take limit (drop skip rows), length rows)

-- The loop of `update_assignment`, and the time of the change.
unfoldable pub updated_assignment : ℕ → AssignmentUpdate → Assignment → Assignment
updated_assignment now u a = record a {
  title = get_or u.title a.title;
  description = get_or u.description a.description;
  instructions = get_or u.instructions a.instructions;
  due_date = get_or u.due_date a.due_date;
  max_points = get_or u.max_points a.max_points;
  grading_type = get_or u.grading_type a.grading_type;
  status = get_or u.status a.status;
  is_published = get_or u.is_published a.is_published;
  assignment_metadata = get_or u.assignment_metadata a.assignment_metadata;
  updated_at = now;
}

unfoldable pub write_assignment : ℕ → (Assignment → Assignment) → Tables → Tables
write_assignment id f t = record t {
  assignments = update_by (λ (a : Assignment). a.id) id f t.assignments;
}

-- `update_assignment`
unfoldable pub update_assignment : ℕ → ℕ → AssignmentUpdate → Action Session (Option Assignment)
update_assignment id now u = do
  t ← gets (λ s. s.tables)
  elim (get_assignment id t) [
    | none ↦ pure none
    | some a ↦ do
      modify (λ s. record s { tables = write_assignment id (updated_assignment now u) s.tables })
      commit_checked
      pure (some (updated_assignment now u a))
  ]

-- The rows that the relationship `submissions` deletes with their assignment go as well.
unfoldable pub without_assignment : ℕ → Tables → Tables
without_assignment id t = record t {
  assignments = keep (λ (a : Assignment). not (a.id == id)) t.assignments;
  submissions = keep (λ (s : Submission). not (s.assignment_id == id)) t.submissions;
}

-- `delete_assignment`
unfoldable pub delete_assignment : ℕ → Action Session Bool
delete_assignment id = do
  t ← gets (λ s. s.tables)
  elim (get_assignment id t) [
    | none ↦ pure false
    | some a ↦ do
      modify (λ s. record s { tables = without_assignment id s.tables })
      commit_checked
      pure true
  ]
