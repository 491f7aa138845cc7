-- ===== src/Assignments/Calls.antt =====
-- The calls of app/modules/assignments/routers/routers.py that write, one after another, each with a session of
-- its own (`get_db` of app/core/database.py).
use lms_backend.Base.{ℕ, Option, Error, List, [], ◌∷◌}
use lms_backend.Db.{User, Tables, Session}
use lms_backend.Assignments.Rows.{
  AssignmentCreate, AssignmentUpdate, SubmissionCreate, SubmissionUpdate, SubmissionGradeRequest,
}
use lms_backend.Assignments.Routes.{
  post_assignment, put_assignment, remove_assignment, submit_assignment, put_submission,
  grade_route,
}

-- The numbers are the new identifier or the one in the path, and the time.
pub data Call : Type 0 where
  post : ℕ → ℕ → AssignmentCreate → Call
  put : ℕ → ℕ → AssignmentUpdate → Call
  remove : ℕ → Call
  submit : ℕ → ℕ → SubmissionCreate → Call
  revise : ℕ → ℕ → SubmissionUpdate → Call
  grade : ℕ → ℕ → SubmissionGradeRequest → Call

-- A new session, which sees what is committed.
abbrev pub opened : Tables → Option Error → Session
opened t e = record { tables = t; committed = t; commit_error = e; events = [] }

unfoldable pub perform : Call → User → Session → Session
perform (post id now p) user s = (post_assignment id now p user s).1
perform (put id now u) user s = (put_assignment id now u user s).1
perform (remove id) user s = (remove_assignment id user s).1
perform (submit id now p) user s = (submit_assignment id now p user s).1
perform (revise id now u) user s = (put_submission id now u user s).1
perform (grade id now p) user s = (grade_route id now p user s).1

-- Who calls what, and how the database answers to its commit.
pub record Request : Type 0 where
  pub user : User
  pub call : Call
  pub commit_error : Option Error

-- What is committed after the requests.
unfoldable pub serve : List Request → Tables → Tables
serve [] t = t
serve (r ∷ rs) t = serve rs (perform r.call r.user (opened t r.commit_error)).committed
