-- ===== src/Assignments.antt =====
-- app/modules/assignments: assignments of a course, and what students submit to them.
pub mod Rows
pub mod Commit
pub mod Service
pub mod Submissions
pub mod Routes
pub mod Calls
pub mod Writes
pub mod Performed
pub mod Owners
pub mod Placed
pub mod Second
pub mod Grades
pub mod Unchecked
pub mod Reads
mod Tests
