-- ===== src/Courses.antt =====
-- app/modules/courses: the lessons of a course and the tree that they form.
pub mod Hierarchy
pub mod Lessons
pub mod Rows
pub mod Catalog
mod Tests
