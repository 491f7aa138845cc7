-- ===== src/Enrollments.antt =====
-- app/modules/enrollments: enrolling in a course, the progress of a student through its lessons,
-- and the summary of that progress on the enrollment.
pub mod Repository
pub mod Progress
pub mod Summary
pub mod Service
pub mod Lists
mod Tests
