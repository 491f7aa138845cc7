-- ===== src/Quizzes.antt =====
-- app/modules/quizzes: taking a quiz. Which answers are accepted, how they are graded, and the life
-- of an attempt from its start to its submission or expiry.
pub mod Grading
pub mod Answers
pub mod Attempts
pub mod Editing
mod Tests
