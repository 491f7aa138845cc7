-- ===== src/Quizzes/Editing.antt =====
-- app/modules/quizzes/services/quiz_service.py and question_service.py: quizzes and their questions are
-- written, checked and published.
pub mod Checks
pub mod Quizzes
pub mod Questions
pub mod Effects
pub mod Published
mod Tests
