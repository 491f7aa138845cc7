-- ===== src/Quizzes/Attempts.antt =====
-- The life of a quiz attempt: app/modules/quizzes/services/attempt_service.py over
-- repositories/attempt_repository.py. Times are in microseconds.
pub mod Repository
pub mod Start
pub mod Submit
