-- ===== src/Lib.antt =====
-- Verification of the LMS backend (a FastAPI application; the code is under app/).
--
-- The program keeps users, courses, enrollments and quizzes in a relational database. A request reaches
-- a service through the rate limiter and the permission check. The services of this development are
-- `AuthService`, whose refresh tokens keep sessions alive, `EnrollmentService`, which enrolls students and keeps their progress, and `AttemptService`, which
-- starts, grades and closes quiz attempts; a passed attempt calls `EnrollmentService` to complete the
-- lesson of the quiz, in the same database session. `LessonService` keeps the lessons of a course and their
-- tree, `QuizService` and `QuestionService` write and publish the quizzes that attempts are made at, and
-- `CertificateService` certifies completed enrollments, and students hand in submissions to assignments, which the
-- instructors grade. `CourseService` keeps and publishes the courses, `PaymentService` orders and payments, and
-- `UserService` the accounts. `AppCache` is a map with expiry in the process, on which
-- the lockout of accounts counts failed logins and `AuthService` keeps the challenges of a second factor.
--
-- Files and the code they model:
--   Base and its children      helpers: lists, dicts, text, results, `Action` (state and error)
--     Base.Fallible            app/core/exceptions.py: the exceptions as values
--     Base.Rounding            `Decimal.quantize`, half to even; Base.Strip: `str.strip`, `str.lower`
--   Assignments.Rows           app/modules/assignments/models/models.py and schemas/schemas.py
--   Assignments.Commit         the constraints of its tables, which a commit meets
--   Assignments.Service, Submissions  app/modules/assignments/services/services.py
--   Assignments.Routes         app/modules/assignments/routers/routers.py
--     Calls, Writes, Performed  the calls one after another, and what each may commit
--     Owners, Placed, Second, Grades, Unchecked, Reads  what follows for the rows and the replies
--   Auth.Tokens                app/core/security.py: tokens and the blacklist of access tokens
--   Auth.Sessions              app/modules/auth/service.py: rotation, logout and password reset
--   Auth.Login                 login, lockout and second factor in app/modules/auth/service.py
--     Guards, Locked, Factor   what a login has checked; failed logins lock; challenges are used once
--   Auth.Verification          verification of addresses, the second factor switched on and off
--   Auth.Users                 app/modules/users/services/user_service.py and its repository
--   Certificates               app/modules/certificates/service.py
--     Issued, Revoked          what issue and revocation do to the certificates
--   Core.Permissions           app/core/permissions.py
--   Core.Cache                 app/core/cache.py, the cache in memory
--     Size, Reads, Refines, Chains  its bound, what reads return, and the map with expiry that it implements
--   Core.Lockout               app/core/account_lockout.py
--     Counts, Locks, Resets    the two counts of a failed login, when accounts are locked and when not
--   Core.RateLimit             app/core/middleware/rate_limit.py, the in-memory limiter
--     Window, Cleanup          lemmas on windows of times; the limit over histories of calls
--   Courses.Hierarchy          `_validate_parent_lesson` of app/modules/courses/services/lesson_service.py
--     Ends, Forest             the end of its walk; forests of parents
--   Courses.Lessons            the rest of lesson_service.py, and its repository
--     Tree, Rows, Videos       what each call does to the lessons, their parents and their videos
--     History                  calls one after another
--   Courses.Rows, Catalog      app/modules/courses/services/course_service.py, and its repository
--     Slugs, Published         the slugs of courses, and who can publish
--   Db                         the models of app/modules/{users,courses,enrollments,quizzes}; the session
--   Enrollments.Repository     app/modules/enrollments/repository.py
--   Enrollments.Progress       the computation of a progress row in `update_lesson_progress`
--   Enrollments.Summary        `_refresh_enrollment_summary`
--   Enrollments.Service, Lists  app/modules/enrollments/service.py
--   Payments.Rows, Service     app/modules/payments
--     Owners                   whose payments are
--   Quizzes.Grading            grading, totals, sanitizing and masking in
--                              app/modules/quizzes/services/attempt_service.py
--   Quizzes.Answers            `_validate_and_build_answer_map`
--   Quizzes.Attempts.Repository  app/modules/quizzes/repositories/attempt_repository.py
--   Quizzes.Attempts.Start, Submit  `start_attempt`, `submit_attempt`, `get_attempt`, `list_my_attempts`
--   Quizzes.Editing.Checks     the checks of a question in app/modules/quizzes/services/question_service.py
--                              and quiz_service.py, on a payload and before publication
--   Quizzes.Editing.Quizzes, Questions  the two services
--     Effects, Published       what their calls do to the quizzes, and what published quizzes are like
--   Utils.Pagination           app/utils/pagination.py
--   Utils.Folders, Slugs       `normalize_storage_folder` and `slugify` of app/utils/validators.py
--   The children of a module prove what their names say; the modules called Tests hold concrete runs.
--
-- State. A service method is an `Action Session A`: it takes the session and returns a result and the
-- session afterwards, also when it raises. The session has the tables as it sees them, the tables as the
-- database has committed them, and the events handed to webhooks and to the task queue, in order. A
-- rollback goes back to the committed tables. What the program does not decide is an argument: new
-- identifiers, readings of the clock, the error that the next commit meets, and the rows that other
-- transactions commit between a lookup and an insertion.
--
-- Numbers. Percentages, scores and points are natural numbers of hundredths, as the two-place decimals of the
-- columns are; a percentage is rounded half to even, once and from the exact quotient, where the code rounds a
-- 28-digit quotient; a percentage that a client sends has any number of places, and carries what its column of two
-- places keeps of it. Identifiers are natural numbers. Times are seconds in Enrollments and microseconds in
-- Quizzes and in Core.RateLimit. Texts are lists of code points; `strip` and `lower` act on ASCII only. In Auth,
-- rows have microseconds and tokens and the blacklist have seconds. The times of Core.Cache and Core.Lockout are
-- seconds, and the readings of the clock within one of their calls are one.
--
-- Fuel. The walk up the parents of a lesson in Courses.Hierarchy has one step for each lesson and one more, which is
-- enough since it visits no lesson twice; `str` in Base.Decimal has as many steps as the number it prints, which has no
-- more digits. Nothing else runs on fuel: the two tries of `start_attempt` are written out.
--
-- What is not under app/ is an argument of the definitions: the record `Outside` of Auth.Tokens stands for
-- `jose.jwt`, `uuid` and `passlib`, and `IsStable` says of the first what the code relies on.
--
-- `dumps` and `loads` of Core.Cache, and the record `Json` of Auth.Login, stand for `json`.
--
-- Floats. Amounts and the grades of submissions are floats as far as they are compared: Base.Float counts a finite
-- one in units of 2 ^ -1074, and has the infinities and `nan`.
--
-- Not modelled: HTTP routing, but for the routes of assignments; schemas beyond the fields named;
-- row locks and locks between threads; logging; the Redis branches; the delivery of webhooks, tasks and mails; the
-- caching and the random order of quiz payloads, and the cache of the lists of assignments; PDFs; the lists of a
-- course's quizzes, of courses and of users; the items of orders; the services of instructors, administration,
-- analytics, files and websockets. Most of what is left is input and output, SQL for reports, settings, scripts and
-- tests.
pub mod Assignments
pub mod Auth
pub mod Base
pub mod Certificates
pub mod Core
pub mod Courses
pub mod Db
pub mod Enrollments
pub mod Payments
pub mod Quizzes
pub mod Utils
