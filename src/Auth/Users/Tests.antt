-- ===== src/Auth/Users/Tests.antt =====
-- A registration, and the theorem on addresses at this data.
use lms_backend.Base.{refl, codes, false, true, []}
use lms_backend.Base.Strip.{lower}
use lms_backend.Core.Permissions.{Role}
use lms_backend.Auth.Tests.{plain, store}
use lms_backend.Auth.Users.{UserCreate, arrive, create_user}
use lms_backend.Auth.Users.Emails.{Step, HasEmails, step-HasEmails}

abbrev registration : UserCreate
registration = record {
  email = codes "New@X.org";
  full_name = codes "New";
  role = Role.student;
  password = codes "password";
}

step-HasEmails_example : HasEmails (create_user plain 8 10 [] false registration true store).1
unfolding arrive lower
step-HasEmails_example =
    step-HasEmails plain store (create_user plain 8 10 [] false registration true store).1
      (Step.created store 8 10 [] false registration true
        (((refl, tt), (refl, tt)), ((refl, tt), (refl, tt))))
      (((refl, tt), (refl, tt)), ((refl, tt), (refl, tt)))
