-- ===== src/Certificates/Tests.antt =====
-- A completed enrollment, its certificate, and the theorems on certificates at this data.
use lms_backend.Base.{◌≡◌, refl, codes, true, false, none, some, [], ◌∷◌}
use lms_backend.Base.Sets.{Distinct}
use lms_backend.Core.Permissions.{Role}
use lms_backend.Db.{User, Enrollment, EnrollmentStatus}
use lms_backend.Certificates.{
  Certificate, Registry, issue_for_enrollment, revoke_certificate, verify_certificate, commit,
}
use lms_backend.Certificates.Issued.{Edit, History, enrollments_of, history-Distinct}
use lms_backend.Certificates.Revoked.{revoked_not_verified}

abbrev student : User
student = record { id = 7; role = Role.student }

abbrev admin : User
admin = record { id = 1; role = Role.admin }

abbrev finished : Enrollment
finished = record {
  id = 5;
  student_id = 7;
  course_id = 1;
  enrolled_at = 100;
  started_at = some 100;
  completed_at = some 900;
  status = EnrollmentStatus.completed;
  progress_percentage = 10000;
  completed_lessons_count = 2;
  total_lessons_count = 2;
  total_time_spent_seconds = 60;
  last_accessed_at = none;
  certificate_issued_at = none;
  rating = none;
  review = none;
}

abbrev certificate : Certificate
certificate = record {
  id = 40;
  enrollment_id = 5;
  student_id = 7;
  course_id = 1;
  certificate_number = codes "CERT-20240101-0A1B2C";
  completion_date = 900;
  issued_at = 1000;
  is_revoked = false;
  revoked_at = none;
}

abbrev registry : Registry
registry = record {
  users = student ∷ [];
  courses = record { id = 1; instructor_id = 9; is_published = true } ∷ [];
  enrollments = finished ∷ [];
  certificates = certificate ∷ [];
  commit_error = none;
  issued_events = [];
}

abbrev after_revocation : Registry
after_revocation = (revoke_certificate 2000 40 admin registry).1

abbrev after_issue : Registry
after_issue =
    (issue_for_enrollment 41 (codes "CERT-20240202-0A1B2C") 3000 3001 3002 finished true
      after_revocation).1

history-Distinct_example : Distinct (enrollments_of after_issue.certificates)
history-Distinct_example =
    history-Distinct registry after_issue
      (History.next (History.next (History.done registry) (Edit.withdrawn registry 2000 40 admin)) (
        Edit.issued after_revocation 41 (codes "CERT-20240202-0A1B2C") 3000 3001 3002 finished
          true))
      (refl, tt)

revoked_not_verified_example :
    (verify_certificate (codes "CERT-20240101-0A1B2C") after_issue.certificates ≡ none)
    × (admin.role ≡ Role.admin)
unfolding revoke_certificate commit
revoked_not_verified_example =
    revoked_not_verified registry after_issue 2000 40 admin
      (record certificate { is_revoked = true; revoked_at = some 2000 }) (refl, tt) refl
      (History.next (History.done after_revocation) (
        Edit.issued after_revocation 41 (codes "CERT-20240202-0A1B2C") 3000 3001 3002 finished
          true))
