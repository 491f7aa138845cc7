-- ===== src/Certificates.antt =====
-- app/modules/certificates/service.py: certificates of completed enrollments. The PDF is not modelled; its
-- number, which is random, and the readings of the clock are arguments.
pub mod Issued
pub mod Revoked
mod Tests
use lms_backend.Base.{
  ℕ, Text, text_eq, Bool, true, false, ◌&&◌, not, Option, none, some, List, [], ◌∷◌, ◌++◌, Error,
  ok, err, forbidden, not_found, integrity_error, Action, ◌>>=◌, ◌>>◌, pure, raise, gets, modify,
  require, raise_if, ◌==◌, if◌then◌else◌, ltb, ◌||◌, find, any, keep,
}
use lms_backend.Core.Permissions.{Role, role_eq}
use lms_backend.Db.{User, Course, Enrollment, EnrollmentStatus}
use lms_backend.Enrollments.Repository.{put_row}

-- app/modules/certificates/models.py
pub record Certificate : Type 0 where
  pub id : ℕ
  pub enrollment_id : ℕ
  pub student_id : ℕ
  pub course_id : ℕ
  pub certificate_number : Text
  pub completion_date : ℕ
  pub issued_at : ℕ
  pub is_revoked : Bool
  pub revoked_at : Option ℕ

-- What the session sees and what the database answers to the next commit. `issued_events` are the
-- certificates whose issue was announced.
pub record Registry : Type 0 where
  pub users : List User
  pub courses : List Course
  pub enrollments : List Enrollment
  pub certificates : List Certificate
  pub commit_error : Option Error
  pub issued_events : List ℕ

unfoldable pub commit : Action Registry (Unit {0})
commit s = elim s.commit_error [ none ↦ (ok tt, s) | some e ↦ (err e, s) ]

abbrev pub is_completed : EnrollmentStatus → Bool
is_completed EnrollmentStatus.completed = true
is_completed _ = false

unfoldable pub certificate_of : ℕ → List Certificate → Option Certificate
certificate_of enrollment_id certificates =
    find (λ c. c.enrollment_id == enrollment_id) certificates

abbrev pub has_number : Text → Certificate → Bool
has_number number c = text_eq c.certificate_number number

-- The time of completion, or now.
abbrev or_now : Option ℕ → ℕ → ℕ
or_now none now = now
or_now (some t) now = t

unfoldable pub new_certificate : ℕ → Text → ℕ → ℕ → Enrollment → Certificate
new_certificate id number now issued_at e = record {
  id = id;
  enrollment_id = e.id;
  student_id = e.student_id;
  course_id = e.course_id;
  certificate_number = number;
  completion_date = or_now e.completed_at now;
  issued_at = issued_at;
  is_revoked = false;
  revoked_at = none;
}

-- The number and the enrollment of a certificate are unique.
unfoldable pub clashes : Certificate → Certificate → Bool
clashes c other = has_number c.certificate_number other || (other.enrollment_id == c.enrollment_id)

-- The insertion and the update of the enrollment, which are flushed together.
unfoldable pub insert_certificate : Certificate → Enrollment → Action Registry (Unit {0})
insert_certificate c e = do
  s ← gets (λ s. s)
  raise_if (any (clashes c) s.certificates) integrity_error
  modify (λ r. record r {
    certificates = r.certificates ++ c ∷ [];
    enrollments = put_row e r.enrollments;
  })

unfoldable pub announce : Certificate → Action Registry (Unit {0})
announce c = modify (λ r. record r { issued_events = r.issued_events ++ c.id ∷ [] })

-- A certificate that is not there yet.
unfoldable pub issue :
    ℕ → Text → ℕ → ℕ → ℕ → Enrollment → Bool → Action Registry (Option Certificate)
issue id number now issued_at marked_at e committing = do
  s ← gets (λ s. s)
  student ←
      require (find (λ u. u.id == e.student_id) s.users)
        (not_found "Certificate dependencies are missing")
  course ←
      require (find (λ c. c.id == e.course_id) s.courses)
        (not_found "Certificate dependencies are missing")
  insert_certificate (new_certificate id number now issued_at e)
      (record e { certificate_issued_at = some marked_at })
  if committing then commit else pure tt
  if committing then announce (new_certificate id number now issued_at e) else pure tt
  pure (some (new_certificate id number now issued_at e))

-- `issue_for_enrollment`
unfoldable pub issue_for_enrollment :
    ℕ → Text → ℕ → ℕ → ℕ → Enrollment → Bool → Action Registry (Option Certificate)
issue_for_enrollment id number now issued_at marked_at e committing s =
    if is_completed e.status
    then elim (certificate_of e.id s.certificates) [
      | some c ↦ (ok (some c), s)
      | none ↦ issue id number now issued_at marked_at e committing s
    ]
    else (ok none, s)

place : Certificate → List Certificate → List Certificate
place c [] = c ∷ []
place c (other ∷ rows) =
    let rest = place c rows in
    if ltb c.issued_at other.issued_at then other ∷ rest else c ∷ other ∷ rows

-- `ORDER BY issued_at DESC`; the order of certificates of one time is not fixed by the query.
newest_first : List Certificate → List Certificate
unfolding place
newest_first [] = []
newest_first (c ∷ rows) = place c (newest_first rows)

-- `get_my_certificates`
pub get_my_certificates : ℕ → Registry → List Certificate
unfolding newest_first
get_my_certificates student_id s =
    newest_first (keep (λ c. (c.student_id == student_id) && not c.is_revoked) s.certificates)

-- `get_certificate_for_user`
pub get_certificate_for_user : ℕ → User → Action Registry Certificate
get_certificate_for_user certificate_id user = do
  s ← gets (λ s. s)
  c ←
      require (find (λ c. c.id == certificate_id) s.certificates)
        (not_found "Certificate not found")
  raise_if
      (not (role_eq user.role Role.admin)
        && not (role_eq user.role Role.student && (c.student_id == user.id)))
      (forbidden "Not authorized to access this certificate")
  pure c

-- `verify_certificate`
unfoldable pub verify_certificate : Text → List Certificate → Option Certificate
verify_certificate number certificates =
    find (λ c. has_number number c && not c.is_revoked) certificates

abbrev pub revoked : ℕ → Certificate → Certificate
revoked now c = record c { is_revoked = true; revoked_at = some now }

-- The row with this identifier, revoked.
unfoldable pub revoke_row : ℕ → ℕ → List Certificate → List Certificate
revoke_row id now [] = []
revoke_row id now (c ∷ certificates) =
    let rest = revoke_row id now certificates in
    if c.id == id then revoked now c ∷ rest else c ∷ rest

-- `revoke_certificate`
unfoldable pub revoke_certificate : ℕ → ℕ → User → Action Registry Certificate
revoke_certificate now certificate_id user = do
  raise_if (not (role_eq user.role Role.admin)) (forbidden "Only admins can revoke certificates")
  s ← gets (λ s. s)
  c ←
      require (find (λ c. c.id == certificate_id) s.certificates)
        (not_found "Certificate not found")
  modify (λ r. record r { certificates = revoke_row certificate_id now r.certificates })
  commit
  pure (revoked now c)
