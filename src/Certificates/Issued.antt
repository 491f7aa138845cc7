-- ===== src/Certificates/Issued.antt =====
-- What the calls do to the certificates, and that an enrollment has at most one.
use lms_backend.Base.{
  ℕ, ◌≡◌, ◌⊎◌, refl, Text, true, false, Bool, none, List, [], ◌∷◌, ◌++◌, arith, inl, inr,
  Bool-cases, Option-cases, ◌==◌, ==_iff, find, any, map, if◌then◌else◌,
}
use lms_backend.Base.Sets.{mem, Distinct}
use lms_backend.Db.{User, Enrollment}
use lms_backend.Certificates.{
  Certificate, Registry, commit, is_completed, certificate_of, has_number, clashes, new_certificate,
  insert_certificate, announce, issue, issue_for_enrollment, revoke_row, revoke_certificate,
}

abbrev pub enrollments_of : List Certificate → List ℕ
enrollments_of certificates = map (λ c. c.enrollment_id) certificates

-- The certificates stay, or a new one with a new number comes last, for an enrollment that had none and is completed.
abbrev pub IsIssue : List Certificate → List Certificate → Type 0
IsIssue old new =
    (new ≡ old)
    ⊎ ((c : Certificate) × (new ≡ old ++ c ∷ [])
        × (certificate_of c.enrollment_id old ≡ none)
        × (any (has_number c.certificate_number) old ≡ false)
        × (c.is_revoked ≡ false))

any-clashes :
    (c : Certificate) (certificates : List Certificate)
    → any (clashes c) certificates ≡ false
    → any (has_number c.certificate_number) certificates ≡ false
unfolding clashes
any-clashes c [] h = refl
any-clashes c (other ∷ certificates) h = ground (arith, any-clashes c certificates)

issue-effect :
    (id : ℕ) (number : Text) (now issued_at marked_at : ℕ) (e : Enrollment) (committing : Bool)
    (s : Registry)
    → certificate_of e.id s.certificates ≡ none
    → IsIssue s.certificates (issue id number now issued_at marked_at e committing s).1.certificates
unfolding issue insert_certificate announce commit new_certificate
issue-effect id number now issued_at marked_at e committing s free =
    elim (Option-cases (find (λ u. u.id == e.student_id) s.users)) [
      | inl n ↦ inl (ground arith)
      | inr (student, f) ↦ elim (Option-cases (find (λ c. c.id == e.course_id) s.courses)) [
        | inl n ↦ inl (ground arith)
        | inr (course, g) ↦
            elim (Bool-cases
              (any (clashes (new_certificate id number now issued_at e)) s.certificates)) [
                | inl clash ↦ inl (ground arith)
                | inr new ↦ inr (
                  new_certificate id number now issued_at e,
                  ground arith,
                  free,
                  any-clashes (new_certificate id number now issued_at e) s.certificates new,
                  refl,
                )
              ]
      ]
    ]

pub issue_for_enrollment-effect :
    (id : ℕ) (number : Text) (now issued_at marked_at : ℕ) (e : Enrollment) (committing : Bool)
    (s : Registry)
    → IsIssue s.certificates
        (issue_for_enrollment id number now issued_at marked_at e committing s).1.certificates
unfolding issue_for_enrollment
issue_for_enrollment-effect id number now issued_at marked_at e committing s =
    elim (Bool-cases (is_completed e.status)) [
      | inr unfinished ↦ inl (ground arith)
      | inl completed ↦ elim (Option-cases (certificate_of e.id s.certificates)) [
        | inr (c, f) ↦ inl (ground arith)
        | inl free ↦
            rw (completed, free)
              (issue-effect id number now issued_at marked_at e committing s free)
      ]
    ]

pub revoke-effect :
    (now id : ℕ) (user : User) (s : Registry)
    → let new = (revoke_certificate now id user s).1.certificates in
      (new ≡ s.certificates) ⊎ (new ≡ revoke_row id now s.certificates)
unfolding revoke_certificate commit
revoke-effect now id user s = ground arith

-- The calls that change certificates.
pub data Edit : Registry → Registry → Type 0 where
  issued :
      (s : Registry) (id : ℕ) (number : Text) (now issued_at marked_at : ℕ) (e : Enrollment)
      (committing : Bool)
      → Edit s (issue_for_enrollment id number now issued_at marked_at e committing s).1
  withdrawn :
      (s : Registry) (now id : ℕ) (user : User) → Edit s (revoke_certificate now id user s).1

pub data History : Registry → Registry → Type 0 where
  done : (s : Registry) → History s s
  next : {s t u : Registry} → History s t → Edit t u → History s u

-- A certificate at the end, for an enrollment that has none.
certificate_of-mem :
    (enrollment_id : ℕ) (certificates : List Certificate)
    → certificate_of enrollment_id certificates ≡ none
    → mem enrollment_id (enrollments_of certificates) ≡ false
unfolding certificate_of
certificate_of-mem enrollment_id [] h = refl
certificate_of-mem enrollment_id (c ∷ certificates) h =
    ground (arith, certificate_of-mem enrollment_id certificates)

mem-append :
    (a : ℕ) (certificates : List Certificate) (c : Certificate)
    → mem a (enrollments_of (certificates ++ c ∷ []))
      ≡ (if mem a (enrollments_of certificates) then true else c.enrollment_id == a)
mem-append a [] c = ground arith
mem-append a (d ∷ certificates) c = ground (arith, mem-append a certificates c)

Distinct-append :
    (certificates : List Certificate) (c : Certificate)
    → Distinct (enrollments_of certificates)
    → mem c.enrollment_id (enrollments_of certificates) ≡ false
    → Distinct (enrollments_of (certificates ++ c ∷ []))
Distinct-append [] c d n = (refl, tt)
Distinct-append (x ∷ certificates) c d n = (
  ground (
    arith,
    mem-append x.enrollment_id certificates c,
    ==_iff c.enrollment_id x.enrollment_id,
    ==_iff x.enrollment_id c.enrollment_id,
  ),
  Distinct-append certificates c d.1 (ground arith),
)

enrollments-revoke_row :
    (id now : ℕ) (certificates : List Certificate)
    → enrollments_of (revoke_row id now certificates) ≡ enrollments_of certificates
unfolding revoke_row
enrollments-revoke_row id now [] = refl
enrollments-revoke_row id now (c ∷ certificates) =
    ground (arith, enrollments-revoke_row id now certificates)

edit-Distinct :
    {s t : Registry}
    → Edit s t
    → Distinct (enrollments_of s.certificates)
    → Distinct (enrollments_of t.certificates)
edit-Distinct (Edit.issued s id number now issued_at marked_at e committing) d =
    elim (issue_for_enrollment-effect id number now issued_at marked_at e committing s) [
      | inl same ↦ rw same d
      | inr (c, more, free, new, fresh) ↦ rw more (
          Distinct-append s.certificates c d
            (certificate_of-mem c.enrollment_id s.certificates free))
    ]
edit-Distinct (Edit.withdrawn s now id user) d = elim (revoke-effect now id user s) [
  | inl same ↦ rw same d
  | inr row ↦ rw row (rw (enrollments-revoke_row id now s.certificates) d)
]

-- After every sequence of issues and revocations, calls that fail included, no enrollment has two certificates,
-- if none had before.
pub history-Distinct :
    (s t : Registry)
    → History s t
    → Distinct (enrollments_of s.certificates)
    → Distinct (enrollments_of t.certificates)
history-Distinct s t (History.done r) d = d
history-Distinct s t (History.next h e) d = edit-Distinct e (history-Distinct _ _ h d)
