-- ===== src/Certificates/Revoked.antt =====
-- A certificate that was revoked is not verified again.
use mathlib.Core.Path.{subst}
use lms_backend.Base.{
  ℕ, ◌≡◌, refl, sym, ap, ◌∙◌, Text, text_eq, text_eq_iff, true, false, none, some, List, [], ◌∷◌,
  ◌++◌, ok, arith, inl, inr, Bool-cases, Option-cases, ◌==◌, find, any, if◌then◌else◌,
}
use lms_backend.Core.Permissions.{Role}
use lms_backend.Db.{User}
use lms_backend.Certificates.{
  Certificate, Registry, commit, has_number, verify_certificate, revoked, revoke_row,
  revoke_certificate,
}
use lms_backend.Certificates.Issued.{Edit, History, issue_for_enrollment-effect, revoke-effect}

-- No two certificates have one number.
abbrev pub Unique : List Certificate → Type 0
Unique [] = Unit
Unique (c ∷ certificates) =
    (any (has_number c.certificate_number) certificates ≡ false) × Unique certificates

-- There is a certificate with the number, and none that is not revoked.
abbrev pub IsGone : Text → List Certificate → Type 0
IsGone number certificates =
    (any (has_number number) certificates ≡ true) × (verify_certificate number certificates ≡ none)

any-append :
    (number : Text) (certificates : List Certificate) (c : Certificate)
    → any (has_number number) (certificates ++ c ∷ [])
      ≡ (if any (has_number number) certificates then true else has_number number c)
any-append number [] c = ground arith
any-append number (d ∷ certificates) c = ground (arith, any-append number certificates c)

verify-append :
    (number : Text) (certificates : List Certificate) (c : Certificate)
    → has_number number c ≡ false
    → verify_certificate number (certificates ++ c ∷ []) ≡ verify_certificate number certificates
unfolding verify_certificate
verify-append number [] c n = ground arith
verify-append number (d ∷ certificates) c n = ground (arith, verify-append number certificates c n)

any-same :
    (number other : Text) (certificates : List Certificate)
    → any (has_number number) certificates ≡ true
    → any (has_number other) certificates ≡ false
    → text_eq other number ≡ false
any-same number other certificates h n = elim (Bool-cases (text_eq other number)) [
  | inr e ↦ e
  | inl e ↦
      absurd
        (ground (arith, ap (λ x. any (has_number x) certificates) ((text_eq_iff other number).0 e)))
]

any-revoke_row :
    (number : Text) (id now : ℕ) (certificates : List Certificate)
    → any (has_number number) (revoke_row id now certificates)
      ≡ any (has_number number) certificates
unfolding revoke_row
any-revoke_row number id now [] = refl
any-revoke_row number id now (c ∷ certificates) =
    ground (arith, any-revoke_row number id now certificates)

verify-revoke_row :
    (number : Text) (id now : ℕ) (certificates : List Certificate)
    → verify_certificate number certificates ≡ none
    → verify_certificate number (revoke_row id now certificates) ≡ none
unfolding revoke_row verify_certificate
verify-revoke_row number id now [] h = refl
verify-revoke_row number id now (c ∷ certificates) h =
    ground (arith, verify-revoke_row number id now certificates)

edit-IsGone :
    (number : Text) {s t : Registry}
    → Edit s t
    → IsGone number s.certificates
    → IsGone number t.certificates
edit-IsGone number (Edit.issued s id n now issued_at marked_at e committing) (there, hidden) =
    elim (issue_for_enrollment-effect id n now issued_at marked_at e committing s) [
      | inl same ↦ rw same (there, hidden)
      | inr (c, more, free, new, fresh) ↦
          let other = any-same number c.certificate_number s.certificates there new in
          rw more (
            ground (arith, any-append number s.certificates c),
            verify-append number s.certificates c other ∙ hidden,
          )
    ]
edit-IsGone number (Edit.withdrawn s now id user) (there, hidden) =
    elim (revoke-effect now id user s) [
      | inl same ↦ rw same (there, hidden)
      | inr row ↦ rw row (
        any-revoke_row number id now s.certificates ∙ there,
        verify-revoke_row number id now s.certificates hidden,
      )
    ]

history-IsGone :
    (number : Text) {s t : Registry}
    → History s t
    → IsGone number s.certificates
    → IsGone number t.certificates
history-IsGone number (History.done s) g = g
history-IsGone number (History.next h e) g = edit-IsGone number e (history-IsGone number h g)

-- A number that no certificate has is not verified.
verify_none :
    (number : Text) (certificates : List Certificate)
    → any (has_number number) certificates ≡ false
    → verify_certificate number certificates ≡ none
unfolding verify_certificate
verify_none number [] h = refl
verify_none number (c ∷ certificates) h = ground (arith, verify_none number certificates)

-- The certificate that is revoked is the only one with its number.
revoked-IsGone :
    (id now : ℕ) (certificates : List Certificate) (c : Certificate)
    → Unique certificates
    → find (λ d. d.id == id) certificates ≡ some c
    → IsGone c.certificate_number (revoke_row id now certificates)
unfolding revoke_row verify_certificate
revoked-IsGone id now [] c u f = cc
revoked-IsGone id now (d ∷ certificates) c u f = elim (Bool-cases (d.id == id)) [
  | inl e ↦
      let same : d ≡ c = ground arith in
      let own = (text_eq_iff d.certificate_number d.certificate_number).1 refl in
      let rest = revoke_row id now certificates in
      let hidden : verify_certificate d.certificate_number rest ≡ none =
        verify_none d.certificate_number rest
          (any-revoke_row d.certificate_number id now certificates ∙ u.0) in
      subst
        (λ (x : Certificate). IsGone x.certificate_number (revoke_row id now (d ∷ certificates)))
        same (rw e (ground (arith, own), ground (arith, own, hidden)))
  | inr e ↦
      let (there, hidden) = revoked-IsGone id now certificates c u.1 (ground arith) in
      let other =
        any-same c.certificate_number d.certificate_number certificates
          (sym (any-revoke_row c.certificate_number id now certificates) ∙ there) u.0 in
      rw e (ground (arith, other, there), ground (arith, other, hidden))
]

revoked_found :
    (now id : ℕ) (user : User) (s : Registry) (c : Certificate)
    → (revoke_certificate now id user s).0 ≡ ok c
    → (user.role ≡ Role.admin)
      × ((revoke_certificate now id user s).1.certificates ≡ revoke_row id now s.certificates)
      × ((old : Certificate) × (find (λ d. d.id == id) s.certificates ≡ some old)
          × (c ≡ revoked now old))
unfolding revoke_certificate commit
revoked_found now id user s c h = elim (Option-cases (find (λ d. d.id == id) s.certificates)) [
  | inl n ↦ absurd (ground arith)
  | inr (old, f) ↦ (ground arith, ground arith, (old, f, ground arith))
]

-- After a revocation that returned, verification of the certificate's number finds nothing, whatever certificates are
-- issued and revoked later, if no two certificates had one number before.
pub revoked_not_verified :
    (s t : Registry) (now id : ℕ) (user : User) (c : Certificate)
    → Unique s.certificates
    → (revoke_certificate now id user s).0 ≡ ok c
    → History (revoke_certificate now id user s).1 t
    → (verify_certificate c.certificate_number t.certificates ≡ none) × (user.role ≡ Role.admin)
revoked_not_verified s t now id user c u h later =
    let (is_admin, row, (old, f, same)) = revoked_found now id user s c h in
    let gone = revoked-IsGone id now s.certificates old u f in
    let number : old.certificate_number ≡ c.certificate_number = ground arith in
    (
      (history-IsGone c.certificate_number later (
          subst (λ x. IsGone c.certificate_number x) (sym row)
            (subst (λ x. IsGone x (revoke_row id now s.certificates)) number gone))).1,
      is_admin,
    )
