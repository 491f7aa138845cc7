-- ===== src/Core/Permissions.antt =====
-- app/core/permissions.py: the roles, the permissions, and which role has which.
use lms_backend.Base.{
  ◌≡◌, refl, Text, codes, text_eq, Bool, true, false, Option, none, some, List, [], ◌∷◌, any,
  if◌then◌else◌,
}

-- A row of `users` holds one of these, by its check constraint.
pub data Role : Type 0 where
  admin instructor student : Role

pub data Permission : Type 0 where
  create_course update_course delete_course view_analytics manage_enrollments : Permission
  manage_users manage_quizzes : Permission

abbrev pub role_eq : Role → Role → Bool
role_eq Role.admin Role.admin = true
role_eq Role.instructor Role.instructor = true
role_eq Role.student Role.student = true
role_eq _ _ = false

-- The string behind each member of the enum.
unfoldable pub value : Role → Text
value Role.admin = codes "admin"
value Role.instructor = codes "instructor"
value Role.student = codes "student"

-- `Role(role)`, with `none` for the `ValueError`.
unfoldable pub role_of : Text → Option Role
unfolding value
role_of name =
    if text_eq name (value Role.admin)
    then some Role.admin
    else if text_eq name (value Role.instructor)
    then some Role.instructor
    else if text_eq name (value Role.student)
    then some Role.student
    else none

unfoldable pub permission_eq : Permission → Permission → Bool
permission_eq create_course create_course = true
permission_eq update_course update_course = true
permission_eq delete_course delete_course = true
permission_eq view_analytics view_analytics = true
permission_eq manage_enrollments manage_enrollments = true
permission_eq manage_users manage_users = true
permission_eq manage_quizzes manage_quizzes = true
permission_eq _ _ = false

unfoldable pub role_permissions : Role → List Permission
role_permissions Role.admin =
    create_course ∷ update_course ∷ delete_course ∷ view_analytics ∷ manage_enrollments
    ∷ manage_users ∷ manage_quizzes ∷ []
role_permissions Role.instructor =
    create_course ∷ update_course ∷ view_analytics ∷ manage_quizzes ∷ []
role_permissions Role.student = []

unfoldable pub has_permission : Text → Permission → Bool
unfolding role_of role_permissions permission_eq
has_permission role permission = elim (role_of role) [
  | none ↦ false
  | some r ↦ any (permission_eq permission) (role_permissions r)
]

role_of-value : (r : Role) → role_of (value r) ≡ some r
unfolding role_of value
role_of-value Role.admin = refl
role_of-value Role.instructor = refl
role_of-value Role.student = refl

granted :
    (r : Role) (p : Permission)
    → has_permission (value r) p ≡ any (permission_eq p) (role_permissions r)
unfolding has_permission
granted r p = rw (role_of-value r, has_permission) refl

everything : (p : Permission) → has_permission (value Role.admin) p ≡ true
unfolding role_permissions permission_eq
everything create_course = granted Role.admin create_course
everything update_course = granted Role.admin update_course
everything delete_course = granted Role.admin delete_course
everything view_analytics = granted Role.admin view_analytics
everything manage_enrollments = granted Role.admin manage_enrollments
everything manage_users = granted Role.admin manage_users
everything manage_quizzes = granted Role.admin manage_quizzes

nothing : (p : Permission) → has_permission (value Role.student) p ≡ false
unfolding role_permissions
nothing p = granted Role.student p

unknown_role : (role : Text) (p : Permission) → role_of role ≡ none → has_permission role p ≡ false
unfolding has_permission
unknown_role role p h = rw (h, has_permission) refl

-- An administrator has every permission, a student has none, and a role name that is none of the
-- three has none.
pub permissions_by_role :
    (role : Text) (p : Permission)
    → role_of role ≡ none
    → (has_permission (value Role.admin) p ≡ true)
      × (has_permission (value Role.student) p ≡ false)
      × (has_permission role p ≡ false)
permissions_by_role role p h = (everything p, nothing p, unknown_role role p h)
