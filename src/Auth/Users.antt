-- ===== src/Auth/Users.antt =====
-- `UserService` of app/modules/users/services/user_service.py, and its repository.
pub mod Emails
mod Tests
use lms_backend.Base.{
  ℕ, Text, text_eq, Bool, true, false, Option, none, some, List, [], ◌∷◌, ◌++◌, Result, ok, err,
  Error, value_error, not_found, integrity_error, Action, ◌>>=◌, ◌>>◌, pure, gets, modify, require,
  raise_if, find, any, if◌then◌else◌, ◌==◌,
}
use lms_backend.Base.Patch.{Update, unset, given, set_to}
use lms_backend.Base.Strip.{lower}
use lms_backend.Core.Permissions.{Role, value}
use lms_backend.Auth.Tokens.{Outside}
use lms_backend.Auth.Sessions.{Account, Store, rollback}
use lms_backend.Auth.Login.{get_by_email, commit_plain, authenticate, touch_last_login}

pub record UserCreate : Type 0 where
  pub email : Text
  pub full_name : Text
  pub role : Role
  pub password : Text

pub record UserUpdate : Type 0 where
  pub full_name : Update Text
  pub role : Update Role
  pub password : Update Text
  pub is_active : Update Bool

-- The row that `UserRepository.create` adds.
unfoldable pub new_account : Outside → ℕ → ℕ → UserCreate → Account
new_account o id now p = record {
  id = id;
  role = value p.role;
  is_active = true;
  password_hash = o.hash_password p.password;
  email = lower p.email;
  full_name = p.full_name;
  mfa_enabled = false;
  email_verified_at = if o.require_email_verification then none else some now;
  last_login_at = none;
}

unfoldable pub has_email : Text → Account → Bool
has_email email a = text_eq a.email email

-- Accounts that other transactions commit between the lookup and the insertion.
unfoldable pub arrive : List Account → Action Store (Unit {0})
arrive arrived = modify (λ s. record s {
  accounts = s.accounts ++ arrived;
  committed_accounts = s.committed_accounts ++ arrived;
})

-- `create` of the repository: the flush meets the unique constraint on `email`.
unfoldable pub insert_account : Account → Action Store Account
insert_account row = do
  accounts ← gets (λ s. s.accounts)
  raise_if (any (has_email row.email) accounts) integrity_error
  modify (λ s. record s { accounts = s.accounts ++ row ∷ [] })
  pure row

-- `except IntegrityError`, where `is_duplicate` is what `_is_duplicate_email_error` says of it.
unfoldable pub already_registered : Bool → Error → Store → Result Account × Store
already_registered true integrity_error s =
    (err (value_error "Email is already registered"), rollback s)
already_registered false integrity_error s = (err integrity_error, rollback s)
already_registered is_duplicate other s = (err other, s)

unfoldable pub or_registered : Bool → Action Store Account → Action Store Account
or_registered is_duplicate call s =
    let (r, s') = call s in
    elim r [ ok row ↦ (ok row, s') | err e ↦ already_registered is_duplicate e s' ]

-- The commit of `create_user`.
unfoldable pub commit_user : Bool → Account → Action Store Account
commit_user is_duplicate row = or_registered is_duplicate (commit_plain >> pure row)

abbrev pub is_found : Option Account → Bool
is_found none = false
is_found (some a) = true

-- `create_user`; the error of the flush is one of a duplicate address.
unfoldable pub create_user :
    Outside → ℕ → ℕ → List Account → Bool → UserCreate → Bool → Action Store Account
create_user o id now arrived is_duplicate p do_commit = do
  accounts ← gets (λ s. s.accounts)
  raise_if (is_found (get_by_email p.email accounts)) (value_error "Email is already registered")
  arrive arrived
  row ← or_registered true (insert_account (new_account o id now p))
  if do_commit then commit_user is_duplicate row else pure row

-- `authenticate` with `update_last_login=True`
unfoldable pub authenticate_and_touch : Outside → ℕ → Text → Text → Action Store Account
authenticate_and_touch o now email password = do
  user ← authenticate o email password
  row ← touch_last_login user now
  commit_plain
  pure row

-- `if password: updates["password_hash"] = hash_password(password)`
abbrev pub new_hash : Outside → Update Text → Text → Text
new_hash o unset old = old
new_hash o (given none) old = old
new_hash o (given (some [])) old = old
new_hash o (given (some (c ∷ password))) old = o.hash_password (c ∷ password)

abbrev pub new_role : Update Role → Text → Text
new_role unset old = old
new_role (given none) old = old
new_role (given (some role)) old = value role

unfoldable pub updated_account : Outside → UserUpdate → Account → Account
updated_account o u a = record a {
  full_name = set_to u.full_name a.full_name;
  role = new_role u.role a.role;
  password_hash = new_hash o u.password a.password_hash;
  is_active = set_to u.is_active a.is_active;
}

abbrev pub put_account : Account → List Account → List Account
put_account row [] = []
put_account row (a ∷ accounts) =
    let rest = put_account row accounts in if a.id == row.id then row ∷ accounts else a ∷ rest

-- `update_user`
unfoldable pub update_user : Outside → ℕ → UserUpdate → Action Store Account
update_user o id u = do
  accounts ← gets (λ s. s.accounts)
  user ← require (find (λ a. a.id == id) accounts) (not_found "User not found")
  modify (λ s. record s { accounts = put_account (updated_account o u user) s.accounts })
  commit_plain
  pure (updated_account o u user)
