-- ===== src/Auth/Users/Emails.antt =====
-- Addresses of accounts are in lower letters and distinct.
use lms_backend.Base.{
  ℕ, ◌≡◌, refl, sym, Text, text_eq, text_eq_iff, Bool, true, false, some, List, [], ◌∷◌, ◌++◌, map,
  Action, pure, ◌>>◌, Error, integrity_error, arith, inl, inr, find, find_passes, any, All,
  All-append, All-find, ◌==◌, ==_iff, Option-cases, Result-cases, Bool-cases,
}
use mathlib.Core.Path.{subst}
use lms_backend.Base.Strip.{lower, lower_code}
use lms_backend.Base.Changes.{IsDistinct, append-IsDistinct, map-last}
use lms_backend.Auth.Tokens.{Outside}
use lms_backend.Auth.Sessions.{Account, Store, rollback}
use lms_backend.Auth.Login.{get_by_email, commit_plain}
use lms_backend.Auth.Users.{
  UserCreate, UserUpdate, new_account, has_email, arrive, insert_account, already_registered,
  or_registered, is_found, commit_user, create_user, updated_account, put_account, update_user,
}

lower-lower : (s : Text) → lower (lower s) ≡ lower s
unfolding lower lower_code
lower-lower [] = refl
lower-lower (c ∷ s) = ground (arith, lower-lower s)

abbrev pub emails : List Account → List Text
emails accounts = map (λ (a : Account). a.email) accounts

abbrev pub IsLower : Account → Type 0
IsLower a = lower a.email ≡ a.email

-- The addresses are distinct and in lower letters.
abbrev pub AreGood : List Account → Type 0
AreGood accounts = IsDistinct (emails accounts) × All IsLower accounts

abbrev pub HasEmails : Store → Type 0
HasEmails s = AreGood s.accounts × AreGood s.committed_accounts

any-emails :
    (email : Text) (accounts : List Account)
    → any (has_email email) accounts ≡ false
    → any (text_eq email) (emails accounts) ≡ false
unfolding has_email
any-emails email [] h = refl
any-emails email (a ∷ accounts) h =
    ground (arith, any-emails email accounts, text_eq_iff a.email email, text_eq_iff email a.email)

append-AreGood :
    (row : Account) (accounts : List Account)
    → AreGood accounts
    → IsLower row
    → any (has_email row.email) accounts ≡ false
    → AreGood (accounts ++ row ∷ [])
append-AreGood row accounts h low n = (
  subst IsDistinct (sym (map-last (λ (a : Account). a.email) accounts row))
      (append-IsDistinct (emails accounts) row.email h.0 (any-emails row.email accounts n)),
  All-append IsLower accounts h.1 low,
)

put-emails :
    (row : Account) (accounts : List Account) {old : Account}
    → find (λ a. a.id == row.id) accounts ≡ some old
    → row.email ≡ old.email
    → emails (put_account row accounts) ≡ emails accounts
put-emails row [] f e = refl
put-emails row (a ∷ accounts) {old} f e = elim (Bool-cases (a.id == row.id)) [
  | inl y ↦ ground arith
  | inr n ↦ ground (arith, put-emails row accounts {old = old} (ground arith) e)
]

put-All :
    (row : Account) (accounts : List Account)
    → All IsLower accounts
    → IsLower row
    → All IsLower (put_account row accounts)
put-All row [] h p = tt
put-All row (a ∷ accounts) h p = elim (Bool-cases (a.id == row.id)) [
  | inl y ↦ rw y (p, h.1)
  | inr n ↦ rw n (h.0, put-All row accounts h.1 p)
]

moved : (t s : Store) → t ≡ s → HasEmails s → HasEmails t
moved t s e h = subst HasEmails (sym e) h

commit-HasEmails : (s : Store) → HasEmails s → HasEmails (commit_plain s).1
unfolding commit_plain
commit-HasEmails s h = elim (Option-cases s.commit_error) [
  | inl n ↦ rw n (h.0, h.0)
  | inr (e, c) ↦ rw c h
]

-- A handler of integrity errors keeps the addresses.
registered-HasEmails :
    (is_duplicate : Bool) (x : Error) (s : Store)
    → HasEmails s
    → HasEmails (already_registered is_duplicate x s).1
unfolding already_registered rollback
registered-HasEmails true integrity_error s h = (h.1, h.1)
registered-HasEmails false integrity_error s h = (h.1, h.1)
registered-HasEmails is_duplicate x s h = h

or_registered-HasEmails :
    (is_duplicate : Bool) (call : Action Store Account) (s : Store)
    → HasEmails (call s).1
    → HasEmails (or_registered is_duplicate call s).1
unfolding or_registered
or_registered-HasEmails is_duplicate call s h = elim (Result-cases (call s).0) [
  | inl (row, q) ↦ moved (or_registered is_duplicate call s).1 (call s).1 (ground arith) h
  | inr (x, q) ↦
      moved (or_registered is_duplicate call s).1 (already_registered is_duplicate x (call s).1).1
        (ground arith) (registered-HasEmails is_duplicate x (call s).1 h)
]

insert-HasEmails :
    (row : Account) (s : Store) → IsLower row → HasEmails s → HasEmails (insert_account row s).1
unfolding insert_account
insert-HasEmails row s low h = elim (Bool-cases (any (has_email row.email) s.accounts)) [
  | inl y ↦ moved (insert_account row s).1 s (ground arith) h
  | inr n ↦
      moved (insert_account row s).1 (record s { accounts = s.accounts ++ row ∷ [] }) (ground arith)
        (append-AreGood row s.accounts h.0 low n, h.1)
]

new-IsLower : (o : Outside) (id now : ℕ) (p : UserCreate) → IsLower (new_account o id now p)
unfolding new_account
new-IsLower o id now p = lower-lower p.email

commit_user-HasEmails :
    (is_duplicate : Bool) (row : Account) (s : Store)
    → HasEmails s
    → HasEmails (commit_user is_duplicate row s).1
unfolding commit_user
commit_user-HasEmails is_duplicate row s h =
    let call : Action Store Account = commit_plain >> pure row in
    or_registered-HasEmails is_duplicate call s (elim (Result-cases (commit_plain s).0) [
      | inl (done, q) ↦ moved (call s).1 (commit_plain s).1 (ground arith) (commit-HasEmails s h)
      | inr (x, q) ↦ moved (call s).1 (commit_plain s).1 (ground arith) (commit-HasEmails s h)
    ])

create-HasEmails :
    (o : Outside) (id now : ℕ) (arrived : List Account) (is_duplicate : Bool) (p : UserCreate)
    (do_commit : Bool) (s : Store)
    → HasEmails (arrive arrived s).1
    → HasEmails s
    → HasEmails (create_user o id now arrived is_duplicate p do_commit s).1
unfolding create_user arrive
create-HasEmails o id now arrived is_duplicate p do_commit s later h =
    let t = (create_user o id now arrived is_duplicate p do_commit s).1 in
    let row = new_account o id now p in
    let w = (arrive arrived s).1 in
    let first = or_registered true (insert_account row) w in
    let good =
      or_registered-HasEmails true (insert_account row) w
        (insert-HasEmails row w (new-IsLower o id now p) later) in
    elim (Bool-cases (is_found (get_by_email p.email s.accounts))) [
      | inl y ↦ moved t s (ground arith) h
      | inr n ↦ elim (Result-cases first.0) [
        | inr (x, q) ↦ moved t first.1 (ground arith) good
        | inl (r, q) ↦ elim (Bool-cases do_commit) [
          | inr off ↦ moved t first.1 (ground arith) good
          | inl on ↦
              moved t (commit_user is_duplicate r first.1).1 (ground arith)
                (commit_user-HasEmails is_duplicate r first.1 good)
        ]
      ]
    ]

update-HasEmails :
    (o : Outside) (id : ℕ) (u : UserUpdate) (s : Store)
    → HasEmails s
    → HasEmails (update_user o id u s).1
unfolding update_user updated_account
update-HasEmails o id u s h =
    let t = (update_user o id u s).1 in
    elim (Option-cases (find (λ a. a.id == id) s.accounts)) [
      | inl n ↦ moved t s (ground arith) h
      | inr (user, f) ↦
          let row = updated_account o u user in
          let w : Store = record s { accounts = put_account row s.accounts } in
          let here : id ≡ user.id =
            ground
              (arith, find_passes (λ (a : Account). a.id == id) s.accounts f, ==_iff user.id id) in
          let same = put-emails row s.accounts (rw here at f) refl in
          let low = All-find IsLower (λ a. a.id == id) s.accounts h.0.1 f in
          moved t (commit_plain w).1 (ground arith) (
            commit-HasEmails w
              ((subst IsDistinct (sym same) h.0.0, put-All row s.accounts h.0.1 low), h.1))
    ]

-- The calls that write accounts. What other transactions commit meanwhile keeps the constraint on the address.
pub data Step (o : Outside) : Store → Store → Type 0 where
  created :
      (s : Store) (id now : ℕ) (arrived : List Account) (is_duplicate : Bool) (p : UserCreate)
      (do_commit : Bool)
      → HasEmails (arrive arrived s).1
      → Step o s (create_user o id now arrived is_duplicate p do_commit s).1
  updated : (s : Store) (id : ℕ) (u : UserUpdate) → Step o s (update_user o id u s).1

-- If the addresses of the accounts are distinct and in lower letters, as the session sees them and as they are
-- committed, then they are so after a call that creates or changes an account.
pub step-HasEmails : (o : Outside) (s t : Store) → Step o s t → HasEmails s → HasEmails t
step-HasEmails o s t (Step.created r id now arrived is_duplicate p do_commit later) h =
    create-HasEmails o id now arrived is_duplicate p do_commit r later h
step-HasEmails o s t (Step.updated r id u) h = update-HasEmails o id u r h
