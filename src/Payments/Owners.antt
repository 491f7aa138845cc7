-- ===== src/Payments/Owners.antt =====
-- A payment belongs to the user of its order, whatever calls are made, and orders are their user's.
use lms_backend.Base.{
  ℕ, ◌≡◌, ◌⊎◌, refl, sym, ◌∙◌, String, Bool, true, ◌&&◌, not, Option, some, List, [], ◌∷◌, ◌++◌, ok,
  err, Error, not_found, forbidden, arith, inl, inr, find, find_passes, any, All, All-append,
  All-find, ◌==◌, ==_iff, Option-cases, Result-cases, Bool-cases,
}
use mathlib.Core.Path.{subst}
use lms_backend.Base.Changes.{any-append, any-find, All-imp}
use lms_backend.Core.Permissions.{Role, role_eq}
use lms_backend.Db.{User}
use lms_backend.Payments.Rows.{
  Order, Payment, OrderCreate, PaymentCreate, OrderUpdate, PaymentUpdate, Books,
}
use lms_backend.Payments.Service.{
  commit, get_order_by_id, get_payment_by_id, own_order, new_order, create_order, new_payment,
  create_payment, is_null, put_order, put_payment, updated_order, updated_payment, update_order,
  update_payment,
}

pub data Call : Type 0 where
  order : ℕ → ℕ → OrderCreate → Call
  pay : ℕ → PaymentCreate → Call
  edit_order : ℕ → OrderUpdate → Call
  edit_payment : ℕ → PaymentUpdate → Call

unfoldable pub perform : Call → User → Books → Books
perform (order id now p) user s = (create_order id now p user s).1
perform (pay id p) user s = (create_payment id p user s).1
perform (edit_order id u) user s = (update_order id u user s).1
perform (edit_payment id u) user s = (update_payment id u user s).1

-- A new session, and the answer to its commit.
abbrev pub opened : Books → Option Error → Books
opened s answer = record s {
  orders = s.committed_orders;
  payments = s.committed_payments;
  commit_error = answer;
}

unfoldable pub serve : List (Call × User × Option Error) → Books → Books
serve [] s = s
serve ((call, user, answer) ∷ calls) s = serve calls (perform call user (opened s answer))

abbrev pub is_order_of : Payment → Order → Bool
is_order_of p o = (o.id == p.order_id) && (o.user_id == p.user_id)

-- The payment's order is there, and its user is the payment's.
abbrev pub IsOwned : List Order → Payment → Type 0
IsOwned orders p = any (is_order_of p) orders ≡ true

abbrev pub HasOwners : Books → Type 0
HasOwners s =
    All (IsOwned s.orders) s.payments × All (IsOwned s.committed_orders) s.committed_payments

commit-HasOwners : (s : Books) → HasOwners s → HasOwners (commit s).1
unfolding commit
commit-HasOwners s h = elim (Option-cases s.commit_error) [
  | inl n ↦ rw n (h.0, h.0)
  | inr (e, c) ↦ rw c (h.1, h.1)
]

any-put_order :
    (test : Order → Bool) (row : Order) (orders : List Order) {old : Order}
    → find (λ o. o.id == row.id) orders ≡ some old
    → test row ≡ test old
    → any test (put_order row orders) ≡ any test orders
any-put_order test row [] f e = refl
any-put_order test row (o ∷ orders) {old} f e = elim (Bool-cases (o.id == row.id)) [
  | inl y ↦ let same : o ≡ old = ground arith in ground (arith, same)
  | inr n ↦ ground (arith, any-put_order test row orders {old = old} (ground arith) e)
]

All-put_payment :
    (P : Payment → Type 0) (row : Payment) (payments : List Payment)
    → All P payments
    → P row
    → All P (put_payment row payments)
All-put_payment P row [] h p = tt
All-put_payment P row (x ∷ payments) h p = elim (Bool-cases (x.id == row.id)) [
  | inl y ↦ rw y (p, h.1)
  | inr n ↦ rw n (h.0, All-put_payment P row payments h.1 p)
]

moved : (t s : Books) → t ≡ s → HasOwners s → HasOwners t
moved t s e h = subst HasOwners (sym e) h

order-HasOwners :
    (id now : ℕ) (p : OrderCreate) (user : User) (s : Books)
    → HasOwners s
    → HasOwners (create_order id now p user s).1
unfolding create_order
order-HasOwners id now p user s h =
    let t = (create_order id now p user s).1 in
    let w : Books = record s { orders = s.orders ++ new_order id now p ∷ [] } in
    let next = commit-HasOwners w (
      All-imp (IsOwned s.orders) (IsOwned w.orders)
          (λ x y. any-append (is_order_of x) s.orders (new_order id now p ∷ []) y) s.payments h.0,
      h.1,
    ) in
    elim (Bool-cases (not (p.user_id == user.id) && not (role_eq user.role Role.admin))) [
      | inl r ↦ moved t s (ground arith) h
      | inr r ↦ elim (Result-cases (commit w).0) [
        | inl (done, q) ↦ moved t (commit w).1 (ground arith) next
        | inr (e, q) ↦ moved t (commit w).1 (ground arith) next
      ]
    ]

pub own_order-cases :
    (id : ℕ) (missing detail : String) (user : User) (s : Books)
    → ((e : Error) × (own_order id missing detail user s ≡ (err e, s)))
      ⊎ ((o : Order) × (own_order id missing detail user s ≡ (ok o, s))
          × (get_order_by_id id s ≡ some o)
          × ((user.role ≡ Role.admin) ⊎ (o.user_id ≡ user.id)))
unfolding own_order
own_order-cases id missing detail user s = elim (Option-cases (get_order_by_id id s)) [
  | inl n ↦ inl (not_found missing, ground arith)
  | inr (o, f) ↦
      elim (Bool-cases (not (role_eq user.role Role.admin) && not (o.user_id == user.id))) [
        | inl r ↦ inl (forbidden detail, ground arith)
        | inr r ↦ inr (o, ground arith, f, ground (arith, ==_iff o.user_id user.id))
      ]
]

pay-HasOwners :
    (id : ℕ) (p : PaymentCreate) (user : User) (s : Books)
    → HasOwners s
    → HasOwners (create_payment id p user s).1
unfolding create_payment new_payment get_order_by_id
pay-HasOwners id p user s h =
    let t = (create_payment id p user s).1 in
    elim (own_order-cases p.order_id "Order not found"
      "Not authorized to create payment for this order" user s) [
        | inl (e, q) ↦ moved t s (ground arith) h
        | inr (o, q, f, m) ↦
            let w : Books = record s { payments = s.payments ++ new_payment id p o.user_id ∷ [] } in
            let next = commit-HasOwners w (
              All-append (IsOwned s.orders) s.payments h.0 (
                  any-find _ (is_order_of (new_payment id p o.user_id)) s.orders f (
                    ground (
                      arith,
                      find_passes (λ (x : Order). x.id == p.order_id) s.orders f,
                      ==_iff o.user_id o.user_id,
                    ))),
              h.1,
            ) in
            elim (Result-cases (commit w).0) [
              | inl (done, r) ↦ moved t (commit w).1 (ground arith) next
              | inr (e, r) ↦ moved t (commit w).1 (ground arith) next
            ]
      ]

edit_order-HasOwners :
    (id : ℕ) (u : OrderUpdate) (user : User) (s : Books)
    → HasOwners s
    → HasOwners (update_order id u user s).1
unfolding update_order updated_order get_order_by_id
edit_order-HasOwners id u user s h =
    let t = (update_order id u user s).1 in
    elim (own_order-cases id "Order not found" "Not authorized to update this order" user s) [
      | inl (e, q) ↦ moved t s (ground arith) h
      | inr (o, q, f, m) ↦
          let row = updated_order u o in
          let w : Books = record s { orders = put_order row s.orders } in
          let here : id ≡ o.id =
            ground (arith, find_passes (λ (x : Order). x.id == id) s.orders f, ==_iff o.id id) in
          let kept : HasOwners w = (
            All-imp (IsOwned s.orders) (IsOwned w.orders)
                (λ x y. any-put_order (is_order_of x) row s.orders (rw here at f) refl ∙ y)
                s.payments h.0,
            h.1,
          ) in
          let next = commit-HasOwners w kept in
          elim (Bool-cases (is_null row.status)) [
            | inl n ↦ moved t w (ground arith) kept
            | inr n ↦ elim (Result-cases (commit w).0) [
              | inl (done, r) ↦ moved t (commit w).1 (ground arith) next
              | inr (e, r) ↦ moved t (commit w).1 (ground arith) next
            ]
          ]
    ]

found-IsOwned :
    (id : ℕ) (s : Books) (p : Payment)
    → All (IsOwned s.orders) s.payments
    → get_payment_by_id id s ≡ some p
    → IsOwned s.orders p
unfolding get_payment_by_id
found-IsOwned id s p h g = All-find (IsOwned s.orders) (λ x. x.id == id) s.payments h g

edit_payment-HasOwners :
    (id : ℕ) (u : PaymentUpdate) (user : User) (s : Books)
    → HasOwners s
    → HasOwners (update_payment id u user s).1
unfolding update_payment updated_payment
edit_payment-HasOwners id u user s h =
    let t = (update_payment id u user s).1 in
    elim (Option-cases (get_payment_by_id id s)) [
      | inl n ↦ moved t s (ground arith) h
      | inr (p, g) ↦
          elim (own_order-cases p.order_id "Associated order not found"
            "Not authorized to update this payment" user s) [
              | inl (e, q) ↦ moved t s (ground arith) h
              | inr (o, q, f, m) ↦
                  let row = updated_payment u p in
                  let w : Books = record s { payments = put_payment row s.payments } in
                  let kept : HasOwners w = (
                    All-put_payment (IsOwned s.orders) row s.payments h.0
                        (found-IsOwned id s p h.0 g),
                    h.1,
                  ) in
                  let next = commit-HasOwners w kept in
                  elim (Bool-cases (is_null row.status)) [
                    | inl n ↦ moved t w (ground arith) kept
                    | inr n ↦ elim (Result-cases (commit w).0) [
                      | inl (done, r) ↦ moved t (commit w).1 (ground arith) next
                      | inr (e, r) ↦ moved t (commit w).1 (ground arith) next
                    ]
                  ]
            ]
    ]

perform-HasOwners :
    (call : Call) (user : User) (s : Books) → HasOwners s → HasOwners (perform call user s)
unfolding perform
perform-HasOwners (Call.order id now p) user s h = order-HasOwners id now p user s h
perform-HasOwners (Call.pay id p) user s h = pay-HasOwners id p user s h
perform-HasOwners (Call.edit_order id u) user s h = edit_order-HasOwners id u user s h
perform-HasOwners (Call.edit_payment id u) user s h = edit_payment-HasOwners id u user s h

-- If every payment has an order of its own user, this holds after any calls, by whomever and whatever the database
-- answers to their commits.
pub serve-HasOwners :
    (calls : List (Call × User × Option Error)) (s : Books)
    → HasOwners s
    → HasOwners (serve calls s)
unfolding serve
serve-HasOwners [] s h = h
serve-HasOwners ((call, user, answer) ∷ calls) s h =
    serve-HasOwners calls _ (perform-HasOwners call user (opened s answer) (h.1, h.1))
