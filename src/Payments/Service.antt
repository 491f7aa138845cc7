-- ===== src/Payments/Service.antt =====
-- `PaymentService` of app/modules/payments/services/payment_service.py, and its repository.
use lms_backend.Base.{
  ℕ, ◌-◌, ◌*◌, Text, Bool, true, false, ◌&&◌, not, Option, none, some, List, [], ◌∷◌, ◌++◌, ok, err,
  String, not_found, forbidden, integrity_error, Action, ◌>>=◌, ◌>>◌, pure, gets, modify, require,
  raise_if, ◌==◌, leb, find, keep, drop, length, if◌then◌else◌,
}
use lms_backend.Base.Patch.{get_or}
use lms_backend.Core.Permissions.{Role, role_eq}
use lms_backend.Utils.Pagination.{take}
use lms_backend.Db.{User}
use lms_backend.Payments.Rows.{
  Order, Payment, OrderCreate, PaymentCreate, OrderUpdate, PaymentUpdate, Books,
}

-- `_commit`
unfoldable pub commit : Action Books (Unit {0})
commit s = elim s.commit_error [
  | none ↦ (ok tt, record s { committed_orders = s.orders; committed_payments = s.payments })
  | some e ↦ (err e, record s { orders = s.committed_orders; payments = s.committed_payments })
]

-- `get_order_by_id`, `get_payment_by_id`
unfoldable pub get_order_by_id : ℕ → Books → Option Order
get_order_by_id id s = find (λ o. o.id == id) s.orders

unfoldable pub get_payment_by_id : ℕ → Books → Option Payment
get_payment_by_id id s = find (λ p. p.id == id) s.payments

-- `current_user.role != ADMIN and order.user_id != current_user.id`, refused.
unfoldable pub own_order : ℕ → String → String → User → Action Books Order
own_order id missing detail user = do
  s ← gets (λ s. s)
  order ← require (get_order_by_id id s) (not_found missing)
  raise_if (not (role_eq user.role Role.admin) && not (order.user_id == user.id)) (forbidden detail)
  pure order

-- `get_order`
unfoldable pub get_order : ℕ → User → Action Books Order
get_order id user = own_order id "Order not found" "Not authorized to access this order" user

-- `order_by(created_at.desc())`, which is stable here.
unfoldable pub place : Order → List Order → List Order
place o [] = o ∷ []
place o (x ∷ orders) =
    let rest = place o orders in if leb x.created_at o.created_at then o ∷ x ∷ orders else x ∷ rest

unfoldable pub newest_first : List Order → List Order
newest_first [] = []
newest_first (o ∷ orders) = place o (newest_first orders)

-- `get_orders_by_user`
unfoldable pub get_orders_by_user : ℕ → ℕ → ℕ → Books → List Order × ℕ
get_orders_by_user user_id page page_size s =
    let rows = keep (λ o. o.user_id == user_id) s.orders in
    (take page_size (drop ((page - 1) * page_size) (newest_first rows)), length rows)

unfoldable pub new_order : ℕ → ℕ → OrderCreate → Order
new_order id now p = record {
  id = id;
  user_id = p.user_id;
  total_amount = p.total_amount;
  currency = p.currency;
  status = some p.status;
  order_metadata = none;
  created_at = now;
}

-- `create_order`; every role passes its first check, since a row of `users` holds one of the three.
unfoldable pub create_order : ℕ → ℕ → OrderCreate → User → Action Books Order
create_order id now p user = do
  raise_if (not (p.user_id == user.id) && not (role_eq user.role Role.admin))
      (forbidden "Cannot create order for another user")
  modify (λ s. record s { orders = s.orders ++ new_order id now p ∷ [] })
  commit
  pure (new_order id now p)

unfoldable pub new_payment : ℕ → PaymentCreate → ℕ → Payment
new_payment id p user_id = record {
  id = id;
  order_id = p.order_id;
  user_id = user_id;
  amount = p.amount;
  currency = p.currency;
  payment_method = p.payment_method;
  status = some p.status;
  transaction_id = none;
  payment_metadata = none;
}

-- `create_payment`
unfoldable pub create_payment : ℕ → PaymentCreate → User → Action Books Payment
create_payment id p user = do
  order ←
      own_order p.order_id "Order not found" "Not authorized to create payment for this order" user
  modify (λ s. record s { payments = s.payments ++ new_payment id p order.user_id ∷ [] })
  commit
  pure (new_payment id p order.user_id)

abbrev pub is_null : Option Text → Bool
is_null none = true
is_null (some t) = false

abbrev pub put_order : Order → List Order → List Order
put_order row [] = []
put_order row (o ∷ orders) =
    let rest = put_order row orders in if o.id == row.id then row ∷ orders else o ∷ rest

abbrev pub put_payment : Payment → List Payment → List Payment
put_payment row [] = []
put_payment row (p ∷ payments) =
    let rest = put_payment row payments in if p.id == row.id then row ∷ payments else p ∷ rest

unfoldable pub updated_order : OrderUpdate → Order → Order
updated_order u o = record o {
  status = get_or u.status o.status;
  order_metadata = get_or u.metadata o.order_metadata;
}

unfoldable pub updated_payment : PaymentUpdate → Payment → Payment
updated_payment u p = record p {
  status = get_or u.status p.status;
  transaction_id = get_or u.transaction_id p.transaction_id;
  payment_metadata = get_or u.metadata p.payment_metadata;
}

-- `update_order`; the flush meets a status that is null.
unfoldable pub update_order : ℕ → OrderUpdate → User → Action Books Order
update_order id u user = do
  order ← own_order id "Order not found" "Not authorized to update this order" user
  modify (λ s. record s { orders = put_order (updated_order u order) s.orders })
  raise_if (is_null (updated_order u order).status) integrity_error
  commit
  pure (updated_order u order)

-- `update_payment`
unfoldable pub update_payment : ℕ → PaymentUpdate → User → Action Books Payment
update_payment id u user = do
  s ← gets (λ s. s)
  payment ← require (get_payment_by_id id s) (not_found "Payment not found")
  order ←
      own_order payment.order_id "Associated order not found"
        "Not authorized to update this payment" user
  modify (λ s. record s { payments = put_payment (updated_payment u payment) s.payments })
  raise_if (is_null (updated_payment u payment).status) integrity_error
  commit
  pure (updated_payment u payment)
