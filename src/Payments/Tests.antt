-- ===== src/Payments/Tests.antt =====
-- An order and its payment, and the theorem on payments at this data.
use lms_backend.Base.{codes, Option, none, some, List, [], ◌∷◌, Error}
use lms_backend.Base.Float.{plus}
use lms_backend.Base.Patch.{unset, given}
use lms_backend.Core.Permissions.{Role}
use lms_backend.Db.{User}
use lms_backend.Payments.Rows.{OrderCreate, PaymentCreate, PaymentUpdate, Books}
use lms_backend.Payments.Owners.{Call, serve, HasOwners, serve-HasOwners}

abbrev student : User
student = record { id = 7; role = Role.student }

abbrev other_student : User
other_student = record { id = 8; role = Role.student }

abbrev nothing_yet : Books
nothing_yet = record {
  orders = [];
  payments = [];
  committed_orders = [];
  committed_payments = [];
  commit_error = none;
}

abbrev an_order : OrderCreate
an_order = record {
  user_id = 7;
  total_amount = plus 50;
  currency = codes "EUR";
  status = codes "pending";
}

abbrev a_payment : PaymentCreate
a_payment = record {
  order_id = 1;
  amount = plus 50;
  currency = codes "EUR";
  payment_method = codes "card";
  status = codes "pending";
}

abbrev paid : PaymentUpdate
paid = record { status = given (some (codes "paid")); transaction_id = unset; metadata = unset }

-- The order and its payment, another student's attempt at a payment, and an update.
abbrev calls : List (Call × User × Option Error)
calls =
    (Call.order 1 10 an_order, student, none)
    ∷ (Call.pay 2 a_payment, student, none)
    ∷ (Call.pay 3 a_payment, other_student, none)
    ∷ (Call.edit_payment 2 paid, student, none)
    ∷ []

serve-HasOwners_example : HasOwners (serve calls nothing_yet)
serve-HasOwners_example = serve-HasOwners calls nothing_yet (tt, tt)
