-- ===== src/Payments/Rows.antt =====
-- app/modules/payments/models/payment.py and schemas/payment.py, without the items of an order. A status is
-- optional here, since the session can hold a null that the flush refuses.
use lms_backend.Base.{ℕ, Text, Option, List, Error}
use lms_backend.Base.Dict.{Dict}
use lms_backend.Base.Float.{Float}
use lms_backend.Base.Patch.{Update}

pub record Order : Type 0 where
  pub id : ℕ
  pub user_id : ℕ
  pub total_amount : Float
  pub currency : Text
  pub status : Option Text
  pub order_metadata : Option (Dict Text Text)
  pub created_at : ℕ

pub record Payment : Type 0 where
  pub id : ℕ
  pub order_id : ℕ
  pub user_id : ℕ
  pub amount : Float
  pub currency : Text
  pub payment_method : Text
  pub status : Option Text
  pub transaction_id : Option Text
  pub payment_metadata : Option (Dict Text Text)

pub record OrderCreate : Type 0 where
  pub user_id : ℕ
  pub total_amount : Float
  pub currency : Text
  pub status : Text

pub record PaymentCreate : Type 0 where
  pub order_id : ℕ
  pub amount : Float
  pub currency : Text
  pub payment_method : Text
  pub status : Text

pub record OrderUpdate : Type 0 where
  pub status : Update Text
  pub metadata : Update (Dict Text Text)

pub record PaymentUpdate : Type 0 where
  pub status : Update Text
  pub transaction_id : Update Text
  pub metadata : Update (Dict Text Text)

-- The rows as the session sees them and as they are committed, and the answer to the next commit.
pub record Books : Type 0 where
  pub orders : List Order
  pub payments : List Payment
  pub committed_orders : List Order
  pub committed_payments : List Payment
  pub commit_error : Option Error
