-- ===== src/Documents/Payments.antt =====
-- src/modules/payment/payment.model.ts
use bus_booking_backend.Prelude.{ℕ, String, Option, List, Bool, true, false}
use bus_booking_backend.Store.{ObjectId}

pub data PaymentStatus : Type 0 where
  initiated processing success failed refunded partially_refunded : PaymentStatus

pub data PaymentMethod : Type 0 where
  upi card netbanking wallet cash other : PaymentMethod

pub data PaymentProvider : Type 0 where
  razorpay stripe payu manual other : PaymentProvider

pub record RefundEntry : Type 0 where
  pub amount : ℕ
  pub reason : String
  pub refunded_at : ℕ
  pub refund_ref : Option String

-- `metadata`, which no service reads, is left out.
pub record Payment : Type 0 where
  pub user_id : ObjectId
  pub booking_id : ObjectId
  pub tenant_id : Option ObjectId
  pub amount : ℕ
  pub currency : String
  pub method : PaymentMethod
  pub provider : PaymentProvider
  pub provider_reference : Option String
  pub gateway_order_id : Option String
  pub status : PaymentStatus
  pub refunds : List RefundEntry
  pub total_refunded : ℕ
  pub failure_reason : Option String
  pub paid_at : Option ℕ

-- `=== 'success'`
abbrev pub is_success : PaymentStatus → Bool
is_success success = true
is_success _ = false

-- `{ $in: ['initiated', 'processing', 'success'] }`
abbrev pub is_live_payment : PaymentStatus → Bool
is_live_payment initiated = true
is_live_payment processing = true
is_live_payment success = true
is_live_payment _ = false
